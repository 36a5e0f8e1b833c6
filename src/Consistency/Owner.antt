-- ===== src/Consistency/Owner.antt =====
-- The totals when all files on the boards of one user are written.
use fast_api_community_backe.Common.{
  ℕ, ◌≡◌, ◌≢◌, refl, Bool, true, false, ◌&&◌, ◌==◌, is_none, List, [], ◌∷◌, arith, inl, inr, sym,
  ap, ◌∙◌, if◌then◌else◌, Bool-cases, update_where, delete_where, any_row, sum_where, All,
}
use fast_api_community_backe.Common.Table.Laws.{
  All-weaken, All-update, All-both, All-intro, sum_where-update, sum_where-delete, sum_where-zero,
}
use fast_api_community_backe.Db.{DeletedBy, Board, File}
use fast_api_community_backe.Models.Boards.{
  of_user, live_of_user, live_file_of, size_of, set_total, recalculated,
}
use fast_api_community_backe.Models.Files.{
  on_board_of, live_on_board_of, user_cascaded, mark_file, unmark_file,
}
use fast_api_community_backe.Consistency.{TotalAgrees, BoardKeys}

-- Is j the index of a board of the user?
abbrev pub owns : List Board → ℕ → ℕ → Bool
owns boards u j = any_row (λ (b : Board). of_user u b && b.index == j) boards

abbrev OwnsOwn : List Board → ℕ → Board → Type 0
OwnsOwn boards u b = b.user_index ≡ u → owns boards u b.index ≡ true

abbrev OwnsNoOther : List Board → ℕ → Board → Type 0
OwnsNoOther boards u b = b.user_index ≢ u → owns boards u b.index ≡ false

owns-cons :
    (c : Board) (boards : List Board) (u : ℕ) (b : Board)
    → OwnsOwn boards u b
    → OwnsOwn (c ∷ boards) u b
unfolding any_row
owns-cons c boards u b h mine = rw (h mine) (ground arith)

owns_own : (boards : List Board) (u : ℕ) → All (OwnsOwn boards u) boards
unfolding any_row
owns_own [] u = tt
owns_own (b ∷ bs) u = (
  λ mine. ground (arith, mine),
  All-weaken (OwnsOwn bs u) (OwnsOwn (b ∷ bs) u) bs (owns-cons b bs u) (owns_own bs u),
)

not-owns :
    (boards : List Board) (u j : ℕ)
    → All (λ (c : Board). c.index ≢ j) boards
    → owns boards u j ≡ false
unfolding any_row
not-owns [] u j h = refl
not-owns (c ∷ bs) u j h = ground (arith, h.0, not-owns bs u j h.1)

not-owns-cons :
    (c : Board) (boards : List Board) (u : ℕ) (b : Board)
    → (b.index ≢ c.index) × OwnsNoOther boards u b
    → OwnsNoOther (c ∷ boards) u b
unfolding any_row
not-owns-cons c boards u b h other = ground (arith, h.0, h.1 other)

owns_no_other : (boards : List Board) (u : ℕ) → BoardKeys boards → All (OwnsNoOther boards u) boards
unfolding any_row
owns_no_other [] u h = tt
owns_no_other (b ∷ bs) u h = (
  λ other. ground (arith, other, not-owns bs u b.index h.0),
  All-weaken (λ c. (c.index ≢ b.index) × OwnsNoOther bs u c) (OwnsNoOther (b ∷ bs) u) bs
      (not-owns-cons b bs u)
      (All-both (λ c. c.index ≢ b.index) (OwnsNoOther bs u) bs h.0 (owns_no_other bs u h.1)),
)

and_left : (a b : Bool) → (a && b) ≡ true → a ≡ true
and_left a b e = ground (arith, e)

module _ (boards : List Board) (files : List File) (u : ℕ) (keys : BoardKeys boards) where
  -- The files of other users' boards keep their sum, and the user's boards are set right.
  owner-totals :
      (files' : List File) (q : Board → Bool) (f : Board → Board)
      → ((j : ℕ)
          → owns boards u j ≡ false
          → sum_where (live_file_of j) size_of files' ≡ sum_where (live_file_of j) size_of files)
      → ((b : Board)
          → b.user_index ≡ u
          → owns boards u b.index ≡ true
          → TotalAgrees files' (if q b then f b else b))
      → ((b : Board) → b.user_index ≢ u → q b ≡ false)
      → All (TotalAgrees files) boards
      → All (TotalAgrees files') (update_where q f boards)
  owner-totals files' q f same mine skip h =
      All-update (λ b. TotalAgrees files b × (OwnsOwn boards u b × OwnsNoOther boards u b))
        (TotalAgrees files') q f boards
        (λ b k. elim (Bool-cases (b.user_index == u)) [
          | inl e ↦ let at : b.user_index ≡ u = ground (arith, e) in mine b at (k.1.0 at)
          | inr e ↦
              let ne : b.user_index ≢ u = ground (arith, e) in
              rw (skip b ne) (λ live. k.0 live ∙ sym (same b.index (k.1.1 ne)))
        ])
        (All-both (TotalAgrees files) (λ b. OwnsOwn boards u b × OwnsNoOther boards u b) boards h
          (All-both (OwnsOwn boards u) (OwnsNoOther boards u) boards (owns_own boards u)
            (owns_no_other boards u keys)))

  -- a file on a board of the user is not on a board that is not the user's
  apart :
      (j : ℕ) (f : File)
      → owns boards u j ≡ false
      → on_board_of boards u f ≡ true
      → (f.board_index == j) ≡ false
  apart j f other mine = elim (Bool-cases (f.board_index == j)) [
    | inl t ↦ let at : f.board_index ≡ j = ground (arith, t) in cc (ap (λ i. owns boards u i) at)
    | inr t ↦ t
  ]

  -- A board of the user that is not deleted has the total 0, once it has no live file.
  emptied :
      (files' : List File) (now : ℕ) (b : Board)
      → b.user_index ≡ u
      → sum_where (live_file_of b.index) size_of files' ≡ 0
      → TotalAgrees files' (if live_of_user u b then set_total 0 now b else b)
  emptied files' now b at zero = elim (Bool-cases (live_of_user u b)) [
    | inl e ↦ rw e (λ live. sym zero)
    | inr e ↦ rw e (λ live. ground (arith, e, at, live))
  ]

  marked_not_live :
      (by : DeletedBy) (now j : ℕ) (f : File)
      → owns boards u j ≡ true
      → live_file_of j (if live_on_board_of boards u f then mark_file by now f else f) ≡ false
  marked_not_live by now j f own = elim (Bool-cases (f.board_index == j)) [
    | inl t ↦
        let at : f.board_index ≡ j = ground (arith, t) in
        let on : on_board_of boards u f ≡ true = ap (λ i. owns boards u i) at ∙ own in
        rw on (elim (Bool-cases (is_none f.deleted_at)) [
          | inl live ↦ rw live (ground arith)
          | inr dead ↦ rw (dead, t, dead)
        ])
    | inr t ↦ elim (Bool-cases (live_on_board_of boards u f)) [
      | inl e ↦ rw (e, t)
      | inr e ↦ rw (e, t)
    ]
  ]

  -- the withdrawal of a user
  pub withdrawn-totals :
      (by : DeletedBy) (now : ℕ)
      → All (TotalAgrees files) boards
      → All
          (TotalAgrees (update_where (live_on_board_of boards u) (mark_file by now) files))
          (update_where (live_of_user u) (set_total 0 now) boards)
  withdrawn-totals by now =
      let q = live_on_board_of boards u in
      owner-totals (update_where q (mark_file by now) files) (live_of_user u) (set_total 0 now)
        (λ j other.
          sum_where-update (live_file_of j) size_of q (mark_file by now) files
            (λ f e. rw (apart j f other (and_left _ _ e))))
        (λ b at own. emptied (update_where q (mark_file by now) files) now b at (
          sum_where-zero (live_file_of b.index) size_of (update_where q (mark_file by now) files) (
            All-update (λ f. Unit {0}) (λ f. live_file_of b.index f ≡ false) q (mark_file by now)
              files (λ f _. marked_not_live by now b.index f own)
              (All-intro (λ f. Unit {0}) files (λ f. tt)))))
        (λ b ne. ground (arith, ne))

  no_file_left :
      (fs : List File) (j : ℕ)
      → owns boards u j ≡ true
      → sum_where (live_file_of j) size_of (delete_where (on_board_of boards u) fs) ≡ 0
  unfolding delete_where sum_where
  no_file_left [] j own = refl
  no_file_left (f ∷ fs) j own = elim (Bool-cases (on_board_of boards u f)) [
    | inl e ↦ rw e (no_file_left fs j own)
    | inr e ↦ rw e (elim (Bool-cases (f.board_index == j)) [
      | inl t ↦ let at : f.board_index ≡ j = ground (arith, t) in cc (ap (λ i. owns boards u i) at)
      | inr t ↦ rw t (omega (arith, no_file_left fs j own))
    ])
  ]

  pub removed_user-totals :
      (now : ℕ)
      → All (TotalAgrees files) boards
      → All
          (TotalAgrees (delete_where (on_board_of boards u) files))
          (update_where (live_of_user u) (set_total 0 now) boards)
  removed_user-totals now =
      owner-totals (delete_where (on_board_of boards u) files) (live_of_user u) (set_total 0 now)
        (λ j other.
          sum_where-delete (live_file_of j) size_of (on_board_of boards u) files
            (λ f e. rw (apart j f other e)))
        (λ b at own.
          emptied (delete_where (on_board_of boards u) files) now b at
            (no_file_left files b.index own))
        (λ b ne. ground (arith, ne))

  is_own : (b : Board) → b.user_index ≡ u → of_user u b ≡ true
  is_own b at = ground (arith, at)

  pub reinstated-totals :
      (n now : ℕ)
      → All (TotalAgrees files) boards
      → let files' = update_where (user_cascaded boards u n now) unmark_file files in
        All (TotalAgrees files') (update_where (of_user u) (recalculated files') boards)
  reinstated-totals n now =
      let q = user_cascaded boards u n now in
      let files' = update_where q unmark_file files in
      owner-totals files' (of_user u) (recalculated files')
        (λ j other.
          sum_where-update (live_file_of j) size_of q unmark_file files
            (λ f e. rw (apart j f other (and_left _ _ e))))
        (λ b at own. rw (is_own b at) (λ live. refl)) (λ b ne. ground (arith, ne))
