-- ===== src/Services/Boards/RoundTrip.antt =====
-- A board that its owner deletes and restores comes back with its files.
use fast_api_community_backe.Common.{
  ap, sym, ◌∙◌, ℕ, ◌+◌, ◌≤◌, ◌≡◌, refl, String, true, false, Option, none, some, List, [], ◌∷◌,
  update_where, find_row, All, arith, is_none, ◌==◌, inl, inr, Bool-cases, if◌then◌else◌, leb,
}
use fast_api_community_backe.Db.{DeletedBy, is_by, days, File}
use fast_api_community_backe.Common.{not, sum_where, is_index}
use fast_api_community_backe.Common.Table.Laws.{find_row-All, find_row-narrower, All-intro}
use fast_api_community_backe.Common.Table.Finding.{find_row-update}
use fast_api_community_backe.Exec.Rules.{
  by_ok, by_fetch, by_pass, by_present, by_commit_three, by_commit_total_twice,
}
use fast_api_community_backe.Security.Rules.{require_password_passes}
use fast_api_community_backe.Db.{User, Board}
use fast_api_community_backe.Exec.{Result, ok, State}
use fast_api_community_backe.Security.{Bcrypt, CurrentUser}
use fast_api_community_backe.Models.Users.{live_user_at}
use fast_api_community_backe.Services.Boards.{
  period_over, boards_delete_services, restore_board_services,
}
use fast_api_community_backe.Models.Boards.{
  live_file_of, live_at, at_index, mark_deleted, clear_deleted, set_total, deleted_at_index,
  owner_of, size_of,
}
use fast_api_community_backe.Models.Files.{mark_file, unmark_file, board_cascaded}

-- A live file has no mark, and no file of the board has the mark BOARD_CASCADE.
abbrev pub IsUnmarked : ℕ → File → Type 0
IsUnmarked i f =
    (is_none f.deleted_at ≡ true → f.deleted_by ≡ none)
    × (f.board_index ≡ i → is_by DeletedBy.board_cascade f.deleted_by ≡ false)

none_of : {A : Type 0} (o : Option A) → is_none o ≡ true → o ≡ none
none_of none e = refl
none_of (some a) e = cc

row_back :
    (i n now wait : ℕ) (f : File)
    → wait ≤ days n
    → IsUnmarked i f
    → let g = if live_file_of i f then mark_file DeletedBy.board_cascade now f else f in
      (if board_cascaded i n (now + wait) g then unmark_file g else g) ≡ f
row_back i n now wait f soon h = elim (Bool-cases (live_file_of i f)) [
  | inl t ↦
      let at : f.board_index == i ≡ true = ground (arith, t) in
      let live : is_none f.deleted_at ≡ true = ground (arith, t) in
      let fresh : leb (now + wait) (now + days n) ≡ true = ground (arith, soon) in
      rw (t, at, fresh) (back (none_of f.deleted_at live) (h.0 live))
  | inr t ↦ rw t (elim (Bool-cases (f.board_index == i)) [
    | inl t' ↦ rw (t', h.1 (ground (arith, t'))) refl
    | inr t' ↦ rw t' refl
  ])
]
  where
    back :
        f.deleted_at ≡ none
        → f.deleted_by ≡ none
        → record f { deleted_at = none; deleted_by = none } ≡ f
    back e e' =
        ap (λ a. record f { deleted_at = a; deleted_by = none }) (sym e)
        ∙ ap (λ d. record f { deleted_by = d }) (sym e')

pub files_back :
    (i n now wait : ℕ) (files : List File)
    → wait ≤ days n
    → All (IsUnmarked i) files
    → update_where
        (board_cascaded i n (now + wait))
        unmark_file
        (update_where (live_file_of i) (mark_file DeletedBy.board_cascade now) files)
      ≡ files
unfolding update_where
files_back i n now wait [] soon h = refl
files_back i n now wait (f ∷ fs) soon h =
    rw (row_back i n now wait f soon h.0, files_back i n now wait fs soon h.1) refl

-- An UPDATE of the row with an index, which is found again.
stepped :
    (i : ℕ) (f : Board → Board) (boards : List Board) {b : Board}
    → ((c : Board) → at_index i (f c) ≡ at_index i c)
    → at_index i b ≡ true
    → find_row (at_index i) boards ≡ some b
    → find_row (at_index i) (update_where (at_index i) f boards) ≡ some (f b)
stepped i f boards {b} k at e =
    find_row-update (at_index i) (at_index i) f boards k e
    ∙ ap (λ t. some (if t then f b else b)) at

module _ (bcrypt : Bcrypt) (password : String) (i wait : ℕ) (u : CurrentUser) (s : State)
    (row : User) (b : Board) where
  -- The owner of a board, whose row of users is there and whose password is the one given, deletes
  -- the board and restores it at most 7 days later. Both succeed; the files are those of before,
  -- and so is the board, but for its update_date and its total, which is counted anew. No file of
  -- the board may have the mark BOARD_CASCADE before, and no live file any mark.
  pub restore_board-boards_delete :
      find_row (live_user_at u.index) s.db.users ≡ some row
      → bcrypt.checkpw password row.password ≡ some true
      → find_row (at_index i) s.db.boards ≡ some b
      → b.deleted_at ≡ none
      → b.user_index ≡ u.index
      → wait ≤ days 7
      → All (IsUnmarked i) s.db.files
      → let t = (boards_delete_services bcrypt i password u s).1 in
        let later = s.now + wait in
        let (r, v) = restore_board_services bcrypt i password u (record t { now = later }) in
        (r ≡ ok tt)
        × (v.db.files ≡ s.db.files)
        × (find_row (at_index i) v.db.boards
            ≡ some (record b {
              total_file_size = sum_where (live_file_of i) size_of s.db.files;
              update_date = later;
              deleted_at = none;
              deleted_by = none;
            }))
  unfolding boards_delete_services restore_board_services
  restore_board-boards_delete found checked e live own soon unmarked =
      let later = s.now + wait in
      let P : Result (Unit {0}) × State → Type 0 = λ r.
        (r.0 ≡ ok tt)
        × (r.1.db.files ≡ s.db.files)
        × (find_row (at_index i) r.1.db.boards
            ≡ some (record b {
              total_file_size = sum_where (live_file_of i) size_of s.db.files;
              update_date = later;
              deleted_at = none;
              deleted_by = none;
            })) in
      let Q : Result (Unit {0}) × State → Type 0 =
        λ r. P (restore_board_services bcrypt i password u (record r.1 { now = later })) in
      let at : at_index i b ≡ true =
        (find_row-All (λ _. Unit {0}) (at_index i) s.db.boards
          (All-intro (λ _. Unit {0}) s.db.boards λ _. tt) e).0 in
      let is_live : live_at i b ≡ true = rw at (ap is_none live) in
      let e' =
        find_row-narrower (at_index i) (live_at i) s.db.boards (λ c h. ground (arith, h)) e
          is_live in
      let mine : (b.user_index == u.index) ≡ true = ground (arith, own) in
      let permitted : not (is_index (owner_of (find_row (live_at i) s.db.boards)) u.index) ≡ false =
        rw (e', mine) refl in
      let marked = stepped i (mark_deleted DeletedBy.user s.now) s.db.boards (λ c. refl) at e in
      let marked' =
        find_row-narrower (at_index i) (deleted_at_index i) _ (λ c h. ground (arith, h)) marked
          (rw at refl) in
      let back = files_back i 30 s.now wait s.db.files (omega (arith, soon)) unmarked in
      let early : period_over 7 later (some s.now) ≡ false = ground (arith, soon) in
      by_ok Q _ _ s (require_password_passes bcrypt password u s row found checked) (
        by_fetch Q _ _ s (
          by_pass Q _ _ _ s (ap (λ o. is_none (owner_of o)) e') (
            by_pass Q _ _ _ s permitted (
              by_commit_three Q _ _ _ s (
                by_ok P _ _ _ (require_password_passes bcrypt password u _ row found checked) (
                  by_fetch P _ _ _ (
                    by_present P _ _ _ _ marked' (
                      by_pass P _ _ _ _ (ap not mine) (
                        by_fetch P _ _ _ (
                          by_pass P _ _ _ _ early (
                            by_pass P _ _ _ _ refl (
                              by_commit_total_twice P _ _ _ _ _ _ (
                                refl,
                                back,
                                stepped i (set_total _ later) _ (λ c. refl) at
                                      (stepped i (clear_deleted later) _ (λ c. refl) at marked)
                                    ∙ ap
                                        (λ fs. some (
                                          set_total (sum_where (live_file_of i) size_of fs) later (
                                            clear_deleted later
                                              (mark_deleted DeletedBy.user s.now b))))
                                        back,
                              )))))))))))))
