-- ===== src/Services/Files/Restores.antt =====
-- app/services/files.py: how much comes back when a user restores the files of a board.
use fast_api_community_backe.Common.{
  ℕ, ◌+◌, ◌≤◌, ◌≡◌, refl, ◌⊎◌, inl, inr, arith, String, Bool, not, ◌&&◌, List, [], ◌∷◌, sum_where,
  update_where, Bool-cases,
}
use fast_api_community_backe.Common.Table.Finding.{sum_where-update_bound_two, or_zero-sum_or_null}
use fast_api_community_backe.Db.{File}
use fast_api_community_backe.Exec.{State, Result}
use fast_api_community_backe.Exec.Rules.{by_fetch, by_guard, by_commit_total}
use fast_api_community_backe.Security.{Bcrypt, CurrentUser}
use fast_api_community_backe.Security.Rules.{by_password}
use fast_api_community_backe.Models.Boards.{live_file_of, size_of}
use fast_api_community_backe.Models.Files.{get_total_fsize, user_restorable, unmark_file}
use fast_api_community_backe.Services.Files.{restore_all_file_services, allow_max_total_fsize}

-- the files that are restored and were not counted: deleted by the user 7 to 30 days ago
abbrev pub uncounted : ℕ → ℕ → File → Bool
uncounted i now f = user_restorable 30 i now f && not (user_restorable 7 i now f)

sum_where-parts :
    (p q : File → Bool) (fs : List File)
    → sum_where p size_of fs ≤ sum_where q size_of fs + sum_where (λ f. p f && not (q f)) size_of fs
unfolding sum_where
sum_where-parts p q [] = omega arith
sum_where-parts p q (f ∷ fs) = elim (Bool-cases (p f)) [
  | inl t ↦ elim (Bool-cases (q f)) [
    | inl u ↦ rw (t, u) (omega (arith, sum_where-parts p q fs))
    | inr u ↦ rw (t, u) (omega (arith, sum_where-parts p q fs))
  ]
  | inr t ↦ elim (Bool-cases (q f)) [
    | inl u ↦ rw (t, u) (omega (arith, sum_where-parts p q fs))
    | inr u ↦ rw (t, u) (omega (arith, sum_where-parts p q fs))
  ]
]

restored_by_user :
    (files : List File) (i now : ℕ)
    → sum_where (live_file_of i) size_of (update_where (user_restorable 30 i now) unmark_file files)
      ≤ sum_where (live_file_of i) size_of files
        + sum_where (user_restorable 30 i now) size_of files
restored_by_user files i now =
    sum_where-update_bound_two (live_file_of i) (live_file_of i) (user_restorable 30 i now) size_of
      (user_restorable 30 i now) unmark_file files
      (λ f. elim (Bool-cases (user_restorable 30 i now f)) [
        | inl t ↦ rw t (ground arith)
        | inr t ↦ rw t (ground arith)
      ])

-- When a user restores the files of a board, the state stays as it was, or the files of the board
-- that are not deleted have afterwards at most 25 MB and the size of those that the user had
-- deleted more than 7 and at most 30 days ago.
pub restore_all_file-total :
    (bcrypt : Bcrypt) (i : ℕ) (password : String) (u : CurrentUser) (s : State)
    → let t = (restore_all_file_services bcrypt i password u s).1 in
      (t ≡ s)
      ⊎ (get_total_fsize i t.now t.db
          ≤ allow_max_total_fsize + sum_where (uncounted i s.now) size_of s.db.files)
unfolding restore_all_file_services get_total_fsize
restore_all_file-total bcrypt i password u s =
    let Q : Result (Unit {0}) × State → Type 0 = λ r.
      (r.1 ≡ s)
      ⊎ (sum_where (live_file_of i) size_of r.1.db.files
          ≤ allow_max_total_fsize + sum_where (uncounted i s.now) size_of s.db.files) in
    let same = or_zero-sum_or_null (user_restorable 7 i s.now) size_of s.db.files in
    by_password Q bcrypt password u _ s (λ e n. inl refl)
      λ user found checked. by_fetch Q _ _ s (
        by_guard Q _ _ _ s (inl refl) λ owned. by_fetch Q _ _ s (
          by_guard Q _ _ _ s (inl refl) λ exist. by_fetch Q _ _ s (
            by_fetch Q _ _ s (
              by_guard Q _ _ _ s (inl refl) λ positive. by_guard Q _ _ _ s (inl refl) λ fits.
                by_commit_total Q _ _ _ _ s (
                  let fits' = rw same at fits in
                  inr (
                    ground (
                      arith,
                      fits',
                      restored_by_user s.db.files i s.now,
                      sum_where-parts (user_restorable 30 i s.now) (user_restorable 7 i s.now)
                          s.db.files,
                    )))))))
