-- ===== src/Services/Users/Limits.antt =====
-- Restoring the files of a user, or those of a board, respects the limit on the files of a board.
use fast_api_community_backe.Common.{
  ◌+◌, ℕ, ◌≤◌, ◌≡◌, refl, true, false, not, Option, none, some, List, find_row, sum_where,
  update_where, All, arith, ◌==◌, ltb, is_none, inl, inr, ◌⊎◌, ◌&&◌, if◌then◌else◌, Bool-cases,
}
use fast_api_community_backe.Common.Table.Laws.{All-update}
use fast_api_community_backe.Common.Table.Finding.{
  or_zero-sum_or_null, sum_where-update_bound_two, sum_where-update_bound, find_row-All_fail,
}
use fast_api_community_backe.Db.{DeletedBy, is_by, Board, File}
use fast_api_community_backe.Exec.{Result, State}
use fast_api_community_backe.Exec.Rules.{
  by_commit_total, by_guard, by_fetch, by_some, by_commit_four,
}
use fast_api_community_backe.Security.{CurrentUser}
use fast_api_community_backe.Models.Boards.{of_user, recalculated, live_file_of, size_of}
use fast_api_community_backe.Models.Files.{
  admin_restorable, get_total_fsize, user_cascaded, unmark_file, live_or_cascaded,
}
use fast_api_community_backe.Services.Files.{allow_max_total_fsize}
use fast_api_community_backe.Services.Admin.Restore.{
  admin_restore_all_files_services, admin_restore_user_services,
}

-- the bytes of the live files of a board
abbrev pub live_bytes : List File → Board → ℕ
live_bytes files b =
    sum_where (λ (f : File). f.board_index == b.index && is_none f.deleted_at) (λ f. f.file_size)
      files

-- the live files of the board have at most 25 MB, and its column has their sum
abbrev pub FitsBoard : List File → ℕ → Board → Type 0
FitsBoard files u b =
    b.user_index ≡ u → (live_bytes files b ≤ 26214400) × (b.total_file_size ≡ live_bytes files b)

-- every board of the user fits
abbrev pub WithinLimit : ℕ → State → Type 0
WithinLimit u s = All (FitsBoard s.db.files u) s.db.boards

-- What is live after the restoring was live or marked with USER_CASCADE before.
restored_sum :
    (boards : List Board) (files : List File) (u n now i : ℕ)
    → sum_where
        (live_file_of i)
        size_of
        (update_where (user_cascaded boards u n now) unmark_file files)
      ≤ sum_where (live_or_cascaded i) size_of files
restored_sum boards files u n now i =
    sum_where-update_bound (live_file_of i) (live_or_cascaded i) size_of
      (user_cascaded boards u n now) unmark_file files
      (λ f. elim (Bool-cases (user_cascaded boards u n now f)) [
        | inl t ↦
            let c : is_by DeletedBy.user_cascade f.deleted_by ≡ true = ground (arith, t) in
            rw t (ground (arith, c))
        | inr t ↦ rw t (ground arith)
      ])

nothing : {A : Type 0} (o : Option A) → not (is_none o) ≡ false → o ≡ none
nothing none e = refl
nothing (some a) e = cc

restored_all :
    (files : List File) (i now : ℕ)
    → sum_where (live_file_of i) size_of (update_where (admin_restorable i now) unmark_file files)
      ≤ sum_where (live_file_of i) size_of files + sum_where (admin_restorable i now) size_of files
restored_all files i now =
    sum_where-update_bound_two (live_file_of i) (live_file_of i) (admin_restorable i now) size_of
      (admin_restorable i now) unmark_file files
      (λ f. elim (Bool-cases (admin_restorable i now f)) [
        | inl t ↦ rw t (ground arith)
        | inr t ↦ rw t (ground arith)
      ])

recalculated_within :
    (boards : List Board) (files : List File) (u n now : ℕ)
    → let files' = update_where (user_cascaded boards u n now) unmark_file files in
      find_row
          (λ (b : Board).
            b.user_index == u
            && ltb allow_max_total_fsize (sum_where (live_or_cascaded b.index) size_of files))
          boards
        ≡ none
      → All (FitsBoard files' u) (update_where (of_user u) (recalculated files') boards)
recalculated_within boards files u n now e =
    let files' = update_where (user_cascaded boards u n now) unmark_file files in
    All-update
      (λ b.
        (b.user_index == u
          && ltb allow_max_total_fsize (sum_where (live_or_cascaded b.index) size_of files))
        ≡ false)
      (FitsBoard files' u) (of_user u) (recalculated files') boards
      (λ b small. within b small (Bool-cases (b.user_index == u))) (find_row-All_fail _ boards e)
  where
    within :
        (b : Board)
        → (b.user_index == u
            && ltb allow_max_total_fsize (sum_where (live_or_cascaded b.index) size_of files))
          ≡ false
        → (b.user_index == u ≡ true) ⊎ (b.user_index == u ≡ false)
        → let files' = update_where (user_cascaded boards u n now) unmark_file files in
          FitsBoard files' u (if of_user u b then recalculated files' b else b)
    within b small (inl t) own =
        let fits : ltb allow_max_total_fsize (sum_where (live_or_cascaded b.index) size_of files)
            ≡ false =
          rw t at small in
        let sum = restored_sum boards files u n now b.index in
        (rw t (ground (arith, fits, sum)), rw t refl)
    within b small (inr t) own =
        let same : b.user_index ≡ u = rw t at own in absurd (ground (arith, same, t))

-- When an administrator restores a user, the state stays as it was, or afterwards the live files of
-- each board of this user have at most 25 MB, and the board's total_file_size is their sum.
pub admin_restore_user-WithinLimit :
    (i : ℕ) (admin : CurrentUser) (s : State)
    → let t = (admin_restore_user_services i admin s).1 in (t ≡ s) ⊎ WithinLimit i t
unfolding admin_restore_user_services
admin_restore_user-WithinLimit i admin s =
    let Q : Result (Unit {0}) × State → Type 0 = λ r. (r.1 ≡ s) ⊎ WithinLimit i r.1 in
    by_fetch Q _ _ s (
      by_some Q _ _ _ s (inl refl) λ row at. by_fetch Q _ _ s (
        by_guard Q _ _ _ s (inl refl) λ early. by_fetch Q _ _ s (
          by_guard Q _ _ _ s (inl refl) λ fits.
            by_commit_four Q _ _ _ _ s
              (inr (recalculated_within s.db.boards s.db.files i 90 s.now (nothing _ fits))))))

-- When an administrator restores the files of a board, the state stays as it was, or the files of
-- this board that are not deleted have at most 25 MB afterwards.
pub admin_restore_all_files-total :
    (i : ℕ) (admin : CurrentUser) (s : State)
    → let t = (admin_restore_all_files_services i admin s).1 in
      (t ≡ s) ⊎ (get_total_fsize i t.now t.db ≤ allow_max_total_fsize)
unfolding admin_restore_all_files_services get_total_fsize
admin_restore_all_files-total i admin s =
    let Q : Result (Unit {0}) × State → Type 0 =
      λ r. (r.1 ≡ s) ⊎ (sum_where (live_file_of i) size_of r.1.db.files ≤ allow_max_total_fsize) in
    let same = or_zero-sum_or_null (admin_restorable i s.now) size_of s.db.files in
    by_fetch Q _ _ s (
      by_guard Q _ _ _ s (inl refl) λ exist. by_fetch Q _ _ s (
        by_guard Q _ _ _ s (inl refl) λ deleted. by_fetch Q _ _ s (
          by_fetch Q _ _ s (
            by_guard Q _ _ _ s (inl refl) λ positive. by_guard Q _ _ _ s (inl refl) λ fits.
              by_commit_total Q _ _ _ _ s (
                let fits' = rw same at fits in
                inr (ground (arith, fits', restored_all s.db.files i s.now)))))))
