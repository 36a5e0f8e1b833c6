-- ===== src/Services/Admin/Stale.antt =====
-- The removal of all files of a board leaves its total as it was.
use fast_api_community_backe.Common.{
  List, is_none, ap, ℕ, ◌≡◌, refl, false, some, find_row, sum_where, delete_where, arith,
}
use fast_api_community_backe.Common.Table.Laws.{sum_where-zero, All-delete_kept, All-intro}
use fast_api_community_backe.Db.{Board, File}
use fast_api_community_backe.Exec.{execute, ◌>>◌, Result, State, ok, ◌>>=◌}
use fast_api_community_backe.Exec.Rules.{by_transaction, by_fetch, by_pass, undo}
use fast_api_community_backe.Models.AuditLogs.{insert_audit_log}
use fast_api_community_backe.Security.{CurrentUser}
use fast_api_community_backe.Models.Boards.{index_of, at_index, live_file_of, size_of}
use fast_api_community_backe.Models.Files.{
  get_total_fsize, file_of_board, soft_delete_all_board_files, hard_delete_all_board_files,
}
use fast_api_community_backe.Consistency.Refresh.{sum_of_marked}
use fast_api_community_backe.Services.Admin.{
  delete_board_files_by, files_action_type, FileDeleteOption, admin_delete_all_board_files_services,
}

no_file_left :
    (files : List File) (i : ℕ)
    → sum_where (live_file_of i) size_of (delete_where (file_of_board i) files) ≡ 0
no_file_left files i = sum_where-zero (live_file_of i) size_of _ (
    All-delete_kept (λ f. live_file_of i f ≡ false) (file_of_board i) files
      (All-intro _ files λ f e. ground (arith, e)))

emptied :
    (i : ℕ) (option : FileDeleteOption) (u : CurrentUser) (s : State)
    → let log = insert_audit_log (files_action_type option) "FILES" i u.index u.id in
      let (r, t) = undo s ((delete_board_files_by option i >> execute log) s) in
      (r ≡ ok tt)
      × (sum_where (live_file_of i) size_of t.db.files ≡ 0)
      × (t.db.boards ≡ s.db.boards)
unfolding ◌>>=◌ insert_audit_log soft_delete_all_board_files hard_delete_all_board_files
emptied i FileDeleteOption.scheduled u s = (refl, sum_of_marked s.db.files i s.now _, refl)
emptied i FileDeleteOption.immediate u s = (refl, no_file_left s.db.files i, refl)

-- When an administrator removes all files of a board that exists, by either option, the sum of its
-- files becomes 0, and the table boards, with the board's total_file_size, stays as it was.
pub admin_delete_all_board_files-stale :
    (i : ℕ) (option : FileDeleteOption) (u : CurrentUser) (s : State) (b : Board)
    → find_row (at_index i) s.db.boards ≡ some b
    → let (r, t) = admin_delete_all_board_files_services i option u s in
      (r ≡ ok tt) × (get_total_fsize i t.now t.db ≡ 0) × (t.db.boards ≡ s.db.boards)
unfolding admin_delete_all_board_files_services get_total_fsize
admin_delete_all_board_files-stale i option u s b e =
    let Q : Result (Unit {0}) × State → Type 0 = λ r.
      (r.0 ≡ ok tt)
      × (sum_where (live_file_of i) size_of r.1.db.files ≡ 0)
      × (r.1.db.boards ≡ s.db.boards) in
    let In : Result (Unit {0}) × State → Type 0 = λ r. Q (undo s r) in
    let there : is_none (index_of (find_row (at_index i) s.db.boards)) ≡ false =
      ap (λ o. is_none (index_of o)) e in
    by_transaction Q _ s (by_fetch In _ _ s (by_pass In _ _ _ s there (emptied i option u s)))
