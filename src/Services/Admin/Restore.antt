-- ===== src/Services/Admin/Restore.antt =====
-- app/services/admin.py: what the administrator restores.
use fast_api_community_backe.Common.{ℕ, ◌+◌, not, ◌==◌, ltb, is_none, or_zero}
use fast_api_community_backe.Exec.{
  Exec, Detail, http, type_error, raise_if, fetch, or_raise, execute, transaction, ◌>>=◌, ◌>>◌,
}
use fast_api_community_backe.Security.{CurrentUser}
use fast_api_community_backe.Models.Users.{get_deleted_user_info, restore_user_data}
use fast_api_community_backe.Models.Boards.{
  check_boards_owner, check_deleted_boards_owner, recalculate_all_user_boards_total_fsize,
  restore_board, update_total_board_fsize,
}
use fast_api_community_backe.Models.Files.{
  admin_get_restorable_fsize, admin_restore_all_restorable_files, check_board_deleted_files_exist,
  check_restore_exceeding_boards_total_fsize, get_deleted_file_info, get_file_belong,
  get_total_fsize, restore_all_user_files, restore_cascade_board_files, restore_one_file,
}
use fast_api_community_backe.Models.AuditLogs.{insert_audit_log}
use fast_api_community_backe.Services.Admin.{refresh_total}
use fast_api_community_backe.Services.Boards.{period_over, current_time}
use fast_api_community_backe.Services.Files.{allow_max_total_fsize}

unfoldable pub admin_restore_user_services : ℕ → CurrentUser → Exec (Unit {0})
unfolding get_deleted_user_info check_restore_exceeding_boards_total_fsize restore_user_data
    restore_all_user_files recalculate_all_user_boards_total_fsize insert_audit_log
admin_restore_user_services user_index current_user = do
  found ← fetch (get_deleted_user_info user_index)
  check_user ← or_raise found (http 404 Detail.no_user)
  now ← fetch current_time
  raise_if (period_over 90 now check_user.deleted_at) (http 403 Detail.period_elapsed)
  exceeding_boards ←
      fetch (check_restore_exceeding_boards_total_fsize user_index allow_max_total_fsize)
  raise_if (not (is_none exceeding_boards)) (http 400 Detail.total_size_exceeded)
  transaction (do
    execute (restore_user_data check_user.id)
    execute (restore_all_user_files user_index 90)
    execute (recalculate_all_user_boards_total_fsize user_index)
    execute
        (insert_audit_log "RESTORE (ADMIN)" "USER" user_index current_user.index current_user.id))

unfoldable pub admin_restore_board_services : ℕ → CurrentUser → Exec (Unit {0})
unfolding check_deleted_boards_owner admin_get_restorable_fsize restore_board
    restore_cascade_board_files get_total_fsize update_total_board_fsize insert_audit_log
admin_restore_board_services board_index current_user = do
  found ← fetch (check_deleted_boards_owner board_index)
  check_boards ← or_raise found (http 404 Detail.no_board)
  now ← fetch current_time
  raise_if (period_over 90 now check_boards.deleted_at) (http 403 Detail.period_elapsed)
  sum ← fetch (admin_get_restorable_fsize board_index)
  -- `None > allow_max_total_fsize` is a `TypeError`
  restorable_fsize ← or_raise sum type_error
  raise_if (ltb allow_max_total_fsize restorable_fsize) (http 413 Detail.total_size_exceeded)
  transaction (do
    execute (restore_board board_index)
    execute (restore_cascade_board_files board_index 90)
    new_total_fsize ← fetch (get_total_fsize board_index)
    execute (update_total_board_fsize new_total_fsize board_index)
    execute
        (insert_audit_log "RESTORE (ADMIN)" "BOARD" board_index current_user.index current_user.id))

unfoldable pub admin_restore_file_services : ℕ → CurrentUser → Exec (Unit {0})
unfolding get_deleted_file_info get_file_belong restore_one_file get_total_fsize
    update_total_board_fsize insert_audit_log
admin_restore_file_services file_index current_user = do
  found ← fetch (get_deleted_file_info file_index)
  check_file ← or_raise found (http 404 Detail.no_file)
  now ← fetch current_time
  raise_if (period_over 90 now check_file.deleted_at) (http 403 Detail.period_elapsed)
  board_index ← fetch (get_file_belong file_index)
  transaction (do
    execute (restore_one_file file_index)
    refresh_total board_index
    execute
        (insert_audit_log "RESTORE (ADMIN)" "FILES" file_index current_user.index current_user.id))

unfoldable pub admin_restore_all_files_services : ℕ → CurrentUser → Exec (Unit {0})
unfolding check_boards_owner check_board_deleted_files_exist get_total_fsize
    admin_get_restorable_fsize admin_restore_all_restorable_files update_total_board_fsize
    insert_audit_log
admin_restore_all_files_services board_index current_user = do
  board_belong ← fetch (check_boards_owner board_index)
  raise_if (is_none board_belong) (http 404 Detail.no_board)
  check_deleted_file ← fetch (check_board_deleted_files_exist board_index)
  raise_if (is_none check_deleted_file) (http 404 Detail.nothing_to_restore)
  cur_total_fsize ← fetch (get_total_fsize board_index)
  sum ← fetch (admin_get_restorable_fsize board_index)
  raise_if (or_zero sum == 0) (http 404 Detail.nothing_to_restore)
  raise_if (ltb allow_max_total_fsize (cur_total_fsize + or_zero sum))
      (http 413 Detail.total_size_exceeded)
  transaction (do
    execute (admin_restore_all_restorable_files board_index)
    new_total_fsize ← fetch (get_total_fsize board_index)
    execute (update_total_board_fsize new_total_fsize board_index)
    execute (
        insert_audit_log "RESTORE_ALL (ADMIN)" "BOARD_FILES" board_index current_user.index
          current_user.id))
