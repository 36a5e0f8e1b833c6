-- ===== src/Services/Admin.antt =====
-- app/services/admin.py: bans, and the three ways to delete.
pub mod Restore
pub mod Consistent
pub mod Removals
pub mod SingleFiles
pub mod Stale
pub mod Bans
pub mod Listing
pub mod Shown
use fast_api_community_backe.Common.{
  ℕ, ◌+◌, String, Bool, true, false, not, Option, none, some, ◌==◌, ltb, is_none, or_zero,
  if◌then◌else◌,
}
use fast_api_community_backe.Db.{DeletedBy, Board, File, User, Category}
use fast_api_community_backe.Exec.{
  Exec, Detail, http, type_error, raise_if, fetch, or_raise, execute, transaction, pure, raise,
  ◌>>=◌, ◌>>◌,
}
use fast_api_community_backe.Security.{CurrentUser}
use fast_api_community_backe.Models.Users.{
  IdText, check_undeleted_user_exist, check_user_exist, get_deleted_user_info, hard_delete_user,
  restore_user_data, soft_delete_user,
}
use fast_api_community_backe.Models.Admin.{
  admin_ban, admin_user_4ban_settings, admin_unban, admin_get_ban_count,
}
use fast_api_community_backe.Models.Boards.{
  check_boards_exist, check_boards_owner, check_deleted_boards_owner, check_undeleted_boards_exist,
  hard_delete_board, insert_boards_db, recalculate_all_user_boards_total_fsize, restore_board,
  soft_delete_board, update_all_user_boards_total_fsize, update_total_board_fsize,
}
use fast_api_community_backe.Models.Files.{
  admin_get_restorable_fsize, admin_restore_all_restorable_files, check_board_deleted_files_exist,
  check_files_exist, check_restore_exceeding_boards_total_fsize, check_undeleted_files_exist,
  get_deleted_file_info, get_file_belong, get_total_fsize, hard_delete_all_board_files,
  hard_delete_all_user_files, hard_delete_one_file, restore_all_user_files,
  restore_cascade_board_files, restore_one_file, soft_delete_all_board_files,
  soft_delete_all_user_files, soft_delete_one_file,
}
use fast_api_community_backe.Models.AuditLogs.{insert_audit_log}
use fast_api_community_backe.Services.Boards.{next_board_index, period_over, current_time}
use fast_api_community_backe.Services.Files.{allow_max_total_fsize}

unfoldable pub admin_register_notice_services : String → String → CurrentUser → Exec ℕ
unfolding insert_boards_db insert_audit_log
admin_register_notice_services title content current_user = transaction (do
  index ← next_board_index
  execute (insert_boards_db index title content current_user.index Category.notice)
  execute (insert_audit_log "CREATE" "ADMIN" index current_user.index current_user.id)
  pure index)

-- `ban_days`, for a count below 3
abbrev pub ban_days : ℕ → ℕ
ban_days ban_count = if ban_count == 0 then 1 else if ban_count == 1 then 3 else 5

-- The answer is the field `success` of the response.
unfoldable pub admin_user_ban_services : ℕ → CurrentUser → Exec Bool
unfolding admin_get_ban_count soft_delete_user admin_user_4ban_settings admin_ban insert_audit_log
admin_user_ban_services user_index current_user = do
  found ← fetch (admin_get_ban_count user_index)
  ban_count ← or_raise found (http 404 Detail.no_user)
  if ban_count == 3
      then transaction (do
        execute (soft_delete_user DeletedBy.admin_scheduled user_index)
        execute (admin_user_4ban_settings user_index)
        execute (
            insert_audit_log "DELETE (ADMIN/SOFT)" "USER" user_index current_user.index
              current_user.id)
        pure true)
      else if ltb 3 ban_count
      then pure false
      else transaction (do
        execute (admin_ban user_index (ban_days ban_count))
        execute
            (insert_audit_log "BAN (ADMIN)" "USER" user_index current_user.index current_user.id)
        pure true)

unfoldable pub admin_user_unban_services : ℕ → CurrentUser → Exec (Unit {0})
unfolding admin_get_ban_count admin_unban insert_audit_log
admin_user_unban_services user_index current_user = do
  found ← fetch (admin_get_ban_count user_index)
  ban_count ← or_raise found (http 404 Detail.no_user)
  raise_if (ban_count == 0) (http 400 Detail.not_banned)
  transaction (do
    execute (admin_unban user_index)
    execute (insert_audit_log "UNBAN (ADMIN)" "USER" user_index current_user.index current_user.id))

-- class DeleteOption
pub data DeleteOption : Type 0 where
  scheduled retain immediate : DeleteOption

-- class FileDeleteOption
pub data FileDeleteOption : Type 0 where
  scheduled immediate : FileDeleteOption

-- the name of the option, as in the column `action`
abbrev pub action_type : DeleteOption → String
action_type DeleteOption.scheduled = "DELETE (ADMIN/SCHEDULED)"
action_type DeleteOption.retain = "DELETE (ADMIN/RETAIN)"
action_type DeleteOption.immediate = "DELETE (ADMIN/IMMEDIATE)"

abbrev soft_delete_whole_user : DeletedBy → ℕ → Exec (Unit {0})
soft_delete_whole_user by user_index = do
  target_index ← fetch (check_undeleted_user_exist user_index)
  raise_if (is_none target_index) (http 404 Detail.no_user)
  execute (soft_delete_user by user_index)
  execute (soft_delete_all_user_files DeletedBy.user_cascade user_index)
  execute (update_all_user_boards_total_fsize 0 user_index)

abbrev delete_user_by : IdText → DeleteOption → ℕ → Exec (Unit {0})
delete_user_by text DeleteOption.scheduled user_index =
    soft_delete_whole_user DeletedBy.admin_scheduled user_index
delete_user_by text DeleteOption.retain user_index =
    soft_delete_whole_user DeletedBy.admin_retain user_index
delete_user_by text DeleteOption.immediate user_index = do
  target_index ← fetch (check_user_exist user_index)
  raise_if (is_none target_index) (http 404 Detail.no_user)
  execute (hard_delete_user text user_index)
  execute (hard_delete_all_user_files user_index)
  execute (update_all_user_boards_total_fsize 0 user_index)

unfoldable pub admin_delete_user_services :
    IdText → ℕ → DeleteOption → CurrentUser → Exec (Unit {0})
unfolding check_undeleted_user_exist soft_delete_user soft_delete_all_user_files
    update_all_user_boards_total_fsize check_user_exist hard_delete_user hard_delete_all_user_files
    insert_audit_log
admin_delete_user_services text user_index delete_option current_user = transaction (do
  delete_user_by text delete_option user_index
  execute (
      insert_audit_log (action_type delete_option) "USER" user_index current_user.index
        current_user.id))

abbrev soft_delete_whole_board : DeletedBy → ℕ → Exec (Unit {0})
soft_delete_whole_board by board_index = do
  target_index ← fetch (check_undeleted_boards_exist board_index)
  raise_if (is_none target_index) (http 404 Detail.no_board)
  execute (soft_delete_board by board_index)
  execute (soft_delete_all_board_files DeletedBy.board_cascade board_index)

abbrev delete_board_by : DeleteOption → ℕ → Exec (Unit {0})
delete_board_by DeleteOption.scheduled board_index =
    soft_delete_whole_board DeletedBy.admin_scheduled board_index
delete_board_by DeleteOption.retain board_index =
    soft_delete_whole_board DeletedBy.admin_retain board_index
delete_board_by DeleteOption.immediate board_index = do
  target_index ← fetch (check_boards_exist board_index)
  raise_if (is_none target_index) (http 404 Detail.no_board)
  execute (hard_delete_all_board_files board_index)
  execute (hard_delete_board board_index)

unfoldable pub admin_delete_boards_services : ℕ → DeleteOption → CurrentUser → Exec (Unit {0})
unfolding check_undeleted_boards_exist soft_delete_board soft_delete_all_board_files
    check_boards_exist hard_delete_all_board_files hard_delete_board insert_audit_log
admin_delete_boards_services board_index delete_option current_user = transaction (do
  delete_board_by delete_option board_index
  execute (
      insert_audit_log (action_type delete_option) "BOARDS" board_index current_user.index
        current_user.id))

-- `get_total_fsize` and `update_total_board_fsize` for the board of a file; when the file does not
-- exist its board is None, and no row is read or written.
abbrev pub refresh_total : Option ℕ → Exec (Unit {0})
refresh_total none = pure tt
refresh_total (some board_index) = do
  new_total_fsize ← fetch (get_total_fsize board_index)
  execute (update_total_board_fsize new_total_fsize board_index)

abbrev pub delete_file_by : FileDeleteOption → ℕ → Exec (Unit {0})
delete_file_by FileDeleteOption.scheduled file_index = do
  target_index ← fetch (check_undeleted_files_exist file_index)
  raise_if (is_none target_index) (http 404 Detail.no_file)
  execute (soft_delete_one_file DeletedBy.admin_scheduled file_index)
delete_file_by FileDeleteOption.immediate file_index = do
  target_index ← fetch (check_files_exist file_index)
  raise_if (is_none target_index) (http 404 Detail.no_file)
  execute (hard_delete_one_file file_index)

abbrev pub file_action_type : FileDeleteOption → String
file_action_type FileDeleteOption.scheduled = "DELETE (ADMIN/SCHEDULED)"
file_action_type FileDeleteOption.immediate = "DELETE (ADMIN/IMMEDIATE)"

unfoldable pub admin_delete_one_file_services : ℕ → FileDeleteOption → CurrentUser → Exec (Unit {0})
unfolding get_file_belong check_undeleted_files_exist soft_delete_one_file get_total_fsize
    update_total_board_fsize check_files_exist hard_delete_one_file insert_audit_log
admin_delete_one_file_services file_index delete_option current_user = do
  board_index ← fetch (get_file_belong file_index)
  transaction (do
    delete_file_by delete_option file_index
    refresh_total board_index
    execute (
        insert_audit_log (file_action_type delete_option) "FILE" file_index current_user.index
          current_user.id))

abbrev pub delete_board_files_by : FileDeleteOption → ℕ → Exec (Unit {0})
delete_board_files_by FileDeleteOption.scheduled board_index =
    execute (soft_delete_all_board_files DeletedBy.admin_scheduled board_index)
delete_board_files_by FileDeleteOption.immediate board_index =
    execute (hard_delete_all_board_files board_index)

abbrev pub files_action_type : FileDeleteOption → String
files_action_type FileDeleteOption.scheduled = "DELETE (ADMIN / SCHEDULED)"
files_action_type FileDeleteOption.immediate = "DELETE (ADMIN / IMMEDIATE)"

unfoldable pub admin_delete_all_board_files_services :
    ℕ → FileDeleteOption → CurrentUser → Exec (Unit {0})
unfolding check_boards_exist soft_delete_all_board_files hard_delete_all_board_files
    insert_audit_log
admin_delete_all_board_files_services board_index delete_option current_user = transaction (do
  target_index ← fetch (check_boards_exist board_index)
  raise_if (is_none target_index) (http 404 Detail.no_board)
  delete_board_files_by delete_option board_index
  execute (
      insert_audit_log (files_action_type delete_option) "FILES" board_index current_user.index
        current_user.id))
