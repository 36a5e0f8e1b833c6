-- ===== src/Services/Boards.antt =====
-- app/services/boards.py: the operations that change a board.
pub mod Consistent
pub mod RoundTrip
pub mod Listing
pub mod Reading
pub mod Paging
pub mod Grouping
pub mod Sizes
pub mod Views
pub mod Viewing
pub mod Popular
use fast_api_community_backe.Common.{
  ℕ, ◌+◌, String, Bool, true, false, not, Option, none, some, ◌==◌, is_none, is_index, ltb,
  if◌then◌else◌,
}
use fast_api_community_backe.Db.{DeletedBy, is_by, Board, Category, Query, days}
use fast_api_community_backe.Exec.{
  Exec, Detail, http, raise_if, fetch, or_raise, execute, transaction, pure, ◌>>=◌, ◌>>◌, State, ok,
}
use fast_api_community_backe.Security.{Bcrypt, CurrentUser, require_password}
use fast_api_community_backe.Models.Boards.{
  check_boards_owner, check_deleted_boards_owner, insert_boards_db, title_modify, content_modify,
  soft_delete_board, delete_boards, restore_board, update_total_board_fsize,
}
use fast_api_community_backe.Models.Files.{
  soft_delete_all_board_files, delete_files, restore_cascade_board_files, get_total_fsize,
}
use fast_api_community_backe.Models.AuditLogs.{insert_audit_log}

-- the next value of the identity column of boards
abbrev pub next_board_index : Exec ℕ
next_board_index s = (ok s.board_seq, record s { board_seq = s.board_seq + 1 })

unfoldable pub create_boards_services : String → String → CurrentUser → Exec ℕ
unfolding insert_boards_db insert_audit_log
create_boards_services title content current_user = transaction (do
  index ← next_board_index
  execute (insert_boards_db index title content current_user.index Category.general)
  execute (insert_audit_log "CREATE" "BOARD" index current_user.index current_user.id)
  pure index)

-- `if not boards_owner`
abbrev pub is_falsy : Option ℕ → Bool
is_falsy none = true
is_falsy (some i) = i == 0

-- `datetime.now(timezone.utc) - deleted_at > timedelta(days=n)`
abbrev pub period_over : ℕ → ℕ → Option ℕ → Bool
period_over n now none = false
period_over n now (some t) = ltb (t + days n) now

abbrev pub current_time : Query ℕ
current_time now db = now

module _ (bcrypt : Bcrypt) where
  unfoldable pub title_modify_services : ℕ → String → String → CurrentUser → Exec (Unit {0})
  unfolding check_boards_owner title_modify insert_audit_log
  title_modify_services board_index password new_title current_user = do
    require_password bcrypt password current_user
    boards_owner ← fetch (check_boards_owner board_index)
    raise_if (is_falsy boards_owner) (http 404 Detail.no_board)
    raise_if (not (is_index boards_owner current_user.index)) (http 403 Detail.no_permission)
    transaction (do
      execute (title_modify new_title board_index)
      execute
          (insert_audit_log "MODIFY_TITLE" "BOARD" board_index current_user.index current_user.id))

  unfoldable pub content_modify_services : ℕ → String → String → CurrentUser → Exec (Unit {0})
  unfolding check_boards_owner content_modify insert_audit_log
  content_modify_services board_index password new_content current_user = do
    require_password bcrypt password current_user
    boards_owner ← fetch (check_boards_owner board_index)
    raise_if (is_none boards_owner) (http 404 Detail.no_board)
    raise_if (not (is_index boards_owner current_user.index)) (http 403 Detail.no_permission)
    transaction (do
      execute (content_modify new_content board_index)
      execute (
          insert_audit_log "MODIFY_CONTENT" "BOARD" board_index current_user.index current_user.id))

  unfoldable pub boards_delete_services : ℕ → String → CurrentUser → Exec (Unit {0})
  unfolding check_boards_owner soft_delete_board soft_delete_all_board_files insert_audit_log
  boards_delete_services board_index password current_user = do
    require_password bcrypt password current_user
    boards_owner ← fetch (check_boards_owner board_index)
    raise_if (is_none boards_owner) (http 404 Detail.no_board)
    raise_if (not (is_index boards_owner current_user.index)) (http 403 Detail.no_permission)
    transaction (do
      execute (soft_delete_board DeletedBy.user board_index)
      execute (soft_delete_all_board_files DeletedBy.board_cascade board_index)
      execute (insert_audit_log "DELETE" "BOARD" board_index current_user.index current_user.id))

  unfoldable pub restore_board_services : ℕ → String → CurrentUser → Exec (Unit {0})
  unfolding check_deleted_boards_owner restore_board restore_cascade_board_files get_total_fsize
      update_total_board_fsize insert_audit_log
  restore_board_services board_index password current_user = do
    require_password bcrypt password current_user
    found ← fetch (check_deleted_boards_owner board_index)
    restore_boards_owner ← or_raise found (http 404 Detail.no_board)
    raise_if (not (restore_boards_owner.user_index == current_user.index))
        (http 403 Detail.no_permission)
    now ← fetch current_time
    raise_if (period_over 7 now restore_boards_owner.deleted_at) (http 403 Detail.period_elapsed)
    raise_if (not (is_by DeletedBy.user restore_boards_owner.deleted_by))
        (http 403 Detail.deleted_by_admin)
    transaction (do
      execute (restore_board board_index)
      execute (restore_cascade_board_files board_index 30)
      new_total_fsize ← fetch (get_total_fsize board_index)
      execute (update_total_board_fsize new_total_fsize board_index)
      execute (insert_audit_log "RESTORE" "BOARD" board_index current_user.index current_user.id))

-- The hourly job.
unfoldable pub delete_boards_perman : Exec (Unit {0})
unfolding delete_boards delete_files
delete_boards_perman = do execute delete_boards; execute delete_files
