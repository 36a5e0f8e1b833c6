-- ===== src/Services/Users.antt =====
-- app/services/user.py: the account of a user.
pub mod Register
pub mod Consistent
pub mod Accounts
pub mod Codes
pub mod Limits
pub mod Unique
pub mod Passwords
use Prim.Native.Char.{code}
use Prim.Native.String
use fast_api_community_backe.Common.{
  ℕ, ◌+◌, String, Bool, true, false, not, ◌&&◌, Option, none, some, List, ◌∷◌, str_eq, is_none,
  any_row, if◌then◌else◌,
}
use fast_api_community_backe.Db.{DeletedBy, is_by, User, Db}
use fast_api_community_backe.Exec.{
  Exec, Result, Detail, Error, RedisKey, RedisValue, http, type_error, unique_violation, raise,
  raise_if, pure, fetch, or_raise, execute, transaction, redis_get, redis_setex, redis_delete, ok,
  ◌>>=◌, ◌>>◌,
}
use fast_api_community_backe.Security.{Bcrypt, CurrentUser, hash_password, require_password}
use fast_api_community_backe.Models.Users.{
  IdText, has_id, user_at, check_find_password_matching_email, delete_soft_deleted_user,
  email_duplicate, get_deleted_user_info, get_lost_id, get_user_index, id_duplicate,
  insert_user_basic_info, pull_user_info, restore_user_data, soft_delete_user,
  update_is_verified_true, user_email_modify, user_id_modify, user_pw_modify,
}
use fast_api_community_backe.Models.Boards.{
  recalculate_all_user_boards_total_fsize, update_all_user_boards_total_fsize,
}
use fast_api_community_backe.Models.Files.{
  check_restore_exceeding_boards_total_fsize, delete_files, restore_all_user_files,
  soft_delete_all_user_files,
}
use fast_api_community_backe.Models.AuditLogs.{insert_audit_log}
use fast_api_community_backe.Services.Auth.{UserLogin, restore_login}
use fast_api_community_backe.Services.Boards.{period_over, current_time}
use fast_api_community_backe.Services.Files.{allow_max_total_fsize}
use fast_api_community_backe.Services.Users.Register.{send_mail}

unfoldable pub user_info_services : CurrentUser → Exec User
unfolding pull_user_info
user_info_services current_user = do
  user_data ← fetch (pull_user_info current_user.index)
  or_raise user_data (http 404 Detail.no_user)

-- The two hourly jobs; they differ in `delete_files`.
module _ (text : IdText) where
  unfoldable pub anonymize_user : Exec (Unit {0})
  unfolding delete_soft_deleted_user
  anonymize_user = execute (delete_soft_deleted_user text)

  unfoldable pub delete_user_perman : Exec (Unit {0})
  unfolding delete_soft_deleted_user delete_files
  delete_user_perman = do execute (delete_soft_deleted_user text); execute delete_files

-- `user_id[:-2] + "**"` for an id of more than four characters
unfoldable pub mask : String → String
mask String.[] = "**"
mask (String.◌∷◌ c String.[]) = "**"
mask (String.◌∷◌ c (String.◌∷◌ d String.[])) = "**"
mask (String.◌∷◌ c (String.◌∷◌ d (String.◌∷◌ e s))) =
    String.◌∷◌ c (mask (String.◌∷◌ d (String.◌∷◌ e s)))

abbrev more_than_four : String → Bool
more_than_four (String.◌∷◌ _ (String.◌∷◌ _ (String.◌∷◌ _ (String.◌∷◌ _ (String.◌∷◌ _ _))))) = true
more_than_four _ = false

unfoldable pub masked_user_id : String → String
unfolding mask
masked_user_id user_id = if more_than_four user_id then mask user_id else user_id

-- The index of the id that was found is not None; the column target_index takes no NULL.
unfoldable pub find_id_services : Bool → String → String → Exec String
unfolding get_lost_id get_user_index masked_user_id insert_audit_log
find_id_services sent name email = do
  found ← fetch (get_lost_id name email)
  user_id ← or_raise found (http 404 Detail.no_matching_email)
  found_index ← fetch (get_user_index user_id)
  user_index ← or_raise found_index type_error
  execute (insert_audit_log "FIND_ID" "USER" user_index user_index user_id)
  send_mail sent email
  pure (masked_user_id user_id)

module _ (bcrypt : Bcrypt) where
  -- with the temporary password that was drawn
  unfoldable pub find_password_services :
      Bool → String → String → String → String → String → Exec (Unit {0})
  unfolding check_find_password_matching_email hash_password get_user_index user_pw_modify
      insert_audit_log
  find_password_services sent id name email temp_password salt = do
    matching_email ← fetch (check_find_password_matching_email id name email)
    raise_if (is_none matching_email) (http 404 Detail.no_matching_email)
    found_index ← fetch (get_user_index id)
    user_index ← or_raise found_index type_error
    transaction (do
      execute (user_pw_modify (hash_password bcrypt temp_password salt) user_index)
      execute
          (insert_audit_log "ISSUE_TEMPORARY_PASSWORD (FIND_PW)" "USER" user_index user_index id))
    send_mail sent email

  unfoldable pub user_withdraw_services : String → CurrentUser → Exec (Unit {0})
  unfolding soft_delete_user soft_delete_all_user_files update_all_user_boards_total_fsize
      insert_audit_log
  user_withdraw_services password current_user = do
    require_password bcrypt password current_user
    transaction (do
      execute (soft_delete_user DeletedBy.user current_user.index)
      execute (soft_delete_all_user_files DeletedBy.user_cascade current_user.index)
      execute (update_all_user_boards_total_fsize 0 current_user.index)
      execute
          (insert_audit_log "DELETE" "USER" current_user.index current_user.index current_user.id))

  -- UPDATE of the id under its UNIQUE constraint: another row with the id is refused
  abbrev unique_user_id_modify : String → ℕ → Exec (Unit {0})
  unique_user_id_modify new_id user_index = do
    taken ← fetch (λ now db. any_row (λ u. has_id new_id u && not (user_at user_index u)) db.users)
    raise_if taken unique_violation
    execute (user_id_modify new_id user_index)

  unfoldable pub user_id_modify_services : String → String → CurrentUser → Exec (Unit {0})
  unfolding id_duplicate user_id_modify insert_audit_log
  user_id_modify_services password new_id current_user = do
    require_password bcrypt password current_user
    duplicate ← fetch (id_duplicate new_id)
    raise_if (not (is_none duplicate)) (http 409 Detail.id_taken)
    transaction (do
      unique_user_id_modify new_id current_user.index
      execute (
          insert_audit_log "MODIFY_ID" "USER" current_user.index current_user.index
            current_user.id))

  unfoldable pub user_pw_modify_services : String → String → String → CurrentUser → Exec (Unit {0})
  unfolding hash_password user_pw_modify insert_audit_log
  user_pw_modify_services password new_password salt current_user = do
    require_password bcrypt password current_user
    transaction (do
      execute (user_pw_modify (hash_password bcrypt new_password salt) current_user.index)
      execute (
          insert_audit_log "MODIFY_PASSWORD" "USER" current_user.index current_user.index
            current_user.id))

  -- `email_duplicate(conn, data.new_email) is None` has no `await`: a coroutine is not None, so
  -- the 409 is never raised and the query is never sent.
  unfoldable pub user_email_modify_services : String → String → CurrentUser → Exec (Unit {0})
  unfolding user_email_modify insert_audit_log
  user_email_modify_services password new_email current_user = do
    require_password bcrypt password current_user
    raise_if false (http 409 Detail.email_taken)
    is_verified ← redis_get (RedisKey.email_verified new_email)
    raise_if (is_none is_verified) (http 403 Detail.email_not_verified)
    transaction (do
      execute (user_email_modify new_email current_user.index)
      execute (
          insert_audit_log "MODIFY_EMAIL" "USER" current_user.index current_user.index
            current_user.id))

  unfoldable pub restore_user_services : UserLogin → Exec (Unit {0})
  unfolding restore_login get_deleted_user_info check_restore_exceeding_boards_total_fsize
      restore_user_data restore_all_user_files recalculate_all_user_boards_total_fsize
      insert_audit_log
  restore_user_services form = do
    found ← restore_login bcrypt form
    login ← or_raise found (http 401 Detail.bad_credentials)
    found_deleted ← fetch (get_deleted_user_info login.index)
    deleted_user_info ← or_raise found_deleted (http 404 Detail.no_user)
    now ← fetch current_time
    raise_if (period_over 7 now deleted_user_info.deleted_at) (http 403 Detail.period_elapsed)
    raise_if (not (is_by DeletedBy.user deleted_user_info.deleted_by))
        (http 403 Detail.deleted_by_admin)
    exceeding_boards ←
        fetch (check_restore_exceeding_boards_total_fsize login.index allow_max_total_fsize)
    raise_if (not (is_none exceeding_boards)) (http 400 Detail.total_size_exceeded)
    transaction (do
      execute (restore_user_data form.id)
      execute (restore_all_user_files login.index 30)
      execute (recalculate_all_user_boards_total_fsize login.index)
      execute (insert_audit_log "RESTORE" "USER" login.index login.index form.id))
