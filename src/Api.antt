-- ===== src/Api.antt =====
-- app/api/ and app/core/scheduler.py: what a client can ask the server, with the dependencies that
-- FastAPI resolves before a handler, and the hourly jobs. The requests that only read are in
-- Api/Reading.
pub mod Consistent
pub mod Permission
pub mod Access
pub mod Reading
use fast_api_community_backe.Common.{
  ℕ, ◌+◌, String, Bool, Option, none, some, str_eq, List, [], ◌∷◌,
}
use fast_api_community_backe.Exec.{
  Exec, Result, State, RedisKey, redis_delete, Detail, http, raise, raise_if, pure, ok, ◌>>=◌, ◌>>◌,
}
use fast_api_community_backe.Security.{Bcrypt, Tokens, CurrentUser, get_current_user, require_admin}
use fast_api_community_backe.Models.Users.{IdText}
use fast_api_community_backe.Models.Boards.Listing.{Arrangement}
use fast_api_community_backe.Services.Boards.{
  create_boards_services, title_modify_services, content_modify_services, boards_delete_services,
  restore_board_services, delete_boards_perman,
}
use fast_api_community_backe.Services.Boards.Views.{
  PopularOption, view_board, get_popular_board_services,
}
use fast_api_community_backe.Services.Files.{
  Upload, upload_files_services, delete_files_services, delete_all_services, restore_file_services,
  restore_all_file_services, delete_files_perman_services,
}
use fast_api_community_backe.Services.Auth.{
  UserLogin, token_login_services, refresh_access_token_services, token_logout,
}
use fast_api_community_backe.Services.Users.Register.{
  UserRegister, register_user_services, send_verification_email_services,
  check_verification_code_services,
}
use fast_api_community_backe.Services.Users.{
  find_id_services, find_password_services, restore_user_services, user_withdraw_services,
  user_id_modify_services, user_pw_modify_services, user_email_modify_services, anonymize_user,
  delete_user_perman,
}
use fast_api_community_backe.Services.Admin.{
  DeleteOption, FileDeleteOption, admin_register_notice_services, admin_user_ban_services,
  admin_user_unban_services, admin_delete_user_services, admin_delete_boards_services,
  admin_delete_one_file_services, admin_delete_all_board_files_services,
}
use fast_api_community_backe.Services.Admin.Restore.{
  admin_restore_user_services, admin_restore_board_services, admin_restore_file_services,
  admin_restore_all_files_services,
}

-- without a login; with the salt, the code, the password, the id that are drawn, the mail's success,
-- and the order in which the database gives the popular boards
pub data PublicRequest : Type 0 where
  register_user : UserRegister → String → PublicRequest
  send_verification_code : Bool → String → String → PublicRequest
  check_verification_code : String → String → PublicRequest
  token_login : UserLogin → PublicRequest
  refresh_access_token : Option String → PublicRequest
  find_id : Bool → String → String → PublicRequest
  find_password : Bool → String → String → String → String → String → PublicRequest
  restore_my_account : UserLogin → PublicRequest
  get_board_detail : Option String → Option String → String → ℕ → PublicRequest
  get_popular_board : Arrangement → PopularOption → PublicRequest

-- `Depends(get_current_user)`
pub data UserRequest : Type 0 where
  logout : UserRequest
  withdraw_user : String → UserRequest
  update_my_id : String → String → UserRequest
  update_my_password : String → String → String → UserRequest
  update_my_email : String → String → UserRequest
  register_boards : String → String → UserRequest
  update_board_title update_content : ℕ → String → String → UserRequest
  delete_board restore_boards : ℕ → String → UserRequest
  upload_files : Upload → ℕ → UserRequest
  delete_single_file delete_all_files restore_file restore_all_file : ℕ → String → UserRequest

-- `Depends(require_admin)`
pub data AdminRequest : Type 0 where
  register_notice : String → String → AdminRequest
  user_blacklist_ban user_blacklist_unban : ℕ → AdminRequest
  admin_delete_user admin_delete_boards : ℕ → DeleteOption → AdminRequest
  admin_delete_one_file admin_delete_all_board_files : ℕ → FileDeleteOption → AdminRequest
  admin_restore_user admin_restore_board : ℕ → AdminRequest
  admin_restore_file admin_restore_all_files : ℕ → AdminRequest

-- the jobs of `start_scheduler`
pub data Job : Type 0 where
  anonymize delete_users delete_boards : Job
  delete_files : (String → Bool) → Job

-- A request carries its cookie. Between two of them time passes.
pub data Event : Type 0 where
  by_anyone : PublicRequest → Event
  by_user : Option String → UserRequest → Event
  by_admin : Option String → AdminRequest → Event
  job : Job → Event
  wait : ℕ → Event

-- a call whose answer does not matter here
unfoldable pub discard : {A : Type 0} → Exec A → Exec (Unit {0})
discard m = do m; pure tt

module _ (bcrypt : Bcrypt) (tokens : Tokens) (text : IdText) where
  -- `if not refresh_token` takes an empty cookie as a missing one
  abbrev pub refresh : Option String → Exec (Unit {0})
  refresh none = raise (http 401 Detail.no_refresh_token)
  refresh (some refresh_token) = do
    raise_if (str_eq refresh_token "") (http 401 Detail.no_refresh_token)
    discard (refresh_access_token_services tokens refresh_token)

  abbrev pub handle_public : PublicRequest → Exec (Unit {0})
  handle_public (register_user form salt) = register_user_services bcrypt form salt
  handle_public (send_verification_code sent email code) =
      send_verification_email_services sent email code
  handle_public (check_verification_code email code) = check_verification_code_services email code
  handle_public (token_login form) = discard (token_login_services tokens bcrypt form)
  handle_public (refresh_access_token cookie) = refresh cookie
  handle_public (find_id sent name email) = discard (find_id_services sent name email)
  handle_public (find_password sent id name email temp_password salt) =
      find_password_services bcrypt sent id name email temp_password salt
  handle_public (restore_my_account form) = restore_user_services bcrypt form
  handle_public (get_board_detail access_token anonymous_id drawn i) =
      discard (view_board tokens access_token anonymous_id drawn i)
  handle_public (get_popular_board arrangement option) =
      discard (get_popular_board_services arrangement option)

  abbrev pub handle_user : UserRequest → CurrentUser → Exec (Unit {0})
  handle_user logout u = token_logout tokens u
  handle_user (withdraw_user password) u = do
    redis_delete (RedisKey.refresh_user (tokens.str u.index))
    user_withdraw_services bcrypt password u
  handle_user (update_my_id password id) u = user_id_modify_services bcrypt password id u
  handle_user (update_my_password password new_password salt) u = do
    redis_delete (RedisKey.refresh_user (tokens.str u.index))
    user_pw_modify_services bcrypt password new_password salt u
  handle_user (update_my_email password email) u =
      user_email_modify_services bcrypt password email u
  handle_user (register_boards title content) u = discard (create_boards_services title content u)
  handle_user (update_board_title i password title) u =
      title_modify_services bcrypt i password title u
  handle_user (update_content i password content) u =
      content_modify_services bcrypt i password content u
  handle_user (delete_board i password) u = boards_delete_services bcrypt i password u
  handle_user (restore_boards i password) u = restore_board_services bcrypt i password u
  handle_user (upload_files file i) u = upload_files_services file i u
  handle_user (delete_single_file j password) u = delete_files_services bcrypt j password u
  handle_user (delete_all_files i password) u = delete_all_services bcrypt i password u
  handle_user (restore_file j password) u = restore_file_services bcrypt j password u
  handle_user (restore_all_file i password) u = restore_all_file_services bcrypt i password u

  abbrev pub handle_admin : AdminRequest → CurrentUser → Exec (Unit {0})
  handle_admin (register_notice title content) u =
      discard (admin_register_notice_services title content u)
  handle_admin (user_blacklist_ban i) u = discard (admin_user_ban_services i u)
  handle_admin (user_blacklist_unban i) u = admin_user_unban_services i u
  handle_admin (admin_delete_user i option) u = admin_delete_user_services text i option u
  handle_admin (admin_delete_boards i option) u = admin_delete_boards_services i option u
  handle_admin (admin_delete_one_file j option) u = admin_delete_one_file_services j option u
  handle_admin (admin_delete_all_board_files i option) u =
      admin_delete_all_board_files_services i option u
  handle_admin (admin_restore_user i) u = admin_restore_user_services i u
  handle_admin (admin_restore_board i) u = admin_restore_board_services i u
  handle_admin (admin_restore_file j) u = admin_restore_file_services j u
  handle_admin (admin_restore_all_files i) u = admin_restore_all_files_services i u

  abbrev pub run_job : Job → Exec (Unit {0})
  run_job anonymize = anonymize_user text
  run_job delete_users = delete_user_perman text
  run_job delete_boards = delete_boards_perman
  run_job (delete_files fails) = delete_files_perman_services fails

  unfoldable pub handle : Event → Exec (Unit {0})
  unfolding get_current_user require_admin
  handle (by_anyone r) = handle_public r
  handle (by_user cookie r) = do
    current_user ← get_current_user tokens cookie
    handle_user r current_user
  handle (by_admin cookie r) = do
    current_user ← get_current_user tokens cookie
    require_admin tokens current_user
    handle_admin r current_user
  handle (job j) = run_job j
  handle (wait n) = λ s. (ok tt, record s { now = s.now + n })

  -- the state after a sequence of events
  unfoldable pub serve : List Event → State → State
  unfolding handle
  serve [] s = s
  serve (e ∷ es) s = serve es (handle e s).1
