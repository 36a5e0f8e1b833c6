-- ===== src/Services/Auth.antt =====
-- app/services/auth.py, and the logout of app/api/auth.py.
pub mod Rules
pub mod Consistent
pub mod Sessions
use fast_api_community_backe.Common.{
  ◌*◌, String, Bool, true, false, not, Option, none, some, str_eq,
}
use fast_api_community_backe.Db.{User}
use fast_api_community_backe.Exec.{
  Exec, Detail, RedisKey, RedisValue, http, raise, raise_if, pure, fetch, or_raise, execute,
  redis_get, redis_setex, redis_delete, ◌>>=◌, ◌>>◌,
}
use fast_api_community_backe.Security.{
  Bcrypt, Tokens, Decoded, CurrentUser, verify_password, create_access_token, create_refresh_token,
  refresh_token_expire_days,
}
use fast_api_community_backe.Models.Users.{get_info_by_id, pull_pw_restore_login}
use fast_api_community_backe.Models.AuditLogs.{insert_audit_log}
use fast_api_community_backe.Services.Boards.{current_time}

-- the form of a login
pub record UserLogin : Type 0 where
  pub id : String
  pub password : String

abbrev pub if_verified : Bool → User → Option User
if_verified true u = some u
if_verified false u = none

module _ (bcrypt : Bcrypt) where
  unfoldable pub checked : String → Option User → Exec (Option User)
  unfolding verify_password
  checked password none = pure none
  checked password (some u) = do
    matches ← verify_password bcrypt password u.password
    pure (if_verified matches u)

  unfoldable pub login : UserLogin → Exec (Option User)
  unfolding get_info_by_id verify_password checked
  login form = do login_data ← fetch (get_info_by_id form.id); checked form.password login_data

  -- The source returns the row's index.
  unfoldable pub restore_login : UserLogin → Exec (Option User)
  unfolding pull_pw_restore_login verify_password checked
  restore_login form = do
    login_data ← fetch (pull_pw_restore_login form.id)
    checked form.password login_data

-- `user_info["is_verified"] == False`; NULL passes
abbrev pub is_false : Option Bool → Bool
is_false none = false
is_false (some b) = not b

-- `not stored_token or stored_token != received_token`
abbrev pub differs : Option RedisValue → String → Bool
differs (some (RedisValue.text stored)) received = not (str_eq stored received)
differs _ received = true

module _ (tokens : Tokens) where
  abbrev refresh_subject : Decoded → Exec String
  refresh_subject (Decoded.payload (some sub)) = pure sub
  refresh_subject (Decoded.payload none) = raise (http 401 Detail.bad_credentials)
  refresh_subject Decoded.expired_signature = raise (http 401 Detail.token_expired)
  refresh_subject Decoded.jwt_error = raise (http 401 Detail.bad_credentials)

  unfoldable pub refresh_access_token_services : String → Exec String
  unfolding create_access_token
  refresh_access_token_services refresh_token = do
    now ← fetch current_time
    user_id ← refresh_subject (tokens.decode refresh_token now)
    stored_token ← redis_get (RedisKey.refresh_user user_id)
    raise_if (differs stored_token (tokens.sha256 refresh_token)) (http 401 Detail.token_expired)
    pure (create_access_token tokens user_id now)

  -- The tokens are made at `now`.
  unfoldable pub token_login_services : Bcrypt → UserLogin → Exec (String × String)
  unfolding login create_access_token create_refresh_token insert_audit_log
  token_login_services bcrypt form = do
    found ← login bcrypt form
    user_info ← or_raise found (http 401 Detail.bad_credentials)
    raise_if (is_false user_info.is_verified) (http 403 Detail.email_not_verified)
    now ← fetch current_time
    let sub = tokens.str user_info.index
    let access_token = create_access_token tokens sub now
    let refresh_token = create_refresh_token tokens sub now
    redis_setex (RedisKey.refresh_user sub) (refresh_token_expire_days * 24 * 60 * 60)
        (RedisValue.text (tokens.sha256 refresh_token))
    execute (insert_audit_log "LOGIN" "USER" user_info.index user_info.index form.id)
    pure (access_token, refresh_token)

  -- The handler deletes the two cookies as well.
  unfoldable pub token_logout : CurrentUser → Exec (Unit {0})
  token_logout current_user = redis_delete (RedisKey.refresh_user (tokens.str current_user.index))
