-- ===== src/Security.antt =====
-- app/core/security.py: passwords, tokens, and who the caller is. bcrypt, the JWT library, SHA-256
-- and the text of numbers are parameters; what the code relies on are the laws of the two records.
pub mod Rules
use Prim.Native.Char.{code}
use Prim.Native.String
use text.Mathlib.Text.{starts_with}
use fast_api_community_backe.Common.{
  ◌==◌, ℕ, ◌+◌, ◌*◌, ◌≤◌, String, ◌≡◌, Bool, true, false, not, Option, none, some, is_none,
  if◌then◌else◌,
}
use fast_api_community_backe.Db.{User, Role, days}
use fast_api_community_backe.Exec.{
  Exec, Error, Detail, http, type_error, value_error, pure, raise, raise_if, err, fetch, or_raise,
  ◌>>=◌, ◌>>◌, seconds,
}
use fast_api_community_backe.Models.Users.{get_user_id_pw, get_current_user_info, get_user_index}

-- `bcrypt.checkpw`, which raises a `ValueError` on a text that is no hash, and `bcrypt.hashpw` with the
-- salt that `gensalt` drew.
pub record Bcrypt : Type 0 where
  pub checkpw : String → String → Option Bool
  pub hashpw : String → String → String
  pub checkpw-hashpw :
      (password salt : String) → checkpw password (hashpw password salt) ≡ some true

-- what `jwt.decode` gives: the payload's `sub`, or one of its two kinds of error
pub data Decoded : Type 0 where
  payload : Option String → Decoded
  expired_signature jwt_error : Decoded

-- `jwt.encode` and `jwt.decode` with the secret key, SHA-256, and `str` and `int` of a number.
pub record Tokens : Type 0 where
  pub encode : String → ℕ → String
  pub decode : String → ℕ → Decoded
  pub sha256 : String → String
  pub str : ℕ → String
  pub int : String → Option ℕ
  pub decode-encode :
      (sub : String) (exp now : ℕ) → now ≤ exp → decode (encode sub exp) now ≡ payload (some sub)
  pub int-str : (n : ℕ) → int (str n) ≡ some n

-- the settings JWT_Auth.ACCESS_TOKEN_EXPIRE_MINUTES and REFRESH_TOKEN_EXPIRE_DAYS
abbrev pub access_token_expire_minutes : ℕ
access_token_expire_minutes = 30

abbrev pub refresh_token_expire_days : ℕ
refresh_token_expire_days = 30

-- what `get_current_user_info` takes from a row
pub record CurrentUser : Type 0 where
  pub index : ℕ
  pub id : String
  pub role : Role

module _ (bcrypt : Bcrypt) where
  unfoldable pub hash_password : String → String → String
  hash_password password salt = bcrypt.hashpw password salt

  unfoldable pub verify_password : String → String → Exec Bool
  verify_password plain_password hashed_password =
      or_raise (bcrypt.checkpw plain_password hashed_password) value_error

  -- How the services that ask for the password again begin: `get_user_id_pw`, then
  -- `if not verify_password(…)`. The subscript of a missing row is a `TypeError`.
  unfoldable pub require_password : String → CurrentUser → Exec User
  unfolding verify_password get_user_id_pw
  require_password password current_user = do
    found ← fetch (get_user_id_pw current_user.index)
    user_info ← or_raise found type_error
    matches ← verify_password password user_info.password
    raise_if (not matches) (http 401 Detail.bad_password)
    pure user_info

-- the text before the first space
abbrev pub until_space : String → String
until_space String.[] = String.[]
until_space (String.◌∷◌ c s) =
    let rest = until_space s in if code c == 32 then String.[] else String.◌∷◌ c rest

-- the text behind the first space
abbrev pub after_space : String → String
after_space String.[] = String.[]
after_space (String.◌∷◌ c s) = let rest = after_space s in if code c == 32 then s else rest

-- `token.split(" ")[1] if token.startswith("Bearer ") else token`
unfoldable pub actual_token : String → String
actual_token token = if starts_with token "Bearer " then until_space (after_space token) else token

module _ (tokens : Tokens) where
  -- `create_access_token` at the time `now`, without `expires_delta`
  unfoldable pub create_access_token : String → ℕ → String
  create_access_token sub now = tokens.encode sub (now + seconds (access_token_expire_minutes * 60))

  unfoldable pub create_refresh_token : String → ℕ → String
  create_refresh_token sub now = tokens.encode sub (now + days refresh_token_expire_days)

  abbrev pub subject : Decoded → Exec String
  subject (payload (some sub)) = pure sub
  subject _ = raise (http 401 Detail.bad_credentials)

  -- The cookie `access_token`.
  unfoldable pub verify_token : Option String → Exec String
  verify_token none s = (err (http 401 Detail.bad_credentials), s)
  verify_token (some token) s = subject (tokens.decode (actual_token token) s.now) s

  unfoldable pub get_current_user : Option String → Exec CurrentUser
  unfolding verify_token get_current_user_info
  get_current_user cookie = do
    sub ← verify_token cookie
    index ← or_raise (tokens.int sub) type_error
    found ← fetch (get_current_user_info index)
    user_info ← or_raise found (http 401 Detail.no_user)
    raise_if (not (is_none user_info.deleted_at)) (http 401 Detail.withdrawn_user)
    pure (record { index = user_info.index; id = user_info.id; role = user_info.role })

  abbrev pub is_admin : Role → Bool
  is_admin Role.admin = true
  is_admin Role.user = false

  unfoldable pub require_admin : CurrentUser → Exec CurrentUser
  require_admin current_user = do
    raise_if (not (is_admin current_user.role)) (http 403 Detail.not_admin)
    pure current_user
