-- ===== src/Services/Users/Register.antt =====
-- app/services/user.py: registration, and the codes that verify an email address.
use Prim.Native.Char.{code}
use fast_api_community_backe.Common.{
  ℕ, ◌+◌, String, Bool, true, false, not, Option, none, some, ◌∷◌, str_eq, is_none, any_row,
  if◌then◌else◌,
}
use fast_api_community_backe.Exec.{
  Exec, Detail, RedisKey, RedisValue, http, unique_violation, raise, raise_if, fetch, or_raise,
  execute, redis_get, redis_setex, redis_delete, ok, ◌>>=◌, ◌>>◌,
}
use fast_api_community_backe.Security.{Bcrypt, hash_password}
use fast_api_community_backe.Models.Users.{
  has_id, email_duplicate, id_duplicate, insert_user_basic_info, update_is_verified_true,
}

unfoldable pub user_id_duplicate_services : String → Exec (Unit {0})
unfolding id_duplicate
user_id_duplicate_services user_id = do
  duplicate ← fetch (id_duplicate user_id)
  raise_if (not (is_none duplicate)) (http 409 Detail.id_taken)

-- `if await email_duplicate(…)`: the empty text is falsy, and so is None
abbrev pub is_truthy_text : Option String → Bool
is_truthy_text none = false
is_truthy_text (some s) = not (str_eq s "")

unfoldable pub user_email_duplicate_services : String → Exec (Unit {0})
unfolding email_duplicate
user_email_duplicate_services user_email = do
  duplicate ← fetch (email_duplicate user_email)
  raise_if (is_truthy_text duplicate) (http 409 Detail.email_taken)

-- the next value of the identity column of "user"
abbrev pub next_user_index : Exec ℕ
next_user_index s = (ok s.user_seq, record s { user_seq = s.user_seq + 1 })

-- INSERT under the constraint `user_id_key UNIQUE (id)`
unfoldable pub insert_unique_user : String → String → String → String → Exec (Unit {0})
unfolding insert_user_basic_info
insert_unique_user id password name email = do
  index ← next_user_index
  taken ← fetch (λ now db. any_row (has_id id) db.users)
  raise_if taken unique_violation
  execute (insert_user_basic_info index id password name email)

pub record UserRegister : Type 0 where
  pub id : String
  pub password : String
  pub name : String
  pub email : String

module _ (bcrypt : Bcrypt) where
  unfoldable pub register_user_services : UserRegister → String → Exec (Unit {0})
  unfolding user_id_duplicate_services user_email_duplicate_services hash_password
      insert_unique_user update_is_verified_true
  register_user_services form salt = do
    is_verified ← redis_get (RedisKey.email_verified form.email)
    raise_if (is_none is_verified) (http 403 Detail.email_not_verified)
    user_id_duplicate_services form.id
    user_email_duplicate_services form.email
    insert_unique_user form.id (hash_password bcrypt form.password salt) form.name form.email
    redis_delete (RedisKey.email_verified form.email)
    execute (update_is_verified_true form.email)

-- `aiosmtplib.send`; whether it raises is up to the mail server
abbrev pub send_mail : Bool → String → Exec (Unit {0})
send_mail true receiver s = (ok tt, record s { outbox = receiver ∷ s.outbox })
send_mail false receiver s = raise (http 500 Detail.mail_failed) s

-- with the six digits that `random.randint` gave
unfoldable pub send_verification_email_services : Bool → String → String → Exec (Unit {0})
send_verification_email_services sent receiver_email verification_code = do
  redis_setex (RedisKey.email_auth receiver_email) 300 (RedisValue.text verification_code)
  send_mail sent receiver_email

abbrev pub code_of : Option RedisValue → Option String
code_of (some (RedisValue.text code)) = if str_eq code "" then none else some code
code_of _ = none

unfoldable pub check_verification_code_services : String → String → Exec (Unit {0})
check_verification_code_services email code = do
  stored ← redis_get (RedisKey.email_auth email)
  verification_code ← or_raise (code_of stored) (http 404 Detail.code_expired)
  raise_if (not (str_eq verification_code code)) (http 401 Detail.code_mismatch)
  redis_delete (RedisKey.email_auth email)
  redis_setex (RedisKey.email_verified email) 1800 (RedisValue.text "true")
