-- ===== src/Exec.antt =====
-- What a service function does: it runs over the state of the server and may raise.
-- `conn.transaction()` undoes the writes to the tables when its body raises, and nothing else:
-- not the identity sequences, Redis or the disk.
pub mod Rules
use fast_api_community_backe.Common.{
  ◌<◌, ◌≤◌, ◌≡◌, arith, ℕ, ◌+◌, ◌*◌, String, Bool, true, false, Option, none, some, List, ◌==◌, leb,
  str_eq, str_eq_self, ◌&&◌, if◌then◌else◌,
}
use fast_api_community_backe.Db.{Db, Board, Query}

-- the `detail` of an HTTPException: one name for each text
pub data Detail : Type 0 where
  bad_credentials bad_password no_permission : Detail
  no_user no_board no_file no_popular_board : Detail
  period_elapsed deleted_by_admin : Detail
  total_size_exceeded file_too_large bad_extension nothing_to_restore : Detail
  id_taken email_taken email_not_verified code_expired code_mismatch : Detail
  no_matching_email mail_failed not_banned withdrawn_user token_expired not_admin : Detail
  no_refresh_token : Detail
  -- the answer 422 of FastAPI to a parameter out of its bounds
  invalid_request : Detail

pub data Error : Type 0 where
  http : ℕ → Detail → Error
  -- a `TypeError`, as from a subscript of `None`; the top-level handler answers 500
  type_error : Error
  -- a `ValueError`, as from `bcrypt.checkpw` on a text that is no hash; answered with 500
  value_error : Error
  -- a UNIQUE constraint refused the row; answered with 500
  unique_violation : Error

pub data Result (A : Type 0) : Type 0 where
  ok : A → Result A
  err : Error → Result A

-- The keys that the code builds as f-strings, one constructor for each prefix.
pub data RedisKey : Type 0 where
  email_auth email_verified : String → RedisKey
  refresh_user : String → RedisKey
  board_view_user : ℕ → ℕ → RedisKey
  board_view_anon : ℕ → String → RedisKey
  popular_boards : ℕ → RedisKey

abbrev pub key_eq : RedisKey → RedisKey → Bool
key_eq (email_auth a) (email_auth b) = str_eq a b
key_eq (email_verified a) (email_verified b) = str_eq a b
key_eq (refresh_user a) (refresh_user b) = str_eq a b
key_eq (board_view_user a u) (board_view_user b v) = a == b && u == v
key_eq (board_view_anon a u) (board_view_anon b v) = a == b && str_eq u v
key_eq (popular_boards a) (popular_boards b) = a == b
key_eq _ _ = false

pub key_eq_self : (k : RedisKey) → key_eq k k ≡ true
key_eq_self (email_auth a) = str_eq_self a
key_eq_self (email_verified a) = str_eq_self a
key_eq_self (refresh_user a) = str_eq_self a
key_eq_self (board_view_user a u) = ground arith
key_eq_self (board_view_anon a u) =
    let same : a == a ≡ true = ground arith in rw same (str_eq_self u)
key_eq_self (popular_boards a) = ground arith

pub data RedisValue : Type 0 where
  text : String → RedisValue
  rows : List Board → RedisValue

-- a value and the time from which it is gone
pub record Entry : Type 0 where
  pub value : RedisValue
  pub expires : ℕ

pub record State : Type 0 where
  pub db : Db
  pub user_seq : ℕ
  pub board_seq : ℕ
  pub file_seq : ℕ
  pub redis : RedisKey → Option Entry
  pub disk : List String
  pub outbox : List String
  pub now : ℕ

abbrev pub Exec : Type 0 → Type 0
Exec A = State → Result A × State

module _ {A : Type 0} where
  unfoldable pub pure : A → Exec A
  pure a s = (ok a, s)

  unfoldable pub raise : Error → Exec A
  raise e s = (err e, s)

  -- `fetchval`, `fetchrow`, `fetch`
  unfoldable pub fetch : Query A → Exec A
  fetch q s = (ok (q s.now s.db), s)

  unfoldable pub or_raise : Option A → Error → Exec A
  or_raise none e s = (err e, s)
  or_raise (some a) e s = (ok a, s)

  -- `async with conn.transaction(): …`
  unfoldable pub transaction : Exec A → Exec A
  transaction m s =
      let (r, s') = m s in elim r [ ok a ↦ (ok a, s') | err e ↦ (err e, record s' { db = s.db }) ]

-- `if c: raise e`
unfoldable pub raise_if : Bool → Error → Exec (Unit {0})
raise_if c e s = if c then (err e, s) else (ok tt, s)

-- `conn.execute`
unfoldable pub execute : Query Db → Exec (Unit {0})
execute q s = (ok tt, record s { db = q s.now s.db })

-- the value of a key that has not expired
abbrev pub live_value : ℕ → Option Entry → Option RedisValue
live_value now none = none
live_value now (some e) = if leb e.expires now then none else some e.value

-- `redis_client.get`
unfoldable pub redis_get : RedisKey → Exec (Option RedisValue)
redis_get k s = (ok (live_value s.now (s.redis k)), s)

pub unexpired : (now wait life : ℕ) → wait < life → leb (now + life) (now + wait) ≡ false
unexpired now wait life h = ground (arith, h)

pub expired : (now wait life : ℕ) → life ≤ wait → leb (now + life) (now + wait) ≡ true
expired now wait life h = ground (arith, h)

abbrev pub seconds : ℕ → ℕ
seconds n = n * 1000000

-- `redis_client.setex`, and `set` with `ex`
unfoldable pub redis_setex : RedisKey → ℕ → RedisValue → Exec (Unit {0})
redis_setex k n v s = (
  ok tt,
  record s {
    redis = λ j.
        if key_eq k j then some (record { value = v; expires = s.now + seconds n }) else s.redis j;
  },
)

-- `redis_client.delete`
unfoldable pub redis_delete : RedisKey → Exec (Unit {0})
redis_delete k s = (ok tt, record s { redis = λ j. if key_eq k j then none else s.redis j })

-- what comes behind a call, by how the call ended
abbrev pub after : {A B : Type 0} → Result A × State → (A → Exec B) → Result B × State
after (ok a, s) f = f a s
after (err e, s) f = (err e, s)

infixl 5 ◌>>=◌ ◌>>◌
-- To open this is to open the operations that it joins.
unfoldable pub ◌>>=◌ : {A B : Type 0} → Exec A → (A → Exec B) → Exec B
unfolding pure raise fetch or_raise transaction raise_if execute redis_get redis_setex redis_delete
◌>>=◌ m f s = after (m s) f

abbrev pub ◌>>◌ : {A B : Type 0} → Exec A → Exec B → Exec B
m >> k = m >>= λ _. k
