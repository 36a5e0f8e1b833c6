-- ===== src/Services/Auth/Consistent.antt =====
-- Logging in, refreshing a token and logging out leave boards and files alone.
use fast_api_community_backe.Common.{◌≡◌, refl, String, Option, some}
use fast_api_community_backe.Exec.{
  Result, State, Exec, err, http, Detail, redis_get, redis_setex, redis_delete, ◌>>=◌,
}
use fast_api_community_backe.Exec.Rules.{by_guard, by_fetch, by_some, by_ok, by_execute, by_pure}
use fast_api_community_backe.Security.{Bcrypt, Tokens, Decoded, CurrentUser}
use fast_api_community_backe.Consistency.{IsConsistent, Kept}
use fast_api_community_backe.Services.Auth.Rules.{by_login}
use fast_api_community_backe.Services.Auth.{
  UserLogin, token_login_services, refresh_access_token_services, refresh_subject, token_logout,
}

pub token_login-IsConsistent :
    (tokens : Tokens) (bcrypt : Bcrypt) (form : UserLogin) (s : State)
    → IsConsistent s
    → IsConsistent (token_login_services tokens bcrypt form s).1
unfolding token_login_services redis_setex
token_login-IsConsistent tokens bcrypt form s h = by_login Kept bcrypt form _ s h λ answer checked'.
    (by_some Kept _ _ _ s h λ user found. by_guard Kept _ _ _ s h λ verified. by_fetch Kept _ _ s (
      by_ok Kept _ _ s refl
        (by_execute Kept _ _ _ (by_pure Kept _ _ (record { keys = h.keys; totals = h.totals })))))

module _ {B : Type 0} (Q : Result B × State → Type 0) (tokens : Tokens) where
  by_subject :
      (d : Decoded) (f : String → Exec B) (s : State)
      → ((e : Detail) → Q (err (http 401 e), s))
      → ((sub : String) → d ≡ Decoded.payload (some sub) → Q (f sub s))
      → Q ((refresh_subject tokens d >>= f) s)
  unfolding ◌>>=◌
  by_subject (Decoded.payload (some sub)) f s h k = k sub refl
  by_subject (Decoded.payload Option.none) f s h k = h Detail.bad_credentials
  by_subject Decoded.expired_signature f s h k = h Detail.token_expired
  by_subject Decoded.jwt_error f s h k = h Detail.bad_credentials

pub refresh_access_token-IsConsistent :
    (tokens : Tokens) (token : String) (s : State)
    → IsConsistent s
    → IsConsistent (refresh_access_token_services tokens token s).1
unfolding refresh_access_token_services redis_get
refresh_access_token-IsConsistent tokens token s h = by_fetch Kept _ _ s (
    by_subject Kept tokens _ _ s (λ e. h)
      λ sub decoded. by_ok Kept _ _ s refl (by_guard Kept _ _ _ s h λ same. by_pure Kept _ s h))

pub token_logout-IsConsistent :
    (tokens : Tokens) (u : CurrentUser) (s : State)
    → IsConsistent s
    → IsConsistent (token_logout tokens u s).1
unfolding token_logout redis_delete
token_logout-IsConsistent tokens u s h = record { keys = h.keys; totals = h.totals }
