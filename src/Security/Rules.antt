-- ===== src/Security/Rules.antt =====
-- The proof rules for the checks of the password, of the cookie and of the role.
use fast_api_community_backe.Common.{
  ℕ, List, Bool, false, not, is_none, Option, none, refl, String, arith, true, ◌≡◌, ◌≢◌, some,
  find_row, ap, sym, ◌∙◌, if◌then◌else◌,
}
use fast_api_community_backe.Common.Table.Laws.{find_row-All, find_row-narrower, All-intro}
use text.Mathlib.Text.{starts_with}
use fast_api_community_backe.Db.{User}
use fast_api_community_backe.Exec.{
  Error, unique_violation, Detail, Result, State, Exec, or_raise, err, http, ok, ◌>>=◌,
}
use fast_api_community_backe.Exec.Rules.{by_assoc, by_some, by_fetch, by_guard, by_value}
use fast_api_community_backe.Security.{
  Tokens, Decoded, payload, expired_signature, jwt_error, subject, verify_token, actual_token,
  until_space, after_space, get_current_user, require_admin, is_admin, Bcrypt, CurrentUser,
  require_password, verify_password,
}
use fast_api_community_backe.Models.Users.{user_at, live_user_at}

pub require_password_passes :
    (bcrypt : Bcrypt) (password : String) (current_user : CurrentUser) (s : State) (u : User)
    → find_row (live_user_at current_user.index) s.db.users ≡ some u
    → bcrypt.checkpw password u.password ≡ some true
    → require_password bcrypt password current_user s ≡ (ok u, s)
unfolding require_password verify_password or_raise ◌>>=◌
require_password_passes bcrypt password current_user s u e t = rw (e, t) refl

module _ {B : Type 0} (Q : Result B × State → Type 0) (bcrypt : Bcrypt) where
  -- The check of the password reads, and raises or gives the caller's row.
  pub by_password :
      (password : String) (current_user : CurrentUser) (f : User → Exec B) (s : State)
      → ((e : Error) → e ≢ unique_violation → Q (err e, s))
      → ((u : User)
          → find_row (live_user_at current_user.index) s.db.users ≡ some u
          → bcrypt.checkpw password u.password ≡ some true
          → Q (f u s))
      → Q ((require_password bcrypt password current_user >>= f) s)
  unfolding require_password verify_password
  by_password password current_user f s h k = by_assoc Q _ _ _ s (
      by_fetch Q _ _ s (
        by_assoc Q _ _ _ s (
          by_some Q _ _ _ s (h _ (λ e. cc)) λ u found. by_assoc Q _ _ _ s (
            by_some Q _ _ _ s (h _ (λ e. cc)) λ matches checked. by_assoc Q _ _ _ s (
              by_guard Q _ _ _ s (h _ (λ e. cc)) λ right.
                by_value Q _ f s (k u found (checked ∙ ap some (is_true matches right))))))))
    where
      is_true : (b : Bool) → not b ≡ false → b ≡ true
      is_true true e = refl
      is_true false e = cc

index_at :
    (i : ℕ) (row : User) (users : List User) → find_row (user_at i) users ≡ some row → row.index ≡ i
index_at i row users e =
    let (at, _) =
      find_row-All (λ _. Unit {0}) (user_at i) users (All-intro (λ _. Unit {0}) users λ _. tt) e in
    ground (arith, at)

-- The row with an index that is not withdrawn is the live row with that index.
found_live :
    (i : ℕ) (row : User) (users : List User)
    → find_row (user_at i) users ≡ some row
    → not (is_none row.deleted_at) ≡ false
    → find_row (live_user_at row.index) users ≡ some row
found_live i row users e live =
    let (at, _) =
      find_row-All (λ _. Unit {0}) (user_at i) users (All-intro (λ _. Unit {0}) users λ _. tt) e in
    find_row-narrower (user_at i) (live_user_at row.index) users
      (λ u passes. ground (arith, at, passes)) e (ground (arith, live))

live_row : (row : User) → not (is_none row.deleted_at) ≡ false → row.deleted_at ≡ none
live_row row live = none_of row.deleted_at live
  where
    none_of : (o : Option ℕ) → not (is_none o) ≡ false → o ≡ none
    none_of none e = refl
    none_of (some n) e = cc

-- The cookie holds a token, bare or behind the word Bearer, whose `sub`, read as a number, is the
-- index of the caller; the row with this index is not withdrawn and gives the caller's id and role.
abbrev pub SignedInAs : Tokens → Option String → State → CurrentUser → User → Type 0
SignedInAs tokens cookie s u row =
    (token : String) × (sub : String) × (cookie ≡ some token)
    × (tokens.decode
          (if starts_with token "Bearer " then until_space (after_space token) else token) s.now
        ≡ payload (some sub))
    × (tokens.int sub ≡ some u.index)
    × (find_row (live_user_at u.index) s.db.users ≡ some row)
    × (row.index ≡ u.index)
    × (row.deleted_at ≡ none)
    × (row.id ≡ u.id)
    × (row.role ≡ u.role)

module _ {B : Type 0} (Q : Result B × State → Type 0) (tokens : Tokens) where
  by_subject :
      (d : Decoded) (f : String → Exec B) (s : State)
      → ((e : Error) → Q (err e, s))
      → ((sub : String) → d ≡ payload (some sub) → Q (f sub s))
      → Q ((subject tokens d >>= f) s)
  unfolding ◌>>=◌
  by_subject (payload (some sub)) f s h k = k sub refl
  by_subject (payload none) f s h k = h _
  by_subject expired_signature f s h k = h _
  by_subject jwt_error f s h k = h _

  by_token :
      (cookie : Option String) (f : String → Exec B) (s : State)
      → ((e : Error) → Q (err e, s))
      → ((sub token : String)
          → cookie ≡ some token
          → tokens.decode (actual_token token) s.now ≡ payload (some sub)
          → Q (f sub s))
      → Q ((verify_token tokens cookie >>= f) s)
  unfolding verify_token ◌>>=◌
  by_token none f s h k = h _
  by_token (some token) f s h k =
      by_subject (tokens.decode (actual_token token) s.now) f s h
        λ sub decoded. k sub token refl decoded

  -- The check of the cookie reads, and raises or names a user whose row is there and not withdrawn.
  pub by_signed_in :
      (cookie : Option String) (f : CurrentUser → Exec B) (s : State)
      → ((e : Error) → Q (err e, s))
      → ((u : CurrentUser) (row : User) → SignedInAs tokens cookie s u row → Q (f u s))
      → Q ((get_current_user tokens cookie >>= f) s)
  unfolding get_current_user actual_token
  by_signed_in cookie f s h k = by_assoc Q _ _ _ s (
      by_token cookie _ s h λ sub token here decoded. by_assoc Q _ _ _ s (
        by_some Q _ _ _ s (h _) λ i number. by_assoc Q _ _ _ s (
          by_fetch Q _ _ s (
            by_assoc Q _ _ _ s (
              by_some Q _ _ _ s (h _) λ row found. by_assoc Q _ _ _ s (
                by_guard Q _ _ _ s (h _) λ live. by_value Q _ f s (
                  k _ row (
                    token,
                    sub,
                    here,
                    decoded,
                    number ∙ ap some (sym (index_at i row s.db.users found)),
                    found_live i row s.db.users found live,
                    refl,
                    live_row row live,
                    refl,
                    refl,
                  ))))))))

  pub by_current_user :
      (cookie : Option String) (f : CurrentUser → Exec B) (s : State)
      → ((e : Error) → Q (err e, s))
      → ((u : CurrentUser) → Q (f u s))
      → Q ((get_current_user tokens cookie >>= f) s)
  by_current_user cookie f s h k = by_signed_in cookie f s h λ u row signed. k u

  pub by_admin_role :
      (u : CurrentUser) (f : CurrentUser → Exec B) (s : State)
      → Q (err (http 403 Detail.not_admin), s)
      → (is_admin tokens u.role ≡ true → Q (f u s))
      → Q ((require_admin tokens u >>= f) s)
  unfolding require_admin
  by_admin_role u f s h k =
      by_assoc Q _ _ _ s (by_guard Q _ _ _ s h λ role. by_value Q _ f s (k (ground (arith, role))))
