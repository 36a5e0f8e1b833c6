-- ===== src/Services/Auth/Rules.antt =====
-- The proof rules for the two logins: they read the tables, and give the row whose password is right.
use fast_api_community_backe.Common.{
  ◌≡◌, sym, ap, ◌∙◌, inl, inr, Bool, true, false, Option, none, some, String, Option-cases,
  find_row,
}
use fast_api_community_backe.Db.{User}
use fast_api_community_backe.Exec.{Result, State, Exec, err, value_error, or_raise, ◌>>=◌}
use fast_api_community_backe.Exec.Rules.{by_assoc, by_fetch}
use fast_api_community_backe.Security.{Bcrypt, verify_password}
use fast_api_community_backe.Models.Users.{live_id, deleted_id}
use fast_api_community_backe.Services.Auth.{UserLogin, if_verified, checked, login, restore_login}

-- the answer is a row that was found, whose password is the one of the form
abbrev pub IsChecked : Bcrypt → String → Option User → Option User → Type 0
IsChecked bcrypt password found answer =
    (u : User)
    → answer ≡ some u
    → (found ≡ some u) × (bcrypt.checkpw password u.password ≡ some true)

module _ {B : Type 0} (Q : Result B × State → Type 0) (bcrypt : Bcrypt) where
  verified_row :
      (password : String) (row : User) (m : Bool)
      → bcrypt.checkpw password row.password ≡ some m
      → IsChecked bcrypt password (some row) (if_verified m row)
  verified_row password row true t u e =
      let same : row ≡ u = cc in (e, sym (ap (λ v. bcrypt.checkpw password v.password) same) ∙ t)
  verified_row password row false t u e = (cc, cc)

  by_checked :
      (password : String) (found : Option User) (f : Option User → Exec B) (s : State)
      → Q (err value_error, s)
      → ((answer : Option User) → IsChecked bcrypt password found answer → Q (f answer s))
      → Q ((checked bcrypt password found >>= f) s)
  unfolding checked verify_password or_raise ◌>>=◌
  by_checked password none f s h k = k none (λ u e. (cc, cc))
  by_checked password (some row) f s h k =
      elim (Option-cases (bcrypt.checkpw password row.password)) [
        | inl t ↦ rw t h
        | inr (m, t) ↦ rw t (k (if_verified m row) (verified_row password row m t))
      ]

  pub by_login :
      (form : UserLogin) (f : Option User → Exec B) (s : State)
      → Q (err value_error, s)
      → ((answer : Option User)
          → IsChecked bcrypt form.password (find_row (live_id form.id) s.db.users) answer
          → Q (f answer s))
      → Q ((login bcrypt form >>= f) s)
  unfolding login
  by_login form f s h k = by_assoc Q _ _ _ s (by_fetch Q _ _ s (by_checked form.password _ f s h k))

  pub by_restore_login :
      (form : UserLogin) (f : Option User → Exec B) (s : State)
      → Q (err value_error, s)
      → ((answer : Option User)
          → IsChecked bcrypt form.password (find_row (deleted_id form.id) s.db.users) answer
          → Q (f answer s))
      → Q ((restore_login bcrypt form >>= f) s)
  unfolding restore_login
  by_restore_login form f s h k =
      by_assoc Q _ _ _ s (by_fetch Q _ _ s (by_checked form.password _ f s h k))
