-- ===== src/Services/Users/Passwords.antt =====
-- app/services/user.py and app/services/auth.py: a login with a temporary password.
use fast_api_community_backe.Common.{
  ◌≡◌, refl, ◌∙◌, String, Bool, true, false, ◌&&◌, some, and_left, and_right, and_both, ◌==◌, arith,
  str_eq, is_none, find_row, update_where, if◌then◌else◌,
}
use fast_api_community_backe.Common.Table.Laws.{find_row-narrower, find_row-All, All-intro}
use fast_api_community_backe.Common.Table.Finding.{find_row-update}
use fast_api_community_backe.Db.{User}
use fast_api_community_backe.Exec.{State, Detail, ok, err, http, ◌>>=◌}
use fast_api_community_backe.Security.{Bcrypt, Tokens, create_access_token, create_refresh_token}
use fast_api_community_backe.Models.Users.{live_id, user_at, set_password}
use fast_api_community_backe.Services.Auth.{is_false, token_login_services}
use fast_api_community_backe.Services.Users.{find_password_services}

module _ (tokens : Tokens) (bcrypt : Bcrypt) (id name email temp salt : String) (s : State)
    (u : User) where
  abbrev matching : User → Bool
  matching v =
      str_eq v.id id && (str_eq v.name name && (str_eq v.email email && is_none v.deleted_at))

  -- the row behind the reset
  abbrev pub reset_row : User
  reset_row = set_password (bcrypt.hashpw temp salt) s.now u

  found_behind :
      find_row (live_id id) s.db.users ≡ some u
      → find_row
          (live_id id)
          (update_where (user_at u.index) (set_password (bcrypt.hashpw temp salt) s.now) s.db.users)
        ≡ some reset_row
  found_behind found =
      let here : u.index == u.index ≡ true = ground arith in
      find_row-update (live_id id) (user_at u.index) (set_password (bcrypt.hashpw temp salt) s.now)
        s.db.users (λ y. refl) found
      ∙ rw here refl

  found_matching :
      find_row (live_id id) s.db.users ≡ some u
      → str_eq u.name name ≡ true
      → str_eq u.email email ≡ true
      → find_row matching s.db.users ≡ some u
  found_matching found named mailed =
      find_row-narrower (live_id id) matching s.db.users narrower found passes
    where
      narrower : (y : User) → matching y ≡ true → live_id id y ≡ true
      narrower y h =
          let rest =
            and_right (str_eq y.id id)
              (str_eq y.name name && (str_eq y.email email && is_none y.deleted_at)) h in
          let rest' =
            and_right (str_eq y.name name) (str_eq y.email email && is_none y.deleted_at) rest in
          and_both
            (and_left (str_eq y.id id)
              (str_eq y.name name && (str_eq y.email email && is_none y.deleted_at)) h)
            (and_right (str_eq y.email email) (is_none y.deleted_at) rest')

      live : live_id id u ≡ true
      live =
          (find_row-All (λ x. Unit {0}) (live_id id) s.db.users
            (All-intro (λ x. Unit {0}) s.db.users (λ x. tt)) found).0

      passes : matching u ≡ true
      passes = and_both (and_left (str_eq u.id id) (is_none u.deleted_at) live) (
          and_both named (and_both mailed (and_right (str_eq u.id id) (is_none u.deleted_at) live)))

  -- A live, verified user who asks for a temporary password with the right name and address can
  -- log in with it at once, also when the mail with it could not be sent and the answer is 500.
  pub token_login-find_password :
      (sent : Bool)
      → find_row (live_id id) s.db.users ≡ some u
      → str_eq u.name name ≡ true
      → str_eq u.email email ≡ true
      → is_false u.is_verified ≡ false
      → let (r, t) = find_password_services bcrypt sent id name email temp salt s in
        let sub = tokens.str u.index in
        (r ≡ (if sent then ok tt else err (http 500 Detail.mail_failed)))
        × ((token_login_services tokens bcrypt (record { id = id; password = temp }) t).0
            ≡ ok (create_access_token tokens sub s.now, create_refresh_token tokens sub s.now))
  unfolding find_password_services token_login_services ◌>>=◌
  token_login-find_password true found named mailed verified =
      rw
        (
          found_matching found named mailed,
          found,
          found_behind found,
          bcrypt.checkpw-hashpw temp salt,
          verified,
        )
        (refl, refl)
  token_login-find_password false found named mailed verified =
      rw
        (
          found_matching found named mailed,
          found,
          found_behind found,
          bcrypt.checkpw-hashpw temp salt,
          verified,
        )
        (refl, refl)
