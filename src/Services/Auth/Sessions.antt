-- ===== src/Services/Auth/Sessions.antt =====
-- A login opens a session that the refresh token continues; a logout ends it.
use fast_api_community_backe.Common.{
  str_eq_self, ℕ, ◌+◌, ◌<◌, ◌≡◌, refl, String, true, false, some, find_row, arith,
}
use fast_api_community_backe.Db.{User}
use fast_api_community_backe.Exec.{unexpired, State, err, ok, http, Detail, ◌>>=◌}
use fast_api_community_backe.Security.{
  Bcrypt, Tokens, Decoded, CurrentUser, create_access_token, create_refresh_token,
}
use fast_api_community_backe.Models.Users.{live_id}
use fast_api_community_backe.Services.Auth.{
  UserLogin, is_false, token_login_services, refresh_access_token_services, token_logout,
}

module _ (tokens : Tokens) (bcrypt : Bcrypt) (form : UserLogin) (s : State) where
  -- A login with the id and the password of a live, verified row gives two tokens; with the second
  -- one the user gets a new access token at any later time of the next 30 days.
  pub refresh_access_token-token_login :
      (u : User) (wait : ℕ)
      → find_row (live_id form.id) s.db.users ≡ some u
      → bcrypt.checkpw form.password u.password ≡ some true
      → is_false u.is_verified ≡ false
      → wait < 2592000000000
      → let (r, t) = token_login_services tokens bcrypt form s in
        let sub = tokens.str u.index in
        let token = create_refresh_token tokens sub s.now in
        let later = s.now + wait in
        (r ≡ ok (create_access_token tokens sub s.now, token))
        × ((refresh_access_token_services tokens token (record t { now = later })).0
            ≡ ok (create_access_token tokens sub later))
  unfolding token_login_services refresh_access_token_services create_refresh_token ◌>>=◌
  refresh_access_token-token_login u wait found checked' verified short =
      rw (found, checked', verified)
        (
          refl,
          rw
              (
                tokens.decode-encode (tokens.str u.index) (s.now + 2592000000000) (s.now + wait)
                    (omega (arith, short)),
                str_eq_self (tokens.str u.index),
                unexpired s.now wait 2592000000000 short,
                str_eq_self
                    (tokens.sha256 (create_refresh_token tokens (tokens.str u.index) s.now)),
              )
              refl,
        )

  -- After a logout a refresh token whose subject is the index of the user is not accepted: the
  -- answer is 401.
  pub refresh_access_token-token_logout :
      (u : CurrentUser) (token : String)
      → tokens.decode token s.now ≡ Decoded.payload (some (tokens.str u.index))
      → (refresh_access_token_services tokens token (token_logout tokens u s).1).0
        ≡ err (http 401 Detail.token_expired)
  unfolding token_logout refresh_access_token_services ◌>>=◌
  refresh_access_token-token_logout u token decoded =
      rw (decoded, str_eq_self (tokens.str u.index)) refl
