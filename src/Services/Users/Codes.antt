-- ===== src/Services/Users/Codes.antt =====
-- The codes that verify an email address.
use fast_api_community_backe.Common.{
  str_eq_self, ℕ, ◌+◌, ◌≤◌, ◌<◌, ◌≡◌, refl, String, Bool, true, false, some, arith, str_eq, leb,
}
use fast_api_community_backe.Exec.{
  unexpired, expired, RedisKey, RedisValue, State, err, ok, http, Detail, ◌>>=◌, seconds,
  live_value,
}
use fast_api_community_backe.Services.Users.Register.{
  send_verification_email_services, check_verification_code_services,
}

module _ (email code : String) (s : State) where
  -- A code that was mailed and is not empty verifies the address within 300 seconds, and the address
  -- then counts as verified for 1800.
  pub check_verification_code-send :
      (wait : ℕ)
      → str_eq code "" ≡ false
      → wait < seconds 300
      → let t = (send_verification_email_services true email code s).1 in
        let later = s.now + wait in
        let (r, v) = check_verification_code_services email code (record t { now = later }) in
        (r ≡ ok tt)
        × ((later' : ℕ)
            → later' < later + seconds 1800
            → live_value later' (v.redis (RedisKey.email_verified email))
              ≡ some (RedisValue.text "true"))
  unfolding send_verification_email_services check_verification_code_services ◌>>=◌
  check_verification_code-send wait written short =
      rw (str_eq_self email, unexpired s.now wait (seconds 300) short, written, str_eq_self code)
        (
          refl,
          λ later' short'.
              let alive : leb (s.now + wait + seconds 1800) later' ≡ false =
                ground (arith, short') in
              rw (str_eq_self email, alive) refl,
        )

  -- From 300 seconds on, no code is accepted and the state stays as it is.
  pub check_verification_code-late :
      (wait : ℕ) (sent : Bool) (tried : String)
      → seconds 300 ≤ wait
      → let t = (send_verification_email_services sent email code s).1 in
        let late = record t { now = s.now + wait } in
        check_verification_code_services email tried late
        ≡ (err (http 404 Detail.code_expired), late)
  unfolding send_verification_email_services check_verification_code_services ◌>>=◌
  check_verification_code-late wait true tried long =
      rw (str_eq_self email, expired s.now wait (seconds 300) long) refl
  check_verification_code-late wait false tried long =
      rw (str_eq_self email, expired s.now wait (seconds 300) long) refl
