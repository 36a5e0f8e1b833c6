-- ===== src/Services/Users/Accounts.antt =====
-- Registration, the codes of email addresses and the changes of an account leave boards and files
-- alone.
use fast_api_community_backe.Common.{◌∷◌, refl, String, Bool, true, false}
use fast_api_community_backe.Exec.{
  Result, State, Exec, redis_get, redis_setex, redis_delete, ◌>>=◌, Detail, err, http,
}
use fast_api_community_backe.Exec.Rules.{
  by_guard, by_fetch, by_some, by_ok, by_execute, by_pure, by_assoc, by_last_execute,
  by_transaction, by_commit, by_commit_then,
}
use fast_api_community_backe.Security.{Bcrypt, CurrentUser}
use fast_api_community_backe.Security.Rules.{by_password}
use fast_api_community_backe.Consistency.{IsConsistent, Kept, KeptIn}
use fast_api_community_backe.Services.Users.Register.{
  UserRegister, send_mail, register_user_services, send_verification_email_services,
  check_verification_code_services,
}
use fast_api_community_backe.Services.Users.{
  find_id_services, find_password_services, user_id_modify_services, user_pw_modify_services,
  user_email_modify_services,
}

pub register_user-IsConsistent :
    (bcrypt : Bcrypt) (form : UserRegister) (salt : String) (s : State)
    → IsConsistent s
    → IsConsistent (register_user_services bcrypt form salt s).1
unfolding register_user_services redis_get redis_delete
register_user-IsConsistent bcrypt form salt s h = by_ok Kept _ _ s refl (
    by_guard Kept _ _ _ s h λ verified. by_assoc Kept _ _ _ s (
      by_fetch Kept _ _ s (
        by_guard Kept _ _ _ s h λ id_free. by_assoc Kept _ _ _ s (
          by_fetch Kept _ _ s (
            by_guard Kept _ _ _ s h λ email_free. by_assoc Kept _ _ _ s (
              by_ok Kept _ _ s refl (
                by_assoc Kept _ _ _ _ (
                  by_fetch Kept _ _ _ (
                    by_assoc Kept _ _ _ _ (
                      by_guard Kept _ _ _ _ (record { keys = h.keys; totals = h.totals })
                        λ unique. by_execute Kept _ _ _ (
                          by_ok Kept _ _ _ refl (
                            by_last_execute Kept _ _
                              (record { keys = h.keys; totals = h.totals })))))))))))))

pub send_mail-IsConsistent :
    (sent : Bool) (receiver : String) (s : State)
    → IsConsistent s
    → IsConsistent (send_mail sent receiver s).1
unfolding ◌>>=◌
send_mail-IsConsistent true receiver s h = record { keys = h.keys; totals = h.totals }
send_mail-IsConsistent false receiver s h = h

pub send_verification_email-IsConsistent :
    (sent : Bool) (email code : String) (s : State)
    → IsConsistent s
    → IsConsistent (send_verification_email_services sent email code s).1
unfolding send_verification_email_services redis_setex
send_verification_email-IsConsistent sent email code s h =
    by_ok Kept _ _ s refl
      (send_mail-IsConsistent sent email _ (record { keys = h.keys; totals = h.totals }))

pub check_verification_code-IsConsistent :
    (email code : String) (s : State)
    → IsConsistent s
    → IsConsistent (check_verification_code_services email code s).1
unfolding check_verification_code_services redis_get redis_delete redis_setex
check_verification_code-IsConsistent email code s h = by_ok Kept _ _ s refl (
    by_some Kept _ _ _ s h λ stored at.
      by_guard Kept _ _ _ s h
        λ same. by_ok Kept _ _ s refl (record { keys = h.keys; totals = h.totals }))

module _ {B : Type 0} (Q : Result B × State → Type 0) where
  -- A mail that is sent, or the error of one that is not.
  by_mail :
      (sent : Bool) (receiver : String) (k : Unit {0} → Exec B) (s : State)
      → Q (err (http 500 Detail.mail_failed), s)
      → Q (k tt (record s { outbox = receiver ∷ s.outbox }))
      → Q ((send_mail sent receiver >>= k) s)
  unfolding ◌>>=◌
  by_mail true receiver k s h h' = h'
  by_mail false receiver k s h h' = h

pub find_id-IsConsistent :
    (sent : Bool) (name email : String) (s : State)
    → IsConsistent s
    → IsConsistent (find_id_services sent name email s).1
unfolding find_id_services
find_id-IsConsistent sent name email s h = by_fetch Kept _ _ s (
    by_some Kept _ _ _ s h λ id found. by_fetch Kept _ _ s (
      by_some Kept _ _ _ s h λ index at. by_execute Kept _ _ _ (
        by_mail Kept sent email _ _ (record { keys = h.keys; totals = h.totals })
          (by_pure Kept _ _ (record { keys = h.keys; totals = h.totals })))))

pub find_password-IsConsistent :
    (bcrypt : Bcrypt) (sent : Bool) (id name email temp_password salt : String) (s : State)
    → IsConsistent s
    → IsConsistent (find_password_services bcrypt sent id name email temp_password salt s).1
unfolding find_password_services
find_password-IsConsistent bcrypt sent id name email temp_password salt s h = by_fetch Kept _ _ s (
    by_guard Kept _ _ _ s h λ matches. by_fetch Kept _ _ s (
      by_some Kept _ _ _ s h λ index at.
        by_commit_then Kept _ _ _ s
          (send_mail-IsConsistent sent email _ (record { keys = h.keys; totals = h.totals }))))

module _ (bcrypt : Bcrypt) (password : String) (u : CurrentUser) (s : State)
    (h : IsConsistent s) where
  pub user_id_modify-IsConsistent :
      (new_id : String) → IsConsistent (user_id_modify_services bcrypt password new_id u s).1
  unfolding user_id_modify_services
  user_id_modify-IsConsistent new_id =
      by_password Kept bcrypt password u _ s (λ e n. h)
        λ user found checked. by_fetch Kept _ _ s (
          by_guard Kept _ _ _ s h λ id_free. by_transaction Kept _ s (
            by_assoc (KeptIn s) _ _ _ s (
              by_fetch (KeptIn s) _ _ s (
                by_assoc (KeptIn s) _ _ _ s (
                  by_guard (KeptIn s) _ _ _ s h λ unique. by_execute (KeptIn s) _ _ _ (
                    by_last_execute (KeptIn s) _ _
                      (record { keys = h.keys; totals = h.totals })))))))

  pub user_pw_modify-IsConsistent :
      (new_password salt : String)
      → IsConsistent (user_pw_modify_services bcrypt password new_password salt u s).1
  unfolding user_pw_modify_services
  user_pw_modify-IsConsistent new_password salt =
      by_password Kept bcrypt password u _ s (λ e n. h)
        λ user found checked. by_commit Kept _ _ s (record { keys = h.keys; totals = h.totals })

  pub user_email_modify-IsConsistent :
      (new_email : String)
      → IsConsistent (user_email_modify_services bcrypt password new_email u s).1
  unfolding user_email_modify_services redis_get
  user_email_modify-IsConsistent new_email =
      by_password Kept bcrypt password u _ s (λ e n. h)
        λ user found checked. by_guard Kept _ _ _ s h λ free. by_ok Kept _ _ s refl (
          by_guard Kept _ _ _ s h
            λ verified. by_commit Kept _ _ s (record { keys = h.keys; totals = h.totals }))
