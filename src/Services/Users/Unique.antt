-- ===== src/Services/Users/Unique.antt =====
-- The ids of users: the services refuse a taken id before the table does.
use fast_api_community_backe.Common.{
  ◌≡◌, ◌≢◌, refl, String, Bool, true, false, not, ◌&&◌, List, [], ◌∷◌, find_row, any_row, is_none,
  inl, inr, Bool-cases,
}
use fast_api_community_backe.Exec.{Result, State, err, unique_violation, redis_get, redis_delete}
use fast_api_community_backe.Exec.Rules.{
  by_guard, by_pass, by_fetch, by_ok, by_execute, by_assoc, by_last_execute, by_transaction, undo,
}
use fast_api_community_backe.Security.{Bcrypt, CurrentUser}
use fast_api_community_backe.Security.Rules.{by_password}
use fast_api_community_backe.Db.{User}
use fast_api_community_backe.Models.Users.{has_id, id_of, user_at}
use fast_api_community_backe.Services.Users.Register.{UserRegister, register_user_services}
use fast_api_community_backe.Services.Users.{user_id_modify_services}

abbrev IsNoViolation : Result (Unit {0}) × State → Type 0
IsNoViolation r = r.0 ≢ err unique_violation

-- the test of the table, where the service's query has found no row
not_taken :
    (id : String) (q : User → Bool) (users : List User)
    → not (is_none (id_of (find_row (has_id id) users))) ≡ false
    → any_row (λ u. has_id id u && q u) users ≡ false
unfolding find_row any_row
not_taken id q [] e = refl
not_taken id q (u ∷ users) e = elim (Bool-cases (has_id id u)) [
  | inl t ↦ let found : true ≡ false = rw t at e in cc
  | inr t ↦ rw t (not_taken id q users (rw t at e))
]

not_taken_any :
    (id : String) (users : List User)
    → not (is_none (id_of (find_row (has_id id) users))) ≡ false
    → any_row (has_id id) users ≡ false
unfolding find_row any_row
not_taken_any id [] e = refl
not_taken_any id (u ∷ users) e = elim (Bool-cases (has_id id u)) [
  | inl t ↦ let found : true ≡ false = rw t at e in cc
  | inr t ↦ rw t (not_taken_any id users (rw t at e))
]

-- A registration never fails by the UNIQUE constraint on the id.
pub register_user-unique_violation :
    (bcrypt : Bcrypt) (form : UserRegister) (salt : String) (s : State)
    → (register_user_services bcrypt form salt s).0 ≢ err unique_violation
unfolding register_user_services redis_get redis_delete
register_user-unique_violation bcrypt form salt s =
    let Q = IsNoViolation in
    by_ok Q _ _ s refl (
      by_guard Q _ _ _ s (λ e. cc)
        λ verified. by_assoc Q _ _ _ s (
          by_fetch Q _ _ s (
            by_guard Q _ _ _ s (λ e. cc)
              λ id_free. by_assoc Q _ _ _ s (
                by_fetch Q _ _ s (
                  by_guard Q _ _ _ s (λ e. cc)
                    λ email_free. by_assoc Q _ _ _ s (
                      by_ok Q _ _ s refl (
                        by_assoc Q _ _ _ _ (
                          by_fetch Q _ _ _ (
                            by_assoc Q _ _ _ _ (
                              by_pass Q _ _ _ _ (not_taken_any form.id s.db.users id_free) (
                                by_execute Q _ _ _
                                  (by_ok Q _ _ _ refl (by_last_execute Q _ _ (λ e. cc))))))))))))))

-- The change of an id never fails by the UNIQUE constraint on the id.
pub user_id_modify-unique_violation :
    (bcrypt : Bcrypt) (password new_id : String) (u : CurrentUser) (s : State)
    → (user_id_modify_services bcrypt password new_id u s).0 ≢ err unique_violation
unfolding user_id_modify_services
user_id_modify-unique_violation bcrypt password new_id u s =
    let Q = IsNoViolation in
    let In : Result (Unit {0}) × State → Type 0 = λ r. Q (undo s r) in
    by_password Q bcrypt password u _ s (λ e n same. n (cc))
      λ row found checked. by_fetch Q _ _ s (
        by_guard Q _ _ _ s (λ e. cc)
          λ id_free. by_transaction Q _ s (
            by_assoc In _ _ _ s (
              by_fetch In _ _ s (
                by_assoc In _ _ _ s (
                  by_pass In _ _ _ s
                    (not_taken new_id (λ v. not (user_at u.index v)) s.db.users id_free)
                    (by_execute In _ _ _ (by_last_execute In _ _ (λ e. cc))))))))
