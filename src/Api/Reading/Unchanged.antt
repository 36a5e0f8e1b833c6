-- ===== src/Api/Reading/Unchanged.antt =====
-- app/api/: reading changes nothing, and the lists of an administrator are for administrators.
use fast_api_community_backe.Common.{
  ◌≡◌, refl, ◌⊎◌, inl, inr, String, true, Option, Option-cases, ◌∙◌,
}
use fast_api_community_backe.Db.{User, Role}
use fast_api_community_backe.Exec.{Exec, State, Result, Error, ok, err, after, pure, ◌>>=◌}
use fast_api_community_backe.Exec.Rules.{by_fetch, by_guard, by_some, by_pure, by_last_guard}
use fast_api_community_backe.Security.{Tokens, CurrentUser, is_admin}
use fast_api_community_backe.Security.Rules.{
  SignedInAs, by_signed_in, by_current_user, by_admin_role,
}
use fast_api_community_backe.Models.Users.{pull_user_info}
use fast_api_community_backe.Models.Boards.Listing.{Collation, Search}
use fast_api_community_backe.Services.Boards.Listing.{
  certain_boards_info_services, all_boards_info_services, search_in_title_content_services,
}
use fast_api_community_backe.Services.Users.{user_info_services}
use fast_api_community_backe.Services.Users.Register.{
  user_id_duplicate_services, user_email_duplicate_services,
}
use fast_api_community_backe.Services.Admin.Listing.{
  admin_get_all_users_services, admin_get_specific_user_services, admin_get_specific_board_services,
}
use fast_api_community_backe.Api.{discard}
use fast_api_community_backe.Api.Reading.{
  PublicReading, AdminReading, Reading, search_boards, get_user_boards, get_all_boards,
  check_user_id, check_user_email, get_all_users, get_specific_user, get_specific_board, by_anyone,
  get_my_info, by_admin, read_public, read_admin, read,
}

module _ (tokens : Tokens) (collation : Collation) (search : Search) (s : State) where
  -- a call that leaves the state as it was
  abbrev Leaves : {B : Type 0} → Result B × State → Type 0
  Leaves r = r.1 ≡ s

  discard-Leaves : {A : Type 0} (m : Exec A) → Leaves (m s) → Leaves (discard m s)
  unfolding discard ◌>>=◌
  discard-Leaves m h = of_outcome (m s) h
    where
      of_outcome : {A : Type 0} (r : Result A × State) → Leaves r → Leaves (after r (λ a. pure tt))
      of_outcome (ok a, t) e = e
      of_outcome (err e, t) h' = h'

  read_public-Leaves : (r : PublicReading) → Leaves (read_public tokens collation search r s)
  unfolding search_in_title_content_services certain_boards_info_services all_boards_info_services
      user_id_duplicate_services user_email_duplicate_services
  read_public-Leaves (search_boards keyword page limit) = by_guard Leaves _ _ _ s refl λ fits.
      discard-Leaves (search_in_title_content_services search keyword page limit)
        (by_fetch Leaves _ _ s (by_fetch Leaves _ _ s (by_pure Leaves _ s refl)))
  read_public-Leaves (get_user_boards user_id page limit) = by_guard Leaves _ _ _ s refl λ fits.
      discard-Leaves (certain_boards_info_services user_id page limit) (
        by_fetch Leaves _ _ s (
          by_guard Leaves _ _ _ s refl λ live. by_fetch Leaves _ _ s (
            by_fetch Leaves _ _ s
              (by_guard Leaves _ _ _ s refl λ some_row. by_pure Leaves _ s refl))))
  read_public-Leaves (get_all_boards page limit) = by_guard Leaves _ _ _ s refl λ fits.
      discard-Leaves (all_boards_info_services collation page limit) (
        by_fetch Leaves _ _ s (
          by_fetch Leaves _ _ s (by_guard Leaves _ _ _ s refl λ some_row. by_pure Leaves _ s refl)))
  read_public-Leaves (check_user_id id) =
      by_fetch Leaves _ _ s (by_last_guard Leaves _ _ _ refl λ free. refl)
  read_public-Leaves (check_user_email email) =
      by_fetch Leaves _ _ s (by_last_guard Leaves _ _ _ refl λ free. refl)

  user_info-Leaves : (u : CurrentUser) → Leaves (user_info_services u s)
  unfolding user_info_services ◌>>=◌
  user_info-Leaves u = elim (Option-cases (pull_user_info u.index s.now s.db)) [
    | inl e ↦ rw e refl
    | inr (row, e) ↦ rw e refl
  ]

  read_admin-Leaves : (r : AdminReading) → Leaves (read_admin tokens collation search r s)
  unfolding admin_get_all_users_services admin_get_specific_user_services
      admin_get_specific_board_services
  read_admin-Leaves get_all_users =
      discard-Leaves admin_get_all_users_services (by_fetch Leaves _ _ s (by_pure Leaves _ s refl))
  read_admin-Leaves (get_specific_user i) = by_guard Leaves _ _ _ s refl λ fits.
      discard-Leaves (admin_get_specific_user_services i)
        (by_fetch Leaves _ _ s (by_some Leaves _ _ _ s refl λ row there. by_pure Leaves _ s refl))
  read_admin-Leaves (get_specific_board i) = by_guard Leaves _ _ _ s refl λ fits.
      discard-Leaves (admin_get_specific_board_services i) (
        by_fetch Leaves _ _ s
          (by_guard Leaves _ _ _ s refl λ owned. by_fetch Leaves _ _ s (by_pure Leaves _ s refl)))

  -- A request that only reads leaves the state as it was, whoever sends it.
  pub read-unchanged : (r : Reading) → (read tokens collation search r s).1 ≡ s
  unfolding read
  read-unchanged (by_anyone r) = read_public-Leaves r
  read-unchanged (get_my_info cookie) =
      by_current_user Leaves tokens cookie _ s (λ e. refl)
        λ u. discard-Leaves (user_info_services u) (user_info-Leaves u)
  read-unchanged (by_admin cookie r) =
      by_current_user Leaves tokens cookie _ s (λ e. refl)
        λ u. by_admin_role Leaves tokens u _ s refl λ role. read_admin-Leaves r

  admin_of : (r : Role) → is_admin tokens r ≡ true → r ≡ Role.admin
  admin_of Role.admin e = refl
  admin_of Role.user e = cc

  role_of :
      {cookie : Option String} (u : CurrentUser) (row : User)
      → SignedInAs tokens cookie s u row
      → row.role ≡ u.role
  role_of u row (_, _, _, _, _, _, _, _, _, role) = role

  -- The lists of an administrator are answered with an error unless the token in the cookie, decoded
  -- now, names the index of a row that is not withdrawn and has the role ADMIN.
  pub read-by_admin :
      (cookie : Option String) (r : AdminReading)
      → ((e : Error) × ((read tokens collation search (by_admin cookie r) s).0 ≡ err e))
        ⊎ ((u : CurrentUser) × (row : User) × SignedInAs tokens cookie s u row
            × (row.role ≡ Role.admin))
  unfolding read
  read-by_admin cookie r =
      let Q : Result (Unit {0}) × State → Type 0 = λ o.
        ((e : Error) × (o.0 ≡ err e))
        ⊎ ((u : CurrentUser) × (row : User) × SignedInAs tokens cookie s u row
            × (row.role ≡ Role.admin)) in
      by_signed_in Q tokens cookie _ s (λ e. inl (e, refl))
        λ u row signed.
          by_admin_role Q tokens u _ s (inl (_, refl))
            λ is. inr (u, row, signed, role_of u row signed ∙ admin_of u.role is)
