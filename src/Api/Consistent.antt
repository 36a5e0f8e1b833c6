-- ===== src/Api/Consistent.antt =====
-- Every request and every job keeps the invariant of the tables, but for the request
-- `admin_delete_all_board_files`.
use fast_api_community_backe.Common.{Bool, true, false, none, some, ◌≡◌, List, [], ◌∷◌}
use fast_api_community_backe.Exec.{
  Result, State, Exec, RedisKey, redis_delete, raise, ok, err, after, ◌>>=◌, ◌>>◌,
}
use fast_api_community_backe.Exec.Rules.{by_guard}
use fast_api_community_backe.Security.{Bcrypt, Tokens, CurrentUser}
use fast_api_community_backe.Security.Rules.{by_current_user, by_admin_role}
use fast_api_community_backe.Models.Users.{IdText}
use fast_api_community_backe.Services.Auth.{token_logout}
use fast_api_community_backe.Services.Users.{user_withdraw_services, user_pw_modify_services}
use fast_api_community_backe.Consistency.{IsConsistent, Kept}
use fast_api_community_backe.Services.Boards.Consistent.{
  title_modify-IsConsistent, content_modify-IsConsistent, boards_delete-IsConsistent,
  create_boards-IsConsistent, restore_board-IsConsistent, delete_boards_perman-IsConsistent,
}
use fast_api_community_backe.Services.Boards.Viewing.{view_board-IsConsistent}
use fast_api_community_backe.Services.Boards.Popular.{get_popular_board-IsConsistent}
use fast_api_community_backe.Services.Files.Consistent.{
  delete_all-IsConsistent, restore_all_file-IsConsistent, delete_files-IsConsistent,
  restore_file-IsConsistent, delete_files_perman-IsConsistent, upload_files-IsConsistent,
}
use fast_api_community_backe.Services.Auth.Consistent.{
  token_login-IsConsistent, refresh_access_token-IsConsistent, token_logout-IsConsistent,
}
use fast_api_community_backe.Services.Users.Consistent.{
  user_withdraw-IsConsistent, restore_user-IsConsistent, delete_user_perman-IsConsistent,
  anonymize_user-IsConsistent,
}
use fast_api_community_backe.Services.Users.Accounts.{
  register_user-IsConsistent, send_verification_email-IsConsistent,
  check_verification_code-IsConsistent, find_id-IsConsistent, find_password-IsConsistent,
  user_id_modify-IsConsistent, user_pw_modify-IsConsistent, user_email_modify-IsConsistent,
}
use fast_api_community_backe.Services.Admin.Consistent.{
  admin_register_notice-IsConsistent, admin_user_ban-IsConsistent, admin_user_unban-IsConsistent,
  admin_restore_user-IsConsistent, admin_restore_board-IsConsistent,
  admin_restore_all_files-IsConsistent,
}
use fast_api_community_backe.Services.Admin.Removals.{
  admin_delete_user-IsConsistent, admin_delete_boards-IsConsistent,
}
use fast_api_community_backe.Services.Admin.SingleFiles.{
  admin_delete_one_file-IsConsistent, admin_restore_file-IsConsistent,
}
use fast_api_community_backe.Api.{
  PublicRequest, UserRequest, AdminRequest, Job, Event, register_user, send_verification_code,
  check_verification_code, token_login, refresh_access_token, find_id, find_password,
  restore_my_account, get_board_detail, get_popular_board, logout, withdraw_user, update_my_id,
  update_my_password, update_my_email, register_boards, update_board_title, update_content,
  delete_board, restore_boards, upload_files, delete_single_file, delete_all_files, restore_file,
  restore_all_file, register_notice, user_blacklist_ban, user_blacklist_unban, admin_delete_user,
  admin_delete_boards, admin_delete_one_file, admin_delete_all_board_files, admin_restore_user,
  admin_restore_board, admin_restore_file, admin_restore_all_files, anonymize, delete_users,
  delete_boards, delete_files, by_anyone, by_user, by_admin, job, wait, discard, handle_public,
  handle_user, handle_admin, run_job, handle, serve,
}

-- the requests that refresh the totals they make stale
abbrev pub refreshes : AdminRequest → Bool
refreshes (admin_delete_all_board_files _ _) = false
refreshes _ = true

abbrev pub IsRefreshing : Event → Type 0
IsRefreshing (by_admin _ r) = refreshes r ≡ true
IsRefreshing _ = Unit

abbrev pub AreRefreshing : List Event → Type 0
AreRefreshing [] = Unit
AreRefreshing (e ∷ es) = IsRefreshing e × AreRefreshing es

discarded :
    {A : Type 0} (r : Result A × State)
    → IsConsistent r.1
    → IsConsistent (after {B = Unit {0}} r (λ _ t. (ok tt, t))).1
discarded (ok a, t) h = h
discarded (err e, t) h = h

discard-IsConsistent :
    {A : Type 0} (m : Exec A) (s : State) → IsConsistent (m s).1 → IsConsistent (discard m s).1
unfolding discard ◌>>=◌
discard-IsConsistent m s h = discarded (m s) h

module _ (bcrypt : Bcrypt) (tokens : Tokens) (text : IdText) where
  handle_public-IsConsistent :
      (r : PublicRequest) (s : State)
      → IsConsistent s
      → IsConsistent (handle_public bcrypt tokens text r s).1
  unfolding raise
  handle_public-IsConsistent (register_user form salt) s h =
      register_user-IsConsistent bcrypt form salt s h
  handle_public-IsConsistent (send_verification_code sent email code) s h =
      send_verification_email-IsConsistent sent email code s h
  handle_public-IsConsistent (check_verification_code email code) s h =
      check_verification_code-IsConsistent email code s h
  handle_public-IsConsistent (token_login form) s h =
      discard-IsConsistent _ s (token_login-IsConsistent tokens bcrypt form s h)
  handle_public-IsConsistent (refresh_access_token none) s h = h
  handle_public-IsConsistent (refresh_access_token (some token)) s h =
      by_guard Kept _ _ _ s h
        λ there. discard-IsConsistent _ s (refresh_access_token-IsConsistent tokens token s h)
  handle_public-IsConsistent (find_id sent name email) s h =
      discard-IsConsistent _ s (find_id-IsConsistent sent name email s h)
  handle_public-IsConsistent (find_password sent id name email temp_password salt) s h =
      find_password-IsConsistent bcrypt sent id name email temp_password salt s h
  handle_public-IsConsistent (restore_my_account form) s h =
      restore_user-IsConsistent bcrypt form s h
  handle_public-IsConsistent (get_board_detail access_token anonymous_id drawn i) s h =
      discard-IsConsistent _ s
        (view_board-IsConsistent tokens s access_token anonymous_id drawn i h)
  handle_public-IsConsistent (get_popular_board arrangement option) s h =
      discard-IsConsistent _ s (get_popular_board-IsConsistent arrangement option s h)

  -- a service behind the removal of the caller's refresh token
  by_logout :
      (u : CurrentUser) (s : State) (m : Exec (Unit {0}))
      → IsConsistent s
      → ((t : State) → IsConsistent t → IsConsistent (m t).1)
      → IsConsistent ((redis_delete (RedisKey.refresh_user (tokens.str u.index)) >> m) s).1
  unfolding token_logout redis_delete ◌>>=◌
  by_logout u s m h keeps =
      keeps (token_logout tokens u s).1 (token_logout-IsConsistent tokens u s h)

  handle_user-IsConsistent :
      (r : UserRequest) (u : CurrentUser) (s : State)
      → IsConsistent s
      → IsConsistent (handle_user bcrypt tokens text r u s).1
  handle_user-IsConsistent logout u s h = token_logout-IsConsistent tokens u s h
  handle_user-IsConsistent (withdraw_user p) u s h =
      by_logout u s (user_withdraw_services bcrypt p u) h (user_withdraw-IsConsistent bcrypt p u)
  handle_user-IsConsistent (update_my_id p id) u s h = user_id_modify-IsConsistent bcrypt p u s h id
  handle_user-IsConsistent (update_my_password p new_password salt) u s h =
      by_logout u s (user_pw_modify_services bcrypt p new_password salt u) h
        λ t h'. user_pw_modify-IsConsistent bcrypt p u t h' new_password salt
  handle_user-IsConsistent (update_my_email p email) u s h =
      user_email_modify-IsConsistent bcrypt p u s h email
  handle_user-IsConsistent (register_boards title content) u s h =
      discard-IsConsistent _ s (create_boards-IsConsistent title content u s h)
  handle_user-IsConsistent (update_board_title i p title) u s h =
      title_modify-IsConsistent bcrypt i p title u s h
  handle_user-IsConsistent (update_content i p content) u s h =
      content_modify-IsConsistent bcrypt i p content u s h
  handle_user-IsConsistent (delete_board i p) u s h = boards_delete-IsConsistent bcrypt i p u s h
  handle_user-IsConsistent (restore_boards i p) u s h = restore_board-IsConsistent bcrypt i p u s h
  handle_user-IsConsistent (upload_files file i) u s h = upload_files-IsConsistent file i u s h
  handle_user-IsConsistent (delete_single_file j p) u s h =
      delete_files-IsConsistent bcrypt j p u s h
  handle_user-IsConsistent (delete_all_files i p) u s h = delete_all-IsConsistent bcrypt i p u s h
  handle_user-IsConsistent (restore_file j p) u s h = restore_file-IsConsistent bcrypt j p u s h
  handle_user-IsConsistent (restore_all_file i p) u s h =
      restore_all_file-IsConsistent bcrypt i p u s h

  handle_admin-IsConsistent :
      (r : AdminRequest) (u : CurrentUser) (s : State)
      → refreshes r ≡ true
      → IsConsistent s
      → IsConsistent (handle_admin bcrypt tokens text r u s).1
  handle_admin-IsConsistent (register_notice title content) u s e h =
      discard-IsConsistent _ s (admin_register_notice-IsConsistent title content u s h)
  handle_admin-IsConsistent (user_blacklist_ban i) u s e h =
      discard-IsConsistent _ s (admin_user_ban-IsConsistent i u s h)
  handle_admin-IsConsistent (user_blacklist_unban i) u s e h = admin_user_unban-IsConsistent i u s h
  handle_admin-IsConsistent (admin_delete_user i o) u s e h =
      admin_delete_user-IsConsistent text i o u s h
  handle_admin-IsConsistent (admin_delete_boards i o) u s e h =
      admin_delete_boards-IsConsistent i o u s h
  handle_admin-IsConsistent (admin_delete_one_file j o) u s e h =
      admin_delete_one_file-IsConsistent j o u s h
  handle_admin-IsConsistent (admin_delete_all_board_files i o) u s e h = cc
  handle_admin-IsConsistent (admin_restore_user i) u s e h = admin_restore_user-IsConsistent i u s h
  handle_admin-IsConsistent (admin_restore_board i) u s e h =
      admin_restore_board-IsConsistent i u s h
  handle_admin-IsConsistent (admin_restore_file j) u s e h = admin_restore_file-IsConsistent j u s h
  handle_admin-IsConsistent (admin_restore_all_files i) u s e h =
      admin_restore_all_files-IsConsistent i u s h

  run_job-IsConsistent :
      (j : Job) (s : State) → IsConsistent s → IsConsistent (run_job bcrypt tokens text j s).1
  run_job-IsConsistent anonymize s h = anonymize_user-IsConsistent text s h
  run_job-IsConsistent delete_users s h = delete_user_perman-IsConsistent text s h
  run_job-IsConsistent delete_boards s h = delete_boards_perman-IsConsistent s h
  run_job-IsConsistent (delete_files fails) s h = delete_files_perman-IsConsistent fails s h

  pub handle-IsConsistent :
      (e : Event) (s : State)
      → IsRefreshing e
      → IsConsistent s
      → IsConsistent (handle bcrypt tokens text e s).1
  unfolding handle
  handle-IsConsistent (by_anyone r) s g h = handle_public-IsConsistent r s h
  handle-IsConsistent (by_user cookie r) s g h =
      by_current_user Kept tokens cookie _ s (λ e. h) λ u. handle_user-IsConsistent r u s h
  handle-IsConsistent (by_admin cookie r) s g h =
      by_current_user Kept tokens cookie _ s (λ e. h)
        λ u. by_admin_role Kept tokens u _ s h λ role. handle_admin-IsConsistent r u s g h
  handle-IsConsistent (job j) s g h = run_job-IsConsistent j s h
  handle-IsConsistent (wait n) s g h = record { keys = h.keys; totals = h.totals }

  -- Whatever requests, jobs and waits follow one another, when the keys of the tables are sound and
  -- the column total_file_size of each board that is not deleted is the sum of its files that are
  -- not deleted, this is still so afterwards. The one request left out is the administrator's
  -- removal of all files of a board.
  pub serve-IsConsistent :
      (es : List Event) (s : State)
      → AreRefreshing es
      → IsConsistent s
      → IsConsistent (serve bcrypt tokens text es s)
  unfolding serve
  serve-IsConsistent [] s g h = h
  serve-IsConsistent (e ∷ es) s g h =
      serve-IsConsistent es (handle bcrypt tokens text e s).1 g.1 (handle-IsConsistent e s g.0 h)
