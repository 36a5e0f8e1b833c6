-- ===== src/Api/Access.antt =====
-- Who may change what: a request that its caller may not make leaves the state as it was.
use fast_api_community_backe.Common.{
  ap, ℕ, String, Bool, true, false, none, some, is_none, not, str_eq, List, ◌≡◌, refl, ◌⊎◌, inl,
  inr, Option, find_row, arith,
}
use fast_api_community_backe.Db.{User, Role}
use fast_api_community_backe.Exec.{
  Exec, Result, State, RedisKey, redis_get, redis_delete, ◌>>=◌, ◌>>◌,
}
use fast_api_community_backe.Exec.Rules.{
  by_guard, by_fetch, by_ok, by_commit, by_commit_four, by_transaction, by_assoc, by_execute,
  by_last_execute, undo,
}
use fast_api_community_backe.Security.{Bcrypt, Tokens, CurrentUser, is_admin}
use fast_api_community_backe.Security.Rules.{SignedInAs, by_password, by_signed_in, by_admin_role}
use fast_api_community_backe.Models.Users.{IdText, id_of}
use fast_api_community_backe.Services.Auth.{token_logout}
use fast_api_community_backe.Services.Files.{Upload, upload_files_services}
use fast_api_community_backe.Services.Users.{
  user_withdraw_services, user_id_modify_services, user_pw_modify_services,
  user_email_modify_services,
}
use fast_api_community_backe.Api.{
  UserRequest, AdminRequest, logout, withdraw_user, update_my_id, update_my_password,
  update_my_email, register_boards, update_board_title, update_content, delete_board,
  restore_boards, upload_files, delete_single_file, delete_all_files, restore_file,
  restore_all_file, handle_user, by_user, by_admin, handle,
}
use fast_api_community_backe.Api.Permission.{Permits, UnchangedOr, owned, known}
use fast_api_community_backe.Api.Permission.Guards.{
  title_modify-Permits, content_modify-Permits, boards_delete-Permits, delete_all-Permits,
  restore_all_file-Permits, restore_board-Permits, delete_files-Permits, restore_file-Permits,
}

id_is_free :
    (id : String) (users : List User)
    → not (is_none (id_of (find_row (λ (v : User). str_eq v.id id) users))) ≡ false
    → find_row (λ (v : User). str_eq v.id id) users ≡ none
id_is_free id users e = nothing (find_row (λ (v : User). str_eq v.id id) users) e
  where
    nothing : (o : Option User) → not (is_none (id_of o)) ≡ false → o ≡ none
    nothing none h = refl
    nothing (some v) h = cc

module _ (bcrypt : Bcrypt) (password : String) (u : CurrentUser) (s : State) where
  user_withdraw-Permits :
      UnchangedOr
        (Permits bcrypt (withdraw_user password) u s)
        s
        (user_withdraw_services bcrypt password u s)
  unfolding user_withdraw_services
  user_withdraw-Permits =
      let Q = UnchangedOr (Permits bcrypt (withdraw_user password) u s) s in
      by_password Q bcrypt password u _ s (λ e n. inl refl)
        λ row found checked.
          by_commit_four Q _ _ _ _ s (inr (known bcrypt password u s row found checked))

  user_id_modify-Permits :
      (new_id : String)
      → UnchangedOr
          (Permits bcrypt (update_my_id password new_id) u s)
          s
          (user_id_modify_services bcrypt password new_id u s)
  unfolding user_id_modify_services
  user_id_modify-Permits new_id =
      let Q = UnchangedOr (Permits bcrypt (update_my_id password new_id) u s) s in
      let In : Result (Unit {0}) × State → Type 0 = λ r. Q (undo s r) in
      by_password Q bcrypt password u _ s (λ e n. inl refl)
        λ row found checked. by_fetch Q _ _ s (
          by_guard Q _ _ _ s (inl refl) λ id_free. by_transaction Q _ s (
            by_assoc In _ _ _ s (
              by_fetch In _ _ s (
                by_assoc In _ _ _ s (
                  by_guard In _ _ _ s (inl refl) λ unique. by_execute In _ _ _ (
                    by_last_execute In _ _ (
                      inr (
                        known bcrypt password u s row found checked,
                        id_is_free new_id s.db.users id_free,
                      ))))))))

  user_pw_modify-Permits :
      (new_password salt : String)
      → UnchangedOr
          (Permits bcrypt (update_my_password password new_password salt) u s)
          s
          (user_pw_modify_services bcrypt password new_password salt u s)
  unfolding user_pw_modify_services
  user_pw_modify-Permits new_password salt =
      let Q = UnchangedOr (Permits bcrypt (update_my_password password new_password salt) u s) s in
      by_password Q bcrypt password u _ s (λ e n. inl refl)
        λ row found checked. by_commit Q _ _ s (inr (known bcrypt password u s row found checked))

  user_email_modify-Permits :
      (new_email : String)
      → UnchangedOr
          (Permits bcrypt (update_my_email password new_email) u s)
          s
          (user_email_modify_services bcrypt password new_email u s)
  unfolding user_email_modify_services redis_get
  user_email_modify-Permits new_email =
      let Q = UnchangedOr (Permits bcrypt (update_my_email password new_email) u s) s in
      by_password Q bcrypt password u _ s (λ e n. inl refl)
        λ row found checked. by_guard Q _ _ _ s (inl refl) λ free. by_ok Q _ _ s refl (
          by_guard Q _ _ _ s (inl refl) λ verified.
            by_commit Q _ _ s
              (inr (known bcrypt password u s row found checked, λ e. cc (ap is_none e, verified))))

-- The guards of an upload, whatever the write and the answer do behind them.
upload_files-Permits :
    (bcrypt : Bcrypt) (file : Upload) (i : ℕ) (u : CurrentUser) (s : State)
    → UnchangedOr (Permits bcrypt (upload_files file i) u s) s (upload_files_services file i u s)
unfolding upload_files_services
upload_files-Permits bcrypt file i u s =
    let P = Permits bcrypt (upload_files file i) u s in
    let Q = UnchangedOr P s in
    by_fetch Q _ _ s (
      by_fetch Q _ _ s (
        by_guard Q _ _ _ s (inl refl) λ exists'. by_guard Q _ _ _ s (inl refl) λ permitted.
          by_guard Q _ _ _ s (inl refl) λ allowed. by_fetch Q _ _ s (
            by_guard Q _ _ _ s (inl refl) λ total. by_guard Q _ _ _ s (inl refl) λ small. inr (
              owned i u s permitted,
              (ground (arith, allowed), ground (arith, small), ground (arith, total)),
            ))))

-- the requests whose handler deletes the caller's refresh token first
abbrev pub ends_session : UserRequest → Bool
ends_session (withdraw_user _) = true
ends_session (update_my_password _ _ _) = true
ends_session _ = false

module _ (bcrypt : Bcrypt) (tokens : Tokens) (text : IdText) where
  -- Either the request is permitted, or it is one of the two that end the session first, and that is
  -- all it does.
  abbrev pub PermitsOrEnds : UserRequest → CurrentUser → State → State → Type 0
  PermitsOrEnds r u s t =
      Permits bcrypt r u s ⊎ ((ends_session r ≡ true) × (t ≡ (token_logout tokens u s).1))

  abbrev Allowed : UserRequest → CurrentUser → State → Result (Unit {0}) × State → Type 0
  Allowed r u s o = UnchangedOr (PermitsOrEnds r u s o.1) s o

  permitted :
      (r : UserRequest) (u : CurrentUser) (s : State)
      → UnchangedOr (Permits bcrypt r u s) s (handle_user bcrypt tokens text r u s)
      → Allowed r u s (handle_user bcrypt tokens text r u s)
  permitted r u s (inl same) = inl same
  permitted r u s (inr permits) = inr (inl permits)

  -- a service behind the removal of the caller's refresh token
  by_logout :
      (r : UserRequest) (u : CurrentUser) (s : State) (m : Exec (Unit {0}))
      → ends_session r ≡ true
      → (UnchangedOr
          (Permits bcrypt r u s)
          (token_logout tokens u s).1
          (m (token_logout tokens u s).1))
      → Allowed r u s ((redis_delete (RedisKey.refresh_user (tokens.str u.index)) >> m) s)
  unfolding token_logout redis_delete ◌>>=◌
  by_logout r u s m ends (inl same) = inr (inr (ends, same))
  by_logout r u s m ends (inr permits) = inr (inl permits)

  handle_user-Permits :
      (r : UserRequest) (u : CurrentUser) (s : State)
      → Allowed r u s (handle_user bcrypt tokens text r u s)
  unfolding token_logout redis_delete
  handle_user-Permits logout u s = inr (inl tt)
  handle_user-Permits (withdraw_user p) u s =
      by_logout (withdraw_user p) u s (user_withdraw_services bcrypt p u) refl
        (user_withdraw-Permits bcrypt p u (token_logout tokens u s).1)
  handle_user-Permits (update_my_id p id) u s =
      permitted (update_my_id p id) u s (user_id_modify-Permits bcrypt p u s id)
  handle_user-Permits (update_my_password p new_password salt) u s =
      by_logout (update_my_password p new_password salt) u s
        (user_pw_modify_services bcrypt p new_password salt u) refl
        (user_pw_modify-Permits bcrypt p u (token_logout tokens u s).1 new_password salt)
  handle_user-Permits (update_my_email p email) u s =
      permitted (update_my_email p email) u s (user_email_modify-Permits bcrypt p u s email)
  handle_user-Permits (register_boards title content) u s = inr (inl tt)
  handle_user-Permits (update_board_title i p title) u s =
      permitted (update_board_title i p title) u s (title_modify-Permits bcrypt p u s i title)
  handle_user-Permits (update_content i p content) u s =
      permitted (update_content i p content) u s (content_modify-Permits bcrypt p u s i content)
  handle_user-Permits (delete_board i p) u s =
      permitted (delete_board i p) u s (boards_delete-Permits bcrypt p u s i)
  handle_user-Permits (restore_boards i p) u s =
      permitted (restore_boards i p) u s (restore_board-Permits bcrypt p u s i)
  handle_user-Permits (upload_files file i) u s =
      permitted (upload_files file i) u s (upload_files-Permits bcrypt file i u s)
  handle_user-Permits (delete_single_file j p) u s =
      permitted (delete_single_file j p) u s (delete_files-Permits bcrypt p u s j)
  handle_user-Permits (delete_all_files i p) u s =
      permitted (delete_all_files i p) u s (delete_all-Permits bcrypt p u s i)
  handle_user-Permits (restore_file j p) u s =
      permitted (restore_file j p) u s (restore_file-Permits bcrypt p u s j)
  handle_user-Permits (restore_all_file i p) u s =
      permitted (restore_all_file i p) u s (restore_all_file-Permits bcrypt p u s i)

  -- the cookie names the user whose row is there, not withdrawn, and `P` holds of this caller
  abbrev pub Signed : Option String → (CurrentUser → Type 0) → State → Type 0
  Signed cookie P s = (u : CurrentUser) × (row : User) × SignedInAs tokens cookie s u row × P u

  -- Whatever a user asks for, the state stays as it was, unless the token in the cookie, decoded now,
  -- names the index of a row that is not withdrawn, and its user fulfils what the request demands:
  -- the password of this row; that no row has the new id; for a new email address its verification;
  -- the ownership of the live board, or of the live board of the file; that a file to delete is not
  -- deleted; for an upload the type, the 5 MB and the 25 MB with what is on the board; for the
  -- restoring of a board or a file its own removal at most 7 days before, and of a file the 25 MB;
  -- for the restoring of all files that there are bytes to restore and they fit into the 25 MB. A
  -- withdrawal and a change of the password without the password of the row still delete the
  -- caller's refresh token, and change nothing else.
  pub handle-by_user :
      (cookie : Option String) (r : UserRequest) (s : State)
      → let o = handle bcrypt tokens text (by_user cookie r) s in
        UnchangedOr (Signed cookie (λ u. PermitsOrEnds r u s o.1) s) s o
  unfolding handle
  handle-by_user cookie r s =
      let Q : Result (Unit {0}) × State → Type 0 =
        λ o. UnchangedOr (Signed cookie (λ u. PermitsOrEnds r u s o.1) s) s o in
      by_signed_in Q tokens cookie _ s (λ e. inl refl)
        λ u row signed. elim (handle_user-Permits r u s) [
          | inl same ↦ inl same
          | inr permits ↦ inr (u, row, signed, permits)
        ]

  admin_of : (r : Role) → is_admin tokens r ≡ true → r ≡ Role.admin
  admin_of Role.admin e = refl
  admin_of Role.user e = cc

  -- Whatever is asked for in the administrator's name, the state stays as it was, unless the token in
  -- the cookie, decoded now, names the index of a row that is not withdrawn and has the role ADMIN.
  pub handle-by_admin :
      (cookie : Option String) (r : AdminRequest) (s : State)
      → UnchangedOr
          (Signed cookie (λ u. u.role ≡ Role.admin) s)
          s
          (handle bcrypt tokens text (by_admin cookie r) s)
  unfolding handle
  handle-by_admin cookie r s =
      let Q = UnchangedOr (Signed cookie (λ u. u.role ≡ Role.admin) s) s in
      by_signed_in Q tokens cookie _ s (λ e. inl refl)
        λ u row signed.
          by_admin_role Q tokens u _ s (inl refl) λ is. inr (u, row, signed, admin_of u.role is)
