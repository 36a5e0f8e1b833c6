-- ===== src/Examples/Witnesses.antt =====
-- The theorems at concrete inputs.
use fast_api_community_backe.Common.{
  none, ℕ, ◌+◌, ◌≡◌, refl, true, some, [], ◌∷◌, arith, find_row, List, false, ◌<◌,
}
use fast_api_community_backe.Db.{Role}
use fast_api_community_backe.Exec.{
  State, ok, err, http, Detail, RedisKey, RedisValue, live_value, seconds,
}
use fast_api_community_backe.Security.{create_access_token, create_refresh_token}
use fast_api_community_backe.Models.Files.{get_total_fsize}
use fast_api_community_backe.Models.Users.{user_at}
use fast_api_community_backe.Consistency.{IsConsistent}
use fast_api_community_backe.Services.Files.{delete_files_perman_services}
use fast_api_community_backe.Services.Files.Jobs.{delete_files_perman-disk}
use fast_api_community_backe.Services.Boards.{delete_boards_perman}
use fast_api_community_backe.Services.Users.{delete_user_perman}
use fast_api_community_backe.Services.Users.Register.{
  send_verification_email_services, check_verification_code_services,
}
use fast_api_community_backe.Services.Users.Codes.{
  check_verification_code-send, check_verification_code-late,
}
use fast_api_community_backe.Services.Auth.{
  token_login_services, refresh_access_token_services, token_logout, UserLogin,
}
use fast_api_community_backe.Services.Auth.Sessions.{
  refresh_access_token-token_login, refresh_access_token-token_logout,
}
use fast_api_community_backe.Services.Admin.{
  FileDeleteOption, admin_user_ban_services, admin_delete_all_board_files_services,
}
use fast_api_community_backe.Services.Admin.Stale.{admin_delete_all_board_files-stale}
use fast_api_community_backe.Services.Admin.Bans.{ban_row, admin_user_ban-ban_row}
use fast_api_community_backe.Common.{◌⊎◌, ◌≢◌, All}
use fast_api_community_backe.Exec.{unique_violation}
use fast_api_community_backe.Models.Files.{get_delete_file_path}
use fast_api_community_backe.Services.Files.Jobs.{IsGone, delete_files_perman-IsGone}
use fast_api_community_backe.Services.Users.{user_withdraw_services, user_id_modify_services}
use fast_api_community_backe.Services.Users.Limits.{WithinLimit, admin_restore_user-WithinLimit}
use fast_api_community_backe.Services.Users.Register.{UserRegister, register_user_services}
use fast_api_community_backe.Services.Users.Unique.{
  register_user-unique_violation, user_id_modify-unique_violation,
}
use fast_api_community_backe.Services.Admin.Restore.{admin_restore_user_services}
use fast_api_community_backe.Common.{sum_where}
use fast_api_community_backe.Models.Boards.{at_index, live_file_of, size_of}
use fast_api_community_backe.Services.Boards.{boards_delete_services, restore_board_services}
use fast_api_community_backe.Services.Boards.RoundTrip.{restore_board-boards_delete}
use fast_api_community_backe.Common.{◌≤◌}
use fast_api_community_backe.Services.Files.{delete_all_services, allow_max_total_fsize}
use fast_api_community_backe.Services.Users.Limits.{admin_restore_all_files-total}
use fast_api_community_backe.Services.Admin.Restore.{admin_restore_all_files_services}
use fast_api_community_backe.Api.{
  Event, delete_board, register_notice, wait, by_user, by_admin, handle, serve,
}
use fast_api_community_backe.Api.Permission.{UnchangedOr}
use fast_api_community_backe.Api.Access.{Signed, PermitsOrEnds, handle-by_user, handle-by_admin}
use fast_api_community_backe.Api.Consistent.{serve-IsConsistent}
use fast_api_community_backe.Examples.{
  plain, bare, texts, alice, post, caller, start, start-IsConsistent,
}

-- Alice deletes her board, an hour passes, and she asks for a notice.
abbrev story : List Event
story =
    by_user (some "x") (delete_board 1 "pw")
    ∷ wait 3600000000
    ∷ by_admin (some "x") (register_notice "title" "content")
    ∷ []

serve-IsConsistent_example : IsConsistent (serve plain bare texts story start)
serve-IsConsistent_example =
    serve-IsConsistent plain bare texts story start (tt, (tt, (refl, tt))) start-IsConsistent

handle-by_user_example :
    let o = handle plain bare texts (by_user (some "x") (delete_board 1 "pw")) start in
    UnchangedOr
      (Signed plain bare texts
        (some "x")
        (λ u. PermitsOrEnds plain bare texts (delete_board 1 "pw") u start o.1)
        start)
      start
      o
handle-by_user_example = handle-by_user plain bare texts (some "x") (delete_board 1 "pw") start

handle-by_admin_example :
    UnchangedOr
      (Signed plain bare texts (some "x") (λ u. u.role ≡ Role.admin) start)
      start
      (handle plain bare texts (by_admin (some "x") (register_notice "title" "content")) start)
handle-by_admin_example =
    handle-by_admin plain bare texts (some "x") (register_notice "title" "content") start

abbrev emptied : State
emptied = (admin_delete_all_board_files_services 1 FileDeleteOption.immediate caller start).1

admin_delete_all_board_files-stale_example :
    let (r, t) = admin_delete_all_board_files_services 1 FileDeleteOption.immediate caller start in
    (r ≡ ok tt) × (get_total_fsize 1 t.now t.db ≡ 0) × (t.db.boards ≡ start.db.boards)
unfolding find_row
admin_delete_all_board_files-stale_example =
    admin_delete_all_board_files-stale 1 FileDeleteOption.immediate caller start post refl

admin_user_ban-ban_row_example :
    let (r, t) = admin_user_ban_services 1 caller start in
    (r ≡ ok true) × (find_row (user_at 1) t.db.users ≡ some (ban_row 1000 alice))
unfolding find_row
admin_user_ban-ban_row_example = admin_user_ban-ban_row 1 caller start alice refl

delete_files_perman-disk_example :
    ((delete_files_perman_services (λ p. false) (delete_boards_perman start).1).1.disk ≡ start.disk)
    × ((delete_files_perman_services (λ p. false) (delete_user_perman texts start).1).1.disk
        ≡ start.disk)
delete_files_perman-disk_example = delete_files_perman-disk texts (λ p. false) start

abbrev form : UserLogin
form = record { id = "alice"; password = "pw" }

refresh_access_token-token_login_example :
    let (r, t) = token_login_services bare plain form start in
    let token = create_refresh_token bare "x" 1000 in
    (r ≡ ok (create_access_token bare "x" 1000, token))
    × ((refresh_access_token_services bare token (record t { now = 6000 })).0
        ≡ ok (create_access_token bare "x" 6000))
unfolding find_row
refresh_access_token-token_login_example =
    refresh_access_token-token_login bare plain form start alice 5000 refl refl refl (omega arith)

refresh_access_token-token_logout_example :
    (refresh_access_token_services bare "x" (token_logout bare caller start).1).0
    ≡ err (http 401 Detail.token_expired)
refresh_access_token-token_logout_example =
    refresh_access_token-token_logout bare plain form start caller "x" refl

check_verification_code-send_example :
    let t = (send_verification_email_services true "a@b.c" "123456" start).1 in
    let (r, v) = check_verification_code_services "a@b.c" "123456" (record t { now = 6000 }) in
    (r ≡ ok tt)
    × ((later : ℕ)
        → later < 6000 + seconds 1800
        → live_value later (v.redis (RedisKey.email_verified "a@b.c"))
          ≡ some (RedisValue.text "true"))
check_verification_code-send_example =
    check_verification_code-send "a@b.c" "123456" start 5000 refl (omega arith)

check_verification_code-late_example :
    let t = (send_verification_email_services true "a@b.c" "123456" start).1 in
    let late = record t { now = 300001000 } in
    check_verification_code_services "a@b.c" "123456" late
    ≡ (err (http 404 Detail.code_expired), late)
check_verification_code-late_example =
    check_verification_code-late "a@b.c" "123456" start 300000000 true "123456" (omega arith)

delete_files_perman-IsGone_example :
    let (r, t) = delete_files_perman_services (λ p. false) start in
    (r ≡ ok tt)
    × (get_delete_file_path t.now t.db ≡ [])
    × All (λ path. false ≡ false → IsGone t.disk path) (get_delete_file_path 1000 start.db)
delete_files_perman-IsGone_example = delete_files_perman-IsGone (λ p. false) start

-- Alice has withdrawn.
abbrev gone : State
gone = (user_withdraw_services plain "pw" caller start).1

admin_restore_user-WithinLimit_example :
    let t = (admin_restore_user_services 1 caller gone).1 in (t ≡ gone) ⊎ WithinLimit 1 t
admin_restore_user-WithinLimit_example = admin_restore_user-WithinLimit 1 caller gone

abbrev bob : UserRegister
bob = record { id = "bob"; password = "pw"; name = "Bob"; email = "bob@example.org" }

register_user-unique_violation_example :
    (register_user_services plain bob "salt" start).0 ≢ err unique_violation
register_user-unique_violation_example = register_user-unique_violation plain bob "salt" start

user_id_modify-unique_violation_example :
    (user_id_modify_services plain "pw" "alice2" caller start).0 ≢ err unique_violation
user_id_modify-unique_violation_example =
    user_id_modify-unique_violation plain "pw" "alice2" caller start

restore_board-boards_delete_example :
    let t = (boards_delete_services plain 1 "pw" caller start).1 in
    let (r, v) =
      restore_board_services plain 1 "pw" caller (record t { now = 1000 + 432000000000 }) in
    (r ≡ ok tt)
    × (v.db.files ≡ start.db.files)
    × (find_row (at_index 1) v.db.boards
        ≡ some (record post {
          total_file_size = sum_where (live_file_of 1) size_of start.db.files;
          update_date = 1000 + 432000000000;
          deleted_at = none;
          deleted_by = none;
        }))
unfolding find_row
restore_board-boards_delete_example =
    restore_board-boards_delete plain "pw" 1 432000000000 caller start alice post refl refl refl
      refl refl (omega arith) ((λ live. refl, λ on. refl), tt)

-- Alice has deleted the file.
abbrev bare_board : State
bare_board = (delete_all_services plain 1 "pw" caller start).1

admin_restore_all_files-total_example :
    let t = (admin_restore_all_files_services 1 caller bare_board).1 in
    (t ≡ bare_board) ⊎ (get_total_fsize 1 t.now t.db ≤ allow_max_total_fsize)
admin_restore_all_files-total_example = admin_restore_all_files-total 1 caller bare_board
