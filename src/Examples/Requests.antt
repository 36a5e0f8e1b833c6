-- ===== src/Examples/Requests.antt =====
-- The theorems on requests that read, on uploads and on temporary passwords at concrete inputs.
use mathlib.Core.List.{Perm}
use mathlib.Core.Option
use fast_api_community_backe.Common.{
  ◌≤◌, ◌≡◌, ◌⊎◌, refl, true, false, none, some, [], ◌∷◌, find_row, select,
}
use fast_api_community_backe.Common.Lists.{length, take}
use fast_api_community_backe.Common.Order.{IsOrdered}
use fast_api_community_backe.Db.{File, User, Role, Board}
use fast_api_community_backe.Exec.{State, Error, Detail, ok, err, http}
use fast_api_community_backe.Security.{CurrentUser, create_access_token, create_refresh_token}
use fast_api_community_backe.Models.Boards.{of_user, live_at}
use fast_api_community_backe.Models.Users.{user_at}
use fast_api_community_backe.Models.Files.{get_total_fsize}
use fast_api_community_backe.Models.Admin.Listing.{counts_of, newest_board}
use fast_api_community_backe.Models.Admin.Counts.{counts_of-total_boards}
use fast_api_community_backe.Services.Admin.Listing.{
  admin_get_specific_user_services, admin_get_specific_board_services,
}
use fast_api_community_backe.Services.Admin.Shown.{
  boards_of, admin_get_specific_user-boards, admin_get_specific_board-live,
}
use fast_api_community_backe.Services.Auth.{token_login_services}
use fast_api_community_backe.Services.Users.{find_password_services}
use fast_api_community_backe.Services.Users.Passwords.{token_login-find_password}
use fast_api_community_backe.Services.Files.{
  Upload, is_allowed, upload_files_services, allow_max_fsize, allow_max_total_fsize,
}
use fast_api_community_backe.Services.Files.Uploads.{upload_files-total}
use fast_api_community_backe.Services.Files.{delete_all_services, restore_all_file_services}
use fast_api_community_backe.Services.Files.Restores.{uncounted, restore_all_file-total}
use fast_api_community_backe.Models.Boards.{size_of}
use fast_api_community_backe.Security.Rules.{SignedInAs}
use fast_api_community_backe.Common.{sum_where, ◌+◌, ◌==◌}
use fast_api_community_backe.Db.{days}
use fast_api_community_backe.Api.Reading.{read, by_anyone, by_admin, get_all_boards, get_all_users}
use fast_api_community_backe.Api.Reading.Unchanged.{read-unchanged, read-by_admin}
use fast_api_community_backe.Examples.{
  plain, bare, alice, post, caller, start, any_order, all_match,
}

read-unchanged_example :
    (read bare any_order all_match (by_anyone (get_all_boards 1 10)) start).1 ≡ start
read-unchanged_example =
    read-unchanged bare any_order all_match start (by_anyone (get_all_boards 1 10))

-- Alice is no administrator.
read-by_admin_example :
    ((e : Error) × ((read bare any_order all_match (by_admin (some "x") get_all_users) start).0
        ≡ err e))
    ⊎ ((u : CurrentUser) × (row : User) × SignedInAs bare (some "x") start u row
        × (row.role ≡ Role.admin))
read-by_admin_example = read-by_admin bare any_order all_match start (some "x") get_all_users

counts_of-total_boards_example :
    (counts_of start.db.boards start.db.files alice).total_boards
    ≡ length (select (of_user 1) start.db.boards)
counts_of-total_boards_example =
    counts_of-total_boards start.db.boards start.db.files alice (tt, tt)

admin_get_specific_user-boards_example :
    ((find_row (user_at 1) start.db.users ≡ none)
      × (admin_get_specific_user_services 1 start ≡ (err (http 404 Detail.no_user), start)))
    ⊎ ((u : User) × (find_row (user_at 1) start.db.users ≡ some u)
        × (admin_get_specific_user_services 1 start
            ≡ (ok (record { user_info = u; boards = take 50 (boards_of 1 start) }), start))
        × IsOrdered newest_board (boards_of 1 start)
        × Perm (boards_of 1 start) (select (of_user 1) start.db.boards))
admin_get_specific_user-boards_example = admin_get_specific_user-boards 1 start

-- the post is deleted
abbrev deleted_post : State
deleted_post = record start {
  db = record start.db { boards = record post { deleted_at = some 900 } ∷ [] };
}

admin_get_specific_board-live_example :
    ((find_row (live_at 1) deleted_post.db.boards ≡ none)
      × (admin_get_specific_board_services 1 deleted_post
          ≡ (err (http 404 Detail.no_board), deleted_post)))
    ⊎ ((b : Board) × (admin_get_specific_board_services 1 deleted_post ≡ (
      ok (
          some (record {
            board = b;
            user_id =
                Option.map
                  (λ (u : User). u.id)
                  (find_row (λ (u : User). u.index == b.user_index) deleted_post.db.users);
            files = select (λ (f : File). f.board_index == 1) deleted_post.db.files;
          })),
      deleted_post,
    ))
        × (b.index ≡ 1)
        × (b.deleted_at ≡ none)
        × (find_row (live_at 1) deleted_post.db.boards ≡ some b))
admin_get_specific_board-live_example = admin_get_specific_board-live 1 deleted_post (tt, tt)

token_login-find_password_example :
    let (r, t) =
      find_password_services plain false "alice" "Alice" "alice@example.org" "new" "salt" start in
    (r ≡ err (http 500 Detail.mail_failed))
    × ((token_login_services bare plain (record { id = "alice"; password = "new" }) t).0
        ≡ ok (create_access_token bare "x" 1000, create_refresh_token bare "x" 1000))
unfolding find_row
token_login-find_password_example =
    token_login-find_password bare plain "alice" "Alice" "alice@example.org" "new" "salt" start
      alice false refl refl refl refl

abbrev picture : Upload
picture = record {
  original_name = "p.png";
  content_type = "image/png";
  size = 100;
  stored_name = "b.png";
  file_path = "uploads/b.png";
}

upload_files-total_example :
    let t = (upload_files_services picture 1 caller start).1 in
    (t ≡ start)
    ⊎ ((is_allowed "image/png" ≡ true)
        × (100 ≤ allow_max_fsize)
        × (get_total_fsize 1 t.now t.db ≤ allow_max_total_fsize))
upload_files-total_example = upload_files-total picture 1 caller start

-- Alice has deleted her file eight days ago.
abbrev old_deletion : State
old_deletion =
    let t = (delete_all_services plain 1 "pw" caller start).1 in record t { now = days 8 + 1000 }

restore_all_file-total_example :
    let t = (restore_all_file_services plain 1 "pw" caller old_deletion).1 in
    (t ≡ old_deletion)
    ⊎ (get_total_fsize 1 t.now t.db
        ≤ allow_max_total_fsize
          + sum_where (uncounted 1 (days 8 + 1000)) size_of old_deletion.db.files)
restore_all_file-total_example = restore_all_file-total plain 1 "pw" caller old_deletion
