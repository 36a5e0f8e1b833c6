-- ===== src/Services/Admin/Listing.antt =====
-- app/services/admin.py: what an administrator is shown of the users and of a board.
use fast_api_community_backe.Common.{ℕ, Option, none, some, List, [], ◌∷◌, is_none}
use fast_api_community_backe.Db.{User, Board}
use fast_api_community_backe.Exec.{Exec, Detail, http, fetch, or_raise, raise_if, pure, ◌>>=◌, ◌>>◌}
use fast_api_community_backe.Models.Boards.{check_boards_owner}
use fast_api_community_backe.Models.Admin.Listing.{
  UserCounts, UserBoard, BoardFiles, admin_get_all_users, admin_get_specific_user,
  admin_get_specific_board,
}

unfoldable pub admin_get_all_users_services : Exec (List UserCounts)
unfolding admin_get_all_users
admin_get_all_users_services = do users ← fetch admin_get_all_users; pure users

-- `user_info` and `boards`, as the rows that their columns are from
pub record UserDetail : Type 0 where
  pub user_info : User
  pub boards : List Board

-- the loop over the rows
unfoldable pub boards_in : List UserBoard → List Board
boards_in [] = []
boards_in (row ∷ rows) = add row.board (boards_in rows)
  where
    add : Option Board → List Board → List Board
    add none rest = rest
    add (some b) rest = b ∷ rest

-- `user_data[0]`, when there is a row
abbrev pub first_row : List UserBoard → Option UserBoard
first_row [] = none
first_row (row ∷ rows) = some row

unfoldable pub admin_get_specific_user_services : ℕ → Exec UserDetail
unfolding admin_get_specific_user boards_in
admin_get_specific_user_services user_index = do
  user_data ← fetch (admin_get_specific_user user_index 50 0)
  row ← or_raise (first_row user_data) (http 404 Detail.no_user)
  pure (record { user_info = row.user; boards = boards_in user_data })

-- the empty `data` when the second query finds nothing
unfoldable pub admin_get_specific_board_services : ℕ → Exec (Option BoardFiles)
unfolding check_boards_owner admin_get_specific_board
admin_get_specific_board_services board_index = do
  board_belong ← fetch (check_boards_owner board_index)
  raise_if (is_none board_belong) (http 404 Detail.no_board)
  board_info ← fetch (admin_get_specific_board board_index)
  pure board_info
