-- ===== src/Models/Boards/Uncalled.antt =====
-- app/models/boards.py: the queries that no service calls.
use fast_api_community_backe.Common.{ℕ, ◌+◌, Bool, not, ◌&&◌, ◌==◌, is_none, update_where}
use fast_api_community_backe.Db.{DeletedBy, Board, Query, Db}
use fast_api_community_backe.Models.Boards.{
  at_index, of_user, live_of_user, mark_deleted, clear_deleted, delete_boards_where,
}

unfoldable pub soft_delete_all_user_boards : DeletedBy → ℕ → Query Db
soft_delete_all_user_boards deleted_by user_index now db = record db {
  boards = update_where (live_of_user user_index) (mark_deleted deleted_by now) db.boards;
}

unfoldable pub hard_delete_all_user_boards : ℕ → Query Db
hard_delete_all_user_boards user_index now db = delete_boards_where (of_user user_index) db

-- user_index = $1 AND deleted_at IS NOT NULL
abbrev pub deleted_of_user : ℕ → Board → Bool
deleted_of_user u b = b.user_index == u && not (is_none b.deleted_at)

unfoldable pub restore_all_user_boards : ℕ → Query Db
restore_all_user_boards user_index now db = record db {
  boards = update_where (deleted_of_user user_index) (clear_deleted now) db.boards;
}

abbrev pub one_view_more : Board → Board
one_view_more b = record b { view_count = b.view_count + 1 }

unfoldable pub update_view_count : ℕ → Query Db
update_view_count board_index now db = record db {
  boards = update_where (at_index board_index) one_view_more db.boards;
}
