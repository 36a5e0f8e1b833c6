-- ===== src/Models/Boards.antt =====
-- app/models/boards.py: queries on the table boards.
pub mod Listing
pub mod Joins
pub mod Uncalled
use fast_api_community_backe.Common.{
  ℕ, ◌+◌, String, Bool, not, ◌&&◌, Option, none, some, ◌++◌, List, [], ◌∷◌, ◌==◌, leb, update_where,
  delete_where, find_row, select, sum_where, is_none,
}
use fast_api_community_backe.Db.{
  DeletedBy, is_by, Board, BoardView, File, Category, Db, Query, days,
}

-- index = $1
abbrev pub at_index : ℕ → Board → Bool
at_index i b = b.index == i

-- index = $1 AND deleted_at IS NULL
abbrev pub live_at : ℕ → Board → Bool
live_at i b = b.index == i && is_none b.deleted_at

-- index = $1 AND deleted_at IS NOT NULL
abbrev pub deleted_at_index : ℕ → Board → Bool
deleted_at_index i b = b.index == i && not (is_none b.deleted_at)

abbrev pub index_of : Option Board → Option ℕ
index_of none = none
index_of (some b) = some b.index

abbrev pub owner_of : Option Board → Option ℕ
owner_of none = none
owner_of (some b) = some b.user_index

unfoldable pub check_undeleted_boards_exist : ℕ → Query (Option ℕ)
check_undeleted_boards_exist board_index now db =
    index_of (find_row (live_at board_index) db.boards)

unfoldable pub check_boards_exist : ℕ → Query (Option ℕ)
check_boards_exist board_index now db = index_of (find_row (at_index board_index) db.boards)

unfoldable pub check_boards_owner : ℕ → Query (Option ℕ)
check_boards_owner board_index now db = owner_of (find_row (live_at board_index) db.boards)

unfoldable pub check_deleted_boards_owner : ℕ → Query (Option Board)
check_deleted_boards_owner board_index now db = find_row (deleted_at_index board_index) db.boards

-- INSERT INTO boards …: the row with the defaults of its other columns; the caller gives the
-- value of the identity column.
unfoldable pub insert_boards_db : ℕ → String → String → ℕ → Category → Query Db
insert_boards_db index title content user_index category now db = record db {
  boards =
      db.boards
      ++ record {
        index = index;
        title = title;
        content = content;
        category = category;
        reg_date = now;
        update_date = now;
        user_index = user_index;
        total_file_size = 0;
        view_count = 0;
        deleted_at = none;
        deleted_by = none;
      }
        ∷ [];
}

abbrev pub set_title : String → ℕ → Board → Board
set_title new_title now b = record b { title = new_title; update_date = now }

unfoldable pub title_modify : String → ℕ → Query Db
title_modify new_title board_index now db = record db {
  boards = update_where (at_index board_index) (set_title new_title now) db.boards;
}

abbrev pub set_content : String → ℕ → Board → Board
set_content new_content now b = record b { content = new_content; update_date = now }

unfoldable pub content_modify : String → ℕ → Query Db
content_modify new_content board_index now db = record db {
  boards = update_where (at_index board_index) (set_content new_content now) db.boards;
}

abbrev pub mark_deleted : DeletedBy → ℕ → Board → Board
mark_deleted by now b = record b { deleted_by = some by; deleted_at = some now; update_date = now }

unfoldable pub soft_delete_board : DeletedBy → ℕ → Query Db
soft_delete_board by board_index now db = record db {
  boards = update_where (at_index board_index) (mark_deleted by now) db.boards;
}

-- ON DELETE CASCADE of files and boards_view: the rows of the boards that go
abbrev pub has_board : List Board → ℕ → Bool
has_board boards i = not (is_none (find_row (at_index i) boards))

abbrev pub cascade : List Board → Db → Db
cascade gone db = record db {
  files = delete_where (λ (f : File). has_board gone f.board_index) db.files;
  boards_view = delete_where (λ (v : BoardView). has_board gone v.board_index) db.boards_view;
}

-- DELETE FROM boards WHERE p
abbrev pub delete_boards_where : (Board → Bool) → Db → Db
delete_boards_where p db =
    let gone = select p db.boards in
    let rest = cascade gone db in record rest { boards = delete_where p db.boards }

-- deleted_at <= NOW() - INTERVAL 'n days'
abbrev pub at_least_days_ago : ℕ → ℕ → Option ℕ → Bool
at_least_days_ago n now none = Bool.false
at_least_days_ago n now (some t) = leb (t + days n) now

-- deleted_at >= NOW() - INTERVAL 'n days'
abbrev pub within_days : ℕ → ℕ → Option ℕ → Bool
within_days n now none = Bool.false
within_days n now (some t) = leb now (t + days n)

abbrev pub board_is_due : ℕ → Board → Bool
board_is_due now b =
    is_by DeletedBy.admin_scheduled b.deleted_by && at_least_days_ago 100 now b.deleted_at

unfoldable pub delete_boards : Query Db
delete_boards now db = delete_boards_where (board_is_due now) db

unfoldable pub hard_delete_board : ℕ → Query Db
hard_delete_board board_index now db = delete_boards_where (at_index board_index) db

abbrev pub clear_deleted : ℕ → Board → Board
clear_deleted now b = record b { deleted_at = none; deleted_by = none; update_date = now }

unfoldable pub restore_board : ℕ → Query Db
restore_board board_index now db = record db {
  boards = update_where (at_index board_index) (clear_deleted now) db.boards;
}

unfoldable pub insert_boards_view_info : ℕ → Option ℕ → Option String → Query Db
insert_boards_view_info board_index user_index anonymous_id now db = record db {
  boards_view =
      db.boards_view
      ++ record {
        board_index = board_index;
        user_index = user_index;
        anonymous_id = anonymous_id;
        viewed_at = now;
      }
        ∷ [];
}

abbrev pub set_total : ℕ → ℕ → Board → Board
set_total size now b = record b { total_file_size = size; update_date = now }

unfoldable pub update_total_board_fsize : ℕ → ℕ → Query Db
update_total_board_fsize size board_index now db = record db {
  boards = update_where (at_index board_index) (set_total size now) db.boards;
}

abbrev pub live_of_user : ℕ → Board → Bool
live_of_user u b = b.user_index == u && is_none b.deleted_at

unfoldable pub update_all_user_boards_total_fsize : ℕ → ℕ → Query Db
update_all_user_boards_total_fsize size user_index now db = record db {
  boards = update_where (live_of_user user_index) (set_total size now) db.boards;
}

abbrev pub live_file_of : ℕ → File → Bool
live_file_of i f = f.board_index == i && is_none f.deleted_at

abbrev pub size_of : File → ℕ
size_of f = f.file_size

abbrev pub recalculated : List File → Board → Board
recalculated files b = record b { total_file_size = sum_where (live_file_of b.index) size_of files }

abbrev pub of_user : ℕ → Board → Bool
of_user u b = b.user_index == u

unfoldable pub recalculate_all_user_boards_total_fsize : ℕ → Query Db
recalculate_all_user_boards_total_fsize user_index now db = record db {
  boards = update_where (of_user user_index) (recalculated db.files) db.boards;
}
