-- ===== src/Models/Files.antt =====
-- app/models/files.py: queries on the table files.
pub mod Uncalled
use fast_api_community_backe.Common.{
  ℕ, String, Bool, true, false, not, ◌&&◌, ◌||◌, Option, none, some, ◌++◌, List, [], ◌∷◌, map, ◌==◌,
  ltb, update_where, delete_where, find_row, select, any_row, sum_where, sum_or_null, is_none,
}
use fast_api_community_backe.Db.{DeletedBy, is_by, Board, File, Db, Query}
use fast_api_community_backe.Models.Boards.{
  of_user, live_file_of, size_of, at_least_days_ago, within_days,
}

-- index = $1
abbrev pub file_at : ℕ → File → Bool
file_at i f = f.index == i

abbrev pub deleted_file_at : ℕ → File → Bool
deleted_file_at i f = f.index == i && not (is_none f.deleted_at)

abbrev pub deleted_file_of : ℕ → File → Bool
deleted_file_of b f = f.board_index == b && not (is_none f.deleted_at)

abbrev pub found : Bool → Option ℕ
found true = some 1
found false = none

abbrev pub file_index_of : Option File → Option ℕ
file_index_of none = none
file_index_of (some f) = some f.index

unfoldable pub check_board_deleted_files_exist : ℕ → Query (Option ℕ)
check_board_deleted_files_exist board_index now db =
    found (any_row (deleted_file_of board_index) db.files)

abbrev pub board_of : Option File → Option ℕ
board_of none = none
board_of (some f) = some f.board_index

unfoldable pub get_file_belong : ℕ → Query (Option ℕ)
get_file_belong file_index now db = board_of (find_row (file_at file_index) db.files)

unfoldable pub check_undeleted_file_belong : ℕ → ℕ → Query (Option ℕ)
check_undeleted_file_belong file_index board_index now db = found (
    any_row
      (λ (f : File).
        f.index == file_index && (f.board_index == board_index && is_none f.deleted_at))
      db.files)

unfoldable pub check_undeleted_files_exist : ℕ → Query (Option ℕ)
check_undeleted_files_exist file_index now db =
    file_index_of (find_row (λ (f : File). f.index == file_index && is_none f.deleted_at) db.files)

unfoldable pub check_files_exist : ℕ → Query (Option ℕ)
check_files_exist file_index now db = file_index_of (find_row (file_at file_index) db.files)

unfoldable pub get_deleted_file_info : ℕ → Query (Option File)
get_deleted_file_info file_index now db = find_row (deleted_file_at file_index) db.files

-- The caller gives the value of the identity column.
unfoldable pub upload_files_db : ℕ → String → String → String → ℕ → ℕ → Query Db
upload_files_db index original_name stored_name file_path file_size board_index now db = record db {
  files =
      db.files
      ++ record {
        index = index;
        original_name = original_name;
        stored_name = stored_name;
        file_path = file_path;
        file_size = file_size;
        reg_date = now;
        board_index = board_index;
        deleted_at = none;
        deleted_by = none;
      }
        ∷ [];
}

abbrev pub admin_restorable : ℕ → ℕ → File → Bool
admin_restorable b now f = f.board_index == b && within_days 90 now f.deleted_at

unfoldable pub admin_get_restorable_fsize : ℕ → Query (Option ℕ)
admin_get_restorable_fsize board_index now db =
    sum_or_null (admin_restorable board_index now) size_of db.files

-- deleted by the user, at most n days ago
abbrev pub user_restorable : ℕ → ℕ → ℕ → File → Bool
user_restorable n b now f =
    f.board_index == b && (is_by DeletedBy.user f.deleted_by && within_days n now f.deleted_at)

unfoldable pub user_get_restorable_fsize : ℕ → Query (Option ℕ)
user_get_restorable_fsize board_index now db =
    sum_or_null (user_restorable 7 board_index now) size_of db.files

abbrev pub size_or_zero : Option File → ℕ
size_or_zero none = 0
size_or_zero (some f) = f.file_size

unfoldable pub get_soft_delete_fsize : ℕ → Query ℕ
get_soft_delete_fsize files_index now db = size_or_zero (find_row (file_at files_index) db.files)

-- `result if result else 0`
unfoldable pub get_total_fsize : ℕ → Query ℕ
get_total_fsize board_index now db = sum_where (live_file_of board_index) size_of db.files

-- the rows that the query groups: the live files and those with the mark USER_CASCADE
abbrev pub live_or_cascaded : ℕ → File → Bool
live_or_cascaded i f =
    f.board_index == i && (is_none f.deleted_at || is_by DeletedBy.user_cascade f.deleted_by)

-- A board of the user whose live and USER_CASCADE files together pass the limit.
unfoldable pub check_restore_exceeding_boards_total_fsize : ℕ → ℕ → Query (Option Board)
check_restore_exceeding_boards_total_fsize user_index allow_max_total_fsize now db =
    find_row
      (λ (b : Board).
        b.user_index == user_index
        && ltb allow_max_total_fsize (sum_where (live_or_cascaded b.index) size_of db.files))
      db.boards

abbrev pub mark_file : DeletedBy → ℕ → File → File
mark_file by now f = record f { deleted_by = some by; deleted_at = some now }

unfoldable pub soft_delete_one_file : DeletedBy → ℕ → Query Db
soft_delete_one_file by file_index now db = record db {
  files = update_where (file_at file_index) (mark_file by now) db.files;
}

unfoldable pub soft_delete_all_board_files : DeletedBy → ℕ → Query Db
soft_delete_all_board_files by board_index now db = record db {
  files = update_where (live_file_of board_index) (mark_file by now) db.files;
}

-- board_index IN (SELECT index FROM boards WHERE user_index = $2)
abbrev pub on_board_of : List Board → ℕ → File → Bool
on_board_of boards u f = any_row (λ (b : Board). of_user u b && b.index == f.board_index) boards

abbrev pub live_on_board_of : List Board → ℕ → File → Bool
live_on_board_of boards u f = on_board_of boards u f && is_none f.deleted_at

unfoldable pub soft_delete_all_user_files : DeletedBy → ℕ → Query Db
soft_delete_all_user_files by user_index now db = record db {
  files = update_where (live_on_board_of db.boards user_index) (mark_file by now) db.files;
}

abbrev pub by_user_or_cascade : Option DeletedBy → Bool
by_user_or_cascade d =
    is_by DeletedBy.user d || (is_by DeletedBy.user_cascade d || is_by DeletedBy.board_cascade d)

abbrev pub by_admin : Option DeletedBy → Bool
by_admin d = is_by DeletedBy.admin_scheduled d || is_by DeletedBy.admin_retain d

abbrev pub file_is_due : ℕ → File → Bool
file_is_due now f =
    (by_user_or_cascade f.deleted_by && at_least_days_ago 30 now f.deleted_at)
    || (by_admin f.deleted_by && at_least_days_ago 100 now f.deleted_at)

unfoldable pub delete_files : Query Db
delete_files now db = record db { files = delete_where (file_is_due now) db.files }

abbrev pub path_of : File → String
path_of f = f.file_path

unfoldable pub get_delete_file_path : Query (List String)
get_delete_file_path now db = map path_of (select (file_is_due now) db.files)

unfoldable pub hard_delete_one_file : ℕ → Query Db
hard_delete_one_file file_index now db = record db {
  files = delete_where (file_at file_index) db.files;
}

abbrev pub file_of_board : ℕ → File → Bool
file_of_board b f = f.board_index == b

unfoldable pub hard_delete_all_board_files : ℕ → Query Db
hard_delete_all_board_files board_index now db = record db {
  files = delete_where (file_of_board board_index) db.files;
}

unfoldable pub hard_delete_all_user_files : ℕ → Query Db
hard_delete_all_user_files user_index now db = record db {
  files = delete_where (on_board_of db.boards user_index) db.files;
}

abbrev pub unmark_file : File → File
unmark_file f = record f { deleted_by = none; deleted_at = none }

unfoldable pub restore_one_file : ℕ → Query Db
restore_one_file file_index now db = record db {
  files = update_where (file_at file_index) unmark_file db.files;
}

abbrev pub user_cascaded : List Board → ℕ → ℕ → ℕ → File → Bool
user_cascaded boards u n now f =
    on_board_of boards u f
    && (is_by DeletedBy.user_cascade f.deleted_by && within_days n now f.deleted_at)

unfoldable pub restore_all_user_files : ℕ → ℕ → Query Db
restore_all_user_files user_index n now db = record db {
  files = update_where (user_cascaded db.boards user_index n now) unmark_file db.files;
}

unfoldable pub admin_restore_all_restorable_files : ℕ → Query Db
admin_restore_all_restorable_files board_index now db = record db {
  files = update_where (admin_restorable board_index now) unmark_file db.files;
}

unfoldable pub user_restore_all_restorable_files : ℕ → Query Db
user_restore_all_restorable_files board_index now db = record db {
  files = update_where (user_restorable 30 board_index now) unmark_file db.files;
}

abbrev pub board_cascaded : ℕ → ℕ → ℕ → File → Bool
board_cascaded b n now f =
    f.board_index == b
    && (is_by DeletedBy.board_cascade f.deleted_by && within_days n now f.deleted_at)

unfoldable pub restore_cascade_board_files : ℕ → ℕ → Query Db
restore_cascade_board_files board_index n now db = record db {
  files = update_where (board_cascaded board_index n now) unmark_file db.files;
}
