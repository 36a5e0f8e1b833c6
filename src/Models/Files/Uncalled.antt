-- ===== src/Models/Files/Uncalled.antt =====
-- app/models/files.py: the queries that no service calls.
use fast_api_community_backe.Common.{
  ℕ, not, ◌&&◌, Option, ◌==◌, is_none, any_row, find_row, sum_where, update_where,
}
use fast_api_community_backe.Db.{File, Db, Query}
use fast_api_community_backe.Models.Boards.{live_file_of, size_of}
use fast_api_community_backe.Models.Files.{
  deleted_file_at, deleted_file_of, found, file_index_of, unmark_file,
}

unfoldable pub check_board_files_exist : ℕ → Query (Option ℕ)
check_board_files_exist board_index now db = found (any_row (live_file_of board_index) db.files)

unfoldable pub check_deleted_file_belong : ℕ → ℕ → Query (Option ℕ)
check_deleted_file_belong file_index board_index now db = found (
    any_row
      (λ (f : File).
        f.index == file_index && (f.board_index == board_index && not (is_none f.deleted_at)))
      db.files)

unfoldable pub check_file_deleted : ℕ → Query (Option ℕ)
check_file_deleted file_index now db =
    file_index_of (find_row (deleted_file_at file_index) db.files)

-- `result if result else 0`
unfoldable pub get_total_soft_delete_fsize : ℕ → Query ℕ
get_total_soft_delete_fsize board_index now db =
    sum_where (deleted_file_of board_index) size_of db.files

unfoldable pub restore_all_board_files : ℕ → Query Db
restore_all_board_files board_index now db = record db {
  files = update_where (deleted_file_of board_index) unmark_file db.files;
}
