-- ===== src/Services/Boards/Listing.antt =====
-- app/services/boards.py and app/schemas/boards.py: the lists of boards, page by page, and their
-- search. The API takes pages and limits of at least 1.
use fast_api_community_backe.Common.{
  ℕ, ◌+◌, ◌*◌, ◌/◌, ◌%◌, String, Bool, true, false, ◌&&◌, ◌||◌, Option, none, some, List, [], ◌∷◌,
  map, ◌==◌, ltb, is_none, if◌then◌else◌,
}
use fast_api_community_backe.Common.Groups.{Group, group_rows}
use fast_api_community_backe.Common.Pages.{total_pages, offset_of}
use fast_api_community_backe.Db.{Category}
use fast_api_community_backe.Exec.{Exec, Detail, http, fetch, raise_if, pure, ◌>>=◌, ◌>>◌}
use fast_api_community_backe.Models.Users.{get_user_index}
use fast_api_community_backe.Models.Boards.Listing.{
  Collation, BoardRow, FileInfo, Preview, certain_user_boards_info, total_certain_user_boards_info,
  all_user_boards_info, get_total_boards_num, search_in_title_content,
  total_search_in_title_content, Search,
}

-- The number of hundredths in the text, which is the size in megabytes with two decimals: the
-- quotient is exact below 2^53 bytes, and `.2f` rounds a tie to the even digit.
unfoldable pub convert_mb : Option ℕ → ℕ
convert_mb none = 0
convert_mb (some size_bytes) =
    let below = size_bytes * 100 / 1048576 in
    let over = size_bytes * 100 % 1048576 in
    if ltb 524288 over || (over == 524288 && below % 2 == 1) then below + 1 else below

pub record BoardFileResponse : Type 0 where
  pub index : ℕ
  pub original_name : String
  pub file_size : ℕ
  pub reg_date : ℕ
  pub deleted_at : Option ℕ

pub record BoardInfo : Type 0 where
  pub id : String
  pub index : ℕ
  pub category : Category
  pub title : String
  pub content : String
  pub reg_date : ℕ
  pub update_date : ℕ
  pub total_file_size : ℕ
  pub files : List BoardFileResponse

pub record AllBoardInfo : Type 0 where
  pub id : String
  pub category : Category
  pub index : ℕ
  pub title : String
  pub reg_date : ℕ
  pub update_date : ℕ
  pub total_file_size : ℕ
  pub files : List BoardFileResponse

abbrev pub file_response : FileInfo → BoardFileResponse
file_response f = record {
  index = f.index;
  original_name = f.original_name;
  file_size = convert_mb (some f.file_size);
  reg_date = f.reg_date;
  deleted_at = f.deleted_at;
}

-- the body of the loop over the rows
unfoldable pub board_info : BoardRow → BoardInfo
board_info row = record {
  id = row.id;
  index = row.board.index;
  category = row.board.category;
  title = row.board.title;
  content = row.board.content;
  reg_date = row.board.reg_date;
  update_date = row.board.update_date;
  total_file_size = convert_mb (some row.board.total_file_size);
  files = map file_response row.files;
}

unfoldable pub all_board_info : BoardRow → AllBoardInfo
all_board_info row = record {
  id = row.id;
  category = row.board.category;
  index = row.board.index;
  title = row.board.title;
  reg_date = row.board.reg_date;
  update_date = row.board.update_date;
  total_file_size = convert_mb (some row.board.total_file_size);
  files = map file_response row.files;
}

-- `data` of the answer: `result` and `meta`
pub record Listing (A : Type 0) : Type 0 where
  pub result : List A
  pub total_boards : ℕ
  pub total_pages : ℕ
  pub current_page : ℕ
  pub limit : ℕ

-- `not rows`
abbrev pub is_empty : {A : Type 0} → List A → Bool
is_empty [] = true
is_empty (x ∷ xs) = false

abbrev pub listing : {A : Type 0} → List A → ℕ → ℕ → ℕ → Listing A
listing result total page limit = record {
  result = result;
  total_boards = total;
  total_pages = total_pages total limit;
  current_page = page;
  limit = limit;
}

unfoldable pub certain_boards_info_services : String → ℕ → ℕ → Exec (Listing BoardInfo)
unfolding certain_user_boards_info total_certain_user_boards_info get_user_index
certain_boards_info_services user_id page limit = do
  target_user_index ← fetch (get_user_index user_id)
  raise_if (is_none target_user_index) (http 404 Detail.no_user)
  total_boards ← fetch (total_certain_user_boards_info user_id)
  rows ← fetch (certain_user_boards_info user_id limit (offset_of page limit))
  raise_if (is_empty rows) (http 404 Detail.no_board)
  pure (listing (map board_info rows) total_boards page limit)

abbrev pub author_id : AllBoardInfo → String
author_id post = post.id

unfoldable pub all_boards_info_services : Collation → ℕ → ℕ → Exec (Listing (Group AllBoardInfo))
unfolding all_user_boards_info get_total_boards_num group_rows
all_boards_info_services collation page limit = do
  total_boards ← fetch get_total_boards_num
  rows ← fetch (all_user_boards_info collation limit (offset_of page limit))
  raise_if (is_empty rows) (http 404 Detail.no_board)
  pure (listing (group_rows author_id (map all_board_info rows) []) total_boards page limit)

abbrev pub search_answer : List Preview → ℕ → ℕ → ℕ → Listing Preview
search_answer [] total page limit = record {
  result = [];
  total_boards = 0;
  total_pages = 0;
  current_page = page;
  limit = limit;
}
search_answer (x ∷ xs) total page limit = listing (x ∷ xs) total page limit

unfoldable pub search_in_title_content_services : Search → String → ℕ → ℕ → Exec (Listing Preview)
unfolding search_in_title_content total_search_in_title_content
search_in_title_content_services search search_keyword page limit = do
  total_boards ← fetch (total_search_in_title_content search search_keyword)
  search_result ← fetch (search_in_title_content search search_keyword limit (offset_of page limit))
  pure (search_answer search_result total_boards page limit)
