-- ===== src/Models/Boards/Listing.antt =====
-- app/models/boards.py: the queries that list, search and count boards. A row of a result holds the
-- row of the table for the columns that the query takes from it.
use Prim.Native.String.{◌++◌ as text_append}
use mathlib.Core.List.{Permᴰ}
use fast_api_community_backe.Common.{
  ℕ, suc, String, Bool, true, not, ◌&&◌, ◌||◌, ◌⊎◌, ◌≡◌, Option, none, some, List, [], ◌∷◌, map,
  ◌==◌, leb, str_eq, is_none, if◌then◌else◌, select, find_row,
}
use fast_api_community_backe.Common.Lists.{length, take}
use fast_api_community_backe.Common.Order.{order_by}
use fast_api_community_backe.Common.Pages.{window}
use fast_api_community_backe.Db.{User, Board, Category, File, Query}
use fast_api_community_backe.Models.Boards.{live_at, at_index, live_file_of, within_days}
use fast_api_community_backe.Models.Users.{user_at}

-- ORDER BY of a text follows the collation of the database.
pub record Collation : Type 0 where
  pub le : String → String → Bool
  pub total : (a b : String) → (le a b ≡ true) ⊎ (le b a ≡ true)
  pub trans : (a b c : String) → le a b ≡ true → le b c ≡ true → le a c ≡ true
  pub antisymm : (a b : String) → le a b ≡ true → le b a ≡ true → a ≡ b

-- an entry of json_agg; the listings leave `deleted_at` out
pub record FileInfo : Type 0 where
  pub index : ℕ
  pub original_name : String
  pub file_size : ℕ
  pub reg_date : ℕ
  pub deleted_at : Option ℕ

-- a row of a listing
pub record BoardRow : Type 0 where
  pub board : Board
  pub id : String
  pub files : List FileInfo

-- a row of `boards b INNER JOIN "user" u ON b.user_index = u.index`
pub record Authored : Type 0 where
  pub board : Board
  pub author : User

abbrev pub consider : Board → Option User → List Authored → List Authored
consider b none rest = rest
consider b (some u) rest = record { board = b; author = u } ∷ rest

-- The index is the key of "user": at most one row joins a board.
unfoldable pub join_users : List User → List Board → List Authored
join_users users [] = []
join_users users (b ∷ bs) = consider b (find_row (user_at b.user_index) users) (join_users users bs)

abbrev withdrawn_user : String
withdrawn_user = "탈퇴한 사용자"

-- CASE WHEN u.deleted_at IS NOT NULL THEN '탈퇴한 사용자' ELSE u.id END
unfoldable pub shown_id : User → String
shown_id u = if is_none u.deleted_at then u.id else withdrawn_user

abbrev pub info : File → FileInfo
info f = record {
  index = f.index;
  original_name = f.original_name;
  file_size = f.file_size;
  reg_date = f.reg_date;
  deleted_at = none;
}

abbrev pub info_with_deletion : File → FileInfo
info_with_deletion f = record (info f) { deleted_at = f.deleted_at }

abbrev pub row_of : List File → Authored → BoardRow
row_of files a = record {
  board = a.board;
  id = shown_id a.author;
  files = map info (select (live_file_of a.board.index) files);
}

-- b.deleted_at IS NULL
abbrev pub is_live : Board → Bool
is_live b = is_none b.deleted_at

abbrev pub joined_is_live : Authored → Bool
joined_is_live a = is_live a.board

-- u.id = $1 AND b.deleted_at IS NULL
abbrev pub live_of_id : String → Authored → Bool
live_of_id user_id a = str_eq a.author.id user_id && is_live a.board

-- b.index DESC
abbrev pub newest : Authored → Authored → Bool
newest a b = leb b.board.index a.board.index

-- the rows that `certain_user_boards_info` takes its page from
unfoldable pub boards_of_id : String → Query (List Authored)
boards_of_id user_id now db =
    order_by newest (select (live_of_id user_id) (join_users db.users db.boards))

unfoldable pub certain_user_boards_info : String → ℕ → ℕ → Query (List BoardRow)
unfolding boards_of_id
certain_user_boards_info user_id limit offset now db =
    map (row_of db.files) (window limit offset (boards_of_id user_id now db))

unfoldable pub total_certain_user_boards_info : String → Query ℕ
total_certain_user_boards_info user_id now db =
    length (select (live_of_id user_id) (join_users db.users db.boards))

unfoldable pub get_total_boards_num : Query ℕ
get_total_boards_num now db = length (select is_live db.boards)

abbrev pub index_of_row : Authored → ℕ
index_of_row a = a.board.index

abbrev pub with_board : Option Board → List Board → List Board
with_board none rest = rest
with_board (some b) rest = b ∷ rest

-- TargetBoards tb INNER JOIN boards b ON tb.index = b.index
unfoldable pub join_boards : List Board → List ℕ → List Board
join_boards boards [] = []
join_boards boards (i ∷ is) = with_board (find_row (at_index i) boards) (join_boards boards is)

module _ (collation : Collation) where
  -- u.id ASC, b.index DESC
  abbrev pub by_author : Authored → Authored → Bool
  by_author a b =
      if str_eq a.author.id b.author.id then newest a b else collation.le a.author.id b.author.id

  unfoldable pub live_boards_by_author : Query (List Authored)
  live_boards_by_author now db =
      order_by by_author (select joined_is_live (join_users db.users db.boards))

  -- WITH TargetBoards AS (…)
  unfoldable pub target_boards : ℕ → ℕ → Query (List ℕ)
  unfolding live_boards_by_author
  target_boards limit offset now db =
      map index_of_row (window limit offset (live_boards_by_author now db))

  unfoldable pub all_user_boards_info : ℕ → ℕ → Query (List BoardRow)
  unfolding target_boards
  all_user_boards_info limit offset now db =
      let targets = join_boards db.boards (target_boards limit offset now db) in
      map (row_of db.files) (order_by by_author (join_users db.users targets))

-- a row of `pull_board_info_by_index`: its files are those of the board, deleted or not
unfoldable pub pull_board_info_by_index : ℕ → Query (Option BoardRow)
pull_board_info_by_index board_index now db = detail (find_row (live_at board_index) db.boards)
  where
    detailed : Board → Option User → Option BoardRow
    detailed b none = none
    detailed b (some u) = some (record {
      board = b;
      id = shown_id u;
      files = map info_with_deletion (select (λ (f : File). f.board_index == b.index) db.files);
    })

    detail : Option Board → Option BoardRow
    detail none = none
    detail (some b) = detailed b (find_row (user_at b.user_index) db.users)

-- LEFT(content, n)
unfoldable pub left : ℕ → String → String
left (suc n) (String.◌∷◌ c s) = String.◌∷◌ c (left n s)
left _ _ = String.[]

pub record Preview : Type 0 where
  pub index : ℕ
  pub category : Category
  pub title : String
  pub view_count : ℕ
  pub reg_date : ℕ
  pub content_preview : String

abbrev pub preview : Board → Preview
preview b = record {
  index = b.index;
  category = b.category;
  title = b.title;
  view_count = b.view_count;
  reg_date = b.reg_date;
  content_preview = text_append (left 100 b.content) "...";
}

-- reg_date DESC
abbrev pub latest : Board → Board → Bool
latest a b = leb b.reg_date a.reg_date

-- What the search leaves to the database: `ilike keyword text` is text ILIKE '%' || keyword || '%',
-- with `%` and `_` of the keyword as wildcards; and `meets limit offset` is the order in which the
-- query with this limit and offset meets the rows, each once, and so gives those that tie.
pub record Search : Type 0 where
  pub ilike : String → String → Bool
  pub meets : ℕ → ℕ → List Board → List Board
  pub meets-Perm : (limit offset : ℕ) (rows : List Board) → Permᴰ rows (meets limit offset rows)

module _ (search : Search) where
  abbrev pub is_hit : String → Board → Bool
  is_hit keyword b = (search.ilike keyword b.title || search.ilike keyword b.content) && is_live b

  unfoldable pub hits : String → ℕ → ℕ → Query (List Board)
  hits keyword limit offset now db =
      order_by latest (search.meets limit offset (select (is_hit keyword) db.boards))

  unfoldable pub search_in_title_content : String → ℕ → ℕ → Query (List Preview)
  unfolding hits
  search_in_title_content keyword limit offset now db =
      map preview (window limit offset (hits keyword limit offset now db))

  unfoldable pub total_search_in_title_content : String → Query ℕ
  total_search_in_title_content keyword now db = length (select (is_hit keyword) db.boards)

-- $1 IS NULL OR reg_date >= NOW() - make_interval(days => $1)
abbrev pub in_period : Option ℕ → ℕ → ℕ → Bool
in_period none now t = true
in_period (some n) now t = within_days n now (some t)

abbrev pub is_notice : Category → Bool
is_notice Category.notice = true
is_notice Category.general = Bool.false

abbrev pub may_be_popular : Option ℕ → ℕ → Board → Bool
may_be_popular days now b =
    is_live b && (not (is_notice b.category) && in_period days now b.reg_date)

-- view_count DESC, index DESC
abbrev pub ranks_before : Board → Board → Bool
ranks_before a b =
    if a.view_count == b.view_count then leb b.index a.index else leb b.view_count a.view_count

-- The order in which an answer without ORDER BY gives its rows, which is up to the database.
pub record Arrangement : Type 0 where
  pub of : List Board → List Board
  pub of-Perm : (rows : List Board) → Permᴰ rows (of rows)

-- `ranking` takes five rows in order; the outer SELECT joins them again and asks for no order.
unfoldable pub get_popular_top5_board : Arrangement → Option ℕ → Query (List Board)
get_popular_top5_board arrangement days now db =
    arrangement.of (take 5 (order_by ranks_before (select (may_be_popular days now) db.boards)))
