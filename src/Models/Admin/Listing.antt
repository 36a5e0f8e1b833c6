-- ===== src/Models/Admin/Listing.antt =====
-- app/models/admin.py: the queries that list users and boards for an administrator. A row holds the
-- rows of the tables for the columns that the query takes from them.
use fast_api_community_backe.Common.{
  ℕ, ◌+◌, Bool, Option, none, some, List, [], ◌∷◌, ◌++◌, String, map, leb, is_index, any_row,
  select, find_row, if◌then◌else◌,
}
use fast_api_community_backe.Common.Order.{order_by}
use fast_api_community_backe.Common.Pages.{window}
use fast_api_community_backe.Db.{User, Board, File, Query}
use fast_api_community_backe.Models.Boards.{at_index, of_user}
use fast_api_community_backe.Models.Files.{file_of_board, file_index_of}
use fast_api_community_backe.Models.Users.{user_at}

-- the right side of a LEFT JOIN: NULL when no row joins
abbrev pub left_join : {A : Type 0} → List A → List (Option A)
left_join [] = none ∷ []
left_join (x ∷ xs) = map some (x ∷ xs)

-- a row of boards LEFT JOIN files, for one user
pub record Joined : Type 0 where
  pub board_index : Option ℕ
  pub file_index : Option ℕ

abbrev pub joined_to : ℕ → Option File → Joined
joined_to i f = record { board_index = some i; file_index = file_index_of f }

unfoldable pub join_files : List File → List (Option Board) → List Joined
join_files files [] = []
join_files files (none ∷ bs) =
    record { board_index = none; file_index = none } ∷ join_files files bs
join_files files (some b ∷ bs) =
    map (joined_to b.index) (left_join (select (file_of_board b.index) files))
    ++ join_files files bs

-- COUNT(DISTINCT …)
unfoldable pub count_distinct : List (Option ℕ) → ℕ
count_distinct [] = 0
count_distinct (none ∷ xs) = count_distinct xs
count_distinct (some i ∷ xs) =
    let rest = count_distinct xs in if any_row (λ o. is_index o i) xs then rest else 1 + rest

pub record UserCounts : Type 0 where
  pub user : User
  pub total_boards : ℕ
  pub total_files : ℕ

abbrev pub board_column : Joined → Option ℕ
board_column r = r.board_index

abbrev pub file_column : Joined → Option ℕ
file_column r = r.file_index

-- the rows of one group
abbrev pub rows_of_user : List Board → List File → User → List Joined
rows_of_user boards files u = join_files files (left_join (select (of_user u.index) boards))

abbrev pub counts_of : List Board → List File → User → UserCounts
counts_of boards files u = record {
  user = u;
  total_boards = count_distinct (map board_column (rows_of_user boards files u));
  total_files = count_distinct (map file_column (rows_of_user boards files u));
}

-- u.index ASC
abbrev pub by_index : User → User → Bool
by_index a b = leb a.index b.index

unfoldable pub admin_get_all_users : Query (List UserCounts)
unfolding join_files count_distinct
admin_get_all_users now db = map (counts_of db.boards db.files) (order_by by_index db.users)

pub record UserBoard : Type 0 where
  pub user : User
  pub board : Option Board

-- b.index DESC; NULL stands in a row of its own
abbrev pub newest_board : Board → Board → Bool
newest_board a b = leb b.index a.index

abbrev pub boards_of_user : List Board → Option User → List UserBoard
boards_of_user boards none = []
boards_of_user boards (some u) =
    map (λ b. record { user = u; board = b })
      (left_join (order_by newest_board (select (of_user u.index) boards)))

unfoldable pub admin_get_specific_user : ℕ → ℕ → ℕ → Query (List UserBoard)
admin_get_specific_user user_index limit offset now db =
    window limit offset (boards_of_user db.boards (find_row (user_at user_index) db.users))

pub record BoardFiles : Type 0 where
  pub board : Board
  pub user_id : Option String
  pub files : List File

abbrev pub id_of_user : Option User → Option String
id_of_user none = none
id_of_user (some u) = some u.id

abbrev pub with_files : List User → List File → Option Board → Option BoardFiles
with_files users files none = none
with_files users files (some b) = some (record {
  board = b;
  user_id = id_of_user (find_row (user_at b.user_index) users);
  files = select (file_of_board b.index) files;
})

unfoldable pub admin_get_specific_board : ℕ → Query (Option BoardFiles)
admin_get_specific_board board_index now db =
    with_files db.users db.files (find_row (at_index board_index) db.boards)
