-- ===== src/Services/Boards/Views.antt =====
-- app/services/boards.py and get_viewer of app/core/security.py: the view of one board, which is
-- recorded once in five minutes for each viewer, and the popular boards, cached for ten minutes.
use fast_api_community_backe.Common.{ℕ, String, Option, none, some, List, ◌==◌, if◌then◌else◌}
use fast_api_community_backe.Db.{Board}
use fast_api_community_backe.Exec.{
  Exec, Detail, RedisKey, RedisValue, http, fetch, raise_if, or_raise, pure, execute, redis_get,
  redis_setex, ◌>>=◌, ◌>>◌,
}
use fast_api_community_backe.Security.{Tokens, Decoded, payload, actual_token}
use fast_api_community_backe.Models.Users.{get_user_index}
use fast_api_community_backe.Models.Boards.{insert_boards_view_info}
use fast_api_community_backe.Models.Boards.Listing.{
  BoardRow, pull_board_info_by_index, Arrangement, get_popular_top5_board,
}
use fast_api_community_backe.Services.Boards.Listing.{BoardInfo, board_info, is_empty}

-- `viewer_info`
pub record Viewer : Type 0 where
  pub user_index : Option ℕ
  pub anonymous_id : Option String

-- `if text`, for a text that may be `None`
abbrev pub non_empty : Option String → Option String
non_empty none = none
non_empty (some String.[]) = none
non_empty (some (String.◌∷◌ c s)) = some (String.◌∷◌ c s)

-- `if user_record`
abbrev pub non_zero : Option ℕ → Option ℕ
non_zero none = none
non_zero (some i) = if i == 0 then none else some i

abbrev or_drawn : Option String → String → String
or_drawn none drawn = drawn
or_drawn (some t) drawn = t

abbrev pub viewer_of : Option ℕ → Option String → String → Viewer
viewer_of (some i) anonymous_id drawn = record { user_index = some i; anonymous_id = none }
viewer_of none anonymous_id drawn = record {
  user_index = none;
  anonymous_id = some (or_drawn (non_empty anonymous_id) drawn);
}

module _ (tokens : Tokens) where
  -- the user that the payload names, who is looked up by id
  unfoldable pub user_of_payload : Decoded → Exec (Option ℕ)
  unfolding get_user_index
  user_of_payload (payload (some (String.◌∷◌ c s))) = do
    user_record ← fetch (get_user_index (String.◌∷◌ c s))
    pure (non_zero user_record)
  user_of_payload _ = pure none

  unfoldable pub user_of_token : Option String → Exec (Option ℕ)
  unfolding user_of_payload
  user_of_token none s = pure none s
  user_of_token (some token) s = user_of_payload (tokens.decode (actual_token token) s.now) s

  -- the cookies `access_token` and `anonymous_id`, and the id that `uuid4` draws
  unfoldable pub get_viewer : Option String → Option String → String → Exec Viewer
  unfolding user_of_token
  get_viewer access_token anonymous_id drawn = do
    user_index ← user_of_token (non_empty access_token)
    pure (viewer_of user_index anonymous_id drawn)

abbrev or_none_text : Option String → String
or_none_text none = "None"
or_none_text (some t) = t

abbrev pub key_for : ℕ → Option ℕ → Option String → RedisKey
key_for board_index none anonymous_id =
    RedisKey.board_view_anon board_index (or_none_text anonymous_id)
key_for board_index (some i) anonymous_id = RedisKey.board_view_user board_index i

abbrev pub view_key : ℕ → Viewer → RedisKey
view_key board_index viewer = key_for board_index (non_zero viewer.user_index) viewer.anonymous_id

-- `if not is_viewed`
unfoldable pub record_view : Option RedisValue → ℕ → Viewer → Exec (Unit {0})
unfolding insert_boards_view_info
record_view (some is_viewed) board_index viewer = pure tt
record_view none board_index viewer = do
  execute (insert_boards_view_info board_index viewer.user_index viewer.anonymous_id)
  redis_setex (view_key board_index viewer) 300 (RedisValue.text "viewed")

-- `board_dict`: the columns of a listed board and the count of views
pub record BoardDetail : Type 0 where
  pub info : BoardInfo
  pub view_count : ℕ

abbrev pub board_detail : BoardRow → BoardDetail
board_detail row = record { info = board_info row; view_count = row.board.view_count }

unfoldable pub single_board_info_services : ℕ → Viewer → Exec BoardDetail
unfolding pull_board_info_by_index record_view
single_board_info_services board_index viewer = do
  found ← fetch (pull_board_info_by_index board_index)
  board_data ← or_raise found (http 404 Detail.no_board)
  is_viewed ← redis_get (view_key board_index viewer)
  record_view is_viewed board_index viewer
  pure (board_detail board_data)

pub data PopularOption : Type 0 where
  all weekly month : PopularOption

abbrev pub period_days : PopularOption → Option ℕ
period_days all = none
period_days weekly = some 7
period_days month = some 30

abbrev pub popular_key : PopularOption → RedisKey
popular_key all = RedisKey.popular_boards 0
popular_key weekly = RedisKey.popular_boards 1
popular_key month = RedisKey.popular_boards 2

-- Nothing but this service sets the key, so its text is a list of rows.
abbrev pub cached_rows : Option RedisValue → Option (List Board)
cached_rows (some (RedisValue.rows r)) = some r
cached_rows _ = none

unfoldable pub popular_rows : Arrangement → Option (List Board) → PopularOption → Exec (List Board)
unfolding get_popular_top5_board
popular_rows arrangement (some result) popular_option = pure result
popular_rows arrangement none popular_option = do
  result ← fetch (get_popular_top5_board arrangement (period_days popular_option))
  raise_if (is_empty result) (http 404 Detail.no_popular_board)
  redis_setex (popular_key popular_option) 600 (RedisValue.rows result)
  pure result

unfoldable pub get_popular_board_services : Arrangement → PopularOption → Exec (List Board)
unfolding popular_rows
get_popular_board_services arrangement popular_option = do
  cache_data ← redis_get (popular_key popular_option)
  popular_rows arrangement (cached_rows cache_data) popular_option

-- the handler `get_board_detail` with the viewer that it depends on
unfoldable pub view_board : Tokens → Option String → Option String → String → ℕ → Exec BoardDetail
unfolding get_viewer single_board_info_services
view_board tokens access_token anonymous_id drawn board_index = do
  viewer ← get_viewer tokens access_token anonymous_id drawn
  single_board_info_services board_index viewer
