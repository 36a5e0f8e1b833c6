-- ===== src/Api/Reading.antt =====
-- app/api/: the requests that only read, with the bounds of their parameters and the dependencies
-- that FastAPI resolves first.
pub mod Unchanged
use Prim.Native.String.{count}
use fast_api_community_backe.Common.{ℕ, String, Bool, not, ◌&&◌, Option, leb}
use fast_api_community_backe.Exec.{Exec, Detail, http, raise_if, pure, ◌>>=◌, ◌>>◌}
use fast_api_community_backe.Security.{Tokens, CurrentUser, get_current_user, require_admin}
use fast_api_community_backe.Models.Boards.Listing.{Collation, Search}
use fast_api_community_backe.Services.Boards.Listing.{
  certain_boards_info_services, all_boards_info_services, search_in_title_content_services,
}
use fast_api_community_backe.Services.Users.{user_info_services}
use fast_api_community_backe.Services.Users.Register.{
  user_id_duplicate_services, user_email_duplicate_services,
}
use fast_api_community_backe.Services.Admin.Listing.{
  admin_get_all_users_services, admin_get_specific_user_services, admin_get_specific_board_services,
}
use fast_api_community_backe.Api.{discard}

pub data PublicReading : Type 0 where
  search_boards get_user_boards : String → ℕ → ℕ → PublicReading
  get_all_boards : ℕ → ℕ → PublicReading
  check_user_id check_user_email : String → PublicReading

pub data AdminReading : Type 0 where
  get_all_users : AdminReading
  get_specific_user get_specific_board : ℕ → AdminReading

-- with the cookie of the caller
pub data Reading : Type 0 where
  by_anyone : PublicReading → Reading
  get_my_info : Option String → Reading
  by_admin : Option String → AdminReading → Reading

-- a parameter out of its bounds
abbrev pub unless : Bool → Exec (Unit {0})
unless in_bounds = raise_if (not in_bounds) (http 422 Detail.invalid_request)

-- page and limit: Query(ge=1)
abbrev pub in_pages : ℕ → ℕ → Bool
in_pages page limit = leb 1 page && leb 1 limit

module _ (tokens : Tokens) (collation : Collation) (search : Search) where
  abbrev pub read_public : PublicReading → Exec (Unit {0})
  read_public (search_boards keyword page limit) = do
    unless (leb 2 (count keyword) && in_pages page limit)
    discard (search_in_title_content_services search keyword page limit)
  read_public (get_user_boards user_id page limit) = do
    unless ((leb 5 (count user_id) && leb (count user_id) 30) && in_pages page limit)
    discard (certain_boards_info_services user_id page limit)
  read_public (get_all_boards page limit) = do
    unless (in_pages page limit)
    discard (all_boards_info_services collation page limit)
  read_public (check_user_id id) = user_id_duplicate_services id
  read_public (check_user_email email) = user_email_duplicate_services email

  abbrev pub read_admin : AdminReading → Exec (Unit {0})
  read_admin get_all_users = discard admin_get_all_users_services
  read_admin (get_specific_user i) = do
    unless (leb 1 i)
    discard (admin_get_specific_user_services i)
  read_admin (get_specific_board i) = do
    unless (leb 1 i)
    discard (admin_get_specific_board_services i)

  unfoldable pub read : Reading → Exec (Unit {0})
  unfolding get_current_user require_admin discard
  read (by_anyone r) = read_public r
  read (get_my_info cookie) = do
    current_user ← get_current_user tokens cookie
    discard (user_info_services current_user)
  read (by_admin cookie r) = do
    current_user ← get_current_user tokens cookie
    require_admin tokens current_user
    read_admin r
