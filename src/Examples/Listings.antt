-- ===== src/Examples/Listings.antt =====
-- The theorems on lists of boards and their views at concrete inputs.
use mathlib.Core.List.{Perm}
use fast_api_community_backe.Common.{
  ℕ, ◌+◌, ◌*◌, ◌≤◌, ◌≡◌, ◌⊎◌, inl, refl, String, none, some, [], ◌∷◌, map, arith, select, find_row,
}
use fast_api_community_backe.Common.Lists.{take}
use fast_api_community_backe.Common.Order.{order_by, IsOrdered}
use fast_api_community_backe.Common.Pages.{window}
use fast_api_community_backe.Common.Groups.{Group, posts_of, has_key, IsGrouped}
use fast_api_community_backe.Models.Users.{get_user_index}
use fast_api_community_backe.Db.{Board}
use fast_api_community_backe.Exec.{State, Detail, ok, err, http}
use fast_api_community_backe.Models.Boards.Listing.{
  join_users, live_of_id, newest, is_hit, latest, preview, row_of, boards_of_id,
  live_boards_by_author, all_user_boards_info, get_popular_top5_board, joined_is_live,
}
use fast_api_community_backe.Models.Boards.Joins.{all_user_boards_info-window}
use fast_api_community_backe.Services.Boards.Listing.{
  Listing, AllBoardInfo, author_id, convert_mb, certain_boards_info_services,
  search_in_title_content_services, all_boards_info_services,
}
use fast_api_community_backe.Services.Boards.Sizes.{convert_mb-nearest}
use fast_api_community_backe.Services.Boards.Reading.{read_all}
use fast_api_community_backe.Services.Boards.Paging.{
  shown_boards, shown_info, found_boards, certain_boards_info-read_all, certain_boards_info-past,
  search_in_title_content-read_all,
}
use fast_api_community_backe.Services.Boards.Grouping.{
  posts_on, all_boards, posts_from, ask_posts, all_boards_info-groups, all_boards_info-read_all,
}
use fast_api_community_backe.Services.Boards.Popular.{
  AreBest, get_popular_top5_board-best, get_popular_board-cached,
}
use fast_api_community_backe.Services.Boards.Views.{
  PopularOption, Viewer, get_popular_board_services, single_board_info_services,
}
use fast_api_community_backe.Examples.{start, post, any_order, all_match, ranked}

-- a second post of Alice, later than the first
abbrev second : Board
second = record post { index = 2; reg_date = 500; view_count = 3 }

abbrev two_posts : State
two_posts = record start { db = record start.db { boards = post ∷ second ∷ [] }; board_seq = 3 }

certain_boards_info-read_all_example :
    (read_all (λ page. certain_boards_info_services "alice" page 1) two_posts
      ≡ (ok (map (shown_info "alice" 1 two_posts) (shown_boards "alice" 1 two_posts)), two_posts))
    × IsOrdered newest (shown_boards "alice" 1 two_posts)
    × Perm
        (shown_boards "alice" 1 two_posts)
        (select (live_of_id "alice") (join_users two_posts.db.users two_posts.db.boards))
unfolding get_user_index find_row select join_users boards_of_id order_by
certain_boards_info-read_all_example =
    certain_boards_info-read_all "alice" 1 two_posts refl (omega arith) (omega arith)

certain_boards_info-past_example :
    (detail : Detail) × (certain_boards_info_services "nobody" 1 10 start
      ≡ (err (http 404 detail), start))
unfolding get_user_index find_row
certain_boards_info-past_example =
    certain_boards_info-past "nobody" 10 start 1 (omega arith) (inl refl)

search_in_title_content-read_all_example :
    (read_all (λ page. search_in_title_content_services all_match "it" page 1) two_posts
      ≡ (ok (map preview (found_boards all_match "it" 1 two_posts)), two_posts))
    × IsOrdered latest (found_boards all_match "it" 1 two_posts)
    × Perm
        (found_boards all_match "it" 1 two_posts)
        (select (is_hit all_match "it") two_posts.db.boards)
unfolding select
search_in_title_content-read_all_example =
    search_in_title_content-read_all all_match "it" 1 two_posts ((omega arith, tt), (tt, tt))
      (omega arith)

all_user_boards_info-window_example :
    all_user_boards_info any_order 1 1 1000 two_posts.db
    ≡ map
        (row_of two_posts.db.files)
        (window 1 1 (live_boards_by_author any_order 1000 two_posts.db))
all_user_boards_info-window_example =
    all_user_boards_info-window any_order 1 1 1000 two_posts.db ((omega arith, tt), (tt, tt))

-- the group of a post that stands alone
all_boards_info-groups_example :
    ((posts_on any_order 1 two_posts 1 ≡ [])
      × (all_boards_info_services any_order 1 1 two_posts
          ≡ (err (http 404 Detail.no_board), two_posts)))
    ⊎ ((answer : Listing (Group AllBoardInfo)) × (all_boards_info_services any_order 1 1 two_posts
          ≡ (ok answer, two_posts))
        × ((k : String)
            → posts_of k answer.result
              ≡ select (has_key author_id k) (posts_on any_order 1 two_posts 1))
        × IsGrouped author_id answer.result)
all_boards_info-groups_example = all_boards_info-groups any_order 1 two_posts 1

all_boards_info-read_all_example :
    (read_all (ask_posts any_order 1 "alice") two_posts ≡ (
      ok (posts_from any_order 1 "alice" two_posts (all_boards any_order 1 "alice" two_posts)),
      two_posts,
    ))
    × Perm
        (all_boards any_order 1 "alice" two_posts)
        (select joined_is_live (join_users two_posts.db.users two_posts.db.boards))
unfolding find_row select join_users live_boards_by_author order_by
all_boards_info-read_all_example =
    all_boards_info-read_all any_order 1 "alice" two_posts ((omega arith, tt), (tt, tt))
      (refl, (refl, tt)) (omega arith) (omega arith)

get_popular_top5_board-best_example :
    AreBest none 1000 two_posts.db.boards (get_popular_top5_board ranked none 1000 two_posts.db)
get_popular_top5_board-best_example = get_popular_top5_board-best ranked none two_posts

-- the first post is deleted while the answer is cached
abbrev seen_five : State
seen_five =
    let t = (get_popular_board_services ranked PopularOption.all two_posts).1 in
    record t { db = record t.db { boards = second ∷ [] }; now = 599001000 }

get_popular_board-cached_example :
    ((get_popular_board_services ranked PopularOption.all two_posts).0 ≡ ok (second ∷ post ∷ []))
    × (get_popular_board_services ranked PopularOption.all seen_five
        ≡ (ok (second ∷ post ∷ []), seen_five))
unfolding get_popular_top5_board select order_by take
get_popular_board-cached_example =
    get_popular_board-cached ranked ranked PopularOption.all two_posts seen_five second (post ∷ [])
      599000000 refl refl refl refl (omega arith)

abbrev visitor : Viewer
visitor = record { user_index = none; anonymous_id = some "v" }

abbrev viewed_at : ℕ → State
viewed_at time = record ((single_board_info_services 1 visitor start).1) { now = time }

convert_mb-nearest_example :
    (convert_mb (some 1572864) * 1048576 ≤ 1572864 * 100 + 524288)
    × (1572864 * 100 ≤ convert_mb (some 1572864) * 1048576 + 524288)
convert_mb-nearest_example = convert_mb-nearest 1572864
