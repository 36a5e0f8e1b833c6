-- ===== src/Services/Boards/Grouping.antt =====
-- app/services/boards.py: all boards, gathered under the ids of their authors page by page.
use mathlib.Core.List.{map-append, map-map, Perm}
use fast_api_community_backe.Common.{
  ℕ, suc, ◌+◌, ◌*◌, ◌≤◌, ◌<◌, ◌≡◌, refl, sym, ap, ◌∙◌, ◌⊎◌, inl, inr, String, Bool, true, false,
  List, [], ◌∷◌, ◌++◌, map, is_none, select, All, Bool-cases, Option-cases, find_row,
}
use fast_api_community_backe.Common.Lists.{length}
use fast_api_community_backe.Common.Order.{length-order_by, order_by-Perm}
use fast_api_community_backe.Common.Pages.{total_pages, offset_of, window}
use fast_api_community_backe.Common.Groups.{
  Group, group_rows, posts_of, has_key, posts_of-group_rows, IsGrouped, group_rows-IsGrouped,
}
use fast_api_community_backe.Db.{User, Board}
use fast_api_community_backe.Exec.{Exec, State, Detail, ok, err, http, pure, ◌>>=◌}
use fast_api_community_backe.Consistency.{BoardKeys}
use fast_api_community_backe.Models.Users.{user_at}
use fast_api_community_backe.Models.Boards.Joins.{all_user_boards_info-window}
use fast_api_community_backe.Models.Boards.Listing.{
  Collation, Authored, is_live, joined_is_live, join_users, row_of, live_boards_by_author,
  all_user_boards_info, get_total_boards_num, BoardRow, by_author,
}
use fast_api_community_backe.Services.Boards.Listing.{
  Listing, AllBoardInfo, all_board_info, author_id, listing, is_empty, all_boards_info_services,
}
use fast_api_community_backe.Services.Boards.Reading.{
  read_all, read_all-ok, is_empty-window, offset-suc, some_page,
}

select-append :
    {A : Type 0} (p : A → Bool) (l r : List A) → select p (l ++ r) ≡ select p l ++ select p r
unfolding select
select-append p [] r = refl
select-append p (x ∷ xs) r = elim (Bool-cases (p x)) [
  | inl t ↦ rw t (ap (◌∷◌ x) (select-append p xs r))
  | inr t ↦ rw t (select-append p xs r)
]

-- what `all_boards_info_services` answers from a page that has a row
module _ (collation : Collation) (limit : ℕ) (s : State) where
  abbrev pub posts_on : ℕ → List AllBoardInfo
  posts_on page =
      map all_board_info (all_user_boards_info collation limit (offset_of page limit) s.now s.db)

  -- A page of all boards without a row is answered with 404. Any other is answered with groups:
  -- under each id stand the posts of the page that show this id, in the order of the page, and no
  -- id has two groups. The state stays as it was.
  pub all_boards_info-groups :
      (page : ℕ)
      → ((posts_on page ≡ [])
          × (all_boards_info_services collation page limit s ≡ (err (http 404 Detail.no_board), s)))
        ⊎ ((answer : Listing (Group AllBoardInfo)) × (all_boards_info_services collation page limit
                s
              ≡ (ok answer, s))
            × ((k : String)
                → posts_of k answer.result ≡ select (has_key author_id k) (posts_on page))
            × IsGrouped author_id answer.result)
  unfolding all_boards_info_services posts_of ◌>>=◌
  all_boards_info-groups page =
      elim (Bool-cases
        (is_empty (all_user_boards_info collation limit (offset_of page limit) s.now s.db))) [
          | inl e ↦ inl (
            no_posts (all_user_boards_info collation limit (offset_of page limit) s.now s.db) e,
            rw e refl,
          )
          | inr e ↦ inr (
            listing (group_rows author_id (posts_on page) []) (get_total_boards_num s.now s.db) page
                limit,
            rw e refl,
            (λ k. posts_of-group_rows author_id k (posts_on page) []),
            group_rows-IsGrouped author_id (posts_on page) [] tt,
          )
        ]
    where
      no_posts : (rows : List BoardRow) → is_empty rows ≡ true → map all_board_info rows ≡ []
      no_posts [] e = refl
      no_posts (x ∷ xs) e = cc

-- The author of each board has a row, as the foreign key demands.
abbrev pub HasAuthors : List User → List Board → Type 0
HasAuthors users boards = All (λ b. is_none (find_row (user_at b.user_index) users) ≡ false) boards

length-join_users :
    (users : List User) (boards : List Board)
    → HasAuthors users boards
    → length (select joined_is_live (join_users users boards)) ≡ length (select is_live boards)
unfolding join_users select
length-join_users users [] h = refl
length-join_users users (b ∷ bs) h = elim (Option-cases (find_row (user_at b.user_index) users)) [
  | inl t ↦ let none_there : true ≡ false = rw t at h.0 in cc
  | inr (u, t) ↦ elim (Bool-cases (is_live b)) [
    | inl live ↦ rw (t, live) (ap suc (length-join_users users bs h.1))
    | inr live ↦ rw (t, live) (length-join_users users bs h.1)
  ]
]

-- the posts under one id of an answer
abbrev pub posts_under : String → Listing (Group AllBoardInfo) → Listing AllBoardInfo
posts_under k answer = record {
  result = posts_of k answer.result;
  total_boards = answer.total_boards;
  total_pages = answer.total_pages;
  current_page = answer.current_page;
  limit = answer.limit;
}

-- a client that asks for a page and takes the posts under the id k
unfoldable pub ask_posts : Collation → ℕ → String → ℕ → Exec (Listing AllBoardInfo)
ask_posts collation limit k page = do
  answer ← all_boards_info_services collation page limit
  pure (posts_under k answer)

module _ (collation : Collation) (limit : ℕ) (k : String) (s : State) where
  abbrev pub all_boards : List Authored
  all_boards = live_boards_by_author collation s.now s.db

  -- the posts under k that some of the boards make
  abbrev pub posts_from : List Authored → List AllBoardInfo
  posts_from l = select (has_key author_id k) (map (λ a. all_board_info (row_of s.db.files a)) l)

  posts_from-append : (l r : List Authored) → posts_from (l ++ r) ≡ posts_from l ++ posts_from r
  posts_from-append l r =
      let shown : Authored → AllBoardInfo = λ a. all_board_info (row_of s.db.files a) in
      ap (select (has_key author_id k)) (map-append shown l r)
      ∙ select-append (has_key author_id k) (map shown l) (map shown r)

  ask_posts-page :
      (n : ℕ)
      → BoardKeys s.db.boards
      → HasAuthors s.db.users s.db.boards
      → 1 ≤ limit
      → n < total_pages (length all_boards) limit
      → ask_posts collation limit k (n + 1) s ≡ (
        ok (
            listing
              (posts_from (window limit (n * limit) all_boards))
              (length all_boards)
              (n + 1)
              limit),
        s,
      )
  unfolding ask_posts all_boards_info_services posts_of ◌>>=◌
  ask_posts-page n keys authors one lt =
      rw
        (
          all_user_boards_info-window collation limit (offset_of (n + 1) limit) s.now s.db keys,
          offset-suc n limit,
          is_empty-window (row_of s.db.files) limit n all_boards one lt,
          posts_of-group_rows author_id k
              (map all_board_info (map (row_of s.db.files) (window limit (n * limit) all_boards)))
              [],
          map-map all_board_info (row_of s.db.files) (window limit (n * limit) all_boards),
          counted,
        )
        refl
    where
      counted : get_total_boards_num s.now s.db ≡ length all_boards
      counted = sym (
          length-order_by (by_author collation)
            (select joined_is_live (join_users s.db.users s.db.boards))
          ∙ length-join_users s.db.users s.db.boards authors)

  -- A client that asks for page 1 of all boards, and then for the pages up to the `total_pages` of
  -- the answer, and takes the posts under one id from each, gets just the live boards that show this
  -- id, in the order of authors and with the newest of an author first. There is a live board with
  -- an author, no index of a board occurs twice, and each board has an author.
  pub all_boards_info-read_all :
      BoardKeys s.db.boards
      → HasAuthors s.db.users s.db.boards
      → 1 ≤ limit
      → 0 < length all_boards
      → (read_all (ask_posts collation limit k) s ≡ (ok (posts_from all_boards), s))
        × Perm all_boards (select joined_is_live (join_users s.db.users s.db.boards))
  unfolding live_boards_by_author select
  all_boards_info-read_all keys authors one some_board = (
    read_all-ok (ask_posts collation limit k) posts_from refl posts_from-append all_boards limit s
        (λ n lt. ask_posts-page n keys authors one lt) (some_page all_boards one some_board) one,
    order_by-Perm (by_author collation) (select joined_is_live (join_users s.db.users s.db.boards)),
  )
