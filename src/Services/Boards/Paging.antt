-- ===== src/Services/Boards/Paging.antt =====
-- app/services/boards.py: the pages of the boards of one user, and those of a search.
use mathlib.Core.List.{map-append, map-map, Perm}
use fast_api_community_backe.Common.{
  ℕ, ◌+◌, ◌-◌, ◌*◌, ◌≤◌, ◌<◌, ◌≡◌, ◌≢◌, refl, sym, ◌∙◌, leb, inl, inr, ◌⊎◌, String, true, false,
  List, [], ◌∷◌, map, arith, is_none, select, Bool-cases, leb_total, leb_trans,
}
use fast_api_community_backe.Common.Lists.{length}
use fast_api_community_backe.Common.Order.{
  IsOrdered, order_by, order_by-Perm, order_by-IsOrdered, length-order_by,
}
use fast_api_community_backe.Common.Order.Ties.{Pairs, order_by-met}
use fast_api_community_backe.Common.Pages.{total_pages, offset_of, window, window-nil}
use fast_api_community_backe.Db.{Board}
use fast_api_community_backe.Exec.{State, Detail, ok, err, http, ◌>>=◌}
use fast_api_community_backe.Models.Users.{get_user_index}
use fast_api_community_backe.Models.Boards.Listing.{
  Authored, join_users, row_of, certain_user_boards_info, total_certain_user_boards_info,
  live_of_id, newest, boards_of_id, Search, is_hit, latest, hits, preview, Preview,
  search_in_title_content, total_search_in_title_content,
}
use fast_api_community_backe.Services.Boards.Listing.{
  BoardInfo, board_info, listing, is_empty, search_answer, certain_boards_info_services,
  search_in_title_content_services,
}
use fast_api_community_backe.Services.Boards.Reading.{
  read_all, read_all-ok, is_empty-window, offset-suc, window-past, some_page,
}

newest_total : (a b : Authored) → (newest a b ≡ true) ⊎ (newest b a ≡ true)
newest_total a b = leb_total b.board.index a.board.index

newest_trans : (a b c : Authored) → newest a b ≡ true → newest b c ≡ true → newest a c ≡ true
newest_trans a b c p q = leb_trans c.board.index b.board.index a.board.index q p

module _ (user_id : String) (limit : ℕ) (s : State) where
  -- the boards that the pages show
  abbrev pub shown_boards : List Authored
  shown_boards = boards_of_id user_id s.now s.db

  abbrev pub shown_info : Authored → BoardInfo
  shown_info a = board_info (row_of s.db.files a)

  length-shown_boards : length shown_boards ≡ total_certain_user_boards_info user_id s.now s.db
  unfolding boards_of_id total_certain_user_boards_info
  length-shown_boards =
      length-order_by newest (select (live_of_id user_id) (join_users s.db.users s.db.boards))

  certain_boards_info-page :
      (n : ℕ)
      → is_none (get_user_index user_id s.now s.db) ≡ false
      → 1 ≤ limit
      → n < total_pages (length shown_boards) limit
      → certain_boards_info_services user_id (n + 1) limit s ≡ (
        ok (
            listing
              (map shown_info (window limit (n * limit) shown_boards))
              (length shown_boards)
              (n + 1)
              limit),
        s,
      )
  unfolding certain_boards_info_services certain_user_boards_info total_certain_user_boards_info
      ◌>>=◌
  certain_boards_info-page n live one lt =
      rw
        (
          live,
          offset-suc n limit,
          is_empty-window (row_of s.db.files) limit n shown_boards one lt,
          map-map board_info (row_of s.db.files) (window limit (n * limit) shown_boards),
          length-shown_boards,
        )
        refl

  -- A client that asks for page 1, and then for the pages up to the `total_pages` of the answer, of
  -- a user who is not withdrawn and has a board: it gets each live board of this id once, the newest
  -- first, and the state stays as it was.
  pub certain_boards_info-read_all :
      is_none (get_user_index user_id s.now s.db) ≡ false
      → 1 ≤ limit
      → 0 < length shown_boards
      → (read_all (λ page. certain_boards_info_services user_id page limit) s
          ≡ (ok (map shown_info shown_boards), s))
        × IsOrdered newest shown_boards
        × Perm shown_boards (select (live_of_id user_id) (join_users s.db.users s.db.boards))
  unfolding boards_of_id
  certain_boards_info-read_all live one some_board = (
    read_all-ok (λ page. certain_boards_info_services user_id page limit) (map shown_info) refl
        (map-append shown_info) shown_boards limit s
        (λ n lt. certain_boards_info-page n live one lt) (some_page shown_boards one some_board)
        one,
    order_by-IsOrdered newest (λ a b. newest_total a b) (λ a b c. newest_trans a b c)
        (select (live_of_id user_id) (join_users s.db.users s.db.boards)),
    order_by-Perm newest (select (live_of_id user_id) (join_users s.db.users s.db.boards)),
  )

  -- A page behind the last one is answered with 404, as is each page of a user who is withdrawn or
  -- does not exist, and the state stays as it was.
  pub certain_boards_info-past :
      (page : ℕ)
      → 1 ≤ limit
      → (is_none (get_user_index user_id s.now s.db) ≡ true)
        ⊎ (total_pages (length shown_boards) limit < page)
      → (detail : Detail) × (certain_boards_info_services user_id page limit s
          ≡ (err (http 404 detail), s))
  unfolding certain_boards_info_services certain_user_boards_info total_certain_user_boards_info
      ◌>>=◌
  certain_boards_info-past page one (inl gone) = (Detail.no_user, rw gone refl)
  certain_boards_info-past page one (inr past) =
      elim (Bool-cases (is_none (get_user_index user_id s.now s.db))) [
        | inl gone ↦ (Detail.no_user, rw gone refl)
        | inr live ↦
            (Detail.no_board, rw (live, window-past (page - 1) shown_boards one (omega arith)) refl)
      ]

search_answer-listing :
    (rows : List Preview) (total page limit : ℕ)
    → is_empty rows ≡ false
    → search_answer rows total page limit ≡ listing rows total page limit
search_answer-listing [] total page limit e = cc
search_answer-listing (x ∷ xs) total page limit e = refl

module _ (search : Search) (keyword : String) (limit : ℕ) (s : State) where
  -- the boards that match, the latest first
  abbrev pub found_boards : List Board
  found_boards = order_by latest (select (is_hit search keyword) s.db.boards)

  -- no two of them were written at the same moment
  abbrev pub HasApartDates : Type 0
  HasApartDates =
      Pairs (λ a b. a.reg_date ≢ b.reg_date) (select (is_hit search keyword) s.db.boards)

  -- Whatever order each of the queries meets the rows in, they take their pages from one list.
  hits-found_boards :
      (offset : ℕ) → HasApartDates → hits search keyword limit offset s.now s.db ≡ found_boards
  unfolding hits
  hits-found_boards offset apart = sym (
      order_by-met (λ a b. a.reg_date ≢ b.reg_date) (λ a b r e. r (sym e)) latest
        (λ a b. leb_total b.reg_date a.reg_date)
        (λ a b c p q. leb_trans c.reg_date b.reg_date a.reg_date q p)
        (λ a b r t. strict a.reg_date b.reg_date r t)
        (search.meets-Perm limit offset (select (is_hit search keyword) s.db.boards)) apart)
    where
      strict : (m n : ℕ) → m ≢ n → leb n m ≡ true → leb m n ≡ false
      strict m n r t = elim (Bool-cases (leb m n)) [
        | inl e ↦ let same : m ≡ n = ground (arith, t, e) in absurd (r same)
        | inr e ↦ e
      ]

  search_in_title_content-page :
      (n : ℕ)
      → HasApartDates
      → 1 ≤ limit
      → n < total_pages (length found_boards) limit
      → search_in_title_content_services search keyword (n + 1) limit s ≡ (
        ok (
            listing
              (map preview (window limit (n * limit) found_boards))
              (length found_boards)
              (n + 1)
              limit),
        s,
      )
  unfolding search_in_title_content_services search_in_title_content total_search_in_title_content
      ◌>>=◌
  search_in_title_content-page n apart one lt =
      rw
        (
          offset-suc n limit,
          hits-found_boards (n * limit) apart,
          search_answer-listing (map preview (window limit (n * limit) found_boards))
              (total_search_in_title_content search keyword s.now s.db) (n + 1) limit
              (is_empty-window preview limit n found_boards one lt),
          length-hits,
        )
        refl
    where
      length-hits : length found_boards ≡ total_search_in_title_content search keyword s.now s.db
      length-hits = length-order_by latest (select (is_hit search keyword) s.db.boards)

  without_hits :
      HasApartDates
      → found_boards ≡ []
      → read_all (λ page. search_in_title_content_services search keyword page limit) s
        ≡ (ok (map preview found_boards), s)
  unfolding read_all search_in_title_content_services search_in_title_content ◌>>=◌
  without_hits apart none_found =
      let no_hits = hits-found_boards (offset_of 1 limit) apart ∙ none_found in
      rw (none_found, no_hits, window-nil {A = Board} limit (offset_of 1 limit)) refl

  -- The pages of a search, read one behind the other, show each live board once whose title or content
  -- the keyword matches under ILIKE, its wildcards included, the latest first, when no two of these
  -- boards were written at the same moment: on a tie the query leaves the order open, and may give
  -- another one for each page. The state stays as it was; without such a board the answer is an
  -- empty list.
  pub search_in_title_content-read_all :
      HasApartDates
      → 1 ≤ limit
      → (read_all (λ page. search_in_title_content_services search keyword page limit) s
          ≡ (ok (map preview found_boards), s))
        × IsOrdered latest found_boards
        × Perm found_boards (select (is_hit search keyword) s.db.boards)
  search_in_title_content-read_all apart one = (
    elim (Bool-cases (is_empty found_boards)) [
      | inl e ↦ without_hits apart (emptied found_boards e)
      | inr e ↦
          read_all-ok (λ page. search_in_title_content_services search keyword page limit)
            (map preview) refl (map-append preview) found_boards limit s
            (λ n lt. search_in_title_content-page n apart one lt)
            (some_page found_boards one (filled found_boards e)) one
    ],
    order_by-IsOrdered latest (λ a b. leb_total b.reg_date a.reg_date)
        (λ a b c p q. leb_trans c.reg_date b.reg_date a.reg_date q p)
        (select (is_hit search keyword) s.db.boards),
    order_by-Perm latest (select (is_hit search keyword) s.db.boards),
  )
    where
      emptied : {A : Type 0} (l : List A) → is_empty l ≡ true → l ≡ []
      emptied [] e = refl
      emptied (x ∷ xs) e = cc

      filled : {A : Type 0} (l : List A) → is_empty l ≡ false → 0 < length l
      filled [] e = cc
      filled (x ∷ xs) e = omega arith
