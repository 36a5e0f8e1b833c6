-- ===== src/Services/Admin/Shown.antt =====
-- app/services/admin.py: what the details of a user and of a board show.
use mathlib.Core.List.{Perm}
use mathlib.Core.Option
use fast_api_community_backe.Common.{
  and_left, and_right, ℕ, zero, suc, ◌∷◌, ◌≡◌, arith, ◌==◌, refl, ap, ◌⊎◌, inl, inr, Option, none,
  some, List, [], map, is_none, find_row, select, Option-cases, leb_total, leb_trans, true,
}
use fast_api_community_backe.Common.Lists.{take, drop}
use fast_api_community_backe.Common.Order.{order_by, IsOrdered, order_by-IsOrdered, order_by-Perm}
use fast_api_community_backe.Common.Pages.{window}
use fast_api_community_backe.Db.{User, Board, File}
use fast_api_community_backe.Exec.{State, Detail, ok, err, http, ◌>>=◌}
use mathlib.Core.Path.{subst}
use fast_api_community_backe.Consistency.{BoardKeys}
use fast_api_community_backe.Models.Boards.Joins.{IsFound, All-IsFound}
use fast_api_community_backe.Models.Boards.{of_user, live_at, at_index}
use fast_api_community_backe.Models.Users.{user_at}
use fast_api_community_backe.Models.Admin.Listing.{
  UserBoard, left_join, newest_board, admin_get_specific_user, id_of_user,
}
use fast_api_community_backe.Common.Table.Laws.{find_row-All, All-intro}
use fast_api_community_backe.Services.Admin.Listing.{
  boards_in, first_row, admin_get_specific_user_services, admin_get_specific_board_services,
}

module _ (user_index : ℕ) (s : State) where
  -- all boards of the user, the newest first
  abbrev pub boards_of : List Board
  boards_of = order_by newest_board (select (of_user user_index) s.db.boards)

  abbrev index_board : List Board → Option Board
  index_board [] = none
  index_board (b ∷ bs) = some b

  boards_in-joined :
      (u : User) (n : ℕ) (bs : List Board)
      → boards_in (take n (map (λ b. record { user = u; board = b }) (map some bs))) ≡ take n bs
  unfolding boards_in take
  boards_in-joined u zero bs = refl
  boards_in-joined u (suc n) [] = refl
  boards_in-joined u (suc n) (b ∷ bs) = ap (◌∷◌ b) (boards_in-joined u n bs)

  answer_for :
      (u : User) (bs : List Board)
      → let rows : List UserBoard =
          take 50 (map (λ b. record { user = u; board = b }) (left_join bs)) in
        (first_row rows ≡ some (record { user = u; board = index_board bs }))
        × (boards_in rows ≡ take 50 bs)
  unfolding take boards_in
  answer_for u [] = (refl, refl)
  answer_for u (b ∷ bs) = (refl, boards_in-joined u 50 (b ∷ bs))

  -- An administrator who asks for a user without a row gets 404. For any other, deleted or not, the
  -- answer has the row and the first 50 of all boards of the user, deleted ones included, the
  -- newest first. The state stays as it was.
  pub admin_get_specific_user-boards :
      ((find_row (user_at user_index) s.db.users ≡ none)
        × (admin_get_specific_user_services user_index s ≡ (err (http 404 Detail.no_user), s)))
      ⊎ ((u : User) × (find_row (user_at user_index) s.db.users ≡ some u)
          × (admin_get_specific_user_services user_index s
              ≡ (ok (record { user_info = u; boards = take 50 boards_of }), s))
          × IsOrdered newest_board boards_of
          × Perm boards_of (select (of_user user_index) s.db.boards))
  unfolding admin_get_specific_user_services admin_get_specific_user window take drop ◌>>=◌
  admin_get_specific_user-boards = elim (Option-cases (find_row (user_at user_index) s.db.users)) [
    | inl e ↦ inl (e, rw e refl)
    | inr (u, e) ↦
        let (at_it, there) =
          find_row-All (λ x. Unit {0}) (user_at user_index) s.db.users
            (All-intro (λ x. Unit {0}) s.db.users (λ x. tt)) e in
        let same : u.index ≡ user_index = ground arith in
        let all_boards : order_by newest_board (select (of_user u.index) s.db.boards) ≡ boards_of =
          ap (λ i. order_by newest_board (select (of_user i) s.db.boards)) same in
        let (first, shown) = answer_for u boards_of in
        inr (
          u,
          e,
          rw (e, all_boards, first, shown) refl,
          order_by-IsOrdered newest_board (λ a b. leb_total b.index a.index)
              (λ a b c p q. leb_trans c.index b.index a.index q p)
              (select (of_user user_index) s.db.boards),
          order_by-Perm newest_board (select (of_user user_index) s.db.boards),
        )
  ]

id_of_user-map : (o : Option User) → id_of_user o ≡ Option.map (λ u. u.id) o
id_of_user-map none = refl
id_of_user-map (some u) = refl

-- An administrator who asks for a board gets its row, with the id of its author and all files that
-- stand under its index, deleted ones included, only when the board is not deleted, and 404
-- otherwise. No index of a board occurs twice; the state stays as it was.
pub admin_get_specific_board-live :
    (i : ℕ) (s : State)
    → BoardKeys s.db.boards
    → ((find_row (live_at i) s.db.boards ≡ none)
        × (admin_get_specific_board_services i s ≡ (err (http 404 Detail.no_board), s)))
      ⊎ ((b : Board) × (admin_get_specific_board_services i s ≡ (
        ok (
            some (record {
              board = b;
              user_id =
                  Option.map
                    (λ (u : User). u.id)
                    (find_row (λ (u : User). u.index == b.user_index) s.db.users);
              files = select (λ (f : File). f.board_index == i) s.db.files;
            })),
        s,
      ))
          × (b.index ≡ i)
          × (b.deleted_at ≡ none)
          × (find_row (live_at i) s.db.boards ≡ some b))
unfolding admin_get_specific_board_services ◌>>=◌
admin_get_specific_board-live i s keys = elim (Option-cases (find_row (live_at i) s.db.boards)) [
  | inl e ↦ inl (e, rw e refl)
  | inr (b, e) ↦
      let (is_it, found) =
        find_row-All (IsFound s.db.boards) (live_at i) s.db.boards (All-IsFound s.db.boards keys)
          e in
      let same : b.index ≡ i = index_of_live b is_it in
      let found' : find_row (at_index i) s.db.boards ≡ some b =
        subst (λ j. find_row (at_index j) s.db.boards ≡ some b) same found in
      inr (
        b,
        rw (e, found', same, id_of_user-map (find_row (user_at b.user_index) s.db.users)) refl,
        same,
        live_of_live b is_it,
        e,
      )
]
  where
    live_of_live : (b : Board) → live_at i b ≡ true → b.deleted_at ≡ none
    live_of_live b h = none_of b.deleted_at (and_right (b.index == i) (is_none b.deleted_at) h)
      where
        none_of : (o : Option ℕ) → is_none o ≡ true → o ≡ none
        none_of none e = refl
        none_of (some n) e = cc

    index_of_live : (b : Board) → live_at i b ≡ true → b.index ≡ i
    index_of_live b h = let here = and_left (b.index == i) (is_none b.deleted_at) h in ground arith
