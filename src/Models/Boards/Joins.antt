-- ===== src/Models/Boards/Joins.antt =====
-- The page that `all_user_boards_info` of app/models/boards.py selects first, and joins to the tables
-- and sorts once more.
use fast_api_community_backe.Common.{
  ℕ, ◌≡◌, ◌≢◌, refl, sym, ap, ◌∙◌, inl, inr, ◌⊎◌, true, false, some, List, [], ◌∷◌, map, ◌==◌,
  str_eq, arith, find_row, select, All, Bool-cases, Option-cases, leb_total, leb_trans, eq_iff,
  String,
}
use fast_api_community_backe.Common.Lists.{take-All, drop-All, select-All}
use fast_api_community_backe.Common.Order.{
  order_by, IsOrdered, order_by-All, order_by-IsOrdered, order_by_ordered, take-IsOrdered,
  drop-IsOrdered,
}
use fast_api_community_backe.Common.Pages.{window}
use fast_api_community_backe.Db.{User, Board, Db}
use fast_api_community_backe.Consistency.{BoardKeys}
use fast_api_community_backe.Models.Boards.{at_index}
use fast_api_community_backe.Models.Users.{user_at}
use fast_api_community_backe.Models.Boards.Listing.{
  Authored, Collation, join_users, join_boards, by_author, newest, joined_is_live,
  live_boards_by_author, target_boards, all_user_boards_info, row_of, index_of_row,
}

abbrev pub IsFound : List Board → Board → Type 0
IsFound boards b = find_row (at_index b.index) boards ≡ some b

abbrev IsJoined : List User → List Board → Authored → Type 0
IsJoined users boards a =
    IsFound boards a.board × (find_row (user_at a.board.user_index) users ≡ some a.author)

-- With no index twice, each board is the one that its index finds.
pub All-IsFound : (boards : List Board) → BoardKeys boards → All (IsFound boards) boards
unfolding find_row
All-IsFound [] h = tt
All-IsFound (b ∷ bs) h = (
  let here : b.index == b.index ≡ true = ground arith in rw here refl,
  behind bs h.0 (All-IsFound bs h.1),
)
  where
    behind :
        (cs : List Board)
        → All (λ c. c.index ≢ b.index) cs
        → All (IsFound bs) cs
        → All (IsFound (b ∷ bs)) cs
    behind [] ne f = tt
    behind (c ∷ cs) ne f = (
      let other : b.index == c.index ≡ false = (let n = ne.0 in ground arith) in rw other f.0,
      behind cs ne.1 f.1,
    )

join_users-IsJoined :
    (users : List User) (boards bs : List Board)
    → All (IsFound boards) bs
    → All (IsJoined users boards) (join_users users bs)
unfolding join_users
join_users-IsJoined users boards [] h = tt
join_users-IsJoined users boards (b ∷ bs) h =
    elim (Option-cases (find_row (user_at b.user_index) users)) [
      | inl t ↦ rw t (join_users-IsJoined users boards bs h.1)
      | inr (u, t) ↦ rw t ((h.0, t), join_users-IsJoined users boards bs h.1)
    ]

-- Joining the indexes of joined rows to the tables gives these rows again.
join_users-join_boards :
    (users : List User) (boards : List Board) (rows : List Authored)
    → All (IsJoined users boards) rows
    → join_users users (join_boards boards (map index_of_row rows)) ≡ rows
unfolding join_users join_boards
join_users-join_boards users boards [] h = refl
join_users-join_boards users boards (a ∷ rest) h =
    rw (h.0.0, h.0.1) (ap (◌∷◌ a) (join_users-join_boards users boards rest h.1))

str_eq_sym : (i j : String) → str_eq i j ≡ false → str_eq j i ≡ false
str_eq_sym i j e = elim (Bool-cases (str_eq j i)) [
  | inl t ↦ cc ((eq_iff i j).1 (sym ((eq_iff j i).0 t)))
  | inr t ↦ t
]

module _ (collation : Collation) where
  by_author_total :
      (a b : Authored) → (by_author collation a b ≡ true) ⊎ (by_author collation b a ≡ true)
  by_author_total a b = elim (Bool-cases (str_eq a.author.id b.author.id)) [
    | inl t ↦
        let t' : str_eq b.author.id a.author.id ≡ true =
          (eq_iff b.author.id a.author.id).1 (sym ((eq_iff a.author.id b.author.id).0 t)) in
        rw (t, t') (leb_total b.board.index a.board.index)
    | inr t ↦ rw (t, str_eq_sym a.author.id b.author.id t) (collation.total a.author.id b.author.id)
  ]

  same_author_trans :
      (a b c : Authored)
      → str_eq a.author.id b.author.id ≡ true
      → newest a b ≡ true
      → by_author collation b c ≡ true
      → by_author collation a c ≡ true
  same_author_trans a b c t p q =
      let same : a.author.id ≡ b.author.id = (eq_iff a.author.id b.author.id).0 t in
      elim (Bool-cases (str_eq b.author.id c.author.id)) [
        | inl u ↦
            let u' : str_eq a.author.id c.author.id ≡ true =
              ap (λ i. str_eq i c.author.id) same ∙ u in
            rw u' (leb_trans c.board.index b.board.index a.board.index (rw u at q) p)
        | inr u ↦
            let u' : str_eq a.author.id c.author.id ≡ false =
              ap (λ i. str_eq i c.author.id) same ∙ u in
            rw u' (ap (λ i. collation.le i c.author.id) same ∙ (rw u at q))
      ]

  by_author_trans :
      (a b c : Authored)
      → by_author collation a b ≡ true
      → by_author collation b c ≡ true
      → by_author collation a c ≡ true
  by_author_trans a b c p q = elim (Bool-cases (str_eq a.author.id b.author.id)) [
    | inl t ↦ same_author_trans a b c t (rw t at p) q
    | inr t ↦ other_author t (rw t at p)
  ]
    where
      x : String
      x = a.author.id

      y : String
      y = b.author.id

      z : String
      z = c.author.id

      other_author : str_eq x y ≡ false → collation.le x y ≡ true → by_author collation a c ≡ true
      other_author t p' = elim (Bool-cases (str_eq y z)) [
        | inl u ↦
            let same : y ≡ z = (eq_iff y z).0 u in
            let t' : str_eq x z ≡ false = ap (λ i. str_eq x i) (sym same) ∙ t in
            rw t' (ap (λ i. collation.le x i) (sym same) ∙ p')
        | inr u ↦ elim (Bool-cases (str_eq x z)) [
          | inl v ↦
              let back : collation.le y x ≡ true =
                ap (λ i. collation.le y i) ((eq_iff x z).0 v) ∙ (rw u at q) in
              cc ((eq_iff x y).1 (collation.antisymm x y p' back))
          | inr v ↦ rw v (collation.trans x y z p' (rw u at q))
        ]
      ]

  -- The rows of a page are the rows at its places in the list of all live boards, by author and
  -- the newest first: the second join and the second sort change nothing, when no index of a board
  -- occurs twice.
  pub all_user_boards_info-window :
      (limit offset now : ℕ) (db : Db)
      → BoardKeys db.boards
      → all_user_boards_info collation limit offset now db
        ≡ map (row_of db.files) (window limit offset (live_boards_by_author collation now db))
  unfolding all_user_boards_info target_boards live_boards_by_author window
  all_user_boards_info-window limit offset now db keys =
      rw
        (
          join_users-join_boards db.users db.boards page joined,
          order_by_ordered (by_author collation) page ordered,
        )
        refl
    where
      all : List Authored
      all = order_by (by_author collation) (select joined_is_live (join_users db.users db.boards))

      page : List Authored
      page = window limit offset all

      joined : All (IsJoined db.users db.boards) page
      joined = take-All _ limit _ (
          drop-All _ offset all (
            order_by-All (by_author collation) _ _ (
              select-All _ joined_is_live (join_users db.users db.boards)
                (join_users-IsJoined db.users db.boards db.boards (All-IsFound db.boards keys)))))

      ordered : IsOrdered (by_author collation) page
      ordered = take-IsOrdered (by_author collation) limit _ (
          drop-IsOrdered (by_author collation) offset all
            (order_by-IsOrdered (by_author collation) by_author_total by_author_trans _))
