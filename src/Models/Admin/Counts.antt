-- ===== src/Models/Admin/Counts.antt =====
-- app/models/admin.py: the counts of `admin_get_all_users`, whose join repeats a board for each of
-- its files.
use mathlib.Core.List.{map-append, map-map}
use fast_api_community_backe.Common.{
  ℕ, suc, ◌≡◌, ◌≢◌, refl, ap, ◌∙◌, inl, inr, Bool, true, false, Option, none, some, List, [], ◌∷◌,
  ◌++◌, map, ◌==◌, arith, is_index, any_row, select, All, Bool-cases,
}
use fast_api_community_backe.Common.Lists.{length, select-All}
use fast_api_community_backe.Db.{User, Board, File}
use fast_api_community_backe.Consistency.{BoardKeys}
use fast_api_community_backe.Models.Boards.{of_user}
use fast_api_community_backe.Models.Files.{file_of_board}
use fast_api_community_backe.Models.Admin.Listing.{
  left_join, joined_to, join_files, count_distinct, board_column, counts_of,
}

-- the column of a board and, behind it, of the boards that follow
module _ {A : Type 0} (i : ℕ) (rest : List (Option ℕ)) where
  abbrev repeated : List A → List (Option ℕ)
  repeated xs = map (λ x. some i) xs ++ rest

  count_distinct-repeated :
      (x : A) (xs : List A)
      → any_row (λ o. is_index o i) rest ≡ false
      → count_distinct (repeated (x ∷ xs)) ≡ suc (count_distinct rest)
  unfolding count_distinct any_row
  count_distinct-repeated x [] h = rw h (omega arith)
  count_distinct-repeated x (y ∷ ys) h =
      let same : i == i ≡ true = ground arith in rw same (count_distinct-repeated y ys h)

  any_row-repeated :
      (j : ℕ) (xs : List A)
      → (i == j) ≡ false
      → any_row (λ o. is_index o j) rest ≡ false
      → any_row (λ o. is_index o j) (repeated xs) ≡ false
  unfolding any_row
  any_row-repeated j [] ne h = h
  any_row-repeated j (x ∷ xs) ne h = rw ne (any_row-repeated j xs ne h)

module _ (files : List File) where
  abbrev column : List Board → List (Option ℕ)
  column bs = map board_column (join_files files (map some bs))

  column-cons :
      (b : Board) (bs : List Board)
      → column (b ∷ bs)
        ≡ repeated b.index (column bs) (left_join (select (file_of_board b.index) files))
  unfolding join_files
  column-cons b bs =
      map-append board_column
        (map (joined_to b.index) (left_join (select (file_of_board b.index) files)))
        (join_files files (map some bs))
      ∙ ap (λ l. l ++ column bs)
          (map-map board_column (joined_to b.index)
            (left_join (select (file_of_board b.index) files)))

  no_index :
      (j : ℕ) (bs : List Board)
      → All (λ c. c.index ≢ j) bs
      → any_row (λ o. is_index o j) (column bs) ≡ false
  unfolding any_row join_files
  no_index j [] h = refl
  no_index j (b ∷ bs) h =
      let other : b.index == j ≡ false = (let n = h.0 in ground arith) in
      ap (any_row (λ o. is_index o j)) (column-cons b bs)
      ∙ any_row-repeated b.index (column bs) j (left_join (select (file_of_board b.index) files))
          other (no_index j bs h.1)

  count_distinct-column : (bs : List Board) → BoardKeys bs → count_distinct (column bs) ≡ length bs
  unfolding join_files count_distinct
  count_distinct-column [] h = refl
  count_distinct-column (b ∷ bs) h =
      ap count_distinct (column-cons b bs)
      ∙ (once (select (file_of_board b.index) files) ∙ ap suc (count_distinct-column bs h.1))
    where
      once :
          (fs : List File)
          → count_distinct (repeated b.index (column bs) (left_join fs))
            ≡ suc (count_distinct (column bs))
      once [] =
          count_distinct-repeated {A = Option File} b.index (column bs) none []
            (no_index b.index bs h.0)
      once (f ∷ fs) =
          count_distinct-repeated b.index (column bs) (some f) (map some fs)
            (no_index b.index bs h.0)

select-BoardKeys : (p : Board → Bool) (bs : List Board) → BoardKeys bs → BoardKeys (select p bs)
unfolding select
select-BoardKeys p [] h = tt
select-BoardKeys p (b ∷ bs) h = elim (Bool-cases (p b)) [
  | inl t ↦ rw t (select-All (λ c. c.index ≢ b.index) p bs h.0, select-BoardKeys p bs h.1)
  | inr t ↦ rw t (select-BoardKeys p bs h.1)
]

-- The count of boards that an administrator sees for a user is the number of boards of the user,
-- deleted ones included, when no index of a board occurs twice.
pub counts_of-total_boards :
    (boards : List Board) (files : List File) (u : User)
    → BoardKeys boards
    → (counts_of boards files u).total_boards ≡ length (select (of_user u.index) boards)
unfolding join_files count_distinct
counts_of-total_boards boards files u keys =
    of_joined (select (of_user u.index) boards) (select-BoardKeys (of_user u.index) boards keys)
  where
    of_joined :
        (bs : List Board)
        → BoardKeys bs
        → count_distinct (map board_column (join_files files (left_join bs))) ≡ length bs
    of_joined [] h = refl
    of_joined (b ∷ bs) h = count_distinct-column files (b ∷ bs) h
