-- ===== src/Common/Table.antt =====
-- A table as the list of its rows: what UPDATE, DELETE, SELECT and SUM with a WHERE clause do.
pub mod Laws
pub mod Finding
pub mod Selecting
use Prim.Native.Nat.{ℕ, ◌+◌}
use mathlib.Core.Bool.{Bool, true, false, ◌||◌}
use mathlib.Core.Option.{Option, none, some}
use mathlib.Core.List.{List, [], ◌∷◌}
use fast_api_community_backe.Common.Tests.{if◌then◌else◌}

module _ {ℓ} {A : Type ℓ} where
  -- UPDATE … SET f WHERE p
  unfoldable pub update_where : (A → Bool) → (A → A) → List A → List A
  update_where p f [] = []
  update_where p f (x ∷ xs) = (if p x then f x else x) ∷ update_where p f xs

  -- DELETE … WHERE p
  unfoldable pub delete_where : (A → Bool) → List A → List A
  delete_where p [] = []
  delete_where p (x ∷ xs) = let rest = delete_where p xs in if p x then rest else x ∷ rest

  -- SELECT … WHERE p
  unfoldable pub select : (A → Bool) → List A → List A
  select p [] = []
  select p (x ∷ xs) = let rest = select p xs in if p x then x ∷ rest else rest

  -- `fetchrow`: the first row that SELECT … WHERE p gives
  unfoldable pub find_row : (A → Bool) → List A → Option A
  find_row p [] = none
  find_row p (x ∷ xs) = if p x then some x else find_row p xs

  -- Is there a row that passes?
  unfoldable pub any_row : (A → Bool) → List A → Bool
  any_row p [] = false
  any_row p (x ∷ xs) = p x || any_row p xs

  -- SELECT SUM(w) … WHERE p, with 0 for the NULL of no rows
  unfoldable pub sum_where : (A → Bool) → (A → ℕ) → List A → ℕ
  sum_where p w [] = 0
  sum_where p w (x ∷ xs) = (if p x then w x else 0) + sum_where p w xs

  -- SELECT SUM(w) … WHERE p, which is NULL when no row passes
  unfoldable pub sum_or_null : (A → Bool) → (A → ℕ) → List A → Option ℕ
  sum_or_null p w xs = if any_row p xs then some (sum_where p w xs) else none

  -- Every row has `P`.
  abbrev pub All {κ} : (A → Type κ) → List A → Type κ
  All P [] = Unit
  All P (x ∷ xs) = P x × All P xs
