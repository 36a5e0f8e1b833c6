-- ===== src/Common/Table/Selecting.antt =====
-- What SELECT … WHERE takes from a table, and what it leaves.
use mathlib.Core.Path.{◌≡◌}
use mathlib.Core.Logic.{inl, inr}
use mathlib.Core.Bool.{Bool, true, not}
use mathlib.Core.List.{List, [], ◌∷◌, ◌++◌, Perm}
use mathlib.Core.List.Perm
use mathlib.Core.List.Permᴰ
use fast_api_community_backe.Common.Tests.{Bool-cases}
use fast_api_community_backe.Common.Table.{select, All}

module _ {A : Type 0} (p : A → Bool) where
  -- the rows that the selection leaves
  abbrev pub others : List A → List A
  others rows = select (λ x. not (p x)) rows

  pub select-All :
      (P : A → Type 0) (rows : List A) → ((x : A) → p x ≡ true → P x) → All P (select p rows)
  unfolding select
  select-All P [] k = tt
  select-All P (x ∷ xs) k = elim (Bool-cases (p x)) [
    | inl t ↦ rw t (k x t, select-All P xs k)
    | inr t ↦ rw t (select-All P xs k)
  ]

  -- The two selections are the whole table.
  pub select-append-others : (rows : List A) → Perm (select p rows ++ others rows) rows
  unfolding select
  select-append-others [] = Perm.nil
  select-append-others (x ∷ xs) = elim (Bool-cases (p x)) [
    | inl t ↦ rw t (Perm.cons x (select-append-others xs))
    | inr t ↦ rw t (
        Perm.trans ∣ Permᴰ.middle x (select p xs) (others xs) ∣₁
          (Perm.cons x (select-append-others xs)))
  ]
