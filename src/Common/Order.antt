-- ===== src/Common/Order.antt =====
-- ORDER BY: the sort of the rows by a Boolean test that tells whether one may stand before another.
pub mod Ties
use Prim.Native.Nat.{ℕ, zero, suc}
use mathlib.Core.Path.{◌≡◌, refl, ap}
use mathlib.Core.Logic.{◌⊎◌, inl, inr}
use mathlib.Core.Bool.{Bool, true, false}
use mathlib.Core.List.{List, [], ◌∷◌, ◌++◌, Perm}
use mathlib.Core.List.Perm
use native.Mathlib.Omega.{arith}
use fast_api_community_backe.Common.Tests.{if◌then◌else◌, Bool-cases}
use fast_api_community_backe.Common.Table.{All}
use fast_api_community_backe.Common.Table.Laws.{All-weaken}
use fast_api_community_backe.Common.Lists.{length, take, drop, take-All}

module _ {A : Type 0} (le : A → A → Bool) where
  -- Rows that may stand either way round keep their places, which SQL leaves open.
  unfoldable pub insert : A → List A → List A
  insert x [] = x ∷ []
  insert x (y ∷ ys) = let rest = insert x ys in if le x y then x ∷ y ∷ ys else y ∷ rest

  unfoldable pub order_by : List A → List A
  unfolding insert
  order_by [] = []
  order_by (x ∷ xs) = insert x (order_by xs)

  -- Each row may stand before all that follow it.
  abbrev pub IsOrdered : List A → Type 0
  IsOrdered [] = Unit
  IsOrdered (x ∷ xs) = All (λ y. le x y ≡ true) xs × IsOrdered xs

  insert-Perm : (x : A) (l : List A) → Perm (insert x l) (x ∷ l)
  unfolding insert
  insert-Perm x [] = Perm.rfl
  insert-Perm x (y ∷ ys) = elim (Bool-cases (le x y)) [
    | inl t ↦ rw t Perm.rfl
    | inr t ↦ rw t (Perm.trans (Perm.cons y (insert-Perm x ys)) (Perm.swap x y ys))
  ]

  -- Sorting changes nothing but the order.
  pub order_by-Perm : (l : List A) → Perm (order_by l) l
  unfolding order_by
  order_by-Perm [] = Perm.nil
  order_by-Perm (x ∷ xs) = Perm.trans (insert-Perm x (order_by xs)) (Perm.cons x (order_by-Perm xs))

  insert-All : (P : A → Type 0) (x : A) (l : List A) → P x → All P l → All P (insert x l)
  unfolding insert
  insert-All P x [] p h = (p, tt)
  insert-All P x (y ∷ ys) p h = elim (Bool-cases (le x y)) [
    | inl t ↦ rw t (p, h)
    | inr t ↦ rw t (h.0, insert-All P x ys p h.1)
  ]

  pub order_by-All : (P : A → Type 0) (l : List A) → All P l → All P (order_by l)
  unfolding order_by
  order_by-All P [] h = tt
  order_by-All P (x ∷ xs) h = insert-All P x (order_by xs) h.0 (order_by-All P xs h.1)

  length-insert : (x : A) (l : List A) → length (insert x l) ≡ suc (length l)
  unfolding insert
  length-insert x [] = refl
  length-insert x (y ∷ ys) = elim (Bool-cases (le x y)) [
    | inl t ↦ rw t refl
    | inr t ↦ rw t (ap suc (length-insert x ys))
  ]

  pub length-order_by : (l : List A) → length (order_by l) ≡ length l
  unfolding order_by
  length-order_by [] = refl
  length-order_by (x ∷ xs) = omega (arith, length-insert x (order_by xs), length-order_by xs)

  -- In a list in order, all rows of a front part stand before all others.
  pub IsOrdered-append :
      (xs ys : List A) → IsOrdered (xs ++ ys) → All (λ x. All (λ y. le x y ≡ true) ys) xs
  IsOrdered-append [] ys h = tt
  IsOrdered-append (x ∷ xs) ys h = (All-behind _ xs ys h.0, IsOrdered-append xs ys h.1)
    where
      All-behind : (P : A → Type 0) (l m : List A) → All P (l ++ m) → All P m
      All-behind P [] m k = k
      All-behind P (z ∷ l) m k = All-behind P l m k.1

  -- A list in order is sorted already.
  pub order_by_ordered : (l : List A) → IsOrdered l → order_by l ≡ l
  unfolding order_by insert
  order_by_ordered [] h = refl
  order_by_ordered (x ∷ xs) h = rw (order_by_ordered xs h.1) (front xs h.0)
    where
      front : (ys : List A) → All (λ y. le x y ≡ true) ys → insert x ys ≡ x ∷ ys
      front [] k = refl
      front (y ∷ ys) k = rw k.0 refl

  pub take-IsOrdered : (n : ℕ) (l : List A) → IsOrdered l → IsOrdered (take n l)
  unfolding take
  take-IsOrdered (suc n) (x ∷ xs) h =
      (take-All (λ y. le x y ≡ true) n xs h.0, take-IsOrdered n xs h.1)
  take-IsOrdered _ _ h = tt

  pub drop-IsOrdered : (n : ℕ) (l : List A) → IsOrdered l → IsOrdered (drop n l)
  unfolding drop
  drop-IsOrdered (suc n) (x ∷ xs) h = drop-IsOrdered n xs h.1
  drop-IsOrdered zero l h = h
  drop-IsOrdered (suc n) [] h = tt

  module _ (total : (a b : A) → (le a b ≡ true) ⊎ (le b a ≡ true))
      (trans : (a b c : A) → le a b ≡ true → le b c ≡ true → le a c ≡ true) where
    insert-IsOrdered : (x : A) (l : List A) → IsOrdered l → IsOrdered (insert x l)
    unfolding insert
    insert-IsOrdered x [] h = (tt, tt)
    insert-IsOrdered x (y ∷ ys) h = elim (Bool-cases (le x y)) [
      | inl t ↦ rw t ((t, All-weaken _ _ ys (λ z q. trans x y z t q) h.0), h)
      | inr t ↦
          rw t (insert-All (λ z. le y z ≡ true) x ys (behind t) h.0, insert-IsOrdered x ys h.1)
    ]
      where
        behind : le x y ≡ false → le y x ≡ true
        behind t = elim (total x y) [ inl p ↦ cc | inr p ↦ p ]

    pub order_by-IsOrdered : (l : List A) → IsOrdered (order_by l)
    unfolding order_by
    order_by-IsOrdered [] = tt
    order_by-IsOrdered (x ∷ xs) = insert-IsOrdered x (order_by xs) (order_by-IsOrdered xs)
