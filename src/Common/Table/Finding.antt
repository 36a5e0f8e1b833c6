-- ===== src/Common/Table/Finding.antt =====
-- Laws of what a SELECT finds behind an UPDATE or a DELETE.
use Prim.Native.Nat.{ℕ, ◌+◌, ◌≤◌}
use mathlib.Core.Path.{sym, ◌≡◌, refl, ap}
use mathlib.Core.Logic.{inl, inr}
use mathlib.Core.Bool.{Bool, true, false}
use mathlib.Core.Option.{none, some}
use mathlib.Core.List.{List, [], ◌∷◌}
use native.Mathlib.Omega.{arith}
use fast_api_community_backe.Common.Tests.{or_zero, if◌then◌else◌, Bool-cases}
use fast_api_community_backe.Common.Table.Laws.{sum_where-zero}
use fast_api_community_backe.Common.Table.{
  sum_or_null, update_where, delete_where, select, find_row, any_row, sum_where, All,
}

module _ {A : Type 0} where
  -- An UPDATE of the row that a SELECT finds, which still finds it.
  pub find_row-update :
      (p q : A → Bool) (f : A → A) (xs : List A) {x : A}
      → ((y : A) → p (f y) ≡ p y)
      → find_row p xs ≡ some x
      → find_row p (update_where q f xs) ≡ some (if q x then f x else x)
  unfolding find_row update_where
  find_row-update p q f [] k e = cc
  find_row-update p q f (y ∷ ys) {x} k e =
      let same_test : p (if q y then f y else y) ≡ p y = elim (Bool-cases (q y)) [
        | inl t ↦ rw t (k y)
        | inr t ↦ rw t refl
      ] in
      elim (Bool-cases (p y)) [
        | inl t ↦
            let same : y ≡ x = cc (rw t at e) in
            rw (same_test, t) (ap (λ z. some (if q z then f z else z)) same)
        | inr t ↦ rw (same_test, t) (find_row-update p q f ys k (rw t at e))
      ]

  -- A SELECT that finds no row: none passes.
  pub find_row-All_fail :
      (p : A → Bool) (xs : List A) → find_row p xs ≡ none → All (λ x. p x ≡ false) xs
  unfolding find_row
  find_row-All_fail p [] e = tt
  find_row-All_fail p (x ∷ xs) e = elim (Bool-cases (p x)) [
    | inl t ↦ cc (rw t at e)
    | inr t ↦ (t, find_row-All_fail p xs (rw t at e))
  ]

  -- A sum after an UPDATE is bounded by one before it, when this holds row by row.
  pub sum_where-update_bound :
      (p p' : A → Bool) (w : A → ℕ) (q : A → Bool) (f : A → A) (xs : List A)
      → ((x : A)
          → (let y = if q x then f x else x in if p y then w y else 0) ≤ (if p' x then w x else 0))
      → sum_where p w (update_where q f xs) ≤ sum_where p' w xs
  unfolding update_where sum_where
  sum_where-update_bound p p' w q f [] k = omega arith
  sum_where-update_bound p p' w q f (x ∷ xs) k =
      omega (arith, k x, sum_where-update_bound p p' w q f xs k)

  -- DELETE leaves no row that passes.
  pub select-delete : (p : A → Bool) (xs : List A) → select p (delete_where p xs) ≡ []
  unfolding select delete_where
  select-delete p [] = refl
  select-delete p (x ∷ xs) = elim (Bool-cases (p x)) [
    | inl t ↦ rw t (select-delete p xs)
    | inr t ↦ rw (t, t) (select-delete p xs)
  ]

  pub any_row-delete :
      (p q : A → Bool) (xs : List A) → any_row p xs ≡ false → any_row p (delete_where q xs) ≡ false
  unfolding any_row delete_where
  any_row-delete p q [] e = refl
  any_row-delete p q (x ∷ xs) e = elim (Bool-cases (p x)) [
    | inl t ↦ let found : true ≡ false = rw t at e in cc
    | inr t ↦ elim (Bool-cases (q x)) [
      | inl t' ↦ rw t' (any_row-delete p q xs (rw t at e))
      | inr t' ↦ rw (t', t) (any_row-delete p q xs (rw t at e))
    ]
  ]

  pub any_row-delete_same : (p : A → Bool) (xs : List A) → any_row p (delete_where p xs) ≡ false
  unfolding any_row delete_where
  any_row-delete_same p [] = refl
  any_row-delete_same p (x ∷ xs) = elim (Bool-cases (p x)) [
    | inl t ↦ rw t (any_row-delete_same p xs)
    | inr t ↦ rw (t, t) (any_row-delete_same p xs)
  ]

  -- the same with the sum of two kinds of rows as the bound
  pub sum_where-update_bound_two :
      (p p' p'' : A → Bool) (w : A → ℕ) (q : A → Bool) (f : A → A) (xs : List A)
      → ((x : A)
          → (let y = if q x then f x else x in if p y then w y else 0)
            ≤ (if p' x then w x else 0) + (if p'' x then w x else 0))
      → sum_where p w (update_where q f xs) ≤ sum_where p' w xs + sum_where p'' w xs
  unfolding update_where sum_where
  sum_where-update_bound_two p p' p'' w q f [] k = omega arith
  sum_where-update_bound_two p p' p'' w q f (x ∷ xs) k =
      omega (arith, k x, sum_where-update_bound_two p p' p'' w q f xs k)

  -- a sum that is NULL when no row passes, with 0 for NULL
  pub or_zero-sum_or_null :
      (p : A → Bool) (w : A → ℕ) (xs : List A) → or_zero (sum_or_null p w xs) ≡ sum_where p w xs
  unfolding sum_or_null any_row
  or_zero-sum_or_null p w xs = elim (Bool-cases (any_row p xs)) [
    | inl t ↦ rw t refl
    | inr t ↦ rw t (sym (sum_where-zero p w xs (no_row p xs t)))
  ]
    where
      no_row : (p : A → Bool) (xs : List A) → any_row p xs ≡ false → All (λ x. p x ≡ false) xs
      no_row p [] e = tt
      no_row p (x ∷ xs) e = elim (Bool-cases (p x)) [
        | inl t ↦ let found : true ≡ false = rw t at e in cc
        | inr t ↦ (t, no_row p xs (rw t at e))
      ]
