-- ===== src/Common/Table/Laws.antt =====
-- Laws of the operations on tables.
use Prim.Native.Nat.{ℕ, ◌+◌}
use mathlib.Core.Path.{◌≡◌, refl, sym, ap, subst}
use mathlib.Core.Logic.{inl, inr}
use mathlib.Core.Bool.{Bool, true, false}
use mathlib.Core.Option.{none, some}
use mathlib.Core.List.{List, [], ◌∷◌, ◌++◌}
use native.Mathlib.Omega.{arith}
use fast_api_community_backe.Common.Tests.{if◌then◌else◌, Bool-cases}
use fast_api_community_backe.Common.Table.{update_where, delete_where, find_row, sum_where, All}

module _ {A : Type 0} where
  -- The predicate on a row that an UPDATE may have changed.
  pub All-update :
      (P Q : A → Type 0) (q : A → Bool) (f : A → A) (xs : List A)
      → ((x : A) → P x → Q (if q x then f x else x))
      → All P xs
      → All Q (update_where q f xs)
  unfolding update_where
  All-update P Q q f [] k h = tt
  All-update P Q q f (x ∷ xs) k h = (k x h.0, All-update P Q q f xs k h.1)

  pub All-delete :
      (P : A → Type 0) (q : A → Bool) (xs : List A) → All P xs → All P (delete_where q xs)
  unfolding delete_where
  All-delete P q [] h = tt
  All-delete P q (x ∷ xs) h = elim (Bool-cases (q x)) [
    | inl e ↦ rw e (All-delete P q xs h.1)
    | inr e ↦ rw e (h.0, All-delete P q xs h.1)
  ]

  pub All-weaken : (P Q : A → Type 0) (xs : List A) → ((x : A) → P x → Q x) → All P xs → All Q xs
  All-weaken P Q [] k h = tt
  All-weaken P Q (x ∷ xs) k h = (k x h.0, All-weaken P Q xs k h.1)

  pub All-append_one :
      (P : A → Type 0) (xs : List A) (y : A) → All P xs → P y → All P (xs ++ y ∷ [])
  All-append_one P [] y h p = (p, tt)
  All-append_one P (x ∷ xs) y h p = (h.0, All-append_one P xs y h.1 p)

  pub All-both : (P Q : A → Type 0) (xs : List A) → All P xs → All Q xs → All (λ x. P x × Q x) xs
  All-both P Q [] h k = tt
  All-both P Q (x ∷ xs) h k = ((h.0, k.0), All-both P Q xs h.1 k.1)

  -- The row that a SELECT finds is a row that passes, and has what all rows have.
  pub find_row-All :
      (P : A → Type 0) (p : A → Bool) (xs : List A) {x : A}
      → All P xs
      → find_row p xs ≡ some x
      → (p x ≡ true) × P x
  unfolding find_row
  find_row-All P p [] h e = cc
  find_row-All P p (y ∷ ys) {x} h e = elim (Bool-cases (p y)) [
    | inl t ↦ let found : y ≡ x = cc (rw t at e) in subst (λ z. (p z ≡ true) × P z) found (t, h.0)
    | inr t ↦ find_row-All P p ys h.1 (rw t at e)
  ]

  pub sum_where-update :
      (p : A → Bool) (w : A → ℕ) (q : A → Bool) (f : A → A) (xs : List A)
      → ((x : A) → q x ≡ true → (if p (f x) then w (f x) else 0) ≡ (if p x then w x else 0))
      → sum_where p w (update_where q f xs) ≡ sum_where p w xs
  unfolding update_where sum_where
  sum_where-update p w q f [] k = refl
  sum_where-update p w q f (x ∷ xs) k = elim (Bool-cases (q x)) [
    | inl e ↦ rw e (omega (arith, k x e, sum_where-update p w q f xs k))
    | inr e ↦ rw e (omega (arith, sum_where-update p w q f xs k))
  ]

  pub sum_where-delete :
      (p : A → Bool) (w : A → ℕ) (q : A → Bool) (xs : List A)
      → ((x : A) → q x ≡ true → p x ≡ false)
      → sum_where p w (delete_where q xs) ≡ sum_where p w xs
  unfolding delete_where sum_where
  sum_where-delete p w q [] k = refl
  sum_where-delete p w q (x ∷ xs) k = elim (Bool-cases (q x)) [
    | inl e ↦ rw (e, k x e) (omega (arith, sum_where-delete p w q xs k))
    | inr e ↦ rw e (omega (arith, sum_where-delete p w q xs k))
  ]

  pub sum_where-append_one :
      (p : A → Bool) (w : A → ℕ) (xs : List A) (y : A)
      → sum_where p w (xs ++ y ∷ []) ≡ sum_where p w xs + (if p y then w y else 0)
  unfolding sum_where
  sum_where-append_one p w [] y = omega arith
  sum_where-append_one p w (x ∷ xs) y = omega (arith, sum_where-append_one p w xs y)

  pub sum_where-zero :
      (p : A → Bool) (w : A → ℕ) (xs : List A) → All (λ x. p x ≡ false) xs → sum_where p w xs ≡ 0
  unfolding sum_where
  sum_where-zero p w [] h = refl
  sum_where-zero p w (x ∷ xs) h = rw h.0 (omega (arith, sum_where-zero p w xs h.1))

  pub All-intro : (P : A → Type 0) (xs : List A) → ((x : A) → P x) → All P xs
  All-intro P [] k = tt
  All-intro P (x ∷ xs) k = (k x, All-intro P xs k)

  -- as `sum_where-update`, where the rows of the table are known to be left in their place
  pub sum_where-update_in :
      (p : A → Bool) (w : A → ℕ) (q : A → Bool) (f : A → A) (xs : List A)
      → All (λ x. q x ≡ true → (if p (f x) then w (f x) else 0) ≡ (if p x then w x else 0)) xs
      → sum_where p w (update_where q f xs) ≡ sum_where p w xs
  unfolding update_where sum_where
  sum_where-update_in p w q f [] k = refl
  sum_where-update_in p w q f (x ∷ xs) k = elim (Bool-cases (q x)) [
    | inl e ↦ rw e (omega (arith, k.0 e, sum_where-update_in p w q f xs k.1))
    | inr e ↦ rw e (omega (arith, sum_where-update_in p w q f xs k.1))
  ]

  pub sum_where-delete_in :
      (p : A → Bool) (w : A → ℕ) (q : A → Bool) (xs : List A)
      → All (λ x. q x ≡ true → p x ≡ false) xs
      → sum_where p w (delete_where q xs) ≡ sum_where p w xs
  unfolding delete_where sum_where
  sum_where-delete_in p w q [] k = refl
  sum_where-delete_in p w q (x ∷ xs) k = elim (Bool-cases (q x)) [
    | inl e ↦ rw (e, k.0 e) (omega (arith, sum_where-delete_in p w q xs k.1))
    | inr e ↦ rw e (omega (arith, sum_where-delete_in p w q xs k.1))
  ]

  -- The rows that stay are those that do not pass.
  pub All-delete_kept :
      (P : A → Type 0) (q : A → Bool) (xs : List A)
      → All (λ x. q x ≡ false → P x) xs
      → All P (delete_where q xs)
  unfolding delete_where
  All-delete_kept P q [] h = tt
  All-delete_kept P q (x ∷ xs) h = elim (Bool-cases (q x)) [
    | inl e ↦ rw e (All-delete_kept P q xs h.1)
    | inr e ↦ rw e (h.0 e, All-delete_kept P q xs h.1)
  ]

  pub find_row-none :
      (p q : A → Bool) (xs : List A)
      → ((x : A) → q x ≡ true → p x ≡ true)
      → find_row p xs ≡ none
      → find_row q xs ≡ none
  unfolding find_row
  find_row-none p q [] k e = refl
  find_row-none p q (x ∷ xs) k e = elim (Bool-cases (p x)) [
    | inl t ↦ cc (rw t at e)
    | inr t ↦ elim (Bool-cases (q x)) [
      | inl t' ↦ cc (k x t')
      | inr t' ↦ rw t' (find_row-none p q xs k (rw t at e))
    ]
  ]

  -- A narrower SELECT finds the same first row, when that row passes it.
  pub find_row-narrower :
      (p q : A → Bool) (xs : List A) {x : A}
      → ((y : A) → q y ≡ true → p y ≡ true)
      → find_row p xs ≡ some x
      → q x ≡ true
      → find_row q xs ≡ some x
  unfolding find_row
  find_row-narrower p q [] k e passes = cc
  find_row-narrower p q (y ∷ ys) {x} k e passes = elim (Bool-cases (p y)) [
    | inl t ↦
        let same : y ≡ x = cc (rw t at e) in
        let passes' : q y ≡ true = subst (λ z. q z ≡ true) (sym same) passes in
        rw passes' (ap some same)
    | inr t ↦ elim (Bool-cases (q y)) [
      | inl t' ↦ cc (k y t')
      | inr t' ↦ rw t' (find_row-narrower p q ys k (rw t at e) passes)
    ]
  ]
