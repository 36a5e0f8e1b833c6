-- ===== src/Common/Lists.antt =====
-- Lists by native numbers: slices and concatenation.
use Prim.Native.Nat.{ℕ, zero, suc, ◌+◌, ◌-◌, ◌≤◌, min}
use mathlib.Core.Path.{◌≡◌, refl, ap}
use mathlib.Core.List.{List, [], ◌∷◌, ◌++◌}
use mathlib.Core.Bool.{Bool}
use mathlib.Core.Logic.{inl, inr}
use native.Mathlib.Omega.{arith}
use fast_api_community_backe.Common.Tests.{Bool-cases}
use fast_api_community_backe.Common.Table.{All, select}

module _ {ℓ} {A : Type ℓ} where
  abbrev pub length : List A → ℕ
  length [] = 0
  length (x ∷ xs) = suc (length xs)

  -- `l[:n]`, LIMIT n
  unfoldable pub take : ℕ → List A → List A
  take (suc n) (x ∷ xs) = x ∷ take n xs
  take _ _ = []

  -- `l[n:]`, OFFSET n
  unfoldable pub drop : ℕ → List A → List A
  drop (suc n) (x ∷ xs) = drop n xs
  drop _ l = l

  pub take-append-drop : (n : ℕ) (l : List A) → take n l ++ drop n l ≡ l
  unfolding take drop
  take-append-drop (suc n) (x ∷ xs) = ap (◌∷◌ x) (take-append-drop n xs)
  take-append-drop _ _ = refl

  pub length-take : (n : ℕ) (l : List A) → length (take n l) ≡ min n (length l)
  unfolding take
  length-take (suc n) (x ∷ xs) = omega (arith, length-take n xs)
  length-take _ _ = omega arith

  pub length-drop : (n : ℕ) (l : List A) → length (drop n l) ≡ length l - n
  unfolding drop
  length-drop (suc n) (x ∷ xs) = omega (arith, length-drop n xs)
  length-drop _ _ = omega arith

  -- A slice of a + b rows is a slice of a rows and the slice of b rows behind it.
  pub take-add : (a b : ℕ) (l : List A) → take (a + b) l ≡ take a l ++ take b (drop a l)
  unfolding take drop
  take-add zero b l = ap (λ n. take n l) (omega arith)
  take-add (suc a) b [] = let e : suc a + b ≡ suc (a + b) = omega arith in rw e (take-nil b)
    where
      take-nil : (n : ℕ) → [] ≡ take n []
      take-nil zero = refl
      take-nil (suc n) = refl
  take-add (suc a) b (x ∷ xs) =
      let e : suc a + b ≡ suc (a + b) = omega arith in rw e (ap (◌∷◌ x) (take-add a b xs))

  pub drop-add : (a b : ℕ) (l : List A) → drop b (drop a l) ≡ drop (a + b) l
  unfolding drop
  drop-add zero b l = ap (λ n. drop n l) (omega arith)
  drop-add (suc a) b [] = let e : suc a + b ≡ suc (a + b) = omega arith in rw e (drop-nil b)
    where
      drop-nil : (n : ℕ) → drop n [] ≡ []
      drop-nil zero = refl
      drop-nil (suc n) = refl
  drop-add (suc a) b (x ∷ xs) =
      let e : suc a + b ≡ suc (a + b) = omega arith in rw e (drop-add a b xs)

  pub take_all : (n : ℕ) (l : List A) → length l ≤ n → take n l ≡ l
  unfolding take
  take_all zero [] h = refl
  take_all zero (x ∷ xs) h = absurd (omega arith)
  take_all (suc n) [] h = refl
  take_all (suc n) (x ∷ xs) h = ap (◌∷◌ x) (take_all n xs (omega arith))

  -- the lists of a list, one behind the other
  unfoldable pub concat : List (List A) → List A
  concat [] = []
  concat (l ∷ ls) = l ++ concat ls

  pub length-append : (l r : List A) → length (l ++ r) ≡ length l + length r
  length-append [] r = omega arith
  length-append (x ∷ xs) r = omega (arith, length-append xs r)

module _ {A : Type 0} (P : A → Type 0) where
  pub take-All : (n : ℕ) (l : List A) → All P l → All P (take n l)
  unfolding take
  take-All (suc n) (x ∷ xs) h = (h.0, take-All n xs h.1)
  take-All zero l h = tt
  take-All (suc n) [] h = tt

  pub drop-All : (n : ℕ) (l : List A) → All P l → All P (drop n l)
  unfolding drop
  drop-All (suc n) (x ∷ xs) h = drop-All n xs h.1
  drop-All zero l h = h
  drop-All (suc n) [] h = tt

  pub select-All : (p : A → Bool) (l : List A) → All P l → All P (select p l)
  unfolding select
  select-All p [] h = tt
  select-All p (x ∷ xs) h = elim (Bool-cases (p x)) [
    | inl t ↦ rw t (h.0, select-All p xs h.1)
    | inr t ↦ rw t (select-All p xs h.1)
  ]
