-- ===== src/Common/Pages.antt =====
-- LIMIT and OFFSET: the pages of a list of rows, and how many there are.
use Prim.Native.Nat.{ℕ, zero, suc, ◌+◌, ◌-◌, ◌*◌, ◌/◌, ◌≤◌, ◌<◌, min}
use mathlib.Core.Path.{◌≡◌, refl, ◌∙◌}
use mathlib.Core.Logic.{◌↔◌, inl, inr}
use mathlib.Core.List.{List, [], ◌∷◌}
use native.Mathlib.Omega.{arith}
use native.Mathlib.Nat.{le-div_iff_mul-le}
use fast_api_community_backe.Common.Tests.{ltb, if◌then◌else◌, Bool-cases}
use fast_api_community_backe.Common.Lists.{
  length, take, drop, concat, take-add, drop-add, take_all, length-take, length-drop,
}

-- `math.ceil(total / limit) if total > 0 else 0`, for a limit of at least 1
unfoldable pub total_pages : ℕ → ℕ → ℕ
total_pages total limit = if ltb 0 total then (total + (limit - 1)) / limit else 0

-- `(page - 1) * limit`
abbrev pub offset_of : ℕ → ℕ → ℕ
offset_of page limit = (page - 1) * limit

module _ {A : Type 0} where
  -- LIMIT limit OFFSET offset
  unfoldable pub window : ℕ → ℕ → List A → List A
  unfolding take drop
  window limit offset rows = take limit (drop offset rows)

  -- the `count` pages behind the first n
  unfoldable pub pages : ℕ → ℕ → ℕ → List A → List (List A)
  unfolding window
  pages limit n zero rows = []
  pages limit n (suc count) rows = window limit (n * limit) rows ∷ pages limit (n + 1) count rows

below_quotient : (k m limit : ℕ) → 1 ≤ limit → (k ≤ m / limit) ↔ (k * limit ≤ m)
below_quotient k m limit h = le-div_iff_mul-le h

-- A page has a row just when it is one of those that are counted.
pub lt-total_pages :
    (n total limit : ℕ) → 1 ≤ limit → (n < total_pages total limit) ↔ (n * limit < total)
unfolding total_pages
lt-total_pages n total limit h =
    let (to, from) = below_quotient (n + 1) (total + (limit - 1)) limit h in
    elim (Bool-cases (ltb 0 total)) [
      | inl t ↦
          rw t (λ lt. omega (arith, to (omega arith)), λ lt. omega (arith, from (omega arith)))
      | inr t ↦ rw t (λ lt. absurd (omega arith), λ lt. ground arith)
    ]

pub total_pages-enough : (total limit : ℕ) → 1 ≤ limit → total ≤ total_pages total limit * limit
total_pages-enough total limit h = elim (Bool-cases (ltb (total_pages total limit * limit) total)) [
  | inl t ↦ absurd (not_below (total_pages total limit) (ground arith) refl)
  | inr t ↦ ground arith
]
  where
    not_below : (n : ℕ) → n * limit < total → n ≡ total_pages total limit → ⊥
    not_below n lt e =
        let below : n < total_pages total limit = (lt-total_pages n total limit h).1 lt in
        omega arith

module _ {A : Type 0} where
  concat-pages :
      (limit n count : ℕ) (rows : List A)
      → concat (pages limit n count rows) ≡ take (count * limit) (drop (n * limit) rows)
  unfolding concat pages window take drop
  concat-pages limit n zero rows =
      let e : 0 * limit ≡ 0 = omega arith in rw e (nothing (drop (n * limit) rows))
    where
      nothing : (l : List A) → [] ≡ take 0 l
      nothing l = refl
  concat-pages limit n (suc count) rows =
      let next : (n + 1) * limit ≡ n * limit + limit = omega arith in
      let all : suc count * limit ≡ limit + count * limit = omega arith in
      rw
        (
          concat-pages limit (n + 1) count rows,
          next,
          all,
          take-add limit (count * limit) (drop (n * limit) rows),
          drop-add (n * limit) limit rows,
        )
        refl

  -- The counted pages, one behind the other, are all the rows.
  pub concat-pages_all :
      (limit : ℕ) (rows : List A)
      → 1 ≤ limit
      → concat (pages limit 0 (total_pages (length rows) limit) rows) ≡ rows
  unfolding drop
  concat-pages_all limit rows h =
      let e : 0 * limit ≡ 0 = omega arith in
      concat-pages limit 0 (total_pages (length rows) limit) rows
      ∙ rw e (
          take_all (total_pages (length rows) limit * limit) rows
            (total_pages-enough (length rows) limit h))

  pub length-window :
      (limit offset : ℕ) (rows : List A)
      → length (window limit offset rows) ≡ min limit (length rows - offset)
  unfolding window
  length-window limit offset rows =
      omega (arith, length-take limit (drop offset rows), length-drop offset rows)

  pub window-nil : (limit offset : ℕ) → window {A = A} limit offset [] ≡ []
  unfolding window take drop
  window-nil zero zero = refl
  window-nil zero (suc n) = refl
  window-nil (suc l) zero = refl
  window-nil (suc l) (suc n) = refl
