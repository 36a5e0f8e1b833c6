-- ===== src/Services/Boards/Reading.antt =====
-- app/services/boards.py: what a client gets who asks for the pages of a list one behind the other.
use fast_api_community_backe.Common.{
  ℕ, zero, suc, ◌+◌, ◌-◌, ◌*◌, ◌≤◌, ◌<◌, ◌≡◌, refl, sym, ap, ◌∙◌, inl, inr, ◌⊎◌, true, false, List,
  [], ◌∷◌, ◌++◌, map, arith, Bool-cases, ltb,
}
use fast_api_community_backe.Common.Lists.{length, concat}
use fast_api_community_backe.Common.Pages.{
  total_pages, offset_of, window, pages, lt-total_pages, concat-pages_all, length-window,
}
use fast_api_community_backe.Exec.{Exec, State, ok, pure, ◌>>=◌}
use fast_api_community_backe.Services.Boards.Listing.{Listing, listing, is_empty}

-- A client that asks for page 1, and then for the pages up to the `total_pages` of the answer.
module _ {A : Type 0} (ask : ℕ → Exec (Listing A)) where
  -- the pages n + 1, …, n + count
  unfoldable read_pages : ℕ → ℕ → Exec (List A)
  read_pages n zero = pure []
  read_pages n (suc count) = do
    answer ← ask (n + 1)
    rest ← read_pages (n + 1) count
    pure (answer.result ++ rest)

  unfoldable pub read_all : Exec (List A)
  unfolding read_pages
  read_all = do
    first ← ask 1
    rest ← read_pages 1 (first.total_pages - 1)
    pure (first.result ++ rest)

  -- What the answers show of the rows, `show`, can be read page by page.
  module _ {B : Type 0} (show : List B → List A) (show-nil : show [] ≡ [])
      (show-append : (l r : List B) → show (l ++ r) ≡ show l ++ show r) (rows : List B) (limit : ℕ)
      (s : State) where
    -- How each of the counted pages is answered.
    abbrev pub AnswersPages : Type 0
    AnswersPages =
        (n : ℕ)
        → n < total_pages (length rows) limit
        → ask (n + 1) s
          ≡ (ok (listing (show (window limit (n * limit) rows)) (length rows) (n + 1) limit), s)

    read_pages-ok :
        AnswersPages
        → (n count : ℕ) → n + count ≤ total_pages (length rows) limit
        → read_pages n count s ≡ (ok (show (concat (pages limit n count rows))), s)
    unfolding read_pages pages concat ◌>>=◌
    read_pages-ok h n zero le = rw show-nil refl
    read_pages-ok h n (suc count) le =
        rw
          (
            h n (omega arith),
            read_pages-ok h (n + 1) count (omega arith),
            show-append (window limit (n * limit) rows) (concat (pages limit (n + 1) count rows)),
          )
          refl

    -- The pages, one behind the other, are the rows.
    pub read_all-ok :
        AnswersPages
        → 0 < total_pages (length rows) limit
        → 1 ≤ limit
        → read_all s ≡ (ok (show rows), s)
    unfolding read_all pages concat ◌>>=◌
    read_all-ok h pos one =
        let count = total_pages (length rows) limit in
        let whole : suc (count - 1) ≡ count = omega arith in
        rw
          (
            h 0 pos,
            read_pages-ok h 1 (count - 1) (omega arith),
            sym (
                show-append (window limit (0 * limit) rows)
                  (concat (pages limit 1 (count - 1) rows))),
          )
          (ap (λ l. (ok (show l), s))
            (ap (λ c. concat (pages limit 0 c rows)) whole ∙ concat-pages_all limit rows one))

-- A counted page has a row.
pub is_empty-window :
    {A B : Type 0} (f : A → B) (limit n : ℕ) (rows : List A)
    → 1 ≤ limit
    → n < total_pages (length rows) limit
    → is_empty (map f (window limit (n * limit) rows)) ≡ false
is_empty-window f limit n rows one lt = filled f (window limit (n * limit) rows) (
    omega (
      arith,
      length-window limit (n * limit) rows,
      (lt-total_pages n (length rows) limit one).0 lt,
    ))
  where
    filled : {A B : Type 0} (f : A → B) (l : List A) → 0 < length l → is_empty (map f l) ≡ false
    filled f [] h = absurd (omega arith)
    filled f (x ∷ xs) h = refl

pub offset-suc : (n limit : ℕ) → offset_of (n + 1) limit ≡ n * limit
offset-suc n limit = let e : n + 1 - 1 ≡ n = omega arith in rw e refl

-- There is no row behind the counted pages.
pub window-past :
    {A : Type 0} {limit : ℕ} (n : ℕ) (rows : List A)
    → 1 ≤ limit
    → total_pages (length rows) limit ≤ n
    → window limit (n * limit) rows ≡ []
window-past {limit = limit} n rows one past =
    nothing (window limit (n * limit) rows) (short (Bool-cases (ltb (n * limit) (length rows))))
  where
    nothing : {A : Type 0} (l : List A) → length l ≡ 0 → l ≡ []
    nothing [] e = refl
    nothing (x ∷ xs) e = absurd (omega arith)

    short :
        (ltb (n * limit) (length rows) ≡ true) ⊎ (ltb (n * limit) (length rows) ≡ false)
        → length (window limit (n * limit) rows) ≡ 0
    short (inl t) =
        let lt : n < total_pages (length rows) limit =
          (lt-total_pages n (length rows) limit one).1 (ground arith) in
        absurd (omega arith)
    short (inr t) =
        let le : length rows ≤ n * limit = ground arith in
        omega (arith, length-window limit (n * limit) rows)

pub some_page :
    {A : Type 0} {limit : ℕ} (rows : List A)
    → 1 ≤ limit
    → 0 < length rows
    → 0 < total_pages (length rows) limit
some_page {limit = limit} rows one lt = (lt-total_pages 0 (length rows) limit one).1 (omega arith)
