-- ===== src/Common/Groups.antt =====
-- `defaultdict(list)`: the rows gathered under their keys, the keys in the order of their first rows.
use Prim.Native.String.{String}
use mathlib.Core.Path.{◌≡◌, refl, sym, ◌∙◌, ap}
use mathlib.Core.Logic.{inl, inr}
use mathlib.Core.Bool.{Bool, true, false}
use mathlib.Core.List.{List, [], ◌∷◌, ◌++◌, append_assoc, append-nil}
use text.Mathlib.TextEquality.{eq_iff}
use text.Mathlib.Text.{◌==◌ as str_eq}
use fast_api_community_backe.Common.Tests.{if◌then◌else◌, Bool-cases}
use fast_api_community_backe.Common.Table.{All, select}

-- an entry of the dictionary: `AllBoardInfoResponse`
pub record Group (A : Type 0) : Type 0 where
  pub id : String
  pub posts : List A

module _ {A : Type 0} (key : A → String) where
  -- `grouped_dict[key].append(x)`
  unfoldable pub add_row : A → List (Group A) → List (Group A)
  add_row x [] = record { id = key x; posts = x ∷ [] } ∷ []
  add_row x (g ∷ gs) =
      let rest = add_row x gs in
      if str_eq g.id (key x) then record g { posts = g.posts ++ x ∷ [] } ∷ gs else g ∷ rest

  -- the loop over the rows
  unfoldable pub group_rows : List A → List (Group A) → List (Group A)
  unfolding add_row
  group_rows [] groups = groups
  group_rows (x ∷ xs) groups = group_rows xs (add_row x groups)

-- `grouped_dict[key]`
unfoldable pub posts_of : {A : Type 0} → String → List (Group A) → List A
posts_of k [] = []
posts_of k (g ∷ gs) = if str_eq g.id k then g.posts else posts_of k gs

module _ {A : Type 0} (key : A → String) where
  abbrev pub has_key : String → A → Bool
  has_key k x = str_eq (key x) k

  posts_of-add_row :
      (k : String) (x : A) (gs : List (Group A))
      → posts_of k (add_row key x gs)
        ≡ (if has_key k x then posts_of k gs ++ x ∷ [] else posts_of k gs)
  unfolding posts_of add_row
  posts_of-add_row k x [] = refl
  posts_of-add_row k x (g ∷ gs) = elim (Bool-cases (str_eq g.id (key x))) [
    | inl e ↦
        let same : g.id ≡ key x = (eq_iff g.id (key x)).0 e in
        elim (Bool-cases (has_key k x)) [
          | inl t ↦
              let t' : str_eq g.id k ≡ true = ap (λ i. str_eq i k) same ∙ t in rw (e, t, t') refl
          | inr t ↦
              let t' : str_eq g.id k ≡ false = ap (λ i. str_eq i k) same ∙ t in rw (e, t, t') refl
        ]
    | inr e ↦ elim (Bool-cases (str_eq g.id k)) [
      | inl f ↦ elim (Bool-cases (has_key k x)) [
        | inl t ↦ absurd (apart e ((eq_iff g.id k).0 f ∙ sym ((eq_iff (key x) k).0 t)))
        | inr t ↦ rw (e, f, t) refl
      ]
      | inr f ↦ rw (e, f) (posts_of-add_row k x gs)
    ]
  ]
    where
      apart : {i j : String} → str_eq i j ≡ false → i ≡ j → ⊥
      apart {i} {j} e p = cc ((eq_iff i j).1 p)

  -- Under each key stand the rows that have it, in the order in which they came.
  pub posts_of-group_rows :
      (k : String) (xs : List A) (gs : List (Group A))
      → posts_of k (group_rows key xs gs) ≡ posts_of k gs ++ select (has_key k) xs
  unfolding group_rows select
  posts_of-group_rows k [] gs = sym (append-nil (posts_of k gs))
  posts_of-group_rows k (x ∷ xs) gs =
      posts_of-group_rows k xs (add_row key x gs)
      ∙ rw (posts_of-add_row k x gs) (place (has_key k x) (posts_of k gs))
    where
      place :
          (b : Bool) (p : List A)
          → (if b then p ++ x ∷ [] else p) ++ select (has_key k) xs
            ≡ p ++ (if b then x ∷ select (has_key k) xs else select (has_key k) xs)
      place true p = append_assoc p (x ∷ []) (select (has_key k) xs)
      place false p = refl

  -- No two entries have one key.
  abbrev pub IsGrouped : List (Group A) → Type 0
  IsGrouped [] = Unit
  IsGrouped (g ∷ gs) = All (λ h. str_eq h.id g.id ≡ false) gs × IsGrouped gs

  add_row-All :
      (P : String → Type 0) (x : A) (gs : List (Group A))
      → P (key x)
      → All (λ g. P g.id) gs
      → All (λ g. P g.id) (add_row key x gs)
  unfolding add_row
  add_row-All P x [] p h = (p, tt)
  add_row-All P x (g ∷ gs) p h = elim (Bool-cases (str_eq g.id (key x))) [
    | inl e ↦ rw e h
    | inr e ↦ rw e (h.0, add_row-All P x gs p h.1)
  ]

  add_row-IsGrouped : (x : A) (gs : List (Group A)) → IsGrouped gs → IsGrouped (add_row key x gs)
  unfolding add_row
  add_row-IsGrouped x [] h = (tt, tt)
  add_row-IsGrouped x (g ∷ gs) h = elim (Bool-cases (str_eq g.id (key x))) [
    | inl e ↦ rw e h
    | inr e ↦
        rw e
          (add_row-All (λ i. str_eq i g.id ≡ false) x gs (turned e) h.0, add_row-IsGrouped x gs h.1)
  ]
    where
      turned : str_eq g.id (key x) ≡ false → str_eq (key x) g.id ≡ false
      turned e = elim (Bool-cases (str_eq (key x) g.id)) [
        | inl t ↦ cc ((eq_iff g.id (key x)).1 (sym ((eq_iff (key x) g.id).0 t)))
        | inr t ↦ t
      ]

  pub group_rows-IsGrouped :
      (xs : List A) (gs : List (Group A)) → IsGrouped gs → IsGrouped (group_rows key xs gs)
  unfolding group_rows
  group_rows-IsGrouped [] gs h = h
  group_rows-IsGrouped (x ∷ xs) gs h =
      group_rows-IsGrouped xs (add_row key x gs) (add_row-IsGrouped x gs h)
