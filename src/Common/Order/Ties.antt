-- ===== src/Common/Order/Ties.antt =====
-- ORDER BY on rows of which no two tie: the answer does not depend on the order in which the rows are
-- met.
use mathlib.Core.Path.{◌≡◌, refl, sym, ap, ◌∙◌, subst}
use mathlib.Core.Logic.{◌⊎◌, inl, inr}
use mathlib.Core.Bool.{Bool, true, false}
use mathlib.Core.List.{List, [], ◌∷◌, Permᴰ}
use fast_api_community_backe.Common.Tests.{Bool-cases}
use fast_api_community_backe.Common.Table.{All}
use fast_api_community_backe.Common.Order.{insert, order_by}

-- any two rows are apart
abbrev pub Pairs : {A : Type 0} → (A → A → Type 0) → List A → Type 0
Pairs R [] = Unit
Pairs R (x ∷ xs) = All (R x) xs × Pairs R xs

pub All-Perm : {A : Type 0} (P : A → Type 0) {l m : List A} → Permᴰ l m → All P l → All P m
All-Perm P Permᴰ.nil h = tt
All-Perm P (Permᴰ.cons e p) h = (subst P e h.0, All-Perm P p h.1)
All-Perm P (Permᴰ.swap e f) h = (subst P f h.1.0, (subst P e h.0, h.1.1))
All-Perm P (Permᴰ.trans p q) h = All-Perm P q (All-Perm P p h)

module _ {A : Type 0} (R : A → A → Type 0) (symmetric : (a b : A) → R a b → R b a) where
  Pairs-Perm : {l m : List A} → Permᴰ l m → Pairs R l → Pairs R m
  Pairs-Perm Permᴰ.nil h = tt
  Pairs-Perm (Permᴰ.cons {l₂} e p) h =
      (subst (λ x. All (R x) l₂) e (All-Perm (R _) p h.0), Pairs-Perm p h.1)
  Pairs-Perm (Permᴰ.swap {a} {b} {a'} {b'} {l} e f) h =
      subst (λ x. All (R x) (b' ∷ l) × Pairs R (b' ∷ l)) f
        (subst (λ y. All (R b) (y ∷ l) × (All (R y) l × Pairs R l)) e
          ((symmetric a b h.0.0, h.1.0), (h.0.1, h.1.1)))
  Pairs-Perm (Permᴰ.trans p q) h = Pairs-Perm q (Pairs-Perm p h)

  module _ (le : A → A → Bool) (total : (a b : A) → (le a b ≡ true) ⊎ (le b a ≡ true))
      (trans : (a b c : A) → le a b ≡ true → le b c ≡ true → le a c ≡ true)
      (strict : (a b : A) → R a b → le a b ≡ true → le b a ≡ false) where
    insert_front : (x y : A) (ys : List A) → le x y ≡ true → insert le x (y ∷ ys) ≡ x ∷ y ∷ ys
    unfolding insert
    insert_front x y ys t = rw t refl

    insert_behind :
        (x y : A) (ys : List A) → le x y ≡ false → insert le x (y ∷ ys) ≡ y ∷ insert le x ys
    unfolding insert
    insert_behind x y ys t = rw t refl

    insert_one : (x : A) → insert le x [] ≡ x ∷ []
    unfolding insert
    insert_one x = refl

    insert-insert_before :
        (x y : A) (l : List A)
        → R x y
        → le x y ≡ true
        → insert le x (insert le y l) ≡ insert le y (insert le x l)
    insert-insert_before x y [] r t =
        (ap (insert le x) (insert_one y) ∙ insert_front x y [] t)
        ∙ sym (
            ap (insert le y) (insert_one x)
            ∙ (insert_behind y x [] (strict x y r t) ∙ ap (◌∷◌ x) (insert_one y)))
    insert-insert_before x y (z ∷ zs) r t =
        let u : le y x ≡ false = strict x y r t in
        elim (Bool-cases (le y z)) [
          | inl b ↦
              (ap (insert le x) (insert_front y z zs b) ∙ insert_front x y (z ∷ zs) t)
              ∙ sym (
                  ap (insert le y) (insert_front x z zs (trans x y z t b))
                  ∙ (insert_behind y x (z ∷ zs) u ∙ ap (◌∷◌ x) (insert_front y z zs b)))
          | inr b ↦ elim (Bool-cases (le x z)) [
            | inl a ↦
                (ap (insert le x) (insert_behind y z zs b) ∙ insert_front x z (insert le y zs) a)
                ∙ sym (
                    ap (insert le y) (insert_front x z zs a)
                    ∙ (insert_behind y x (z ∷ zs) u ∙ ap (◌∷◌ x) (insert_behind y z zs b)))
            | inr a ↦
                (ap (insert le x) (insert_behind y z zs b) ∙ insert_behind x z (insert le y zs) a)
                ∙ (ap (◌∷◌ z) (insert-insert_before x y zs r t)
                    ∙ sym (
                        ap (insert le y) (insert_behind x z zs a)
                        ∙ insert_behind y z (insert le x zs) b))
          ]
        ]

    insert-insert :
        (x y : A) (l : List A) → R x y → insert le x (insert le y l) ≡ insert le y (insert le x l)
    insert-insert x y l r = elim (total x y) [
      | inl t ↦ insert-insert_before x y l r t
      | inr t ↦ sym (insert-insert_before y x l (symmetric x y r) t)
    ]

    -- Sorting forgets the order in which the rows are met.
    pub order_by-met : {l m : List A} → Permᴰ l m → Pairs R l → order_by le l ≡ order_by le m
    unfolding order_by
    order_by-met Permᴰ.nil h = refl
    order_by-met (Permᴰ.cons {b} {l₁} e p) h =
        ap (λ z. insert le z (order_by le l₁)) e ∙ ap (insert le b) (order_by-met p h.1)
    order_by-met (Permᴰ.swap {a} {b} {a'} {b'} {l} e f) h =
        insert-insert a b (order_by le l) h.0.0
        ∙ ap (λ z. insert le z (insert le a (order_by le l))) f
        ∙ ap (λ z. insert le a' (insert le z (order_by le l))) e
    order_by-met (Permᴰ.trans p q) h = order_by-met p h ∙ order_by-met q (Pairs-Perm p h)
