-- ===== src/Schemas/Temporary.antt =====
-- app/services/user.py: the temporary password that find_password_services draws is accepted by
-- validate_password_format of app/schemas/user.py.
use Prim.Native.Char.{Char, code}
use Prim.Native.String.{count}
use mathlib.Core.Path.{ap₂}
use mathlib.Core.List.{Permᴰ}
use text.Mathlib.TextLemmas.{length-cons}
use text.Mathlib.TextBridge.{of_list}
use fast_api_community_backe.Common.{
  and_left, and_right, and_both, ◌+◌, ◌≤◌, ◌≡◌, refl, ap, ◌∙◌, inl, inr, String, Bool, true, false,
  ◌&&◌, ◌||◌, some, List, [], ◌∷◌, ◌==◌, leb, arith, Bool-cases, All,
}
use fast_api_community_backe.Common.Lists.{length}
use fast_api_community_backe.Schemas.{
  Unicode, all_chars, any_char, first_line, one_of, is_letter, is_ascii_digit, is_special,
  is_password_char, validate_password_format, has_length, repeats, matches, looks_ahead,
}
use fast_api_community_backe.Schemas.Matching.{accept-true}

-- string.ascii_letters + string.digits + "@$!%*#?&._-"
abbrev pub is_drawn : Char → Bool
is_drawn c = is_letter c || (is_ascii_digit c || one_of "@$!%*#?&._-" c)

-- what can be drawn: a letter, a digit, a special character and 6 to 17 others, shuffled
pub record IsTemporary (temp_pw_list : List Char) : Type 0 where
  pub letter : Char
  pub digit : Char
  pub special : Char
  pub others : List Char
  pub letter_drawn : is_letter letter ≡ true
  pub digit_drawn : is_ascii_digit digit ≡ true
  pub special_drawn : one_of "@$!%*#?&._-" special ≡ true
  pub others_drawn : All (λ c. is_drawn c ≡ true) others
  pub at_least : 6 ≤ length others
  pub at_most : length others ≤ 17
  pub shuffled : Permᴰ temp_pw_list (letter ∷ digit ∷ special ∷ others)

and_swap : (a b c : Bool) → (a && (b && c)) ≡ (b && (a && c))
and_swap true true c = refl
and_swap true false c = refl
and_swap false true c = refl
and_swap false false c = refl

or_swap : (a b c : Bool) → (a || (b || c)) ≡ (b || (a || c))
or_swap true true c = refl
or_swap true false c = refl
or_swap false true c = refl
or_swap false false c = refl

-- The order of the characters does not matter to a test of all, or of any, or to the length.
all_chars-Permᴰ :
    (p : Char → Bool) {l r : List Char}
    → Permᴰ l r
    → all_chars p (of_list l) ≡ all_chars p (of_list r)
unfolding all_chars
all_chars-Permᴰ p Permᴰ.nil = refl
all_chars-Permᴰ p (Permᴰ.cons e h) = ap₂ ◌&&◌ (ap p e) (all_chars-Permᴰ p h)
all_chars-Permᴰ p (Permᴰ.swap {a} {b} {a'} {b'} {l} e f) =
    rw (ap p e, ap p f) (and_swap (p b') (p a') (all_chars p (of_list l)))
all_chars-Permᴰ p (Permᴰ.trans h k) = all_chars-Permᴰ p h ∙ all_chars-Permᴰ p k

any_char-Permᴰ :
    (p : Char → Bool) {l r : List Char}
    → Permᴰ l r
    → any_char p (of_list l) ≡ any_char p (of_list r)
unfolding any_char
any_char-Permᴰ p Permᴰ.nil = refl
any_char-Permᴰ p (Permᴰ.cons e h) = ap₂ ◌||◌ (ap p e) (any_char-Permᴰ p h)
any_char-Permᴰ p (Permᴰ.swap {a} {b} {a'} {b'} {l} e f) =
    rw (ap p e, ap p f) (or_swap (p b') (p a') (any_char p (of_list l)))
any_char-Permᴰ p (Permᴰ.trans h k) = any_char-Permᴰ p h ∙ any_char-Permᴰ p k

length-Permᴰ : {l r : List Char} → Permᴰ l r → length l ≡ length r
length-Permᴰ Permᴰ.nil = refl
length-Permᴰ (Permᴰ.cons e h) = omega (arith, length-Permᴰ h)
length-Permᴰ (Permᴰ.swap e f) = refl
length-Permᴰ (Permᴰ.trans h k) = length-Permᴰ h ∙ length-Permᴰ k

count-of_list : (l : List Char) → count (of_list l) ≡ length l
count-of_list [] = refl
count-of_list (c ∷ l) = omega (arith, length-cons c (of_list l), count-of_list l)

all_chars-of_list :
    (p : Char → Bool) (l : List Char) → All (λ c. p c ≡ true) l → all_chars p (of_list l) ≡ true
unfolding all_chars
all_chars-of_list p [] h = refl
all_chars-of_list p (c ∷ l) h = and_both h.0 (all_chars-of_list p l h.1)

all_chars-weaken :
    (p q : Char → Bool) (s : String)
    → ((c : Char) → p c ≡ true → q c ≡ true)
    → all_chars p s ≡ true
    → all_chars q s ≡ true
unfolding all_chars
all_chars-weaken p q String.[] k h = refl
all_chars-weaken p q (String.◌∷◌ c s) k h =
    and_both (k c (and_left (p c) (all_chars p s) h))
      (all_chars-weaken p q s k (and_right (p c) (all_chars p s) h))

is_drawn-no_newline : (c : Char) → is_drawn c ≡ true → (code c == 10) ≡ false
unfolding any_char
is_drawn-no_newline c h = ground arith

first_line-all_chars : (s : String) → all_chars is_drawn s ≡ true → first_line s ≡ s
unfolding first_line all_chars
first_line-all_chars String.[] h = refl
first_line-all_chars (String.◌∷◌ c s) h =
    rw
      (
        is_drawn-no_newline c (and_left (is_drawn c) (all_chars is_drawn s) h),
        first_line-all_chars s (and_right (is_drawn c) (all_chars is_drawn s) h),
      )
      refl

or_right : (a b : Bool) → b ≡ true → (a || b) ≡ true
or_right true b e = refl
or_right false b e = e

is_drawn-digit : (c : Char) → is_ascii_digit c ≡ true → is_drawn c ≡ true
is_drawn-digit c h = or_right (is_letter c) (is_ascii_digit c || one_of "@$!%*#?&._-" c) (rw h refl)

is_drawn-special : (c : Char) → one_of "@$!%*#?&._-" c ≡ true → is_drawn c ≡ true
is_drawn-special c h =
    or_right (is_letter c) (is_ascii_digit c || one_of "@$!%*#?&._-" c)
      (or_right (is_ascii_digit c) (one_of "@$!%*#?&._-" c) h)

module _ (unicode : Unicode) (temp_pw_list : List Char) (drawn : IsTemporary temp_pw_list) where
  abbrev temp_password : String
  temp_password = of_list temp_pw_list

  abbrev drawn_list : List Char
  drawn_list = drawn.letter ∷ drawn.digit ∷ drawn.special ∷ drawn.others

  all_drawn : all_chars is_drawn temp_password ≡ true
  all_drawn =
      all_chars-Permᴰ is_drawn drawn.shuffled
      ∙ all_chars-of_list is_drawn drawn_list (
        rw drawn.letter_drawn refl,
        (
          is_drawn-digit drawn.digit drawn.digit_drawn,
          (is_drawn-special drawn.special drawn.special_drawn, drawn.others_drawn),
        ),
      )

  -- a lookahead for a class that one of the three fixed characters is in
  looks_ahead-drawn :
      (p : Char → Bool)
      → any_char p (of_list drawn_list) ≡ true
      → looks_ahead p temp_password ≡ true
  looks_ahead-drawn p h =
      ap (any_char p) (first_line-all_chars temp_password all_drawn)
      ∙ (any_char-Permᴰ p drawn.shuffled ∙ h)

  first_passes : (p : Char → Bool) → p drawn.letter ≡ true → any_char p (of_list drawn_list) ≡ true
  unfolding any_char
  first_passes p h = rw h refl

  second_passes : (p : Char → Bool) → p drawn.digit ≡ true → any_char p (of_list drawn_list) ≡ true
  unfolding any_char
  second_passes p h =
      or_right (p drawn.letter) (any_char p (of_list (drawn.digit ∷ drawn.special ∷ drawn.others)))
        (rw h refl)

  third_passes : (p : Char → Bool) → p drawn.special ≡ true → any_char p (of_list drawn_list) ≡ true
  unfolding any_char
  third_passes p h =
      or_right (p drawn.letter) (any_char p (of_list (drawn.digit ∷ drawn.special ∷ drawn.others)))
        (or_right (p drawn.digit) (any_char p (of_list (drawn.special ∷ drawn.others))) (rw h refl))

  has_length-drawn : has_length 8 30 temp_password ≡ true
  has_length-drawn =
      let size : count temp_password ≡ 3 + length drawn.others =
        count-of_list temp_pw_list ∙ (length-Permᴰ drawn.shuffled ∙ omega arith) in
      let low = drawn.at_least in
      let high = drawn.at_most in
      and_both {a = leb 8 (count temp_password)} {b = leb (count temp_password) 30} (ground arith)
        (ground arith)

  in_class : (c : Char) → is_drawn c ≡ true → is_password_char unicode c ≡ true
  in_class c h = elim (Bool-cases (is_letter c)) [
    | inl t ↦ rw t refl
    | inr t ↦ elim (Bool-cases (is_ascii_digit c)) [
      | inl u ↦ rw (t, unicode.digit_is_decimal c u) refl
      | inr u ↦
          let member : one_of "@$!%*#?&._-" c ≡ true = rw (t, u) at h in
          rw t (or_right (unicode.is_decimal c) (one_of "@$!%*#?&._-" c) member)
    ]
  ]

  -- The temporary password is one that the validator accepts as it is, whatever is drawn.
  pub validate_password_format-IsTemporary :
      validate_password_format unicode temp_password ≡ some temp_password
  unfolding validate_password_format matches
  validate_password_format-IsTemporary = accept-true temp_password (
      and_both (looks_ahead-drawn is_letter (first_passes is_letter drawn.letter_drawn)) (
        and_both
          (looks_ahead-drawn unicode.is_decimal (
            second_passes unicode.is_decimal
              (unicode.digit_is_decimal drawn.digit drawn.digit_drawn)))
          (and_both (looks_ahead-drawn is_special (third_passes is_special drawn.special_drawn))
            matched)))
    where
      matched : matches (is_password_char unicode) 8 30 temp_password ≡ true
      matched =
          let all_in =
            all_chars-weaken is_drawn (is_password_char unicode) temp_password in_class all_drawn in
          let whole : repeats (is_password_char unicode) 8 30 temp_password ≡ true =
            and_both all_in has_length-drawn in
          rw whole refl
