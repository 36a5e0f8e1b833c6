-- ===== src/Schemas.antt =====
-- app/schemas/: what the validators of the request bodies make of a text. A text that they refuse
-- is answered with 422. What a Unicode character is, and what an e-mail address is, are parameters.
pub mod Forms
pub mod Stripping
pub mod Matching
pub mod Accepted
pub mod Temporary
use Prim.Native.Char.{Char, code}
use Prim.Native.String
use Prim.Native.String.{count}
use fast_api_community_backe.Common.{
  ℕ, ◌≡◌, String, Bool, true, false, ◌&&◌, ◌||◌, Option, none, some, ◌==◌, leb, if◌then◌else◌,
}

abbrev pub is_letter : Char → Bool
is_letter c = (leb 65 (code c) && leb (code c) 90) || (leb 97 (code c) && leb (code c) 122)

abbrev pub is_ascii_digit : Char → Bool
is_ascii_digit c = leb 48 (code c) && leb (code c) 57

-- `str.isspace` and `\s`, and `\d`, which takes the decimal digits of all scripts
pub record Unicode : Type 0 where
  pub is_space : Char → Bool
  pub is_decimal : Char → Bool
  pub newline_is_space : (c : Char) → code c ≡ 10 → is_space c ≡ true
  pub digit_is_decimal : (c : Char) → is_ascii_digit c ≡ true → is_decimal c ≡ true

unfoldable pub all_chars : (Char → Bool) → String → Bool
all_chars p String.[] = true
all_chars p (String.◌∷◌ c s) = p c && all_chars p s

unfoldable pub any_char : (Char → Bool) → String → Bool
any_char p String.[] = false
any_char p (String.◌∷◌ c s) = p c || any_char p s

-- a class of characters, by its members
abbrev pub one_of : String → Char → Bool
one_of members c = any_char (λ d. code d == code c) members

-- the text before the first newline, which is how far `.*` looks
unfoldable pub first_line : String → String
first_line String.[] = String.[]
first_line (String.◌∷◌ c s) =
    let rest = first_line s in if code c == 10 then String.[] else String.◌∷◌ c rest

-- `$` matches at the end and before a newline at the end
unfoldable pub before_final_newline : String → String
before_final_newline String.[] = String.[]
before_final_newline (String.◌∷◌ c String.[]) =
    if code c == 10 then String.[] else String.◌∷◌ c String.[]
before_final_newline (String.◌∷◌ c (String.◌∷◌ d s)) =
    String.◌∷◌ c (before_final_newline (String.◌∷◌ d s))

-- Field(min_length=low, max_length=high)
abbrev pub has_length : ℕ → ℕ → String → Bool
has_length low high v = leb low (count v) && leb (count v) high

abbrev pub repeats : (Char → Bool) → ℕ → ℕ → String → Bool
repeats p low high v = all_chars p v && has_length low high v

-- `^[p]{low,high}$`
unfoldable pub matches : (Char → Bool) → ℕ → ℕ → String → Bool
matches p low high v = repeats p low high v || repeats p low high (before_final_newline v)

-- `(?=.*[p])`
abbrev pub looks_ahead : (Char → Bool) → String → Bool
looks_ahead p v = any_char p (first_line v)

-- `if not …: raise ValueError`, then `return v`
abbrev pub accept : Bool → String → Option String
accept true v = some v
accept false v = none

-- `.`
abbrev pub is_not_newline : Char → Bool
is_not_newline c = if code c == 10 then false else true

abbrev pub any_character : Char → Bool
any_character c = true

-- 가-힣
abbrev pub is_hangul : Char → Bool
is_hangul c = leb 44032 (code c) && leb (code c) 55203

abbrev pub is_special : Char → Bool
is_special c = one_of "@$!%*#?&._-" c

module _ (unicode : Unicode) where
  -- `v.strip()`
  unfoldable pub lstrip : String → String
  lstrip String.[] = String.[]
  lstrip (String.◌∷◌ c s) =
      let rest = lstrip s in if unicode.is_space c then rest else String.◌∷◌ c s

  abbrev pub keep_before : Char → String → String
  keep_before c String.[] = if unicode.is_space c then String.[] else String.◌∷◌ c String.[]
  keep_before c (String.◌∷◌ d s) = String.◌∷◌ c (String.◌∷◌ d s)

  unfoldable pub rstrip : String → String
  rstrip String.[] = String.[]
  rstrip (String.◌∷◌ c s) = keep_before c (rstrip s)

  unfoldable pub strip : String → String
  unfolding lstrip rstrip
  strip v = rstrip (lstrip v)

  abbrev pub is_id_char : Char → Bool
  is_id_char c = is_letter c || (unicode.is_decimal c || one_of "$!%*#?&._-" c)

  unfoldable pub validate_id_format : String → Option String
  unfolding strip matches any_char first_line
  validate_id_format v =
      let stripped = strip v in
      accept
        (looks_ahead is_letter stripped
          && (looks_ahead unicode.is_decimal stripped && matches is_id_char 5 30 stripped))
        stripped

  abbrev pub is_password_char : Char → Bool
  is_password_char c = is_letter c || (unicode.is_decimal c || is_special c)

  unfoldable pub validate_password_format : String → Option String
  unfolding matches any_char first_line
  validate_password_format v =
      accept
        (looks_ahead is_letter v
          && (looks_ahead unicode.is_decimal v
              && (looks_ahead is_special v && matches is_password_char 8 30 v)))
        v

  abbrev pub is_name_char : Char → Bool
  is_name_char c = is_hangul c || (is_letter c || unicode.is_space c)

  unfoldable pub validate_name_format : String → Option String
  unfolding strip matches
  validate_name_format v =
      let stripped = strip v in accept (matches is_name_char 2 50 stripped) stripped

  unfoldable pub validate_title_format : String → Option String
  unfolding strip matches
  validate_title_format v =
      let stripped = strip v in accept (matches is_not_newline 2 200 stripped) stripped

  -- with `re.DOTALL`
  unfoldable pub validate_content_format : String → Option String
  unfolding strip matches
  validate_content_format v =
      let stripped = strip v in accept (matches any_character 30 2000 stripped) stripped
