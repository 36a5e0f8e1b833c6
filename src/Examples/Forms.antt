-- ===== src/Examples/Forms.antt =====
-- The theorems on request bodies at concrete inputs.
use Prim.Native.Char.{Char, code}
use Prim.Native.String.{count}
use mathlib.Core.List.{Permᴰ}
use fast_api_community_backe.Common.{
  ◌≤◌, ◌≡◌, refl, Bool, true, ◌&&◌, ◌||◌, some, List, [], ◌∷◌, ◌==◌, leb, arith,
}
use fast_api_community_backe.Schemas.{
  Unicode, is_ascii_digit, validate_password_format, any_char, all_chars, first_line, matches,
  before_final_newline,
}
use fast_api_community_backe.Schemas.Forms.{user_login, user_register, create_board}
use fast_api_community_backe.Schemas.Accepted.{user_login-user_register, create_board-again}
use fast_api_community_backe.Schemas.Temporary.{IsTemporary, validate_password_format-IsTemporary}

-- the spaces and digits of ASCII
abbrev ascii_space : Char → Bool
ascii_space c = code c == 32 || (leb 9 (code c) && leb (code c) 13)

newline_in_ascii : (c : Char) → code c ≡ 10 → ascii_space c ≡ true
newline_in_ascii c h = ground arith

abbrev ascii : Unicode
ascii = record {
  is_space = ascii_space;
  is_decimal = is_ascii_digit;
  newline_is_space = newline_in_ascii;
  digit_is_decimal = λ c h. h;
}

user_login-user_register_example :
    user_login ascii "alice1" "pass1word!"
    ≡ some (record { id = "alice1"; password = "pass1word!" })
unfolding user_register all_chars
user_login-user_register_example =
    user_login-user_register ascii (λ e. some e) " alice1 " "pass1word!" "Alice" "a@b.c"
      (record { id = "alice1"; password = "pass1word!"; name = "Alice"; email = "a@b.c" }) refl

create_board-again_example :
    (create_board ascii "title" "thirty characters and some more"
      ≡ some ("title", "thirty characters and some more"))
    × ((2 ≤ count "title") × (count "title" ≤ 200))
    × ((30 ≤ count "thirty characters and some more")
        × (count "thirty characters and some more" ≤ 2000))
unfolding create_board all_chars
create_board-again_example =
    create_board-again ascii " title" "thirty characters and some more "
      ("title", "thirty characters and some more") refl

abbrev drawn_text : List Char
drawn_text = "!" ∷ "a" ∷ "1" ∷ "b" ∷ "c" ∷ "d" ∷ "e" ∷ "f" ∷ "g" ∷ []

abbrev drawn : IsTemporary drawn_text
unfolding any_char
drawn = record {
  letter = "a";
  digit = "1";
  special = "!";
  others = "b" ∷ "c" ∷ "d" ∷ "e" ∷ "f" ∷ "g" ∷ [];
  letter_drawn = refl;
  digit_drawn = refl;
  special_drawn = refl;
  others_drawn = (refl, (refl, (refl, (refl, (refl, (refl, tt))))));
  at_least = omega arith;
  at_most = omega arith;
  shuffled = Permᴰ.trans (Permᴰ.swap refl refl) (Permᴰ.cons refl (Permᴰ.swap refl refl));
}

validate_password_format-IsTemporary_example :
    validate_password_format ascii "!a1bcdefg" ≡ some "!a1bcdefg"
validate_password_format-IsTemporary_example =
    validate_password_format-IsTemporary ascii drawn_text drawn

-- `$` matches before a newline at the end
newline_accepted : validate_password_format ascii "pass1wd!\n" ≡ some "pass1wd!\n"
unfolding validate_password_format all_chars any_char first_line matches before_final_newline
newline_accepted = refl
