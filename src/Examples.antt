-- ===== src/Examples.antt =====
-- A small database and stand-ins for the libraries, on which the theorems are tried.
pub mod Witnesses
pub mod Listings
pub mod Forms
pub mod Requests
use Prim.Native.String
use Prim.Native.Char.{code}
use mathlib.Core.Path.{ap₂}
use mathlib.Core.List.Permᴰ
use text.Mathlib.TextEquality.{Char-path}
use fast_api_community_backe.Models.Boards.Listing.{Collation, Search, Arrangement}
use fast_api_community_backe.Common.{
  ◌⊎◌, inl, inr, Bool-cases, ltb, if◌then◌else◌, zero, suc, ap, sum_where, ℕ, ◌+◌, ◌≤◌, String,
  Bool, true, false, Option, none, some, List, [], ◌∷◌, ◌≡◌, refl, str_eq, str_eq_self, arith, ◌==◌,
  leb,
}
use fast_api_community_backe.Db.{DeletedBy, Role, Status, Category, User, Board, File, Db}
use fast_api_community_backe.Exec.{State, Entry, RedisKey, RedisValue}
use fast_api_community_backe.Security.{Bcrypt, Tokens, Decoded, CurrentUser, payload, jwt_error}
use fast_api_community_backe.Models.Users.{IdText}
use fast_api_community_backe.Consistency.{IsConsistent}

-- a hash that is the password itself
abbrev pub plain : Bcrypt
plain = record {
  checkpw = λ password hash. some (str_eq password hash);
  hashpw = λ password salt. password;
  checkpw-hashpw = λ password salt. ap some (str_eq_self password);
}

-- numbers in unary
abbrev unary : ℕ → String
unary zero = ""
unary (suc n) = String.◌∷◌ "x" (unary n)

abbrev read_unary : String → ℕ
read_unary String.[] = 0
read_unary (String.◌∷◌ c s) = 1 + read_unary s

pub read_unary-unary : (n : ℕ) → read_unary (unary n) ≡ n
read_unary-unary zero = refl
read_unary-unary (suc n) = omega (arith, read_unary-unary n)

-- tokens that are their subject and do not expire
abbrev pub bare : Tokens
bare = record {
  encode = λ sub exp. sub;
  decode = λ token now. payload (some token);
  sha256 = λ token. token;
  str = unary;
  int = λ text. some (read_unary text);
  decode-encode = λ sub exp now h. refl;
  int-str = λ n. ap some (read_unary-unary n);
}

-- no account is a dummy, and a dummy gets the empty id
abbrev pub texts : IdText
texts = record { dummy_id = λ index now. ""; is_dummy = λ id. false }

abbrev pub alice : User
alice = record {
  index = 1;
  id = "alice";
  password = "pw";
  name = "Alice";
  email = "alice@example.org";
  is_verified = some true;
  role = Role.user;
  status = Status.active;
  ban_count = 0;
  ban_end_at = none;
  reg_date = 0;
  update_date = 0;
  deleted_at = none;
  deleted_by = none;
}

abbrev pub post : Board
post = record {
  index = 1;
  title = "title";
  content = "content";
  category = Category.general;
  reg_date = 0;
  update_date = 0;
  user_index = 1;
  total_file_size = 10;
  view_count = 0;
  deleted_at = none;
  deleted_by = none;
}

abbrev pub note : File
note = record {
  index = 1;
  original_name = "note.txt";
  stored_name = "a.txt";
  file_path = "uploads/a.txt";
  file_size = 10;
  reg_date = 0;
  board_index = 1;
  deleted_at = none;
  deleted_by = none;
}

abbrev pub caller : CurrentUser
caller = record { index = 1; id = "alice"; role = Role.user }

abbrev pub start : State
start = record {
  db = record {
    users = alice ∷ [];
    boards = post ∷ [];
    files = note ∷ [];
    boards_view = [];
    audit_logs = [];
  };
  user_seq = 2;
  board_seq = 2;
  file_seq = 2;
  redis = λ k. none;
  disk = "uploads/a.txt" ∷ [];
  outbox = [];
  now = 1000;
}

pub start-IsConsistent : IsConsistent start
unfolding sum_where
start-IsConsistent = record {
  keys = record {
    board_keys = (tt, tt);
    file_keys = (tt, tt);
    boards_below = (omega arith, tt);
    files_below = (omega arith, tt);
    files_on_boards = (omega arith, tt);
  };
  totals = (λ live. refl, tt);
}

-- a collation: the texts by the codes of their characters
abbrev pub text_le : String → String → Bool
text_le String.[] t = true
text_le (String.◌∷◌ c s) String.[] = false
text_le (String.◌∷◌ c s) (String.◌∷◌ d t) =
    let rest = text_le s t in if code c == code d then rest else ltb (code c) (code d)

pub text_le_total : (a b : String) → (text_le a b ≡ true) ⊎ (text_le b a ≡ true)
text_le_total String.[] b = inl refl
text_le_total (String.◌∷◌ c s) String.[] = inr refl
text_le_total (String.◌∷◌ c s) (String.◌∷◌ d t) = elim (Bool-cases (code c == code d)) [
  | inl e ↦ let e' : code d == code c ≡ true = ground arith in rw (e, e') (text_le_total s t)
  | inr e ↦
      let e' : code d == code c ≡ false = ground arith in
      rw (e, e')
        (elim (Bool-cases (ltb (code c) (code d))) [ inl l ↦ inl l | inr l ↦ inr (ground arith) ])
]

pub text_le_trans : (a b c : String) → text_le a b ≡ true → text_le b c ≡ true → text_le a c ≡ true
text_le_trans String.[] b c p q = refl
text_le_trans (String.◌∷◌ c s) String.[] u p q = cc
text_le_trans (String.◌∷◌ c s) (String.◌∷◌ d t) String.[] p q = cc
text_le_trans (String.◌∷◌ c s) (String.◌∷◌ d t) (String.◌∷◌ e u) p q =
    elim (Bool-cases (code c == code d)) [
      | inl m ↦ elim (Bool-cases (code d == code e)) [
        | inl n ↦
            let o : code c == code e ≡ true = ground arith in
            rw o (text_le_trans s t u (rw m at p) (rw n at q))
        | inr n ↦
            let o : code c == code e ≡ false = ground arith in
            let below = (rw n at q) in rw o (ground arith)
      ]
      | inr m ↦
          let above = (rw m at p) in
          elim (Bool-cases (code d == code e)) [
            | inl n ↦ let o : code c == code e ≡ false = ground arith in rw o (ground arith)
            | inr n ↦
                let below = (rw n at q) in
                let o : code c == code e ≡ false = ground arith in rw o (ground arith)
          ]
    ]

pub text_le_antisymm : (a b : String) → text_le a b ≡ true → text_le b a ≡ true → a ≡ b
text_le_antisymm String.[] String.[] p q = refl
text_le_antisymm String.[] (String.◌∷◌ d t) p q = cc
text_le_antisymm (String.◌∷◌ c s) String.[] p q = cc
text_le_antisymm (String.◌∷◌ c s) (String.◌∷◌ d t) p q = elim (Bool-cases (code c == code d)) [
  | inl m ↦
      let n : code d == code c ≡ true = ground arith in
      ap₂ String.◌∷◌ (Char-path c d (ground arith)) (text_le_antisymm s t (rw m at p) (rw n at q))
  | inr m ↦
      let n : code d == code c ≡ false = ground arith in
      let below = (rw m at p) in let above = (rw n at q) in absurd (ground arith)
]

abbrev pub any_order : Collation
any_order = record {
  le = text_le;
  total = text_le_total;
  trans = text_le_trans;
  antisymm = text_le_antisymm;
}

-- ILIKE that matches all, on a database that meets the rows as they stand
abbrev pub all_match : Search
all_match = record {
  ilike = λ a b. true;
  meets = λ limit offset rows. rows;
  meets-Perm = λ limit offset rows. Permᴰ.refl rows;
}

-- a database that gives the popular boards as they are ranked
abbrev pub ranked : Arrangement
ranked = record { of = λ rows. rows; of-Perm = λ rows. Permᴰ.refl rows }
