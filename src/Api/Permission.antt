-- ===== src/Api/Permission.antt =====
-- What a request of a user has to fulfil before it changes anything.
pub mod Guards
use fast_api_community_backe.Common.{
  ℕ, ◌+◌, ◌*◌, ◌≤◌, ◌<◌, String, Bool, true, false, not, ◌&&◌, ◌==◌, ◌≡◌, ◌≢◌, refl, ◌⊎◌, inl, inr,
  Option, some, none, List, is_index, is_none, find_row, any_row, arith, sum_where, str_eq,
  and_right, Option-cases,
}
use fast_api_community_backe.Common.Table.Laws.{find_row-All, All-intro}
use fast_api_community_backe.Common.Table.Finding.{or_zero-sum_or_null}
use fast_api_community_backe.Db.{DeletedBy, is_by, User, Board, File}
use fast_api_community_backe.Exec.{Result, State, live_value, RedisKey}
use fast_api_community_backe.Exec.Rules.{
  by_guard, by_fetch, by_some, by_commit, by_commit_three, by_commit_total, by_commit_total_twice,
}
use fast_api_community_backe.Security.{Bcrypt, CurrentUser}
use fast_api_community_backe.Security.Rules.{by_password}
use fast_api_community_backe.Models.Users.{live_user_at}
use fast_api_community_backe.Models.Boards.{
  live_at, deleted_at_index, owner_of, size_of, within_days,
}
use fast_api_community_backe.Models.Files.{
  file_at, board_of, deleted_file_at, user_restorable, size_or_zero,
}
use fast_api_community_backe.Services.Boards.{
  period_over, title_modify_services, content_modify_services, boards_delete_services,
  restore_board_services,
}
use fast_api_community_backe.Services.Files.{
  Upload, is_allowed, delete_files_services, delete_all_services, restore_file_services,
  restore_all_file_services,
}
use fast_api_community_backe.Api.{
  UserRequest, logout, withdraw_user, update_my_id, update_my_password, update_my_email,
  register_boards, update_board_title, update_content, delete_board, restore_boards, upload_files,
  delete_single_file, delete_all_files, restore_file, restore_all_file,
}

-- the text is the password of the caller's row, which is not withdrawn
abbrev pub KnowsPassword : Bcrypt → String → CurrentUser → State → Type 0
KnowsPassword bcrypt password u s =
    (row : User) × (find_row (live_user_at u.index) s.db.users ≡ some row)
    × (row.index ≡ u.index)
    × (row.deleted_at ≡ none)
    × (bcrypt.checkpw password row.password ≡ some true)

-- the live board with this index is of this user
abbrev pub Owns : ℕ → CurrentUser → State → Type 0
Owns i u s =
    (b : Board) × (find_row (live_at i) s.db.boards ≡ some b)
    × (b.index ≡ i)
    × (b.deleted_at ≡ none)
    × (b.user_index ≡ u.index)

-- the first row of the file, on a board of the user that is not deleted
abbrev pub OwnsFile : ℕ → File → ℕ → CurrentUser → State → Type 0
OwnsFile j f i u s =
    (find_row (file_at j) s.db.files ≡ some f) × (f.index ≡ j) × (f.board_index ≡ i) × Owns i u s

-- the bytes of the live files of a board
abbrev pub live_total : ℕ → State → ℕ
live_total i s =
    sum_where (λ (f : File). f.board_index == i && is_none f.deleted_at) (λ f. f.file_size)
      s.db.files

-- the bytes of the files of a board that the user deleted at most 7 days ago
abbrev pub restorable_total : ℕ → State → ℕ
restorable_total i s =
    sum_where
      (λ (f : File).
        f.board_index == i
        && (is_by DeletedBy.user f.deleted_by && within_days 7 s.now f.deleted_at))
      (λ f. f.file_size) s.db.files

-- removed by the user himself, at most 7 days ago
abbrev pub OwnRemoval : ℕ → Option ℕ → Option DeletedBy → Type 0
OwnRemoval now deleted_at deleted_by =
    (d : ℕ) × (deleted_at ≡ some d)
    × (now ≤ d + 7 * 86400000000)
    × (deleted_by ≡ some DeletedBy.user)

-- the file is of an allowed type and fits the 5 MB and the 25 MB of the board
abbrev pub Fits : Upload → ℕ → State → Type 0
Fits file i s =
    (is_allowed file.content_type ≡ true)
    × (file.size ≤ 5242880)
    × (live_total i s + file.size ≤ 26214400)

abbrev pub Permits : Bcrypt → UserRequest → CurrentUser → State → Type 0
Permits bcrypt logout u s = Unit
Permits bcrypt (withdraw_user p) u s = KnowsPassword bcrypt p u s
Permits bcrypt (update_my_id p id) u s =
    KnowsPassword bcrypt p u s × (find_row (λ (v : User). str_eq v.id id) s.db.users ≡ none)
Permits bcrypt (update_my_password p _ _) u s = KnowsPassword bcrypt p u s
Permits bcrypt (update_my_email p email) u s =
    KnowsPassword bcrypt p u s × (live_value s.now (s.redis (RedisKey.email_verified email)) ≢ none)
Permits bcrypt (register_boards _ _) u s = Unit
Permits bcrypt (update_board_title i p _) u s = KnowsPassword bcrypt p u s × Owns i u s
Permits bcrypt (update_content i p _) u s = KnowsPassword bcrypt p u s × Owns i u s
Permits bcrypt (delete_board i p) u s = KnowsPassword bcrypt p u s × Owns i u s
Permits bcrypt (restore_boards i p) u s =
    KnowsPassword bcrypt p u s
    × ((b : Board) × (find_row (deleted_at_index i) s.db.boards ≡ some b)
        × (b.index ≡ i)
        × (b.user_index ≡ u.index)
        × OwnRemoval s.now b.deleted_at b.deleted_by)
Permits bcrypt (upload_files file i) u s = Owns i u s × Fits file i s
Permits bcrypt (delete_single_file j p) u s =
    KnowsPassword bcrypt p u s
    × ((f : File) × (i : ℕ) × OwnsFile j f i u s
        × (any_row (λ (g : File). g.index == j && (g.board_index == i && is_none g.deleted_at))
              s.db.files
            ≡ true))
Permits bcrypt (delete_all_files i p) u s = KnowsPassword bcrypt p u s × Owns i u s
Permits bcrypt (restore_file j p) u s =
    KnowsPassword bcrypt p u s
    × ((f : File) × (i : ℕ) × OwnsFile j f i u s
        × (f.file_size + live_total i s ≤ 26214400)
        × ((g : File) × (find_row (deleted_file_at j) s.db.files ≡ some g)
            × (g.index ≡ j)
            × OwnRemoval s.now g.deleted_at g.deleted_by))
Permits bcrypt (restore_all_file i p) u s =
    KnowsPassword bcrypt p u s
    × Owns i u s
    × (0 < restorable_total i s)
    × (live_total i s + restorable_total i s ≤ 26214400)

-- The state is as it was, or `P` holds of the one before.
abbrev pub UnchangedOr : Type 0 → State → Result (Unit {0}) × State → Type 0
UnchangedOr P s r = (r.1 ≡ s) ⊎ P

nothing : {A : Type 0} (o : Option A) → is_none o ≡ true → o ≡ none
nothing none e = refl
nothing (some a) e = cc

-- what a found row passes
pub passed :
    {A : Type 0} (p : A → Bool) (rows : List A) {x : A} → find_row p rows ≡ some x → p x ≡ true
passed p rows e = (find_row-All (λ _. Unit {0}) p rows (All-intro (λ _. Unit {0}) rows λ _. tt) e).0

pub owned :
    (i : ℕ) (u : CurrentUser) (s : State)
    → not (is_index (owner_of (find_row (live_at i) s.db.boards)) u.index) ≡ false
    → Owns i u s
owned i u s e = elim (Option-cases (find_row (live_at i) s.db.boards)) [
  | inl t ↦ let missing = rw t at e in cc
  | inr (b, t) ↦
      let here = passed (live_at i) s.db.boards t in
      let own : not (is_index (some b.user_index) u.index) ≡ false = rw t at e in
      (
        b,
        t,
        ground (arith, here),
        nothing b.deleted_at (and_right (b.index == i) (is_none b.deleted_at) here),
        ground (arith, own),
      )
]

pub owned_file :
    (j i : ℕ) (u : CurrentUser) (s : State)
    → board_of (find_row (file_at j) s.db.files) ≡ some i
    → Owns i u s
    → (f : File) × OwnsFile j f i u s
owned_file j i u s e own = elim (Option-cases (find_row (file_at j) s.db.files)) [
  | inl t ↦ let missing : none ≡ some i = rw t at e in cc
  | inr (f, t) ↦
      let here = passed (file_at j) s.db.files t in
      let board : some f.board_index ≡ some i = rw t at e in (f, (t, ground (arith, here), cc, own))
]

is_by_user : (o : Option DeletedBy) → not (is_by DeletedBy.user o) ≡ false → o ≡ some DeletedBy.user
is_by_user none e = cc
is_by_user (some DeletedBy.user) e = refl
is_by_user (some DeletedBy.user_cascade) e = cc
is_by_user (some DeletedBy.board_cascade) e = cc
is_by_user (some DeletedBy.admin_scheduled) e = cc
is_by_user (some DeletedBy.admin_retain) e = cc
is_by_user (some DeletedBy.admin_immediate) e = cc

pub own_removal :
    (now : ℕ) (deleted_at : Option ℕ) (deleted_by : Option DeletedBy)
    → not (is_none deleted_at) ≡ true
    → period_over 7 now deleted_at ≡ false
    → not (is_by DeletedBy.user deleted_by) ≡ false
    → OwnRemoval now deleted_at deleted_by
own_removal now none deleted_by h early own = cc
own_removal now (some d) deleted_by h early own =
    (d, refl, ground (arith, early), is_by_user deleted_by own)

module _ (bcrypt : Bcrypt) (password : String) (u : CurrentUser) (s : State) where
  pub known :
      (row : User)
      → find_row (live_user_at u.index) s.db.users ≡ some row
      → bcrypt.checkpw password row.password ≡ some true
      → KnowsPassword bcrypt password u s
  known row found checked =
      let here = passed (live_user_at u.index) s.db.users found in
      (
        row,
        found,
        ground (arith, here),
        nothing row.deleted_at (and_right (row.index == u.index) (is_none row.deleted_at) here),
        checked,
      )
