-- ===== src/Consistency/Keys.antt =====
-- The keys of boards and files under each kind of write.
use fast_api_community_backe.Common.{
  ℕ, ◌+◌, ◌<◌, ◌≡◌, ◌≢◌, Bool, List, [], ◌∷◌, ◌++◌, arith, inl, inr, if◌then◌else◌, Bool-cases,
  update_where, delete_where, All,
}
use fast_api_community_backe.Common.Table.Laws.{All-update, All-delete, All-weaken, All-append_one}
use fast_api_community_backe.Db.{Board, File}
use fast_api_community_backe.Consistency.{BoardKeys, FileKeys, HasKeys}

-- updates that leave the keys alone
abbrev pub KeepsIndex : (Board → Board) → Type 0
KeepsIndex f = (b : Board) → (f b).index ≡ b.index

abbrev pub KeepsFileIndex : (File → File) → Type 0
KeepsFileIndex g = (f : File) → ((g f).index ≡ f.index) × ((g f).board_index ≡ f.board_index)

BoardKeys-update :
    (q : Board → Bool) (f : Board → Board) (bs : List Board)
    → KeepsIndex f
    → BoardKeys bs
    → BoardKeys (update_where q f bs)
unfolding update_where
BoardKeys-update q f [] k h = tt
BoardKeys-update q f (b ∷ bs) k h = (
  All-update (λ c. c.index ≢ b.index) (λ c. c.index ≢ (if q b then f b else b).index) q f bs
      (λ c ne. ground (arith, k c, k b)) h.0,
  BoardKeys-update q f bs k h.1,
)

FileKeys-update :
    (q : File → Bool) (f : File → File) (fs : List File)
    → KeepsFileIndex f
    → FileKeys fs
    → FileKeys (update_where q f fs)
unfolding update_where
FileKeys-update q f [] k h = tt
FileKeys-update q f (b ∷ bs) k h = (
  All-update (λ c. c.index ≢ b.index) (λ c. c.index ≢ (if q b then f b else b).index) q f bs
      (λ c ne. ground (arith, k c, k b)) h.0,
  FileKeys-update q f bs k h.1,
)

BoardKeys-delete :
    (q : Board → Bool) (bs : List Board) → BoardKeys bs → BoardKeys (delete_where q bs)
unfolding delete_where
BoardKeys-delete q [] h = tt
BoardKeys-delete q (b ∷ bs) h = elim (Bool-cases (q b)) [
  | inl e ↦ rw e (BoardKeys-delete q bs h.1)
  | inr e ↦ rw e (All-delete (λ c. c.index ≢ b.index) q bs h.0, BoardKeys-delete q bs h.1)
]

FileKeys-delete : (q : File → Bool) (fs : List File) → FileKeys fs → FileKeys (delete_where q fs)
unfolding delete_where
FileKeys-delete q [] h = tt
FileKeys-delete q (b ∷ bs) h = elim (Bool-cases (q b)) [
  | inl e ↦ rw e (FileKeys-delete q bs h.1)
  | inr e ↦ rw e (All-delete (λ c. c.index ≢ b.index) q bs h.0, FileKeys-delete q bs h.1)
]

BoardKeys-append :
    (bs : List Board) (b : Board)
    → BoardKeys bs
    → All (λ (c : Board). c.index < b.index) bs
    → BoardKeys (bs ++ b ∷ [])
BoardKeys-append [] b h k = (tt, tt)
BoardKeys-append (c ∷ bs) b h k =
    (All-append_one (λ d. d.index ≢ c.index) bs b h.0 (omega arith), BoardKeys-append bs b h.1 k.1)

FileKeys-append :
    (fs : List File) (f : File)
    → FileKeys fs
    → All (λ (g : File). g.index < f.index) fs
    → FileKeys (fs ++ f ∷ [])
FileKeys-append [] f h k = (tt, tt)
FileKeys-append (g ∷ fs) f h k =
    (All-append_one (λ d. d.index ≢ g.index) fs f h.0 (omega arith), FileKeys-append fs f h.1 k.1)

module _ (boards : List Board) (files : List File) (m n : ℕ) where
  pub HasKeys-update_boards :
      (q : Board → Bool) (f : Board → Board)
      → KeepsIndex f
      → HasKeys boards files m n
      → HasKeys (update_where q f boards) files m n
  HasKeys-update_boards q f k h = record {
    board_keys = BoardKeys-update q f boards k h.board_keys;
    file_keys = h.file_keys;
    boards_below =
        All-update (λ b. b.index < m) (λ b. b.index < m) q f boards (λ b lt. ground (arith, k b))
          h.boards_below;
    files_below = h.files_below;
    files_on_boards = h.files_on_boards;
  }

  pub HasKeys-update_files :
      (q : File → Bool) (f : File → File)
      → KeepsFileIndex f
      → HasKeys boards files m n
      → HasKeys boards (update_where q f files) m n
  HasKeys-update_files q f k h = record {
    board_keys = h.board_keys;
    file_keys = FileKeys-update q f files k h.file_keys;
    boards_below = h.boards_below;
    files_below =
        All-update (λ b. b.index < n) (λ b. b.index < n) q f files (λ b lt. ground (arith, k b))
          h.files_below;
    files_on_boards =
        All-update (λ b. b.board_index < m) (λ b. b.board_index < m) q f files
          (λ b lt. ground (arith, k b)) h.files_on_boards;
  }

  pub HasKeys-delete_files :
      (q : File → Bool) → HasKeys boards files m n → HasKeys boards (delete_where q files) m n
  HasKeys-delete_files q h = record {
    board_keys = h.board_keys;
    file_keys = FileKeys-delete q files h.file_keys;
    boards_below = h.boards_below;
    files_below = All-delete (λ f. f.index < n) q files h.files_below;
    files_on_boards = All-delete (λ f. f.board_index < m) q files h.files_on_boards;
  }

  pub HasKeys-delete_boards :
      (q : Board → Bool) → HasKeys boards files m n → HasKeys (delete_where q boards) files m n
  HasKeys-delete_boards q h = record {
    board_keys = BoardKeys-delete q boards h.board_keys;
    file_keys = h.file_keys;
    boards_below = All-delete (λ b. b.index < m) q boards h.boards_below;
    files_below = h.files_below;
    files_on_boards = h.files_on_boards;
  }

  -- an INSERT with the next value of the identity column
  pub HasKeys-insert_board :
      (b : Board)
      → b.index ≡ m
      → HasKeys boards files m n
      → HasKeys (boards ++ b ∷ []) files (m + 1) n
  HasKeys-insert_board b e h = record {
    board_keys = BoardKeys-append boards b h.board_keys (
        All-weaken (λ c. c.index < m) (λ c. c.index < b.index) boards (λ c lt. omega arith)
          h.boards_below);
    file_keys = h.file_keys;
    boards_below =
        All-append_one (λ c. c.index < m + 1) boards b
          (All-weaken (λ c. c.index < m) (λ c. c.index < m + 1) boards (λ c lt. omega arith)
            h.boards_below)
          (omega arith);
    files_below = h.files_below;
    files_on_boards =
        All-weaken (λ f. f.board_index < m) (λ f. f.board_index < m + 1) files (λ f lt. omega arith)
          h.files_on_boards;
  }

  pub HasKeys-insert_file :
      (f : File)
      → f.index ≡ n
      → f.board_index < m
      → HasKeys boards files m n
      → HasKeys boards (files ++ f ∷ []) m (n + 1)
  HasKeys-insert_file f e lt h = record {
    board_keys = h.board_keys;
    file_keys = FileKeys-append files f h.file_keys (
        All-weaken (λ g. g.index < n) (λ g. g.index < f.index) files (λ g l. omega arith)
          h.files_below);
    boards_below = h.boards_below;
    files_below =
        All-append_one (λ g. g.index < n + 1) files f
          (All-weaken (λ g. g.index < n) (λ g. g.index < n + 1) files (λ g l. omega arith)
            h.files_below)
          (omega arith);
    files_on_boards = All-append_one (λ g. g.board_index < m) files f h.files_on_boards lt;
  }
