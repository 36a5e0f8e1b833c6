-- ===== src/Consistency.antt =====
-- The invariant of the tables boards and files. Its main part is that the column total_file_size of
-- every board that is not deleted is the sum of the sizes of its files that are not deleted.
pub mod Keys
pub mod Totals
pub mod Removal
pub mod Refresh
pub mod Owner
use fast_api_community_backe.Common.{ℕ, ◌<◌, ◌≡◌, ◌≢◌, true, List, [], ◌∷◌, is_none, sum_where, All}
use fast_api_community_backe.Db.{Board, File}
use fast_api_community_backe.Exec.{Result, State}
use fast_api_community_backe.Exec.Rules.{undo}
use fast_api_community_backe.Models.Boards.{live_file_of, size_of}

abbrev pub TotalAgrees : List File → Board → Type 0
TotalAgrees files b =
    is_none b.deleted_at ≡ true → b.total_file_size ≡ sum_where (live_file_of b.index) size_of files

abbrev pub BoardKeys : List Board → Type 0
BoardKeys [] = Unit
BoardKeys (b ∷ bs) = All (λ (c : Board). c.index ≢ b.index) bs × BoardKeys bs

abbrev pub FileKeys : List File → Type 0
FileKeys [] = Unit
FileKeys (f ∷ fs) = All (λ (g : File). g.index ≢ f.index) fs × FileKeys fs

-- No index occurs twice, each is below the next value of its identity column, and files name
-- boards that were once inserted.
pub record HasKeys (boards : List Board) (files : List File) (board_seq file_seq : ℕ) : Type 0 where
  pub board_keys : BoardKeys boards
  pub file_keys : FileKeys files
  pub boards_below : All (λ (b : Board). b.index < board_seq) boards
  pub files_below : All (λ (f : File). f.index < file_seq) files
  pub files_on_boards : All (λ (f : File). f.board_index < board_seq) files

pub record IsConsistent (s : State) : Type 0 where
  pub keys : HasKeys s.db.boards s.db.files s.board_seq s.file_seq
  pub totals : All (TotalAgrees s.db.files) s.db.boards

-- the invariant of the state that a call leaves
abbrev pub Kept : {B : Type 0} → Result B × State → Type 0
Kept r = IsConsistent r.1

-- the invariant of what is left when a call inside a transaction that began in `s` ends so
abbrev pub KeptIn : {B : Type 0} → State → Result B × State → Type 0
KeptIn s r = IsConsistent (undo s r).1

-- What holds between two writes: every board but one agrees.
abbrev pub AgreesBut : ℕ → List File → Board → Type 0
AgreesBut i files b = b.index ≢ i → TotalAgrees files b
