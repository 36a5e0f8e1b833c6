-- ===== src/Consistency/Removal.antt =====
-- The totals when boards or files are removed for good.
use fast_api_community_backe.Common.{
  ℕ, ◌<◌, ◌≡◌, ◌≢◌, refl, Bool, true, false, ◌==◌, List, [], ◌∷◌, ◌++◌, arith, inl, inr, sym, ap,
  ◌∙◌, Bool-cases, delete_where, select, find_row, All,
}
use fast_api_community_backe.Common.Table.Laws.{
  All-delete, All-delete_kept, All-weaken, All-append_one, All-both, sum_where-delete,
  sum_where-zero,
}
use fast_api_community_backe.Db.{Board, File}
use fast_api_community_backe.Models.Boards.{at_index, live_file_of, size_of, has_board}
use fast_api_community_backe.Models.Files.{file_is_due, file_of_board}
use fast_api_community_backe.Consistency.{TotalAgrees, BoardKeys}

-- No row of the selection has the index of `b`, if none of the table has.
not-has_board-select :
    (q : Board → Bool) (bs : List Board) (i : ℕ)
    → All (λ (c : Board). c.index ≢ i) bs
    → has_board (select q bs) i ≡ false
unfolding select find_row
not-has_board-select q [] i h = refl
not-has_board-select q (c ∷ bs) i h = elim (Bool-cases (q c)) [
  | inl e ↦ rw e (ground (arith, h.0, not-has_board-select q bs i h.1))
  | inr e ↦ rw e (not-has_board-select q bs i h.1)
]

abbrev NotGone : List Board → Board → Type 0
NotGone gone b = has_board gone b.index ≡ false

-- the same for one more row, whose index is another
has_board-cons :
    (c : Board) (gone : List Board) (i : ℕ)
    → i ≢ c.index
    → has_board gone i ≡ false
    → has_board (c ∷ gone) i ≡ false
unfolding find_row
has_board-cons c gone i ne h = ground (arith, ne, h)

-- The boards that stay have other indices than those that go.
pub kept-NotGone :
    (q : Board → Bool) (bs : List Board)
    → BoardKeys bs
    → All (NotGone (select q bs)) (delete_where q bs)
unfolding select delete_where
kept-NotGone q [] h = tt
kept-NotGone q (c ∷ bs) h = elim (Bool-cases (q c)) [
  | inl e ↦ rw e (
      All-weaken (λ b. (b.index ≢ c.index) × NotGone (select q bs) b) (NotGone (c ∷ select q bs))
        (delete_where q bs) (λ b p. has_board-cons c (select q bs) b.index p.0 p.1)
        (All-both (λ b. b.index ≢ c.index) (NotGone (select q bs)) (delete_where q bs)
          (All-delete (λ b. b.index ≢ c.index) q bs h.0) (kept-NotGone q bs h.1)))
  | inr e ↦ rw e (not-has_board-select q bs c.index h.0, kept-NotGone q bs h.1)
]

-- A file of a board that goes belongs to no board that stays.
not-live_of_gone :
    (gone : List Board) (b : Board) (f : File)
    → has_board gone b.index ≡ false
    → has_board gone f.board_index ≡ true
    → live_file_of b.index f ≡ false
not-live_of_gone gone b f stays goes = elim (Bool-cases (f.board_index == b.index)) [
  | inl t ↦
      let at : f.board_index ≡ b.index = ground (arith, t) in cc (ap (λ j. has_board gone j) at)
  | inr t ↦ rw t
]

-- A board that is removed takes its files along, and no file of another board.
pub TotalAgrees-delete_boards_but :
    (q : Board → Bool) (boards : List Board) (files : List File)
    → BoardKeys boards
    → All (λ b. q b ≡ false → TotalAgrees files b) boards
    → All
        (TotalAgrees (delete_where (λ (f : File). has_board (select q boards) f.board_index) files))
        (delete_where q boards)
TotalAgrees-delete_boards_but q boards files keys h =
    let gone = select q boards in
    let p = λ (f : File). has_board gone f.board_index in
    All-weaken (λ b. NotGone gone b × TotalAgrees files b) (TotalAgrees (delete_where p files))
      (delete_where q boards)
      (λ b k live.
        k.1 live
        ∙ sym (
            sum_where-delete (live_file_of b.index) size_of p files
              (λ f e. not-live_of_gone gone b f k.0 e)))
      (All-both (NotGone gone) (TotalAgrees files) (delete_where q boards)
        (kept-NotGone q boards keys) (All-delete_kept (TotalAgrees files) q boards h))

pub TotalAgrees-delete_boards :
    (q : Board → Bool) (boards : List Board) (files : List File)
    → BoardKeys boards
    → All (TotalAgrees files) boards
    → All
        (TotalAgrees (delete_where (λ (f : File). has_board (select q boards) f.board_index) files))
        (delete_where q boards)
TotalAgrees-delete_boards q boards files keys h =
    TotalAgrees-delete_boards_but q boards files keys (
      All-weaken (TotalAgrees files) (λ b. q b ≡ false → TotalAgrees files b) boards (λ b a _. a) h)

-- A board goes with its files: the files first, as the code does it.
pub TotalAgrees-hard_delete :
    (boards : List Board) (files : List File) (i : ℕ)
    → BoardKeys boards
    → All (TotalAgrees files) boards
    → let rest = delete_where (file_of_board i) files in
      All
        (TotalAgrees
          (delete_where (λ (f : File). has_board (select (at_index i) boards) f.board_index) rest))
        (delete_where (at_index i) boards)
TotalAgrees-hard_delete boards files i keys h =
    let rest = delete_where (file_of_board i) files in
    TotalAgrees-delete_boards_but (at_index i) boards rest keys (
      All-weaken (TotalAgrees files) (λ b. at_index i b ≡ false → TotalAgrees rest b) boards
        (λ b agrees other live.
          agrees live
          ∙ sym (
              sum_where-delete (live_file_of b.index) size_of (file_of_board i) files
                (λ f e. ground (arith, e, other))))
        h)

-- A file that is due is marked as deleted, so it counts for no total.
pub TotalAgrees-delete_files :
    (now : ℕ) (boards : List Board) (files : List File)
    → All (TotalAgrees files) boards
    → All (TotalAgrees (delete_where (file_is_due now) files)) boards
TotalAgrees-delete_files now boards files =
    All-weaken (TotalAgrees files) (TotalAgrees (delete_where (file_is_due now) files)) boards
      (λ b h live.
        h live
        ∙ sym (
            sum_where-delete (live_file_of b.index) size_of (file_is_due now) files
              (λ f e. ground (arith, e))))

-- A new board, with an index that no file has yet, agrees with its total of 0.
pub TotalAgrees-insert_board :
    (boards : List Board) (files : List File) (b : Board)
    → b.total_file_size ≡ 0
    → All (λ (f : File). f.board_index < b.index) files
    → All (TotalAgrees files) boards
    → All (TotalAgrees files) (boards ++ b ∷ [])
TotalAgrees-insert_board boards files b zero below h =
    All-append_one (TotalAgrees files) boards b h λ live.
      zero
      ∙ sym (
          sum_where-zero (live_file_of b.index) size_of files (
            All-weaken (λ f. f.board_index < b.index) (λ f. live_file_of b.index f ≡ false) files
              (λ f lt. ground arith) below))
