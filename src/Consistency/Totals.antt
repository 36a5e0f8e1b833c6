-- ===== src/Consistency/Totals.antt =====
-- The totals of the boards under each kind of write.
use fast_api_community_backe.Common.{
  ℕ, ◌≡◌, ◌≢◌, refl, Bool, true, List, ◌==◌, arith, inl, inr, Bool-cases, update_where,
  delete_where, sum_where, All, sym, ap, ◌∙◌,
}
use fast_api_community_backe.Common.Table.Laws.{
  All-update, All-weaken, sum_where-update, sum_where-delete,
}
use fast_api_community_backe.Db.{DeletedBy, Board, File}
use fast_api_community_backe.Models.Boards.{
  at_index, live_file_of, size_of, mark_deleted, clear_deleted, set_total,
}
use fast_api_community_backe.Consistency.{TotalAgrees, AgreesBut}
use fast_api_community_backe.Consistency.Keys.{KeepsFileIndex}

-- Writing the files of one board leaves the sums of the others alone.
pub sum_of_others :
    (i j : ℕ) (q : File → Bool) (g : File → File) (files : List File)
    → KeepsFileIndex g
    → ((f : File) → q f ≡ true → f.board_index ≡ i)
    → j ≢ i
    → sum_where (live_file_of j) size_of (update_where q g files)
      ≡ sum_where (live_file_of j) size_of files
sum_of_others i j q g files k at ne =
    sum_where-update (live_file_of j) size_of q g files (λ f e. ground (arith, k f, at f e))

pub sum_of_others_deleted :
    (i j : ℕ) (q : File → Bool) (files : List File)
    → ((f : File) → q f ≡ true → f.board_index ≡ i)
    → j ≢ i
    → sum_where (live_file_of j) size_of (delete_where q files)
      ≡ sum_where (live_file_of j) size_of files
sum_of_others_deleted i j q files at ne =
    sum_where-delete (live_file_of j) size_of q files (λ f e. ground (arith, at f e))

module _ (boards : List Board) (i : ℕ) where
  -- from one table of files to another that differs on the board i alone
  pub AgreesBut-files :
      (files files' : List File)
      → ((j : ℕ)
          → j ≢ i
          → sum_where (live_file_of j) size_of files' ≡ sum_where (live_file_of j) size_of files)
      → All (TotalAgrees files) boards
      → All (AgreesBut i files') boards
  AgreesBut-files files files' same =
      All-weaken (TotalAgrees files) (AgreesBut i files') boards
        (λ b h ne live. h live ∙ sym (same b.index ne))

  -- `update_total_board_fsize` with the sum brings the board i into line.
  pub TotalAgrees-set_total :
      (files : List File) (now : ℕ)
      → All (AgreesBut i files) boards
      → All (TotalAgrees files) (
          update_where
            (at_index i)
            (set_total (sum_where (live_file_of i) size_of files) now)
            boards)
  TotalAgrees-set_total files now =
      All-update (AgreesBut i files) (TotalAgrees files) (at_index i)
        (set_total (sum_where (live_file_of i) size_of files) now) boards
        (λ b h. elim (Bool-cases (b.index == i)) [
          | inl e ↦ let at : b.index ≡ i = ground (arith, e) in rw e (λ live. rw at refl)
          | inr e ↦ rw e (h (ground (arith, e)))
        ])

  -- A deleted board has nothing to agree with.
  pub TotalAgrees-mark_deleted :
      (files : List File) (by : DeletedBy) (now : ℕ)
      → All (AgreesBut i files) boards
      → All (TotalAgrees files) (update_where (at_index i) (mark_deleted by now) boards)
  TotalAgrees-mark_deleted files by now =
      All-update (AgreesBut i files) (TotalAgrees files) (at_index i) (mark_deleted by now) boards
        (λ b h. elim (Bool-cases (b.index == i)) [
          | inl e ↦ rw e (λ live. cc)
          | inr e ↦ rw e (h (ground (arith, e)))
        ])

  -- Once restored, the board i has to be brought into line.
  pub AgreesBut-clear_deleted :
      (files : List File) (now : ℕ)
      → All (AgreesBut i files) boards
      → All (AgreesBut i files) (update_where (at_index i) (clear_deleted now) boards)
  AgreesBut-clear_deleted files now =
      All-update (AgreesBut i files) (AgreesBut i files) (at_index i) (clear_deleted now) boards
        (λ b h. elim (Bool-cases (b.index == i)) [
          | inl e ↦ let at : b.index ≡ i = ground (arith, e) in rw e (λ ne. absurd (ne at))
          | inr e ↦ rw e h
        ])

  pub AgreesBut-of_All :
      (files : List File) → All (TotalAgrees files) boards → All (AgreesBut i files) boards
  AgreesBut-of_All files = All-weaken (TotalAgrees files) (AgreesBut i files) boards (λ b h ne. h)

-- an UPDATE that leaves the index, the total and the mark of deletion alone
pub TotalAgrees-edit :
    (boards : List Board) (files : List File) (q : Board → Bool) (f : Board → Board)
    → ((b : Board)
        → ((f b).index ≡ b.index)
          × ((f b).total_file_size ≡ b.total_file_size)
          × ((f b).deleted_at ≡ b.deleted_at))
    → All (TotalAgrees files) boards
    → All (TotalAgrees files) (update_where q f boards)
TotalAgrees-edit boards files q f k =
    All-update (TotalAgrees files) (TotalAgrees files) q f boards (λ b h. elim (Bool-cases (q b)) [
      | inl e ↦ rw e (λ live.
          (k b).1
          ∙ h (rw (← (k b).2) live)
          ∙ ap (λ j. sum_where (live_file_of j) size_of files) (sym (k b).0))
      | inr e ↦ rw e h
    ])
