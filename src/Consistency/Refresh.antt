-- ===== src/Consistency/Refresh.antt =====
-- The totals when files of one board are written and its total is brought up to date.
use fast_api_community_backe.Common.{
  ℕ, ◌≡◌, ◌≢◌, refl, Bool, true, false, ◌==◌, some, List, [], ◌∷◌, ◌++◌, arith, inl, inr,
  Bool-cases, update_where, delete_where, find_row, sum_where, All,
}
use fast_api_community_backe.Common.Table.Laws.{
  All-weaken, All-update, All-intro, sum_where-update_in, sum_where-delete_in, sum_where-zero,
  sum_where-append_one,
}
use fast_api_community_backe.Db.{DeletedBy, Board, File}
use fast_api_community_backe.Models.Boards.{at_index, live_file_of, size_of, set_total}
use fast_api_community_backe.Models.Files.{file_at, board_of, mark_file}
use fast_api_community_backe.Consistency.{TotalAgrees, FileKeys}
use fast_api_community_backe.Consistency.Keys.{KeepsFileIndex}
use fast_api_community_backe.Consistency.Totals.{TotalAgrees-set_total, AgreesBut-files}

-- The files that `q` takes, among those of the table, are files of the board i.
abbrev pub OnBoard : ℕ → (File → Bool) → File → Type 0
OnBoard i q f = q f ≡ true → f.board_index ≡ i

module _ (boards : List Board) (files : List File) (i now : ℕ) where
  updated-totals :
      (q : File → Bool) (g : File → File)
      → KeepsFileIndex g
      → All (OnBoard i q) files
      → All (TotalAgrees files) boards
      → let files' = update_where q g files in
        All (TotalAgrees files') (
          update_where
            (at_index i)
            (set_total (sum_where (live_file_of i) size_of files') now)
            boards)
  updated-totals q g keeps at h =
      let files' = update_where q g files in
      TotalAgrees-set_total boards i files' now (
        AgreesBut-files boards i files files'
          (λ j ne.
            sum_where-update_in (live_file_of j) size_of q g files
              (All-weaken (OnBoard i q) _ files (λ f on e. ground (arith, keeps f, on e)) at))
          h)

  pub refreshed-totals :
      (q : File → Bool) (g : File → File)
      → KeepsFileIndex g
      → ((f : File) → q f ≡ true → f.board_index ≡ i)
      → All (TotalAgrees files) boards
      → let files' = update_where q g files in
        All (TotalAgrees files') (
          update_where
            (at_index i)
            (set_total (sum_where (live_file_of i) size_of files') now)
            boards)
  refreshed-totals q g keeps at = updated-totals q g keeps (All-intro (OnBoard i q) files at)

  removed-totals :
      (q : File → Bool)
      → All (OnBoard i q) files
      → All (TotalAgrees files) boards
      → let files' = delete_where q files in
        All (TotalAgrees files') (
          update_where
            (at_index i)
            (set_total (sum_where (live_file_of i) size_of files') now)
            boards)
  removed-totals q at h =
      let files' = delete_where q files in
      TotalAgrees-set_total boards i files' now (
        AgreesBut-files boards i files files'
          (λ j ne.
            sum_where-delete_in (live_file_of j) size_of q files
              (All-weaken (OnBoard i q) _ files (λ f on e. ground (arith, on e)) at))
          h)

-- An index is found on one board only.
file-OnBoard :
    (files : List File) (i j : ℕ)
    → FileKeys files
    → board_of (find_row (file_at j) files) ≡ some i
    → All (OnBoard i (file_at j)) files
unfolding find_row
file-OnBoard [] i j keys e = tt
file-OnBoard (f ∷ fs) i j keys e = elim (Bool-cases (f.index == j)) [
  | inl t ↦ (
    λ _. ground (arith, rw t at e),
    All-weaken (λ g. g.index ≢ f.index) (OnBoard i (file_at j)) fs
        (λ g ne t'. ground (arith, t, ne)) keys.0,
  )
  | inr t ↦ (λ t'. cc, file-OnBoard fs i j keys.1 (rw t at e))
]

module _ (boards : List Board) (files : List File) (i j now : ℕ) where
  pub refreshed_file-totals :
      (g : File → File)
      → KeepsFileIndex g
      → FileKeys files
      → board_of (find_row (file_at j) files) ≡ some i
      → All (TotalAgrees files) boards
      → let files' = update_where (file_at j) g files in
        All (TotalAgrees files') (
          update_where
            (at_index i)
            (set_total (sum_where (live_file_of i) size_of files') now)
            boards)
  refreshed_file-totals g keeps keys at =
      updated-totals boards files i now (file_at j) g keeps (file-OnBoard files i j keys at)

  pub removed_file-totals :
      FileKeys files
      → board_of (find_row (file_at j) files) ≡ some i
      → All (TotalAgrees files) boards
      → let files' = delete_where (file_at j) files in
        All (TotalAgrees files') (
          update_where
            (at_index i)
            (set_total (sum_where (live_file_of i) size_of files') now)
            boards)
  removed_file-totals keys at =
      removed-totals boards files i now (file_at j) (file-OnBoard files i j keys at)

-- When all live files of a board are marked, none is left to count.
pub sum_of_marked :
    (files : List File) (i now : ℕ) (by : DeletedBy)
    → sum_where (live_file_of i) size_of (update_where (live_file_of i) (mark_file by now) files)
      ≡ 0
sum_of_marked files i now by = sum_where-zero (live_file_of i) size_of _ (
    All-update (λ f. Unit {0}) (λ f. live_file_of i f ≡ false) (live_file_of i) (mark_file by now)
      files (λ f _. ground arith) (All-intro (λ f. Unit {0}) files (λ f. tt)))

pub emptied-totals :
    (boards : List Board) (files : List File) (i now : ℕ) (by : DeletedBy)
    → All (TotalAgrees files) boards
    → All
        (TotalAgrees (update_where (live_file_of i) (mark_file by now) files))
        (update_where (at_index i) (set_total 0 now) boards)
emptied-totals boards files i now by h = rw (← sum_of_marked files i now by) (
    refreshed-totals boards files i now (live_file_of i) (mark_file by now) (λ f. (refl, refl))
      (λ f e. ground (arith, e)) h)

-- A new file counts for its own board only.
pub uploaded-totals :
    (boards : List Board) (files : List File) (i now : ℕ) (f : File)
    → f.board_index ≡ i
    → All (TotalAgrees files) boards
    → let files' = files ++ f ∷ [] in
      All (TotalAgrees files') (
        update_where
          (at_index i)
          (set_total (sum_where (live_file_of i) size_of files') now)
          boards)
uploaded-totals boards files i now f at h =
    let files' = files ++ f ∷ [] in
    TotalAgrees-set_total boards i files' now (
      AgreesBut-files boards i files files'
        (λ j ne. ground (arith, sum_where-append_one (live_file_of j) size_of files f, at, ne)) h)
