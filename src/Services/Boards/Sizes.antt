-- ===== src/Services/Boards/Sizes.antt =====
-- app/services/boards.py: the sizes that answers show.
use fast_api_community_backe.Common.{
  ℕ, ◌+◌, ◌*◌, ◌≤◌, ◌/◌, ◌%◌, arith, some, inl, inr, ltb, ◌==◌, ◌&&◌, ◌||◌, Bool-cases,
}
use fast_api_community_backe.Services.Boards.Listing.{convert_mb}

-- The size shown for n bytes is off by half a hundredth of a megabyte at most.
pub convert_mb-nearest :
    (n : ℕ)
    → (convert_mb (some n) * 1048576 ≤ n * 100 + 524288)
      × (n * 100 ≤ convert_mb (some n) * 1048576 + 524288)
unfolding convert_mb
convert_mb-nearest n =
    let below = n * 100 / 1048576 in
    let over = n * 100 % 1048576 in
    elim (Bool-cases (ltb 524288 over || (over == 524288 && below % 2 == 1))) [
      | inl t ↦ rw t (ground arith, ground arith)
      | inr t ↦ rw t (ground arith, ground arith)
    ]
