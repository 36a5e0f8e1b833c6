-- ===== src/Services/Boards/Popular.antt =====
-- app/services/boards.py: which boards are popular, and how long an answer stays the same.
use mathlib.Core.List.{Perm, Permᴰ}
use mathlib.Core.List.Permᴰ
use mathlib.Core.List.Perm
use mathlib.Core.Path.{subst}
use Prim.Native.Nat.{min}
use fast_api_community_backe.Common.{
  ℕ, suc, ◌+◌, ◌*◌, ◌<◌, ◌≤◌, Bool, false, not, ◌&&◌, ◌==◌, leb, is_none, All, ◌≡◌, refl, sym, ap,
  ◌∙◌, inl, inr, ◌⊎◌, true, Option, none, some, List, ◌∷◌, ◌++◌, arith, select, Bool-cases,
  Option-cases,
}
use fast_api_community_backe.Common.Lists.{length, take, drop, take-append-drop, length-take}
use fast_api_community_backe.Common.Order.{
  order_by, IsOrdered, order_by-Perm, order_by-IsOrdered, order_by-All, IsOrdered-append,
}
use fast_api_community_backe.Common.Order.Ties.{All-Perm}
use fast_api_community_backe.Common.Table.Selecting.{others, select-All, select-append-others}
use fast_api_community_backe.Common.Table.Laws.{All-weaken}
use fast_api_community_backe.Db.{Board, Category}
use fast_api_community_backe.Exec.{State, RedisValue, key_eq_self, ok, live_value, unexpired, ◌>>=◌}
use fast_api_community_backe.Models.Boards.Listing.{
  is_notice, in_period, may_be_popular, ranks_before, get_popular_top5_board, Arrangement,
}
use fast_api_community_backe.Services.Boards.Views.{
  PopularOption, period_days, popular_key, get_popular_board_services, popular_rows, cached_rows,
}
use fast_api_community_backe.Services.Boards.Listing.{is_empty}
use fast_api_community_backe.Consistency.{IsConsistent}

ranks_total : (a b : Board) → (ranks_before a b ≡ true) ⊎ (ranks_before b a ≡ true)
ranks_total a b = elim (Bool-cases (ranks_before a b)) [
  | inl t ↦ inl t
  | inr t ↦ inr (ground arith)
]

ranks_trans :
    (a b c : Board) → ranks_before a b ≡ true → ranks_before b c ≡ true → ranks_before a c ≡ true
ranks_trans a b c p q = ground arith

-- written at most so many days ago, at any time without a number of days
abbrev pub InPeriod : Option ℕ → ℕ → ℕ → Type 0
InPeriod none now reg_date = Unit
InPeriod (some n) now reg_date = now ≤ reg_date + n * 86400000000

-- live, no notice, and of the period
abbrev pub Candidate : Option ℕ → ℕ → Board → Type 0
Candidate days now b =
    (b.deleted_at ≡ none) × (b.category ≡ Category.general) × InPeriod days now b.reg_date

-- more views, or as many and a higher index (or the same)
abbrev pub Beats : Board → Board → Type 0
Beats a b = (b.view_count < a.view_count) ⊎ ((b.view_count ≡ a.view_count) × (b.index ≤ a.index))

-- The table is the list, other candidates that all of the list beat, and boards that are no
-- candidates; the list has five candidates, or all when there are fewer.
abbrev pub AreBest : Option ℕ → ℕ → List Board → List Board → Type 0
AreBest days now boards top =
    (behind rejected : List Board) × Perm ((top ++ behind) ++ rejected) boards
    × All (Candidate days now) (top ++ behind)
    × All (λ b. ¬ (Candidate days now b)) rejected
    × All (λ a. All (λ b. Beats a b) behind) top
    × (length top ≡ min 5 (length (top ++ behind)))

in_period_lem :
    (days : Option ℕ) (now t : ℕ)
    → (in_period days now t ≡ true → InPeriod days now t)
      × (in_period days now t ≡ false → ¬ (InPeriod days now t))
in_period_lem none now t = (λ e. tt, λ e. cc)
in_period_lem (some n) now t = (λ e. ground (arith, e), λ e h. absurd (ground (arith, e, h)))

candidate :
    (days : Option ℕ) (now t : ℕ) (o : Option ℕ) (c : Category)
    → is_none o && (not (is_notice c) && in_period days now t) ≡ true
    → (o ≡ none) × (c ≡ Category.general) × InPeriod days now t
candidate days now t none Category.general e = (refl, refl, (in_period_lem days now t).0 e)
candidate days now t none Category.notice e = cc
candidate days now t (some d) c e = cc

no_candidate :
    (days : Option ℕ) (now t : ℕ) (o : Option ℕ) (c : Category)
    → not (is_none o && (not (is_notice c) && in_period days now t)) ≡ true
    → ¬ ((o ≡ none) × (c ≡ Category.general) × InPeriod days now t)
no_candidate days now t none Category.general e (_, _, h) =
    (in_period_lem days now t).1 (ground (arith, e)) h
no_candidate days now t none Category.notice e (_, h, _) = absurd (cc)
no_candidate days now t (some d) c e (h, _, _) = absurd (cc)

beats : (a b : Board) → ranks_before a b ≡ true → Beats a b
beats a b e = elim (Bool-cases (a.view_count == b.view_count)) [
  | inl t ↦
      let higher : leb b.index a.index ≡ true = rw t at e in
      inr (ground (arith, t), ground (arith, higher))
  | inr t ↦
      let more : leb b.view_count a.view_count ≡ true = rw t at e in inl (ground (arith, t, more))
]

-- the five in the order of the ranking
ranked-AreBest :
    (days : Option ℕ) (s : State)
    → AreBest days s.now s.db.boards
        (take 5 (order_by ranks_before (select (may_be_popular days s.now) s.db.boards)))
ranked-AreBest days s =
    let p : Board → Bool = may_be_popular days s.now in
    let candidates : List Board = select p s.db.boards in
    let ranked : List Board = order_by ranks_before candidates in
    let whole : take 5 ranked ++ drop 5 ranked ≡ ranked = take-append-drop 5 ranked in
    let rejected : List Board = others p s.db.boards in
    let ordered : IsOrdered ranks_before (take 5 ranked ++ drop 5 ranked) =
      subst (IsOrdered ranks_before) (sym whole)
        (order_by-IsOrdered ranks_before ranks_total ranks_trans candidates) in
    (
      drop 5 ranked,
      rejected,
      subst (λ l. Perm (l ++ rejected) s.db.boards) (sym whole)
          (Perm.trans (Perm.append_right rejected (order_by-Perm ranks_before candidates))
            (select-append-others p s.db.boards)),
      subst (All (Candidate days s.now)) (sym whole) (
          order_by-All ranks_before (Candidate days s.now) candidates (
            select-All p (Candidate days s.now) s.db.boards
              (λ b e. candidate days s.now b.reg_date b.deleted_at b.category e))),
      select-All (λ b. not (p b)) (λ b. ¬ (Candidate days s.now b)) s.db.boards
          (λ b e. no_candidate days s.now b.reg_date b.deleted_at b.category e),
      All-weaken _ _ (take 5 ranked) (λ a h. All-weaken _ _ (drop 5 ranked) (λ b e. beats a b e) h)
          (IsOrdered-append ranks_before (take 5 ranked) (drop 5 ranked) ordered),
      length-take 5 ranked ∙ ap (λ l. min 5 (length l)) (sym whole),
    )

length-Perm : {l m : List Board} → Permᴰ l m → length l ≡ length m
length-Perm Permᴰ.nil = refl
length-Perm (Permᴰ.cons e p) = ap suc (length-Perm p)
length-Perm (Permᴰ.swap e f) = refl
length-Perm (Permᴰ.trans p q) = length-Perm p ∙ length-Perm q

arranged :
    (days : Option ℕ) (now : ℕ) (boards : List Board) {top top' : List Board}
    → Permᴰ top top'
    → AreBest days now boards top
    → AreBest days now boards top'
arranged days now boards {top} {top'} p (behind, rejected, table, eligible, other, best, five) =
    let with_behind : Permᴰ (top ++ behind) (top' ++ behind) = Permᴰ.append_right behind p in
    (
      behind,
      rejected,
      Perm.trans (∣ Permᴰ.append_right rejected (Permᴰ.symm with_behind) ∣₁) table,
      All-Perm (Candidate days now) with_behind eligible,
      other,
      All-Perm (λ a. All (λ b. Beats a b) behind) p best,
      sym (length-Perm p) ∙ (five ∙ ap (min 5) (length-Perm with_behind)),
    )

-- The popular boards are candidates, that is live, no notices and of the period; there are five of
-- them, or all candidates when there are fewer; and each has more views than any other candidate, or
-- as many and the higher index. The order in which they come is
-- left to the database.
pub get_popular_top5_board-best :
    (arrangement : Arrangement) (days : Option ℕ) (s : State)
    → AreBest days s.now s.db.boards (get_popular_top5_board arrangement days s.now s.db)
unfolding get_popular_top5_board
get_popular_top5_board-best arrangement days s =
    arranged days s.now s.db.boards
      (arrangement.of-Perm
        (take 5 (order_by ranks_before (select (may_be_popular days s.now) s.db.boards))))
      (ranked-AreBest days s)

-- An answer that is not taken from the cache is the popular five of this moment. In a later state,
-- less than 600 seconds on, in which the cached key is as the answer left it, the same boards are
-- given again, whatever became of the tables, and the state stays as it is.
pub get_popular_board-cached :
    (arrangement later_one : Arrangement) (option : PopularOption) (s t : State) (b : Board)
    (bs : List Board) (wait : ℕ)
    → live_value s.now (s.redis (popular_key option)) ≡ none
    → get_popular_top5_board arrangement (period_days option) s.now s.db ≡ b ∷ bs
    → t.redis (popular_key option)
      ≡ (get_popular_board_services arrangement option s).1.redis (popular_key option)
    → t.now ≡ s.now + wait
    → wait < 600000000
    → ((get_popular_board_services arrangement option s).0 ≡ ok (b ∷ bs))
      × (get_popular_board_services later_one option t ≡ (ok (b ∷ bs), t))
unfolding get_popular_board_services popular_rows ◌>>=◌
get_popular_board-cached arrangement later_one option s t b bs wait cold top same later short = (
  rw (cold, top) refl,
  let kept : t.redis (popular_key option)
          ≡ some (record { value = RedisValue.rows (b ∷ bs); expires = s.now + 600000000 }) =
        same ∙ rw (cold, top, key_eq_self (popular_key option)) refl in
      rw (kept, later, unexpired s.now wait 600000000 short) refl,
)

pub get_popular_board-IsConsistent :
    (arrangement : Arrangement) (option : PopularOption) (s : State)
    → IsConsistent s
    → IsConsistent (get_popular_board_services arrangement option s).1
unfolding get_popular_board_services popular_rows ◌>>=◌
get_popular_board-IsConsistent arrangement option s h =
    elim (Option-cases (cached_rows (live_value s.now (s.redis (popular_key option))))) [
      | inr (rows, e) ↦ rw e h
      | inl e ↦
          elim (Bool-cases
            (is_empty (get_popular_top5_board arrangement (period_days option) s.now s.db))) [
              | inl f ↦ rw (e, f) h
              | inr f ↦ rw (e, f) (record { keys = h.keys; totals = h.totals })
            ]
    ]
