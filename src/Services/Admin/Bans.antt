-- ===== src/Services/Admin/Bans.antt =====
-- The ladder of bans: 1, 3 and 5 days, then the withdrawal of the user.
use fast_api_community_backe.Common.{
  ◌+◌, ◌*◌, zero, suc, List, update_where, ◌∙◌, ◌&&◌, ap, ℕ, ◌≡◌, refl, true, false, some, none,
  find_row, arith, ◌==◌, ltb, is_none, Bool-cases, inl, inr, if◌then◌else◌,
}
use fast_api_community_backe.Common.Table.Laws.{find_row-All, All-intro}
use fast_api_community_backe.Common.Table.Finding.{find_row-update}
use fast_api_community_backe.Db.{DeletedBy, User, Status}
use fast_api_community_backe.Exec.{State, ok, ◌>>=◌}
use fast_api_community_backe.Security.{CurrentUser}
use fast_api_community_backe.Models.Users.{user_at, live_user_at, withdraw}
use fast_api_community_backe.Models.Admin.{banned, banned_four_times}
use fast_api_community_backe.Services.Admin.{ban_days, admin_user_ban_services}

-- the days of a ban, by the number of bans before it
abbrev pub ladder : ℕ → ℕ
ladder zero = 1
ladder (suc zero) = 3
ladder (suc (suc _)) = 5

ban_days-ladder : (n : ℕ) → ban_days n ≡ ladder n
ban_days-ladder zero = refl
ban_days-ladder (suc zero) = refl
ban_days-ladder (suc (suc n)) = ground arith

-- what the ladder makes of a row
abbrev pub ban_row : ℕ → User → User
ban_row now u =
    if ltb u.ban_count 3
    then record u {
      status = Status.banned;
      ban_count = u.ban_count + 1;
      ban_end_at = some (now + ladder u.ban_count * 86400000000);
      update_date = now;
    }
    else if u.ban_count == 3
    then record u {
      status = Status.withdrawn;
      ban_count = 4;
      ban_end_at = none;
      update_date = now;
      deleted_at = if is_none u.deleted_at then some now else u.deleted_at;
      deleted_by = if is_none u.deleted_at then some DeletedBy.admin_scheduled else u.deleted_by;
    }
    else u

module _ (i : ℕ) (admin : CurrentUser) (s : State) (u : User) where
  updated :
      (f : User → User)
      → ((v : User) → user_at i (f v) ≡ user_at i v)
      → (users : List User) {v : User} → user_at i v ≡ true
      → find_row (user_at i) users ≡ some v
      → find_row (user_at i) (update_where (user_at i) f users) ≡ some (f v)
  updated f k users {v} at e =
      find_row-update (user_at i) (user_at i) f users k e ∙ ap (λ b. some (if b then f v else v)) at

  withdrawn :
      user_at i u ≡ true
      → find_row (user_at i) s.db.users ≡ some u
      → find_row (user_at i) (
          update_where
            (user_at i)
            (banned_four_times s.now)
            (update_where (live_user_at i) (withdraw DeletedBy.admin_scheduled s.now) s.db.users))
        ≡ some (
            banned_four_times s.now
              (if is_none u.deleted_at then withdraw DeletedBy.admin_scheduled s.now u else u))
  withdrawn at e =
      let live : live_user_at i u ≡ is_none u.deleted_at = ap (λ b. b && is_none u.deleted_at) at in
      let first =
        find_row-update (user_at i) (live_user_at i) (withdraw DeletedBy.admin_scheduled s.now)
          s.db.users (λ v. refl) e in
      let kept : user_at i
            (if live_user_at i u then withdraw DeletedBy.admin_scheduled s.now u else u)
          ≡ true =
        elim (Bool-cases (live_user_at i u)) [ inl t ↦ rw t at | inr t ↦ rw t at ] in
      updated (banned_four_times s.now) (λ v. refl) _ kept first
      ∙ ap
          (λ b.
            some (
              banned_four_times s.now
                (if b then withdraw DeletedBy.admin_scheduled s.now u else u)))
          live

  -- the withdrawal of a row and the fourth ban of it, in the columns that they set
  fourth :
      banned_four_times s.now
        (if is_none u.deleted_at then withdraw DeletedBy.admin_scheduled s.now u else u)
      ≡ record u {
        status = Status.withdrawn;
        ban_count = 4;
        ban_end_at = none;
        update_date = s.now;
        deleted_at = if is_none u.deleted_at then some s.now else u.deleted_at;
        deleted_by = if is_none u.deleted_at then some DeletedBy.admin_scheduled else u.deleted_by;
      }
  fourth = elim (Bool-cases (is_none u.deleted_at)) [ inl t ↦ rw t refl | inr t ↦ rw t refl ]

  -- A ban of a user whose row exists moves the row one step up the ladder: below three bans it is
  -- banned, for 1, 3 or 5 days, and counted; the fourth withdraws a row that is not withdrawn yet,
  -- for the scheduled deletion; after it the answer is a failure and the row stays.
  pub admin_user_ban-ban_row :
      find_row (user_at i) s.db.users ≡ some u
      → let (r, t) = admin_user_ban_services i admin s in
        (r ≡ ok (ltb u.ban_count 4)) × (find_row (user_at i) t.db.users ≡ some (ban_row s.now u))
  unfolding admin_user_ban_services ◌>>=◌
  admin_user_ban-ban_row e =
      let at : (u.index == i) ≡ true =
        (find_row-All (λ _. Unit {0}) (user_at i) s.db.users
          (All-intro (λ _. Unit {0}) s.db.users λ _. tt) e).0 in
      elim (Bool-cases (u.ban_count == 3)) [
        | inl third ↦
            let low : ltb u.ban_count 4 ≡ true = ground (arith, third) in
            let high : ltb u.ban_count 3 ≡ false = ground (arith, third) in
            rw (e, third, low, high) (refl, withdrawn at e ∙ ap some fourth)
        | inr other ↦ elim (Bool-cases (ltb 3 u.ban_count)) [
          | inl more ↦
              let low : ltb u.ban_count 4 ≡ false = ground (arith, more) in
              let high : ltb u.ban_count 3 ≡ false = ground (arith, more) in
              rw (e, other, more, low, high) (refl, e)
          | inr fewer ↦
              let low : ltb u.ban_count 4 ≡ true = ground (arith, fewer) in
              let high : ltb u.ban_count 3 ≡ true = ground (arith, fewer, other) in
              rw (e, other, fewer, low, high)
                (
                  refl,
                  updated (banned (ban_days u.ban_count) s.now) (λ v. refl) s.db.users at e
                      ∙ ap (λ d. some (banned d s.now u)) (ban_days-ladder u.ban_count),
                )
        ]
      ]
