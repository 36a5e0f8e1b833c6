-- ===== src/Services/Admin/Consistent.antt =====
-- What the administrator restores keeps the invariant of the tables, and so does a notice.
use fast_api_community_backe.Common.{inl, inr, Bool-cases, ◌==◌, ltb, ℕ, String, refl, arith}
use fast_api_community_backe.Exec.{State, ◌>>=◌}
use fast_api_community_backe.Exec.Rules.{
  by_transaction, by_execute, by_pure, by_commit, by_guard, by_fetch, by_some, by_commit_four,
  by_commit_total, by_commit_total_twice,
}
use fast_api_community_backe.Security.{CurrentUser}
use fast_api_community_backe.Consistency.{KeptIn, IsConsistent, Kept}
use fast_api_community_backe.Consistency.Keys.{
  HasKeys-update_boards, HasKeys-update_files, HasKeys-insert_board,
}
use fast_api_community_backe.Consistency.Owner.{reinstated-totals}
use fast_api_community_backe.Consistency.Removal.{TotalAgrees-insert_board}
use fast_api_community_backe.Consistency.Refresh.{refreshed-totals}
use fast_api_community_backe.Models.Boards.{at_index, clear_deleted, of_user, recalculated}
use fast_api_community_backe.Models.Files.{
  unmark_file, user_cascaded, board_cascaded, admin_restorable,
}
use fast_api_community_backe.Services.Boards.Consistent.{restore_board-totals}
use fast_api_community_backe.Services.Admin.Restore.{
  admin_restore_user_services, admin_restore_board_services, admin_restore_all_files_services,
}
use fast_api_community_backe.Services.Admin.{
  admin_user_ban_services, admin_user_unban_services, admin_register_notice_services,
}

pub admin_register_notice-IsConsistent :
    (title content : String) (u : CurrentUser) (s : State)
    → IsConsistent s
    → IsConsistent (admin_register_notice_services title content u s).1
unfolding admin_register_notice_services ◌>>=◌
admin_register_notice-IsConsistent title content u s h = record {
  keys = HasKeys-insert_board s.db.boards s.db.files _ _ _ refl h.keys;
  totals = TotalAgrees-insert_board s.db.boards s.db.files _ refl h.keys.files_on_boards h.totals;
}

pub admin_restore_user-IsConsistent :
    (i : ℕ) (u : CurrentUser) (s : State)
    → IsConsistent s
    → IsConsistent (admin_restore_user_services i u s).1
unfolding admin_restore_user_services
admin_restore_user-IsConsistent i u s h =
    let db = s.db in
    by_fetch Kept _ _ s (
      by_some Kept _ _ _ s h λ user at. by_fetch Kept _ _ s (
        by_guard Kept _ _ _ s h λ early. by_fetch Kept _ _ s (
          by_guard Kept _ _ _ s h λ fits. by_commit_four Kept _ _ _ _ s (record {
            keys =
                HasKeys-update_boards db.boards _ _ _ (of_user i) (recalculated _) (λ b. refl)
                  (HasKeys-update_files db.boards db.files _ _ (user_cascaded db.boards i 90 s.now)
                    unmark_file (λ f. (refl, refl)) h.keys);
            totals = reinstated-totals db.boards db.files i h.keys.board_keys 90 s.now h.totals;
          }))))

pub admin_restore_board-IsConsistent :
    (i : ℕ) (u : CurrentUser) (s : State)
    → IsConsistent s
    → IsConsistent (admin_restore_board_services i u s).1
unfolding admin_restore_board_services
admin_restore_board-IsConsistent i u s h =
    let db = s.db in
    by_fetch Kept _ _ s (
      by_some Kept _ _ _ s h λ b at. by_fetch Kept _ _ s (
        by_guard Kept _ _ _ s h λ early. by_fetch Kept _ _ s (
          by_some Kept _ _ _ s h λ size some_files. by_guard Kept _ _ _ s h λ fits.
            by_commit_total_twice Kept _ _ _ _ _ s (record {
              keys =
                  HasKeys-update_boards _ _ _ _ (at_index i) _ (λ b. refl)
                    (HasKeys-update_files _ db.files _ _ (board_cascaded i 90 s.now) unmark_file
                      (λ f. (refl, refl))
                      (HasKeys-update_boards db.boards db.files _ _ (at_index i)
                        (clear_deleted s.now) (λ b. refl) h.keys));
              totals = restore_board-totals db.boards db.files i 90 s.now h.totals;
            }))))

pub admin_restore_all_files-IsConsistent :
    (i : ℕ) (u : CurrentUser) (s : State)
    → IsConsistent s
    → IsConsistent (admin_restore_all_files_services i u s).1
unfolding admin_restore_all_files_services
admin_restore_all_files-IsConsistent i u s h =
    let db = s.db in
    by_fetch Kept _ _ s (
      by_guard Kept _ _ _ s h λ exist. by_fetch Kept _ _ s (
        by_guard Kept _ _ _ s h λ deleted. by_fetch Kept _ _ s (
          by_fetch Kept _ _ s (
            by_guard Kept _ _ _ s h λ positive. by_guard Kept _ _ _ s h λ fits.
              by_commit_total Kept _ _ _ _ s (record {
                keys =
                    HasKeys-update_boards _ _ _ _ (at_index i) _ (λ b. refl)
                      (HasKeys-update_files _ db.files _ _ (admin_restorable i s.now) unmark_file
                        (λ f. (refl, refl)) h.keys);
                totals =
                    refreshed-totals db.boards db.files i s.now (admin_restorable i s.now)
                      unmark_file (λ f. (refl, refl)) (λ f e. ground (arith, e)) h.totals;
              })))))

pub admin_user_ban-IsConsistent :
    (i : ℕ) (u : CurrentUser) (s : State)
    → IsConsistent s
    → IsConsistent (admin_user_ban_services i u s).1
unfolding admin_user_ban_services
admin_user_ban-IsConsistent i u s h = by_fetch Kept _ _ s (
    by_some Kept _ _ _ s h λ count found. elim (Bool-cases (count == 3)) [
      | inl fourth ↦ rw fourth (
          by_transaction Kept _ s (
            by_execute (KeptIn s) _ _ _ (
              by_execute (KeptIn s) _ _ _ (
                by_execute (KeptIn s) _ _ _
                  (by_pure (KeptIn s) _ _ (record { keys = h.keys; totals = h.totals }))))))
      | inr other ↦ elim (Bool-cases (ltb 3 count)) [
        | inl more ↦ rw (other, more) (by_pure Kept _ s h)
        | inr fewer ↦
            rw (other, fewer)
              (by_transaction Kept _ s (
                by_execute (KeptIn s) _ _ _ (
                  by_execute (KeptIn s) _ _ _
                    (by_pure (KeptIn s) _ _ (record { keys = h.keys; totals = h.totals })))))
      ]
    ])

pub admin_user_unban-IsConsistent :
    (i : ℕ) (u : CurrentUser) (s : State)
    → IsConsistent s
    → IsConsistent (admin_user_unban_services i u s).1
unfolding admin_user_unban_services
admin_user_unban-IsConsistent i u s h = by_fetch Kept _ _ s (
    by_some Kept _ _ _ s h λ count found.
      by_guard Kept _ _ _ s h
        λ positive. by_commit Kept _ _ s (record { keys = h.keys; totals = h.totals }))
