-- ===== src/Services/Users/Consistent.antt =====
-- The services of users keep the invariant of boards and files, whether they succeed or raise.
use fast_api_community_backe.Common.{String, refl}
use fast_api_community_backe.Db.{DeletedBy}
use fast_api_community_backe.Exec.{State, ◌>>=◌}
use fast_api_community_backe.Exec.Rules.{by_guard, by_fetch, by_some, by_commit_four}
use fast_api_community_backe.Security.Rules.{by_password}
use fast_api_community_backe.Security.{Bcrypt, CurrentUser}
use fast_api_community_backe.Consistency.{IsConsistent, Kept}
use fast_api_community_backe.Consistency.Keys.{
  HasKeys-update_boards, HasKeys-update_files, HasKeys-delete_files,
}
use fast_api_community_backe.Consistency.Owner.{withdrawn-totals, reinstated-totals}
use fast_api_community_backe.Consistency.Removal.{TotalAgrees-delete_files}
use fast_api_community_backe.Models.Users.{IdText}
use fast_api_community_backe.Models.Boards.{live_of_user, set_total, of_user, recalculated}
use fast_api_community_backe.Models.Files.{
  live_on_board_of, mark_file, unmark_file, user_cascaded, file_is_due,
}
use fast_api_community_backe.Services.Auth.Rules.{by_restore_login}
use fast_api_community_backe.Services.Auth.{UserLogin}
use fast_api_community_backe.Services.Users.{
  user_withdraw_services, restore_user_services, delete_user_perman, anonymize_user,
}

pub user_withdraw-IsConsistent :
    (bcrypt : Bcrypt) (password : String) (u : CurrentUser) (s : State)
    → IsConsistent s
    → IsConsistent (user_withdraw_services bcrypt password u s).1
unfolding user_withdraw_services
user_withdraw-IsConsistent bcrypt password u s h =
    let db = s.db in
    by_password Kept bcrypt password u _ s (λ e n. h)
      λ user found checked. by_commit_four Kept _ _ _ _ s (record {
        keys =
            HasKeys-update_boards db.boards _ _ _ (live_of_user u.index) (set_total 0 s.now)
              (λ b. refl)
              (HasKeys-update_files db.boards db.files _ _ (live_on_board_of db.boards u.index)
                (mark_file DeletedBy.user_cascade s.now) (λ f. (refl, refl)) h.keys);
        totals =
            withdrawn-totals db.boards db.files u.index h.keys.board_keys DeletedBy.user_cascade
              s.now h.totals;
      })

pub restore_user-IsConsistent :
    (bcrypt : Bcrypt) (form : UserLogin) (s : State)
    → IsConsistent s
    → IsConsistent (restore_user_services bcrypt form s).1
unfolding restore_user_services
restore_user-IsConsistent bcrypt form s h =
    let db = s.db in
    by_restore_login Kept bcrypt form _ s h λ answer checked'.
      (by_some Kept _ _ _ s h λ login logged. by_fetch Kept _ _ s (
        by_some Kept _ _ _ s h λ user at. by_fetch Kept _ _ s (
          by_guard Kept _ _ _ s h λ early. by_guard Kept _ _ _ s h λ own. by_fetch Kept _ _ s (
            by_guard Kept _ _ _ s h λ fits. by_commit_four Kept _ _ _ _ s (record {
              keys =
                  HasKeys-update_boards db.boards _ _ _ (of_user login.index) (recalculated _)
                    (λ b. refl)
                    (HasKeys-update_files db.boards db.files _ _
                      (user_cascaded db.boards login.index 30 s.now) unmark_file (λ f. (refl, refl))
                      h.keys);
              totals =
                  reinstated-totals db.boards db.files login.index h.keys.board_keys 30 s.now
                    h.totals;
            })))))

pub delete_user_perman-IsConsistent :
    (text : IdText) (s : State) → IsConsistent s → IsConsistent (delete_user_perman text s).1
unfolding delete_user_perman ◌>>=◌
delete_user_perman-IsConsistent text s h = record {
  keys = HasKeys-delete_files s.db.boards s.db.files _ _ (file_is_due s.now) h.keys;
  totals = TotalAgrees-delete_files s.now s.db.boards s.db.files h.totals;
}

pub anonymize_user-IsConsistent :
    (text : IdText) (s : State) → IsConsistent s → IsConsistent (anonymize_user text s).1
unfolding anonymize_user ◌>>=◌
anonymize_user-IsConsistent text s h = record { keys = h.keys; totals = h.totals }
