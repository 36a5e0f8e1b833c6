-- ===== src/Services/Admin/Removals.antt =====
-- The removals of users and boards by the administrator keep the invariant of the tables.
use fast_api_community_backe.Common.{ℕ, refl, Option, is_none, update_where}
use fast_api_community_backe.Db.{DeletedBy, Db, Query}
use fast_api_community_backe.Exec.{
  Result, State, Error, fetch, execute, raise_if, transaction, ◌>>=◌, ◌>>◌,
}
use fast_api_community_backe.Exec.Rules.{
  by_guard, by_fetch, by_assoc, by_execute, by_last_execute, by_transaction,
}
use fast_api_community_backe.Security.{CurrentUser}
use fast_api_community_backe.Consistency.{IsConsistent, Kept, KeptIn, HasKeys}
use fast_api_community_backe.Consistency.Keys.{
  HasKeys-update_boards, HasKeys-update_files, HasKeys-delete_files, HasKeys-delete_boards,
}
use fast_api_community_backe.Consistency.Owner.{withdrawn-totals, removed_user-totals}
use fast_api_community_backe.Consistency.Removal.{TotalAgrees-hard_delete}
use fast_api_community_backe.Models.Users.{IdText}
use fast_api_community_backe.Models.Boards.{
  at_index, mark_deleted, live_of_user, set_total, live_file_of,
}
use fast_api_community_backe.Models.Files.{file_of_board, live_on_board_of, mark_file, on_board_of}
use fast_api_community_backe.Services.Boards.Consistent.{delete_board-totals}
use fast_api_community_backe.Services.Admin.{
  DeleteOption, admin_delete_user_services, admin_delete_boards_services,
}

-- The writes of a removal, between a guard and the log.
module _ (s : State) where
  abbrev In : Result (Unit {0}) × State → Type 0
  In = KeptIn s

  guarded_writes :
      (q : Query (Option ℕ)) (e : Error) (a b c l : Query Db)
      → IsConsistent s
      → IsConsistent (record s { db = l s.now (c s.now (b s.now (a s.now s.db))) })
      → IsConsistent
          (transaction
            ((fetch q >>= λ t. (raise_if (is_none t) e >> (execute a >> (execute b >> execute c))))
              >> execute l)
            s).1
  guarded_writes q e a b c l h k = by_transaction Kept _ s (
      by_assoc In _ _ _ s (
        by_fetch In _ _ s (
          by_assoc In _ _ _ s (
            by_guard In _ _ _ s h λ found. by_assoc In _ _ _ _ (
              by_execute In _ _ _ (
                by_assoc In _ _ _ _
                  (by_execute In _ _ _ (by_execute In _ _ _ (by_last_execute In _ _ k)))))))))

  guarded_writes_two :
      (q : Query (Option ℕ)) (e : Error) (a b l : Query Db)
      → IsConsistent s
      → IsConsistent (record s { db = l s.now (b s.now (a s.now s.db)) })
      → IsConsistent
          (transaction
            ((fetch q >>= λ t. (raise_if (is_none t) e >> (execute a >> execute b))) >> execute l)
            s).1
  guarded_writes_two q e a b l h k = by_transaction Kept _ s (
      by_assoc In _ _ _ s (
        by_fetch In _ _ s (
          by_assoc In _ _ _ s (
            by_guard In _ _ _ s h λ found.
              by_assoc In _ _ _ _
                (by_execute In _ _ _ (by_execute In _ _ _ (by_last_execute In _ _ k)))))))

soft_delete_user-HasKeys :
    (by : DeletedBy) (i : ℕ) (s : State)
    → IsConsistent s
    → let db = s.db in
      HasKeys
        (update_where (live_of_user i) (set_total 0 s.now) db.boards)
        (update_where (live_on_board_of db.boards i) (mark_file by s.now) db.files)
        s.board_seq
        s.file_seq
soft_delete_user-HasKeys by i s h =
    let db = s.db in
    HasKeys-update_boards db.boards _ _ _ (live_of_user i) (set_total 0 s.now) (λ b. refl)
      (HasKeys-update_files db.boards db.files _ _ (live_on_board_of db.boards i)
        (mark_file by s.now) (λ f. (refl, refl)) h.keys)

pub admin_delete_user-IsConsistent :
    (text : IdText) (i : ℕ) (o : DeleteOption) (u : CurrentUser) (s : State)
    → IsConsistent s
    → IsConsistent (admin_delete_user_services text i o u s).1
unfolding admin_delete_user_services
admin_delete_user-IsConsistent text i DeleteOption.scheduled u s h =
    guarded_writes s _ _ _ _ _ _ h (record {
      keys = soft_delete_user-HasKeys DeletedBy.user_cascade i s h;
      totals =
          withdrawn-totals s.db.boards s.db.files i h.keys.board_keys DeletedBy.user_cascade s.now
            h.totals;
    })
admin_delete_user-IsConsistent text i DeleteOption.retain u s h =
    guarded_writes s _ _ _ _ _ _ h (record {
      keys = soft_delete_user-HasKeys DeletedBy.user_cascade i s h;
      totals =
          withdrawn-totals s.db.boards s.db.files i h.keys.board_keys DeletedBy.user_cascade s.now
            h.totals;
    })
admin_delete_user-IsConsistent text i DeleteOption.immediate u s h =
    guarded_writes s _ _ _ _ _ _ h (record {
      keys =
          HasKeys-update_boards s.db.boards _ _ _ (live_of_user i) (set_total 0 s.now) (λ b. refl)
            (HasKeys-delete_files s.db.boards s.db.files _ _ (on_board_of s.db.boards i) h.keys);
      totals = removed_user-totals s.db.boards s.db.files i h.keys.board_keys s.now h.totals;
    })

soft_delete_board-HasKeys :
    (by : DeletedBy) (i : ℕ) (s : State)
    → IsConsistent s
    → let db = s.db in
      HasKeys
        (update_where (at_index i) (mark_deleted by s.now) db.boards)
        (update_where (live_file_of i) (mark_file DeletedBy.board_cascade s.now) db.files)
        s.board_seq
        s.file_seq
soft_delete_board-HasKeys by i s h =
    let db = s.db in
    HasKeys-update_files _ db.files _ _ (live_file_of i) (mark_file DeletedBy.board_cascade s.now)
      (λ f. (refl, refl))
      (HasKeys-update_boards db.boards db.files _ _ (at_index i) (mark_deleted by s.now) (λ b. refl)
        h.keys)

pub admin_delete_boards-IsConsistent :
    (i : ℕ) (o : DeleteOption) (u : CurrentUser) (s : State)
    → IsConsistent s
    → IsConsistent (admin_delete_boards_services i o u s).1
unfolding admin_delete_boards_services
admin_delete_boards-IsConsistent i DeleteOption.scheduled u s h =
    guarded_writes_two s _ _ _ _ _ h (record {
      keys = soft_delete_board-HasKeys DeletedBy.admin_scheduled i s h;
      totals =
          delete_board-totals s.db.boards s.db.files i s.now DeletedBy.admin_scheduled
            DeletedBy.board_cascade h.totals;
    })
admin_delete_boards-IsConsistent i DeleteOption.retain u s h =
    guarded_writes_two s _ _ _ _ _ h (record {
      keys = soft_delete_board-HasKeys DeletedBy.admin_retain i s h;
      totals =
          delete_board-totals s.db.boards s.db.files i s.now DeletedBy.admin_retain
            DeletedBy.board_cascade h.totals;
    })
admin_delete_boards-IsConsistent i DeleteOption.immediate u s h =
    guarded_writes_two s _ _ _ _ _ h (record {
      keys = HasKeys-delete_files _ _ _ _ _ (
          HasKeys-delete_boards _ _ _ _ (at_index i)
            (HasKeys-delete_files s.db.boards s.db.files _ _ (file_of_board i) h.keys));
      totals = TotalAgrees-hard_delete s.db.boards s.db.files i h.keys.board_keys h.totals;
    })
