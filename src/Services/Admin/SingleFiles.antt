-- ===== src/Services/Admin/SingleFiles.antt =====
-- What the administrator does to one file keeps the invariant of the tables.
use fast_api_community_backe.Common.{ℕ, ◌≡◌, refl, arith, Option, none, some, is_none, ap, find_row}
use fast_api_community_backe.Db.{DeletedBy, File, Db, Query}
use fast_api_community_backe.Exec.{State, Error, fetch, execute, raise_if, transaction, ◌>>=◌, ◌>>◌}
use fast_api_community_backe.Exec.Rules.{
  by_guard, by_fetch, by_some, by_assoc, by_execute, by_last_execute, by_transaction,
}
use fast_api_community_backe.Security.{CurrentUser}
use fast_api_community_backe.Consistency.{IsConsistent, Kept, KeptIn}
use fast_api_community_backe.Consistency.Keys.{
  HasKeys-update_boards, HasKeys-update_files, HasKeys-delete_files,
}
use fast_api_community_backe.Consistency.Refresh.{refreshed_file-totals, removed_file-totals}
use fast_api_community_backe.Models.Boards.{update_total_board_fsize, at_index}
use fast_api_community_backe.Models.Files.{
  deleted_file_at, file_index_of, restore_one_file, get_total_fsize, mark_file, unmark_file,
  file_at, board_of,
}
use fast_api_community_backe.Models.AuditLogs.{insert_audit_log}
use fast_api_community_backe.Common.Table.Laws.{find_row-none}
use fast_api_community_backe.Services.Admin.Restore.{admin_restore_file_services}
use fast_api_community_backe.Services.Admin.{
  delete_file_by, file_action_type, refresh_total, FileDeleteOption, admin_delete_one_file_services,
}

-- inside the transaction of a file: the guard and the write, then the total and the log
module _ (s : State) (i : ℕ) (l : Query Db) where
  unfoldable refreshed : Db → Db
  refreshed db = l s.now (update_total_board_fsize (get_total_fsize i s.now db) i s.now db)

  guarded_refresh :
      (q : Query (Option ℕ)) (e : Error) (a : Query Db)
      → IsConsistent s
      → IsConsistent (record s { db = refreshed (a s.now s.db) })
      → IsConsistent
          (transaction
            ((fetch q >>= λ t. (raise_if (is_none t) e >> execute a))
              >> (refresh_total (some i) >> execute l))
            s).1
  unfolding refreshed
  guarded_refresh q e a h k = by_transaction Kept _ s (
      by_assoc (KeptIn s) _ _ _ s (
        by_fetch (KeptIn s) _ _ s (
          by_assoc (KeptIn s) _ _ _ s (
            by_guard (KeptIn s) _ _ _ s h λ found. by_execute (KeptIn s) _ _ _ (
              by_assoc (KeptIn s) _ _ _ _ (
                by_fetch (KeptIn s) _ _ _
                  (by_execute (KeptIn s) _ _ _ (by_last_execute (KeptIn s) _ _ k))))))))

  plain_refresh :
      (a : Query Db)
      → IsConsistent (record s { db = refreshed (a s.now s.db) })
      → IsConsistent (transaction (execute a >> (refresh_total (some i) >> execute l)) s).1
  unfolding refreshed
  plain_refresh a k = by_transaction Kept _ s (
      by_execute (KeptIn s) _ _ _ (
        by_assoc (KeptIn s) _ _ _ _ (
          by_fetch (KeptIn s) _ _ _
            (by_execute (KeptIn s) _ _ _ (by_last_execute (KeptIn s) _ _ k)))))

-- without a file there is nothing to delete
guarded_none :
    (s : State) (q : Query (Option ℕ)) (e : Error) (a l : Query Db)
    → q s.now s.db ≡ none
    → IsConsistent s
    → IsConsistent
        (transaction
          ((fetch q >>= λ t. (raise_if (is_none t) e >> execute a))
            >> (refresh_total none >> execute l))
          s).1
guarded_none s q e a l missing h = by_transaction Kept _ s (
    by_assoc (KeptIn s) _ _ _ s (
      by_fetch (KeptIn s) _ _ s (
        by_assoc (KeptIn s) _ _ _ s
          (by_guard (KeptIn s) _ _ _ s h λ found. absurd (cc (ap is_none missing))))))

board_of-none : (o : Option File) → board_of o ≡ none → o ≡ none
board_of-none none e = refl
board_of-none (some f) e = cc

pub admin_delete_one_file-IsConsistent :
    (j : ℕ) (o : FileDeleteOption) (u : CurrentUser) (s : State)
    → IsConsistent s
    → IsConsistent (admin_delete_one_file_services j o u s).1
unfolding admin_delete_one_file_services refreshed
admin_delete_one_file-IsConsistent j o u s h =
    by_fetch Kept _ _ s (go o (board_of (find_row (file_at j) s.db.files)) refl)
  where
    go :
        (o : FileDeleteOption) (b : Option ℕ)
        → board_of (find_row (file_at j) s.db.files) ≡ b
        → IsConsistent
            (transaction
              (delete_file_by o j
                >> (refresh_total b
                    >> execute (insert_audit_log (file_action_type o) "FILE" j u.index u.id)))
              s).1
    go FileDeleteOption.scheduled (some i) at = guarded_refresh s i _ _ _ _ h (record {
      keys =
          HasKeys-update_boards _ _ _ _ (at_index i) _ (λ b. refl)
            (HasKeys-update_files s.db.boards s.db.files _ _ (file_at j)
              (mark_file DeletedBy.admin_scheduled s.now) (λ f. (refl, refl)) h.keys);
      totals =
          refreshed_file-totals s.db.boards s.db.files i j s.now
            (mark_file DeletedBy.admin_scheduled s.now) (λ f. (refl, refl)) h.keys.file_keys at
            h.totals;
    })
    go FileDeleteOption.immediate (some i) at = guarded_refresh s i _ _ _ _ h (record {
      keys =
          HasKeys-update_boards _ _ _ _ (at_index i) _ (λ b. refl)
            (HasKeys-delete_files s.db.boards s.db.files _ _ (file_at j) h.keys);
      totals = removed_file-totals s.db.boards s.db.files i j s.now h.keys.file_keys at h.totals;
    })
    go FileDeleteOption.scheduled none at =
        guarded_none s _ _ _ _
          (ap file_index_of (
            find_row-none (file_at j) _ s.db.files (λ f e. ground (arith, e)) (board_of-none _ at)))
          h
    go FileDeleteOption.immediate none at =
        guarded_none s _ _ _ _ (ap file_index_of (board_of-none _ at)) h

pub admin_restore_file-IsConsistent :
    (j : ℕ) (u : CurrentUser) (s : State)
    → IsConsistent s
    → IsConsistent (admin_restore_file_services j u s).1
unfolding admin_restore_file_services refreshed
admin_restore_file-IsConsistent j u s h = by_fetch Kept _ _ s (
    by_some Kept _ _ _ s h λ f found. by_fetch Kept _ _ s (
      by_guard Kept _ _ _ s h λ early.
        by_fetch Kept _ _ s (go f found (board_of (find_row (file_at j) s.db.files)) refl)))
  where
    go :
        (f : File)
        → find_row (deleted_file_at j) s.db.files ≡ some f
        → (b : Option ℕ) → board_of (find_row (file_at j) s.db.files) ≡ b
        → IsConsistent
            (transaction
              (execute (restore_one_file j)
                >> (refresh_total b
                    >> execute (insert_audit_log "RESTORE (ADMIN)" "FILES" j u.index u.id)))
              s).1
    go f found (some i) at = plain_refresh s i _ _ (record {
      keys =
          HasKeys-update_boards _ _ _ _ (at_index i) _ (λ b. refl)
            (HasKeys-update_files s.db.boards s.db.files _ _ (file_at j) unmark_file
              (λ f. (refl, refl)) h.keys);
      totals =
          refreshed_file-totals s.db.boards s.db.files i j s.now unmark_file (λ f. (refl, refl))
            h.keys.file_keys at h.totals;
    })
    go f found none at = cc (
      found,
      find_row-none (file_at j) (deleted_file_at j) s.db.files (λ f e. ground (arith, e))
          (board_of-none _ at),
    )
