-- ===== src/Services/Files/Consistent.antt =====
-- The services of files keep the invariant of the tables, whether they succeed or raise.
use fast_api_community_backe.Common.{
  ℕ, ◌<◌, is_index, Option-cases, inl, inr, String, Bool, true, ◌≡◌, refl, arith, List, find_row,
  All,
}
use fast_api_community_backe.Common.Table.Laws.{find_row-All}
use fast_api_community_backe.Db.{DeletedBy, Board}
use fast_api_community_backe.Exec.{State, ok, ◌>>=◌}
use fast_api_community_backe.Exec.Rules.{
  by_guard, by_last_guard, by_fetch, by_some, by_ok, by_run, by_commit_three, by_commit_total,
}
use fast_api_community_backe.Security.Rules.{by_password}
use fast_api_community_backe.Security.{Bcrypt, CurrentUser}
use fast_api_community_backe.Consistency.{IsConsistent, Kept}
use fast_api_community_backe.Consistency.Keys.{
  HasKeys-update_boards, HasKeys-update_files, HasKeys-insert_file, HasKeys-delete_files,
}
use fast_api_community_backe.Consistency.Refresh.{
  refreshed-totals, refreshed_file-totals, emptied-totals, uploaded-totals,
}
use fast_api_community_backe.Consistency.Removal.{TotalAgrees-delete_files}
use fast_api_community_backe.Models.Boards.{at_index, live_at, owner_of, live_file_of}
use fast_api_community_backe.Models.Files.{
  file_at, mark_file, unmark_file, file_is_due, user_restorable,
}
use fast_api_community_backe.Services.Files.{
  Upload, write_file, record_upload, upload_files_services, delete_files_services,
  delete_all_services, restore_file_services, restore_all_file_services,
  delete_files_perman_services,
}

pub delete_all-IsConsistent :
    (bcrypt : Bcrypt) (i : ℕ) (password : String) (u : CurrentUser) (s : State)
    → IsConsistent s
    → IsConsistent (delete_all_services bcrypt i password u s).1
unfolding delete_all_services
delete_all-IsConsistent bcrypt i password u s h =
    let db = s.db in
    by_password Kept bcrypt password u _ s (λ e n. h)
      λ user found checked. by_fetch Kept _ _ s (
        by_guard Kept _ _ _ s h λ owned. by_guard Kept _ _ _ s h λ permitted.
          by_commit_three Kept _ _ _ s (record {
            keys =
                HasKeys-update_boards _ _ _ _ (at_index i) _ (λ b. refl)
                  (HasKeys-update_files _ db.files _ _ (live_file_of i)
                    (mark_file DeletedBy.user s.now) (λ f. (refl, refl)) h.keys);
            totals = emptied-totals db.boards db.files i s.now DeletedBy.user h.totals;
          }))

pub restore_all_file-IsConsistent :
    (bcrypt : Bcrypt) (i : ℕ) (password : String) (u : CurrentUser) (s : State)
    → IsConsistent s
    → IsConsistent (restore_all_file_services bcrypt i password u s).1
unfolding restore_all_file_services
restore_all_file-IsConsistent bcrypt i password u s h =
    let db = s.db in
    by_password Kept bcrypt password u _ s (λ e n. h)
      λ user found checked. by_fetch Kept _ _ s (
        by_guard Kept _ _ _ s h λ owned. by_fetch Kept _ _ s (
          by_guard Kept _ _ _ s h λ exist. by_fetch Kept _ _ s (
            by_fetch Kept _ _ s (
              by_guard Kept _ _ _ s h λ positive. by_guard Kept _ _ _ s h λ fits.
                by_commit_total Kept _ _ _ _ s (record {
                  keys =
                      HasKeys-update_boards _ _ _ _ (at_index i) _ (λ b. refl)
                        (HasKeys-update_files _ db.files _ _ (user_restorable 30 i s.now)
                          unmark_file (λ f. (refl, refl)) h.keys);
                  totals =
                      refreshed-totals db.boards db.files i s.now (user_restorable 30 i s.now)
                        unmark_file (λ f. (refl, refl)) (λ f e. ground (arith, e)) h.totals;
                })))))

pub delete_files-IsConsistent :
    (bcrypt : Bcrypt) (j : ℕ) (password : String) (u : CurrentUser) (s : State)
    → IsConsistent s
    → IsConsistent (delete_files_services bcrypt j password u s).1
unfolding delete_files_services
delete_files-IsConsistent bcrypt j password u s h =
    let db = s.db in
    by_fetch Kept _ _ s (
      by_password Kept bcrypt password u _ s (λ e n. h)
        λ user found checked. by_some Kept _ _ _ s h λ i belongs. by_fetch Kept _ _ s (
          by_guard Kept _ _ _ s h λ owned. by_guard Kept _ _ _ s h λ permitted.
            by_fetch Kept _ _ s (
              by_guard Kept _ _ _ s h λ live. by_commit_total Kept _ _ _ _ s (record {
                keys =
                    HasKeys-update_boards _ _ _ _ (at_index i) _ (λ b. refl)
                      (HasKeys-update_files _ db.files _ _ (file_at j)
                        (mark_file DeletedBy.user s.now) (λ f. (refl, refl)) h.keys);
                totals =
                    refreshed_file-totals db.boards db.files i j s.now
                      (mark_file DeletedBy.user s.now) (λ f. (refl, refl)) h.keys.file_keys belongs
                      h.totals;
              }))))

pub restore_file-IsConsistent :
    (bcrypt : Bcrypt) (j : ℕ) (password : String) (u : CurrentUser) (s : State)
    → IsConsistent s
    → IsConsistent (restore_file_services bcrypt j password u s).1
unfolding restore_file_services
restore_file-IsConsistent bcrypt j password u s h =
    let db = s.db in
    by_fetch Kept _ _ s (
      by_some Kept _ _ _ s h λ i belongs.
        by_password Kept bcrypt password u _ s (λ e n. h)
          λ user found checked. by_fetch Kept _ _ s (
            by_guard Kept _ _ _ s h λ owned. by_fetch Kept _ _ s (
              by_some Kept _ _ _ s h λ f at. by_fetch Kept _ _ s (
                by_fetch Kept _ _ s (
                  by_guard Kept _ _ _ s h λ fits. by_fetch Kept _ _ s (
                    by_guard Kept _ _ _ s h λ early. by_guard Kept _ _ _ s h λ own.
                      by_commit_total Kept _ _ _ _ s (record {
                        keys =
                            HasKeys-update_boards _ _ _ _ (at_index i) _ (λ b. refl)
                              (HasKeys-update_files _ db.files _ _ (file_at j) unmark_file
                                (λ f. (refl, refl)) h.keys);
                        totals =
                            refreshed_file-totals db.boards db.files i j s.now unmark_file
                              (λ f. (refl, refl)) h.keys.file_keys belongs h.totals;
                      })))))))

pub delete_files_perman-IsConsistent :
    (fails : String → Bool) (s : State)
    → IsConsistent s
    → IsConsistent (delete_files_perman_services fails s).1
unfolding delete_files_perman_services ◌>>=◌
delete_files_perman-IsConsistent fails s h = record {
  keys = HasKeys-delete_files s.db.boards s.db.files _ _ (file_is_due s.now) h.keys;
  totals = TotalAgrees-delete_files s.now s.db.boards s.db.files h.totals;
}

record_upload-IsConsistent :
    (file : Upload) (i : ℕ) (u : CurrentUser) (s : State)
    → i < s.board_seq
    → IsConsistent s
    → IsConsistent (record_upload file i u s).1
unfolding record_upload ◌>>=◌
record_upload-IsConsistent file i u s lt h = record {
  keys =
      HasKeys-update_boards _ _ _ _ (at_index i) _ (λ b. refl)
        (HasKeys-insert_file s.db.boards s.db.files _ _ _ refl lt h.keys);
  totals = uploaded-totals s.db.boards s.db.files i s.now _ refl h.totals;
}

pub record_upload_returns :
    (file : Upload) (i : ℕ) (u : CurrentUser) (s : State) → (record_upload file i u s).0 ≡ ok tt
unfolding record_upload ◌>>=◌
record_upload_returns file i u s = refl

-- A board with an owner is in the table, so its index is below the next one.
board_below :
    (boards : List Board) (i n m : ℕ)
    → All (λ (b : Board). b.index < m) boards
    → is_index (owner_of (find_row (live_at i) boards)) n ≡ true
    → i < m
board_below boards i n m below owned = elim (Option-cases (find_row (live_at i) boards)) [
  | inl e ↦ cc (rw e at owned)
  | inr (b, e) ↦
      let (passes, lt) = find_row-All (λ (b : Board). b.index < m) (live_at i) boards below e in
      ground (arith, passes, lt)
]

pub upload_files-IsConsistent :
    (file : Upload) (i : ℕ) (u : CurrentUser) (s : State)
    → IsConsistent s
    → IsConsistent (upload_files_services file i u s).1
unfolding upload_files_services
upload_files-IsConsistent file i u s h = by_fetch Kept _ _ s (
    by_fetch Kept _ _ s (
      by_guard Kept _ _ _ s h λ exists'. by_guard Kept _ _ _ s h λ owned.
        by_guard Kept _ _ _ s h λ allowed. by_fetch Kept _ _ s (
          by_guard Kept _ _ _ s h λ fits. by_guard Kept _ _ _ s h λ small.
            let s' = (write_file file.file_path s).1 in
            let done =
              record_upload-IsConsistent file i u s'
                (board_below s.db.boards i u.index s.board_seq h.keys.boards_below
                  (ground (arith, owned)))
                (record { keys = h.keys; totals = h.totals }) in
            by_ok Kept _ _ s refl (
              by_run Kept _ _ s' (record_upload_returns file i u s')
                (by_last_guard Kept _ _ _ done λ _. done)))))
