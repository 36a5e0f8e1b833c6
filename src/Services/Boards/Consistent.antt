-- ===== src/Services/Boards/Consistent.antt =====
-- The services of boards keep the invariant of the tables, whether they succeed or raise.
use fast_api_community_backe.Common.{ℕ, String, refl, arith, update_where, sum_where, All, List}
use fast_api_community_backe.Db.{DeletedBy, Board, File}
use fast_api_community_backe.Exec.{State, ◌>>=◌}
use fast_api_community_backe.Exec.Rules.{
  by_guard, by_fetch, by_some, by_commit, by_commit_three, by_commit_total_twice,
}
use fast_api_community_backe.Security.Rules.{by_password}
use fast_api_community_backe.Security.{Bcrypt, CurrentUser}
use fast_api_community_backe.Consistency.{IsConsistent, Kept, TotalAgrees}
use fast_api_community_backe.Consistency.Keys.{
  HasKeys-update_boards, HasKeys-update_files, HasKeys-insert_board, HasKeys-delete_files,
  HasKeys-delete_boards,
}
use fast_api_community_backe.Consistency.Totals.{
  TotalAgrees-edit, TotalAgrees-mark_deleted, TotalAgrees-set_total, AgreesBut-files,
  AgreesBut-clear_deleted, sum_of_others,
}
use fast_api_community_backe.Consistency.Removal.{
  TotalAgrees-insert_board, TotalAgrees-delete_files, TotalAgrees-delete_boards,
}
use fast_api_community_backe.Models.Boards.{
  set_total, board_is_due, at_index, set_title, set_content, mark_deleted, clear_deleted,
  live_file_of, size_of,
}
use fast_api_community_backe.Models.Files.{file_is_due, mark_file, unmark_file, board_cascaded}
use fast_api_community_backe.Services.Boards.{
  title_modify_services, content_modify_services, boards_delete_services, restore_board_services,
  create_boards_services, delete_boards_perman,
}

pub title_modify-IsConsistent :
    (bcrypt : Bcrypt) (i : ℕ) (password title : String) (u : CurrentUser) (s : State)
    → IsConsistent s
    → IsConsistent (title_modify_services bcrypt i password title u s).1
unfolding title_modify_services
title_modify-IsConsistent bcrypt i password title u s h =
    let db = s.db in
    by_password Kept bcrypt password u _ s (λ e n. h)
      λ user found checked. by_fetch Kept _ _ s (
        by_guard Kept _ _ _ s h λ owned. by_guard Kept _ _ _ s h λ permitted.
          by_commit Kept _ _ s (record {
            keys =
                HasKeys-update_boards db.boards db.files _ _ (at_index i) (set_title title s.now)
                  (λ b. refl) h.keys;
            totals =
                TotalAgrees-edit db.boards db.files (at_index i) (set_title title s.now)
                  (λ b. (refl, refl, refl)) h.totals;
          }))

pub content_modify-IsConsistent :
    (bcrypt : Bcrypt) (i : ℕ) (password content : String) (u : CurrentUser) (s : State)
    → IsConsistent s
    → IsConsistent (content_modify_services bcrypt i password content u s).1
unfolding content_modify_services
content_modify-IsConsistent bcrypt i password content u s h =
    let db = s.db in
    by_password Kept bcrypt password u _ s (λ e n. h)
      λ user found checked. by_fetch Kept _ _ s (
        by_guard Kept _ _ _ s h λ owned. by_guard Kept _ _ _ s h λ permitted.
          by_commit Kept _ _ s (record {
            keys =
                HasKeys-update_boards db.boards db.files _ _ (at_index i)
                  (set_content content s.now) (λ b. refl) h.keys;
            totals =
                TotalAgrees-edit db.boards db.files (at_index i) (set_content content s.now)
                  (λ b. (refl, refl, refl)) h.totals;
          }))

pub delete_board-totals :
    (boards : List Board) (files : List File) (i now : ℕ) (by by' : DeletedBy)
    → All (TotalAgrees files) boards
    → All
        (TotalAgrees (update_where (live_file_of i) (mark_file by' now) files))
        (update_where (at_index i) (mark_deleted by now) boards)
delete_board-totals boards files i now by by' h =
    let files' = update_where (live_file_of i) (mark_file by' now) files in
    TotalAgrees-mark_deleted boards i files' by now (
      AgreesBut-files boards i files files'
        (λ j ne.
          sum_of_others i j (live_file_of i) (mark_file by' now) files (λ f. (refl, refl))
            (λ f e. ground (arith, e)) ne)
        h)

pub boards_delete-IsConsistent :
    (bcrypt : Bcrypt) (i : ℕ) (password : String) (u : CurrentUser) (s : State)
    → IsConsistent s
    → IsConsistent (boards_delete_services bcrypt i password u s).1
unfolding boards_delete_services
boards_delete-IsConsistent bcrypt i password u s h =
    let db = s.db in
    by_password Kept bcrypt password u _ s (λ e n. h)
      λ user found checked. by_fetch Kept _ _ s (
        by_guard Kept _ _ _ s h λ owned. by_guard Kept _ _ _ s h λ permitted.
          by_commit_three Kept _ _ _ s (record {
            keys =
                HasKeys-update_files _ db.files _ _ (live_file_of i)
                  (mark_file DeletedBy.board_cascade s.now) (λ f. (refl, refl))
                  (HasKeys-update_boards db.boards db.files _ _ (at_index i)
                    (mark_deleted DeletedBy.user s.now) (λ b. refl) h.keys);
            totals =
                delete_board-totals db.boards db.files i s.now DeletedBy.user
                  DeletedBy.board_cascade h.totals;
          }))

pub create_boards-IsConsistent :
    (title content : String) (u : CurrentUser) (s : State)
    → IsConsistent s
    → IsConsistent (create_boards_services title content u s).1
unfolding create_boards_services ◌>>=◌
create_boards-IsConsistent title content u s h = record {
  keys = HasKeys-insert_board s.db.boards s.db.files _ _ _ refl h.keys;
  totals = TotalAgrees-insert_board s.db.boards s.db.files _ refl h.keys.files_on_boards h.totals;
}

pub restore_board-totals :
    (boards : List Board) (files : List File) (i n now : ℕ)
    → All (TotalAgrees files) boards
    → let files' = update_where (board_cascaded i n now) unmark_file files in
      All (TotalAgrees files') (
        update_where
          (at_index i)
          (set_total (sum_where (live_file_of i) size_of files') now)
          (update_where (at_index i) (clear_deleted now) boards))
restore_board-totals boards files i n now h =
    let files' = update_where (board_cascaded i n now) unmark_file files in
    TotalAgrees-set_total (update_where (at_index i) (clear_deleted now) boards) i files' now (
      AgreesBut-clear_deleted boards i files' now (
        AgreesBut-files boards i files files'
          (λ j ne.
            sum_of_others i j (board_cascaded i n now) unmark_file files (λ f. (refl, refl))
              (λ f e. ground (arith, e)) ne)
          h))

pub restore_board-IsConsistent :
    (bcrypt : Bcrypt) (i : ℕ) (password : String) (u : CurrentUser) (s : State)
    → IsConsistent s
    → IsConsistent (restore_board_services bcrypt i password u s).1
unfolding restore_board_services
restore_board-IsConsistent bcrypt i password u s h =
    let db = s.db in
    by_password Kept bcrypt password u _ s (λ e n. h)
      λ user found checked. by_fetch Kept _ _ s (
        by_some Kept _ _ _ s h λ b at. by_guard Kept _ _ _ s h λ owned. by_fetch Kept _ _ s (
          by_guard Kept _ _ _ s h λ early. by_guard Kept _ _ _ s h λ own.
            by_commit_total_twice Kept _ _ _ _ _ s (record {
              keys =
                  HasKeys-update_boards _ _ _ _ (at_index i) _ (λ b. refl)
                    (HasKeys-update_files _ db.files _ _ (board_cascaded i 30 s.now) unmark_file
                      (λ f. (refl, refl))
                      (HasKeys-update_boards db.boards db.files _ _ (at_index i)
                        (clear_deleted s.now) (λ b. refl) h.keys));
              totals = restore_board-totals db.boards db.files i 30 s.now h.totals;
            })))

pub delete_boards_perman-IsConsistent :
    (s : State) → IsConsistent s → IsConsistent (delete_boards_perman s).1
unfolding delete_boards_perman ◌>>=◌
delete_boards_perman-IsConsistent s h = record {
  keys = HasKeys-delete_files _ _ _ _ (file_is_due s.now) (
      HasKeys-delete_files _ _ _ _ _
        (HasKeys-delete_boards s.db.boards s.db.files _ _ (board_is_due s.now) h.keys));
  totals = TotalAgrees-delete_files s.now _ _ (
      TotalAgrees-delete_boards (board_is_due s.now) s.db.boards s.db.files h.keys.board_keys
        h.totals);
}
