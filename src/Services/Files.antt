-- ===== src/Services/Files.antt =====
-- app/services/files.py
pub mod Consistent
pub mod Jobs
pub mod Uploads
pub mod Restores
use Prim.Native.Char.{code}
use Prim.Native.String
use fast_api_community_backe.Common.{
  ℕ, ◌+◌, String, Bool, true, false, not, ◌&&◌, ◌||◌, Option, none, some, List, [], ◌∷◌, map, ◌==◌,
  ltb, leb, is_none, is_index, or_zero, str_eq, delete_where, any_row, if◌then◌else◌,
}
use fast_api_community_backe.Db.{DeletedBy, is_by, File, User}
use fast_api_community_backe.Exec.{
  Exec, Detail, http, type_error, raise_if, fetch, or_raise, execute, transaction, pure, ◌>>=◌,
  ◌>>◌, ok, State,
}
use fast_api_community_backe.Security.{Bcrypt, CurrentUser, verify_password, require_password}
use fast_api_community_backe.Models.Users.{get_user_id_pw}
use fast_api_community_backe.Models.Boards.{check_boards_owner, update_total_board_fsize}
use fast_api_community_backe.Models.Files.{
  check_board_deleted_files_exist, check_undeleted_file_belong, delete_files, get_delete_file_path,
  get_deleted_file_info, get_file_belong, get_soft_delete_fsize, get_total_fsize, restore_one_file,
  soft_delete_all_board_files, soft_delete_one_file, upload_files_db, user_get_restorable_fsize,
  user_restore_all_restorable_files,
}
use fast_api_community_backe.Models.AuditLogs.{insert_audit_log}
use fast_api_community_backe.Services.Boards.{period_over, current_time}

-- settings.FILE_MAX_SIZE (5 MB) and settings.FILE_TOTAL_MAX_SIZE (25 MB)
abbrev pub allow_max_fsize : ℕ
allow_max_fsize = 5242880

abbrev pub allow_max_total_fsize : ℕ
allow_max_total_fsize = 26214400

abbrev pub allowed_extensions : List String
allowed_extensions =
    "image/jpeg" ∷ "image/png" ∷ "image/gif" ∷ "image/webp" ∷ "application/pdf" ∷ "text/plain"
    ∷ "application/vnd.openxmlformats-officedocument.wordprocessingml.document"
    ∷ "application/vnd.openxmlformats-officedocument.spreadsheetml.sheet"
    ∷ "application/vnd.openxmlformats-officedocument.presentationml.presentation"
    ∷ "application/zip" ∷ []

abbrev codes : String → List ℕ
codes String.[] = []
codes (String.◌∷◌ c s) = code c ∷ codes s

-- `str.lower` on the letters that occur in the allowed types
abbrev lower : ℕ → ℕ
lower c = if leb b'A' c && leb c b'Z' then c + 32 else c

abbrev same_codes : List ℕ → List ℕ → Bool
same_codes [] [] = true
same_codes (a ∷ as') (b ∷ bs) = a == b && same_codes as' bs
same_codes _ _ = false

-- `file.content_type.lower() in ALLOWED_EXTENSIONS`
unfoldable pub is_allowed : String → Bool
is_allowed content_type =
    any_row (λ e. same_codes (map lower (codes content_type)) (codes e)) allowed_extensions

-- an `UploadFile`, and the path and name that `uuid.uuid4`, `splitext` and `os.path.join` give
pub record Upload : Type 0 where
  pub original_name : String
  pub content_type : String
  pub size : ℕ
  pub stored_name : String
  pub file_path : String

-- the next value of the identity column of files
abbrev pub next_file_index : Exec ℕ
next_file_index s = (ok s.file_seq, record s { file_seq = s.file_seq + 1 })

-- `aiofiles.open(filepath, "wb")` and the write
abbrev pub write_file : String → Exec (Unit {0})
write_file path s = (ok tt, record s { disk = path ∷ s.disk })

-- the transaction of `upload_files_services`
unfoldable pub record_upload : Upload → ℕ → CurrentUser → Exec (Unit {0})
unfolding upload_files_db get_total_fsize update_total_board_fsize insert_audit_log
record_upload file board_index current_user = transaction (do
  index ← next_file_index
  execute (
      upload_files_db index file.original_name file.stored_name file.file_path file.size
        board_index)
  new_total_fsize ← fetch (get_total_fsize board_index)
  execute (update_total_board_fsize new_total_fsize board_index)
  execute (insert_audit_log "UPLOAD" "FILES" index current_user.index current_user.id))

unfoldable pub upload_files_services : Upload → ℕ → CurrentUser → Exec (Unit {0})
unfolding get_user_id_pw check_boards_owner get_total_fsize
upload_files_services file board_index current_user = do
  user_info ← fetch (get_user_id_pw current_user.index)
  boards_owner ← fetch (check_boards_owner board_index)
  -- the text of the 404 names `user_info['id']`
  raise_if (is_none boards_owner)
      (if is_none user_info then type_error else http 404 Detail.no_board)
  raise_if (not (is_index boards_owner current_user.index)) (http 403 Detail.no_permission)
  raise_if (not (is_allowed file.content_type)) (http 415 Detail.bad_extension)
  cur_total_fsize ← fetch (get_total_fsize board_index)
  raise_if (ltb allow_max_total_fsize (cur_total_fsize + file.size))
      (http 413 Detail.total_size_exceeded)
  raise_if (ltb allow_max_fsize file.size) (http 413 Detail.file_too_large)
  write_file file.file_path
  record_upload file board_index current_user
  -- so does the text of the answer
  raise_if (is_none user_info) type_error

module _ (bcrypt : Bcrypt) where
  -- the part of `delete_files_services` after the password, for the board of the file
  delete_file_of : ℕ → ℕ → CurrentUser → Exec (Unit {0})
  delete_file_of board_index file_index current_user = do
    boards_owner ← fetch (check_boards_owner board_index)
    raise_if (is_none boards_owner) (http 404 Detail.no_board)
    raise_if (not (is_index boards_owner current_user.index)) (http 403 Detail.no_permission)
    belongs ← fetch (check_undeleted_file_belong file_index board_index)
    raise_if (is_none belongs) (http 404 Detail.no_file)
    transaction (do
      execute (soft_delete_one_file DeletedBy.user file_index)
      new_total_fsize ← fetch (get_total_fsize board_index)
      execute (update_total_board_fsize new_total_fsize board_index)
      execute (insert_audit_log "DELETE" "FILES" file_index current_user.index current_user.id))

  unfoldable pub delete_files_services : ℕ → String → CurrentUser → Exec (Unit {0})
  unfolding get_file_belong delete_file_of check_boards_owner check_undeleted_file_belong
      soft_delete_one_file get_total_fsize update_total_board_fsize insert_audit_log
  delete_files_services file_index password current_user = do
    board_index ← fetch (get_file_belong file_index)
    require_password bcrypt password current_user
    -- no row has the board_index None
    index ← or_raise board_index (http 404 Detail.no_board)
    delete_file_of index file_index current_user

  unfoldable pub delete_all_services : ℕ → String → CurrentUser → Exec (Unit {0})
  unfolding check_boards_owner soft_delete_all_board_files update_total_board_fsize insert_audit_log
  delete_all_services board_index password current_user = do
    require_password bcrypt password current_user
    board_owner ← fetch (check_boards_owner board_index)
    raise_if (is_none board_owner) (http 404 Detail.no_board)
    raise_if (not (is_index board_owner current_user.index)) (http 403 Detail.no_permission)
    transaction (do
      execute (soft_delete_all_board_files DeletedBy.user board_index)
      execute (update_total_board_fsize 0 board_index)
      execute (
          insert_audit_log "DELETE_ALL" "BOARD_FILES" board_index current_user.index
            current_user.id))

  unfoldable pub restore_file_services : ℕ → String → CurrentUser → Exec (Unit {0})
  unfolding get_file_belong check_boards_owner get_deleted_file_info get_total_fsize
      get_soft_delete_fsize restore_one_file update_total_board_fsize insert_audit_log
  restore_file_services file_index password current_user = do
    belongs ← fetch (get_file_belong file_index)
    board_index ← or_raise belongs (http 404 Detail.no_file)
    require_password bcrypt password current_user
    boards_owner ← fetch (check_boards_owner board_index)
    raise_if (not (is_index boards_owner current_user.index)) (http 403 Detail.no_permission)
    found ← fetch (get_deleted_file_info file_index)
    check_file ← or_raise found (http 404 Detail.no_file)
    cur_total_fsize ← fetch (get_total_fsize board_index)
    soft_delete_fsize ← fetch (get_soft_delete_fsize file_index)
    raise_if (ltb allow_max_total_fsize (soft_delete_fsize + cur_total_fsize))
        (http 413 Detail.total_size_exceeded)
    now ← fetch current_time
    raise_if (period_over 7 now check_file.deleted_at) (http 403 Detail.period_elapsed)
    raise_if (not (is_by DeletedBy.user check_file.deleted_by)) (http 403 Detail.deleted_by_admin)
    transaction (do
      execute (restore_one_file file_index)
      new_total_fsize ← fetch (get_total_fsize board_index)
      execute (update_total_board_fsize new_total_fsize board_index)
      execute (insert_audit_log "RESTORE" "FILE" file_index current_user.index current_user.id))

  unfoldable pub restore_all_file_services : ℕ → String → CurrentUser → Exec (Unit {0})
  unfolding check_boards_owner check_board_deleted_files_exist get_total_fsize
      user_get_restorable_fsize user_restore_all_restorable_files update_total_board_fsize
      insert_audit_log
  restore_all_file_services board_index password current_user = do
    require_password bcrypt password current_user
    boards_owner ← fetch (check_boards_owner board_index)
    raise_if (not (is_index boards_owner current_user.index)) (http 403 Detail.no_permission)
    restore_files_belong ← fetch (check_board_deleted_files_exist board_index)
    raise_if (is_none restore_files_belong) (http 404 Detail.nothing_to_restore)
    cur_total_fsize ← fetch (get_total_fsize board_index)
    restorable ← fetch (user_get_restorable_fsize board_index)
    raise_if (or_zero restorable == 0) (http 404 Detail.nothing_to_restore)
    raise_if (ltb allow_max_total_fsize (cur_total_fsize + or_zero restorable))
        (http 413 Detail.total_size_exceeded)
    transaction (do
      execute (user_restore_all_restorable_files board_index)
      new_total_fsize ← fetch (get_total_fsize board_index)
      execute (update_total_board_fsize new_total_fsize board_index)
      execute (
          insert_audit_log "RESTORE_ALL" "BOARD_FILES" board_index current_user.index
            current_user.id))

-- `aiofiles.os.remove`: a missing file and a failure are logged and passed over. Which paths fail
-- with an `OSError` is up to the disk.
abbrev pub remove_file : (String → Bool) → String → List String → List String
remove_file fails path disk = if fails path then disk else delete_where (λ p. str_eq p path) disk

-- `for record in file_path_record`
unfoldable pub remove_files : (String → Bool) → List String → List String → List String
remove_files fails [] disk = disk
remove_files fails (path ∷ paths) disk = remove_files fails paths (remove_file fails path disk)

unfoldable pub delete_files_perman_services : (String → Bool) → Exec (Unit {0})
unfolding get_delete_file_path remove_files delete_files
delete_files_perman_services fails = do
  file_path_record ← fetch get_delete_file_path
  (λ s. (ok tt, record s { disk = remove_files fails file_path_record s.disk }))
  execute delete_files
