-- ===== src/Services/Files/Jobs.antt =====
-- The hourly jobs on files, and what their order does to the disk.
use fast_api_community_backe.Common.{
  ◌≡◌, refl, ap, String, Bool, false, List, [], ◌∷◌, map, any_row, All, str_eq, inl, inr,
  Bool-cases,
}
use fast_api_community_backe.Common.Table.Finding.{
  select-delete, any_row-delete, any_row-delete_same,
}
use fast_api_community_backe.Exec.{ok, State, ◌>>=◌}
use fast_api_community_backe.Models.Users.{IdText}
use fast_api_community_backe.Models.Boards.{delete_boards}
use fast_api_community_backe.Models.Files.{file_is_due, path_of, get_delete_file_path}
use fast_api_community_backe.Services.Boards.{delete_boards_perman}
use fast_api_community_backe.Services.Files.{
  remove_file, remove_files, delete_files_perman_services,
}
use fast_api_community_backe.Services.Users.{delete_user_perman}

-- When the job of the boards or the job of the users has run, at the same time, the job of the
-- files finds no row and removes nothing from the disk.
pub delete_files_perman-disk :
    (text : IdText) (fails : String → Bool) (s : State)
    → ((delete_files_perman_services fails (delete_boards_perman s).1).1.disk ≡ s.disk)
      × ((delete_files_perman_services fails (delete_user_perman text s).1).1.disk ≡ s.disk)
unfolding delete_files_perman_services delete_boards_perman delete_user_perman ◌>>=◌
delete_files_perman-disk text fails s = (
  rw (select-delete (file_is_due s.now) (delete_boards s.now s.db).files) refl,
  rw (select-delete (file_is_due s.now) s.db.files) refl,
)

-- a path that is not on the disk
abbrev pub IsGone : List String → String → Type 0
IsGone disk path = any_row (λ p. str_eq p path) disk ≡ false

IsGone-remove_file :
    (fails : String → Bool) (path other : String) (disk : List String)
    → IsGone disk path
    → IsGone (remove_file fails other disk) path
IsGone-remove_file fails path other disk h = elim (Bool-cases (fails other)) [
  | inl t ↦ rw t h
  | inr t ↦ rw t (any_row-delete (λ p. str_eq p path) (λ p. str_eq p other) disk h)
]

IsGone-remove_files :
    (fails : String → Bool) (path : String) (paths disk : List String)
    → IsGone disk path
    → IsGone (remove_files fails paths disk) path
unfolding remove_files
IsGone-remove_files fails path [] disk h = h
IsGone-remove_files fails path (other ∷ paths) disk h =
    IsGone-remove_files fails path paths _ (IsGone-remove_file fails path other disk h)

removed :
    (fails : String → Bool) (paths disk : List String)
    → All (λ path. fails path ≡ false → IsGone (remove_files fails paths disk) path) paths
unfolding remove_files
removed fails [] disk = tt
removed fails (path ∷ paths) disk = (
  λ fine.
      IsGone-remove_files fails path paths _
        (rw fine (any_row-delete_same (λ p. str_eq p path) disk)),
  removed fails paths (remove_file fails path disk),
)

-- The job of the files leaves no row of a file that is due, and of each such row that it found the
-- path is not on the disk any more, unless its removal failed.
pub delete_files_perman-IsGone :
    (fails : String → Bool) (s : State)
    → let (r, t) = delete_files_perman_services fails s in
      (r ≡ ok tt)
      × (get_delete_file_path t.now t.db ≡ [])
      × All (λ path. fails path ≡ false → IsGone t.disk path) (get_delete_file_path s.now s.db)
unfolding delete_files_perman_services ◌>>=◌
delete_files_perman-IsGone fails s =
    (refl, ap (map path_of) (select-delete (file_is_due s.now) s.db.files), removed fails _ s.disk)
