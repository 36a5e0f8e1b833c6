-- ===== src/Services/Files/Uploads.antt =====
-- app/services/files.py: the limits that an upload keeps.
use fast_api_community_backe.Common.{
  ℕ, ◌+◌, ◌≤◌, ◌≡◌, refl, ◌∙◌, ◌⊎◌, inl, inr, arith, true, sum_where, ◌==◌,
}
use fast_api_community_backe.Common.Table.Laws.{sum_where-append_one}
use fast_api_community_backe.Exec.{State, Result, ok, ◌>>=◌}
use fast_api_community_backe.Exec.Rules.{by_fetch, by_guard, by_ok, by_run, by_last_guard}
use fast_api_community_backe.Security.{CurrentUser}
use fast_api_community_backe.Models.Boards.{live_file_of, size_of}
use fast_api_community_backe.Models.Files.{get_total_fsize}
use fast_api_community_backe.Services.Files.{
  Upload, is_allowed, write_file, record_upload, upload_files_services, allow_max_fsize,
  allow_max_total_fsize,
}
use fast_api_community_backe.Services.Files.Consistent.{record_upload_returns}

module _ (file : Upload) (i : ℕ) (u : CurrentUser) where
  -- the size of the files of the board behind the transaction of an upload
  total-record_upload :
      (s : State)
      → sum_where (live_file_of i) size_of (record_upload file i u s).1.db.files
        ≡ sum_where (live_file_of i) size_of s.db.files + file.size
  unfolding record_upload ◌>>=◌
  total-record_upload s =
      let same : i == i ≡ true = ground arith in
      sum_where-append_one (live_file_of i) size_of s.db.files _ ∙ rw same refl

  -- An upload leaves the state as it was, or the file is of an allowed type and of at most the
  -- size for one file, and the files of the board that are not deleted have at most 25 MB
  -- afterwards.
  pub upload_files-total :
      (s : State)
      → let t = (upload_files_services file i u s).1 in
        (t ≡ s)
        ⊎ ((is_allowed file.content_type ≡ true)
            × (file.size ≤ allow_max_fsize)
            × (get_total_fsize i t.now t.db ≤ allow_max_total_fsize))
  unfolding upload_files_services get_total_fsize
  upload_files-total s =
      let Q : Result (Unit {0}) × State → Type 0 = λ r.
        (r.1 ≡ s)
        ⊎ ((is_allowed file.content_type ≡ true)
            × (file.size ≤ allow_max_fsize)
            × (sum_where (live_file_of i) size_of r.1.db.files ≤ allow_max_total_fsize)) in
      by_fetch Q _ _ s (
        by_fetch Q _ _ s (
          by_guard Q _ _ _ s (inl refl) λ exist. by_guard Q _ _ _ s (inl refl) λ owned.
            by_guard Q _ _ _ s (inl refl) λ allowed. by_fetch Q _ _ s (
              by_guard Q _ _ _ s (inl refl) λ fits. by_guard Q _ _ _ s (inl refl) λ small.
                let s' = (write_file file.file_path s).1 in
                let done : Q (ok tt, (record_upload file i u s').1) = inr (
                  ground (arith, allowed),
                  ground (arith, small),
                  ground (arith, fits, total-record_upload s'),
                ) in
                by_ok Q _ _ s refl (
                  by_run Q _ _ s' (record_upload_returns file i u s')
                    (by_last_guard Q _ _ _ done λ named. done)))))
