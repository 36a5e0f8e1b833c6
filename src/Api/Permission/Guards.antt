-- ===== src/Api/Permission/Guards.antt =====
-- app/services/: the guards of the services on boards and files that ask for the password, and what
-- they let pass.
use fast_api_community_backe.Common.{
  ℕ, String, not, ◌==◌, ◌≡◌, refl, inl, inr, is_none, find_row, arith, and_right,
}
use fast_api_community_backe.Common.Table.Finding.{or_zero-sum_or_null}
use fast_api_community_backe.Exec.{State}
use fast_api_community_backe.Exec.Rules.{
  by_guard, by_fetch, by_some, by_commit, by_commit_three, by_commit_total, by_commit_total_twice,
}
use fast_api_community_backe.Security.{Bcrypt, CurrentUser}
use fast_api_community_backe.Security.Rules.{by_password}
use fast_api_community_backe.Models.Boards.{deleted_at_index, size_of}
use fast_api_community_backe.Models.Files.{file_at, deleted_file_at, user_restorable, size_or_zero}
use fast_api_community_backe.Services.Boards.{
  title_modify_services, content_modify_services, boards_delete_services, restore_board_services,
}
use fast_api_community_backe.Services.Files.{
  delete_files_services, delete_all_services, restore_file_services, restore_all_file_services,
}
use fast_api_community_backe.Api.{
  update_board_title, update_content, delete_board, restore_boards, delete_single_file,
  delete_all_files, restore_file, restore_all_file,
}
use fast_api_community_backe.Api.Permission.{
  Permits, UnchangedOr, owned, known, owned_file, own_removal, passed,
}

module _ (bcrypt : Bcrypt) (password : String) (u : CurrentUser) (s : State) where
  -- A service that asks for the password and for the owner of a live board.
  pub title_modify-Permits :
      (i : ℕ) (title : String)
      → UnchangedOr
          (Permits bcrypt (update_board_title i password title) u s)
          s
          (title_modify_services bcrypt i password title u s)
  unfolding title_modify_services
  title_modify-Permits i title =
      let Q = UnchangedOr (Permits bcrypt (update_board_title i password title) u s) s in
      by_password Q bcrypt password u _ s (λ e n. inl refl)
        λ row found checked. by_fetch Q _ _ s (
          by_guard Q _ _ _ s (inl refl) λ exists'. by_guard Q _ _ _ s (inl refl) λ permitted.
            by_commit Q _ _ s
              (inr (known bcrypt password u s row found checked, owned i u s permitted)))

  pub content_modify-Permits :
      (i : ℕ) (content : String)
      → UnchangedOr
          (Permits bcrypt (update_content i password content) u s)
          s
          (content_modify_services bcrypt i password content u s)
  unfolding content_modify_services
  content_modify-Permits i content =
      let Q = UnchangedOr (Permits bcrypt (update_content i password content) u s) s in
      by_password Q bcrypt password u _ s (λ e n. inl refl)
        λ row found checked. by_fetch Q _ _ s (
          by_guard Q _ _ _ s (inl refl) λ exists'. by_guard Q _ _ _ s (inl refl) λ permitted.
            by_commit Q _ _ s
              (inr (known bcrypt password u s row found checked, owned i u s permitted)))

  pub boards_delete-Permits :
      (i : ℕ)
      → UnchangedOr
          (Permits bcrypt (delete_board i password) u s)
          s
          (boards_delete_services bcrypt i password u s)
  unfolding boards_delete_services
  boards_delete-Permits i =
      let Q = UnchangedOr (Permits bcrypt (delete_board i password) u s) s in
      by_password Q bcrypt password u _ s (λ e n. inl refl)
        λ row found checked. by_fetch Q _ _ s (
          by_guard Q _ _ _ s (inl refl) λ exists'. by_guard Q _ _ _ s (inl refl) λ permitted.
            by_commit_three Q _ _ _ s
              (inr (known bcrypt password u s row found checked, owned i u s permitted)))

  pub delete_all-Permits :
      (i : ℕ)
      → UnchangedOr
          (Permits bcrypt (delete_all_files i password) u s)
          s
          (delete_all_services bcrypt i password u s)
  unfolding delete_all_services
  delete_all-Permits i =
      let Q = UnchangedOr (Permits bcrypt (delete_all_files i password) u s) s in
      by_password Q bcrypt password u _ s (λ e n. inl refl)
        λ row found checked. by_fetch Q _ _ s (
          by_guard Q _ _ _ s (inl refl) λ exists'. by_guard Q _ _ _ s (inl refl) λ permitted.
            by_commit_three Q _ _ _ s
              (inr (known bcrypt password u s row found checked, owned i u s permitted)))

  pub restore_all_file-Permits :
      (i : ℕ)
      → UnchangedOr
          (Permits bcrypt (restore_all_file i password) u s)
          s
          (restore_all_file_services bcrypt i password u s)
  unfolding restore_all_file_services
  restore_all_file-Permits i =
      let Q = UnchangedOr (Permits bcrypt (restore_all_file i password) u s) s in
      by_password Q bcrypt password u _ s (λ e n. inl refl)
        λ row found checked. by_fetch Q _ _ s (
          by_guard Q _ _ _ s (inl refl) λ permitted. by_fetch Q _ _ s (
            by_guard Q _ _ _ s (inl refl) λ some_deleted. by_fetch Q _ _ s (
              by_fetch Q _ _ s (
                by_guard Q _ _ _ s (inl refl) λ positive. by_guard Q _ _ _ s (inl refl) λ fits.
                  by_commit_total Q _ _ _ _ s (
                    let same = or_zero-sum_or_null (user_restorable 7 i s.now) size_of s.db.files in
                    let positive' = rw same at positive in
                    let fits' = rw same at fits in
                    inr (
                      known bcrypt password u s row found checked,
                      owned i u s permitted,
                      ground (arith, positive'),
                      ground (arith, fits'),
                    ))))))

  pub restore_board-Permits :
      (i : ℕ)
      → UnchangedOr
          (Permits bcrypt (restore_boards i password) u s)
          s
          (restore_board_services bcrypt i password u s)
  unfolding restore_board_services
  restore_board-Permits i =
      let Q = UnchangedOr (Permits bcrypt (restore_boards i password) u s) s in
      by_password Q bcrypt password u _ s (λ e n. inl refl)
        λ row found checked. by_fetch Q _ _ s (
          by_some Q _ _ _ s (inl refl) λ b at. by_guard Q _ _ _ s (inl refl) λ permitted.
            by_fetch Q _ _ s (
              by_guard Q _ _ _ s (inl refl) λ early. by_guard Q _ _ _ s (inl refl) λ own.
                by_commit_total_twice Q _ _ _ _ _ s (
                  inr (
                    known bcrypt password u s row found checked,
                    let deleted = passed (deleted_at_index i) s.db.boards at in
                        (
                          b,
                          at,
                          ground (arith, deleted),
                          ground (arith, permitted),
                          own_removal s.now b.deleted_at b.deleted_by
                              (and_right (b.index == i) (not (is_none b.deleted_at)) deleted) early
                              own,
                        ),
                  ))))

  pub delete_files-Permits :
      (j : ℕ)
      → UnchangedOr
          (Permits bcrypt (delete_single_file j password) u s)
          s
          (delete_files_services bcrypt j password u s)
  unfolding delete_files_services
  delete_files-Permits j =
      let Q = UnchangedOr (Permits bcrypt (delete_single_file j password) u s) s in
      by_fetch Q _ _ s (
        by_password Q bcrypt password u _ s (λ e n. inl refl)
          λ row found checked. by_some Q _ _ _ s (inl refl) λ i belongs. by_fetch Q _ _ s (
            by_guard Q _ _ _ s (inl refl) λ exists'. by_guard Q _ _ _ s (inl refl) λ permitted.
              by_fetch Q _ _ s (
                by_guard Q _ _ _ s (inl refl) λ live. by_commit_total Q _ _ _ _ s (
                  let (f, own) = owned_file j i u s belongs (owned i u s permitted) in
                  inr (
                    known bcrypt password u s row found checked,
                    (f, i, own, ground (arith, live)),
                  )))))

  pub restore_file-Permits :
      (j : ℕ)
      → UnchangedOr
          (Permits bcrypt (restore_file j password) u s)
          s
          (restore_file_services bcrypt j password u s)
  unfolding restore_file_services
  restore_file-Permits j =
      let Q = UnchangedOr (Permits bcrypt (restore_file j password) u s) s in
      by_fetch Q _ _ s (
        by_some Q _ _ _ s (inl refl) λ i belongs.
          by_password Q bcrypt password u _ s (λ e n. inl refl)
            λ row found checked. by_fetch Q _ _ s (
              by_guard Q _ _ _ s (inl refl) λ permitted. by_fetch Q _ _ s (
                by_some Q _ _ _ s (inl refl) λ g at. by_fetch Q _ _ s (
                  by_fetch Q _ _ s (
                    by_guard Q _ _ _ s (inl refl) λ fits. by_fetch Q _ _ s (
                      by_guard Q _ _ _ s (inl refl) λ early. by_guard Q _ _ _ s (inl refl) λ own.
                        by_commit_total Q _ _ _ _ s (
                          let (f, here) = owned_file j i u s belongs (owned i u s permitted) in
                          let deleted = passed (deleted_file_at j) s.db.files at in
                          let size : size_or_zero (find_row (file_at j) s.db.files) ≡ f.file_size =
                            rw here.0 refl in
                          inr (
                            known bcrypt password u s row found checked,
                            (
                              f,
                              i,
                              here,
                              ground (arith, fits, size),
                              (
                                g,
                                at,
                                ground (arith, deleted),
                                own_removal s.now g.deleted_at g.deleted_by
                                    (and_right (g.index == j) (not (is_none g.deleted_at)) deleted)
                                    early own,
                              ),
                            ),
                          ))))))))
