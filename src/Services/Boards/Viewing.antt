-- ===== src/Services/Boards/Viewing.antt =====
-- app/services/boards.py: how often the views of one board by one viewer are recorded, and that
-- viewing keeps the tables boards and files consistent.
use fast_api_community_backe.Security.{
  Tokens, Decoded, payload, expired_signature, jwt_error, actual_token,
}
use fast_api_community_backe.Exec.Rules.{by_ok}
use fast_api_community_backe.Consistency.{IsConsistent, Kept}
use fast_api_community_backe.Common.{
  String, ℕ, ◌≡◌, refl, inl, inr, Option, none, some, Option-cases, ◌++◌, [], ◌∷◌,
}
use fast_api_community_backe.Db.{Db}
use fast_api_community_backe.Exec.{State, ok, live_value, ◌>>=◌}
use fast_api_community_backe.Models.Boards.Listing.{pull_board_info_by_index}
use fast_api_community_backe.Services.Boards.Views.{
  Viewer, viewer_of, non_empty, user_of_token, user_of_payload, get_viewer, view_board, view_key,
  record_view, single_board_info_services,
}

module _ (i : ℕ) (viewer : Viewer) (s : State) where
  -- the tables with one row more at the end of boards_view: this board, this viewer, this moment
  abbrev pub with_view : ℕ → Db → Db
  with_view now db = record db {
    boards_view =
        db.boards_view
        ++ record {
          board_index = i;
          user_index = viewer.user_index;
          anonymous_id = viewer.anonymous_id;
          viewed_at = now;
        }
          ∷ [];
  }

-- Who a viewer is can always be told, and telling it changes nothing.
module _ (tokens : Tokens) (s : State) where
  user_of_payload-ok : (d : Decoded) → (i : Option ℕ) × (user_of_payload tokens d s ≡ (ok i, s))
  unfolding user_of_payload ◌>>=◌
  user_of_payload-ok (payload none) = (none, refl)
  user_of_payload-ok (payload (some String.[])) = (none, refl)
  user_of_payload-ok (payload (some (String.◌∷◌ c t))) = (_, refl)
  user_of_payload-ok expired_signature = (none, refl)
  user_of_payload-ok jwt_error = (none, refl)

  user_of_token-ok :
      (token : Option String) → (i : Option ℕ) × (user_of_token tokens token s ≡ (ok i, s))
  unfolding user_of_token ◌>>=◌
  user_of_token-ok none = (none, refl)
  user_of_token-ok (some token) = user_of_payload-ok (tokens.decode (actual_token token) s.now)

  get_viewer-ok :
      (access_token anonymous_id : Option String) (drawn : String)
      → (viewer : Viewer) × (get_viewer tokens access_token anonymous_id drawn s ≡ (ok viewer, s))
  unfolding get_viewer ◌>>=◌
  get_viewer-ok access_token anonymous_id drawn =
      let (user_index, found) = user_of_token-ok (non_empty access_token) in
      let named : get_viewer tokens access_token anonymous_id drawn s
          ≡ (ok (viewer_of user_index anonymous_id drawn), s) =
        rw found refl in
      (viewer_of user_index anonymous_id drawn, named)

  single_board_info-IsConsistent :
      (i : ℕ) (viewer : Viewer)
      → IsConsistent s
      → IsConsistent (single_board_info_services i viewer s).1
  unfolding single_board_info_services record_view ◌>>=◌
  single_board_info-IsConsistent i viewer h =
      elim (Option-cases (pull_board_info_by_index i s.now s.db)) [
        | inl e ↦ rw e h
        | inr (row, e) ↦ elim (Option-cases (live_value s.now (s.redis (view_key i viewer)))) [
          | inl f ↦ rw (e, f) (record { keys = h.keys; totals = h.totals })
          | inr (v, f) ↦ rw (e, f) h
        ]
      ]

  pub view_board-IsConsistent :
      (access_token anonymous_id : Option String) (drawn : String) (i : ℕ)
      → IsConsistent s
      → IsConsistent (view_board tokens access_token anonymous_id drawn i s).1
  unfolding view_board
  view_board-IsConsistent access_token anonymous_id drawn i h =
      let (viewer, named) = get_viewer-ok access_token anonymous_id drawn in
      by_ok Kept (get_viewer tokens access_token anonymous_id drawn) (single_board_info_services i)
        s named (single_board_info-IsConsistent i viewer h)
