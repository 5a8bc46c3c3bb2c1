-- ===== src/Core/Roles.antt =====
-- upload.rs `UploadRole`, and the check that upload.rs and migration.rs both make of it: the image of
-- a live photo names a video of the plan, with the same pair.
use immich_rs.Common.{
  err, refl, text_eq, >>=-eq-ok, text_eq_iff, not, ◌>>◌, text_eq_refl, All, inr, refuse_if, ◌∷◌,
  arith, inl, ◌↔◌, ok, some, [], Distinct, ◌≡◌, List, Result, Option, Text,
}
use immich_rs.Common.Map
use immich_rs.Common.Map.{
  Map, Entry, keys_of, insert_all, get-insert_all_sound, get-insert_all_complete,
}

pub data UploadRole : Type 0 where
  standalone : UploadRole
  live_photo_video : Text → UploadRole
  live_photo_image : Text → Text → UploadRole

module _ {E : Type 0} (bad : E) where
  -- The `match roles.get(video_operation_id)`; `bad` is the caller's error.
  unfoldable pub match_video : Text → Option UploadRole → Result E (Unit {0})
  match_video pair_id (some (live_photo_video video_pair)) =
      refuse_if (not (text_eq video_pair pair_id)) bad
  match_video pair_id _ = err bad

  unfoldable pub check_role : Map UploadRole → UploadRole → Result E (Unit {0})
  check_role roles (live_photo_image pair_id video_operation_id) =
      match_video pair_id (Map.get video_operation_id roles)
  check_role roles _ = ok tt

  unfoldable pub check_roles : List UploadRole → Map UploadRole → Result E (Unit {0})
  check_roles [] roles = ok tt
  check_roles (role ∷ rest) roles = do check_role roles role; check_roles rest roles

-- What a role requires of the plan's operations.
abbrev pub RoleMet : List (Text × UploadRole) → UploadRole → Type 0
RoleMet entries (live_photo_image pair_id video_operation_id) =
    Entry video_operation_id (live_photo_video pair_id) entries
RoleMet entries _ = Unit

module _ {E : Type 0} (bad : E) where
  match_video_sound :
      (pair_id : Text) (found : Option UploadRole)
      → match_video bad pair_id found ≡ ok tt
      → found ≡ some (live_photo_video pair_id)
  unfolding match_video
  match_video_sound pair_id (some (live_photo_video other)) h =
      ground (arith, text_eq_iff other pair_id)
  match_video_sound pair_id _ h = cc

  check_role_sound :
      (entries : List (Text × UploadRole)) (role : UploadRole)
      → check_role bad (insert_all entries []) role ≡ ok tt
      → RoleMet entries role
  unfolding check_role Map.get
  check_role_sound entries standalone h = tt
  check_role_sound entries (live_photo_video _) h = tt
  check_role_sound entries (live_photo_image pair_id video) h =
      let found : Map.get video (insert_all entries []) ≡ some (live_photo_video pair_id) =
        match_video_sound pair_id _ h in
      elim (get-insert_all_sound video (live_photo_video pair_id) entries [] found) [
        | inl there ↦ there
        | inr nowhere ↦ cc
      ]

  check_role_complete :
      (entries : List (Text × UploadRole)) (role : UploadRole)
      → Distinct (keys_of entries)
      → RoleMet entries role
      → check_role bad (insert_all entries []) role ≡ ok tt
  unfolding check_role match_video
  check_role_complete entries standalone d h = refl
  check_role_complete entries (live_photo_video _) d h = refl
  check_role_complete entries (live_photo_image pair_id video) d h = ground (
    arith,
    get-insert_all_complete video (live_photo_video pair_id) entries [] d h,
    text_eq_refl pair_id,
  )

  -- The loop accepts exactly the roles whose requirement the plan meets.
  pub check_roles_iff :
      (entries : List (Text × UploadRole)) (roles : List UploadRole)
      → Distinct (keys_of entries)
      → (check_roles bad roles (insert_all entries []) ≡ ok tt) ↔ All (RoleMet entries) roles
  unfolding check_roles
  check_roles_iff entries [] d = (λ _. tt, λ _. refl)
  check_roles_iff entries (role ∷ rest) d = (
    λ h.
        let (_, first, later) = >>=-eq-ok (check_role bad (insert_all entries []) role) _ h in
        (check_role_sound entries role first, (check_roles_iff entries rest d).0 later),
    λ h. rw (check_role_complete entries role d h.0) ((check_roles_iff entries rest d).1 h.1),
  )
