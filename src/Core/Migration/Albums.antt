-- ===== src/Core/Migration/Albums.antt =====
-- migration.rs, `validate_albums`: the accepted album lists.
use immich_rs.Common.{
  refl, not, Ascends-iff, none-any, any-none, Before, >>=-eq-ok, windows_iff, some, AllPairs, ◌∷◌,
  ◌≢◌, ◌↔◌, arith, false, true, ok, All, ◌≡◌, [], not_after, none, Ascends, map, Option, List, Text,
}
use immich_rs.Common.Map.{contains_key, insert_all, keys_of, Holds, contains_key_iff}
use immich_rs.Core.Platform.{Platform}
use immich_rs.Core.Roles.{UploadRole}
use immich_rs.Core.Metadata.{valid_album, metadata_is_valid}
use immich_rs.Core.Migration.{MigrationAlbum, validate_album, validate_albums}

-- A titled album with a strictly ordered, nonempty list of members out of the plan's operations.
pub record IsMigrationAlbum (operation_ids : List Text) (album : MigrationAlbum) : Type 0 where
  pub title : valid_album album.name ≡ true
  pub nonempty : album.member_operation_ids ≢ []
  pub ordered : AllPairs Before album.member_operation_ids
  pub members : All (λ k. Holds k operation_ids) album.member_operation_ids

module _ (platform : Platform) (previous : Option Text) (entries : List (Text × UploadRole)) where
  validate_album_sound :
      (album : MigrationAlbum)
      → validate_album platform previous (insert_all entries []) album ≡ ok tt
      → (not_after previous album.name ≡ false) × IsMigrationAlbum (keys_of entries) album
  unfolding validate_album metadata_is_valid
  validate_album_sound album h = (
    ground arith,
    record {
      title = ground arith;
      nonempty = ground arith;
      ordered = (windows_iff album.member_operation_ids).0 (ground arith);
      members =
          any-none (λ k. not (contains_key k (insert_all entries [])))
            (λ k. Holds k (keys_of entries)) album.member_operation_ids
            (λ k e. (contains_key_iff k entries).0 (ground arith)) (ground arith);
    },
  )

  validate_album_complete :
      (album : MigrationAlbum)
      → not_after previous album.name ≡ false
      → IsMigrationAlbum (keys_of entries) album
      → validate_album platform previous (insert_all entries []) album ≡ ok tt
  unfolding validate_album metadata_is_valid
  validate_album_complete album sorted v = ground (
    arith,
    (windows_iff album.member_operation_ids).1 v.ordered,
    none-any (λ k. not (contains_key k (insert_all entries []))) (λ k. Holds k (keys_of entries))
        album.member_operation_ids (λ k e. ground (arith, (contains_key_iff k entries).1 e))
        v.members,
  )

abbrev pub album_names : List MigrationAlbum → List Text
album_names albums = map (λ (a : MigrationAlbum). a.name) albums

module _ (platform : Platform) (entries : List (Text × UploadRole)) where
  validate_albums_sound :
      (previous : Option Text) (albums : List MigrationAlbum)
      → validate_albums platform previous (insert_all entries []) albums ≡ ok tt
      → Ascends previous (album_names albums) × All (IsMigrationAlbum (keys_of entries)) albums
  unfolding validate_albums
  validate_albums_sound previous [] h = (tt, tt)
  validate_albums_sound previous (album ∷ rest) h =
      let (_, step, later) =
        >>=-eq-ok (validate_album platform previous (insert_all entries []) album) _ h in
      let (sorted, good) = validate_album_sound platform previous entries album step in
      let (a, o) = validate_albums_sound (some album.name) rest later in ((sorted, a), (good, o))

  validate_albums_complete :
      (previous : Option Text) (albums : List MigrationAlbum)
      → Ascends previous (album_names albums)
      → All (IsMigrationAlbum (keys_of entries)) albums
      → validate_albums platform previous (insert_all entries []) albums ≡ ok tt
  unfolding validate_albums
  validate_albums_complete previous [] a o = refl
  validate_albums_complete previous (album ∷ rest) a o =
      rw (validate_album_complete platform previous entries album a.0 o.0)
        (validate_albums_complete (some album.name) rest a.1 o.1)

  -- The albums are in strict order of their names and each is well formed.
  pub validate_albums_iff :
      (albums : List MigrationAlbum)
      → (validate_albums platform none (insert_all entries []) albums ≡ ok tt)
        ↔ (AllPairs Before (album_names albums) × All (IsMigrationAlbum (keys_of entries)) albums)
  validate_albums_iff albums = (
    λ h.
        let (a, o) = validate_albums_sound none albums h in
        ((Ascends-iff (album_names albums)).0 a, o),
    λ h. validate_albums_complete none albums ((Ascends-iff (album_names albums)).1 h.0) h.1,
  )
