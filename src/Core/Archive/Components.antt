-- ===== src/Core/Archive/Components.antt =====
-- archive.rs, `safe_component`: what an accepted file name cannot be, and the slice that panics.
use immich_rs.Core.Archive.{
  is_continuation, before_dot, canonical_uuid_v4, is_device_stem, is_unsafe_name, stem_of,
  ArchiveAsset, safe_component, validate_asset,
}
use immich_rs.Common.{
  panicked, err, has_control, ◌∷◌, contains_byte, ends_with_byte, str, List, ◌≤◌, text_eq_iff,
  Option, true, arith, length, ok, false, [], ◌≡◌, ◌≢◌, ℕ, Text,
}

-- A name that is accepted can stand as one component of a path: it is neither empty nor longer than
-- 255 bytes, names no directory, ends in no dot or space, holds no separator and no control
-- character.
pub record IsComponent (value : Text) : Type 0 where
  pub nonempty : value ≢ []
  pub short : length value ≤ 255
  pub not_here : value ≢ str "."
  pub not_parent : value ≢ str ".."
  pub no_dot_end : ends_with_byte b'.' value ≡ false
  pub no_space_end : ends_with_byte b' ' value ≡ false
  pub no_slash : contains_byte 47 value ≡ false
  pub no_backslash : contains_byte 92 value ≡ false
  pub no_control : has_control value ≡ false
  pub no_device : is_device_stem (stem_of value) ≡ ok false

is_unsafe_name_sound :
    (value : Text)
    → is_unsafe_name value ≡ false
    → is_device_stem (stem_of value) ≡ ok false
    → IsComponent value
unfolding is_unsafe_name
is_unsafe_name_sound value h d = record {
  nonempty = ground arith;
  short = ground arith;
  not_here = λ e. ground (arith, text_eq_iff value (str "."));
  not_parent = λ e. ground (arith, text_eq_iff value (str ".."));
  no_dot_end = ground arith;
  no_space_end = ground arith;
  no_slash = ground arith;
  no_backslash = ground arith;
  no_control = ground arith;
  no_device = d;
}

pub safe_component_sound : (value : Text) → safe_component value ≡ ok true → IsComponent value
unfolding safe_component
safe_component_sound value h = is_unsafe_name_sound value (ground arith) (ground arith)

pub safe_component_complete : (value : Text) → IsComponent value → safe_component value ≡ ok true
unfolding safe_component is_unsafe_name
safe_component_complete value v =
    ground (arith, v.no_device, text_eq_iff value (str "."), text_eq_iff value (str ".."))

-- An asset with a canonical identifier makes the validator panic, whatever the rest of it holds, when
-- its file name passes the tests on the whole name and has exactly four bytes before the first dot,
-- the last of which lies inside a character.
pub validate_asset_panics :
    (asset : ArchiveAsset) (previous : Option Text) (ids : List Text) (a b c d : ℕ)
    → canonical_uuid_v4 asset.asset_id ≡ true
    → is_unsafe_name asset.original_file_name ≡ false
    → before_dot asset.original_file_name ≡ a ∷ b ∷ c ∷ d ∷ []
    → is_continuation d ≡ true
    → validate_asset asset previous ids ≡ err panicked
unfolding validate_asset safe_component stem_of is_device_stem
validate_asset_panics asset previous ids a b c d u n s k = ground arith
