-- ===== src/Core/Metadata.antt =====
-- crates/immich-core/src/metadata.rs: normalized metadata and its validity.
use immich_rs.Common.{
  ℕ, ◌*◌, Bool, true, false, not, ◌&&◌, ◌||◌, Option, List, [], ◌∷◌, Text, str, text_eq, text_lt,
  leb, ◌==◌, length, all, any, windows_all, is_none_or, is_some_and, is_some, is_control, chars,
  has_control, contains_byte, ends_with_byte, has_separator, if◌then◌else◌,
}
use immich_rs.Core.Platform.{Platform}

pub record GeoCoordinates : Type 0 where
  pub latitude : Text
  pub longitude : Text

pub record NormalizedMetadata : Type 0 where
  pub description : Option Text
  pub taken_at_utc : Option Text
  pub location : Option GeoCoordinates
  pub albums : List Text

abbrev pub is_empty : Text → Bool
is_empty [] = true
is_empty (_ ∷ _) = false

unfoldable pub valid_album : Text → Bool
valid_album value =
    not (is_empty value)
    && (leb (length value) 4096 && (not (contains_byte 92 value) && not (has_control value)))

-- `"\n\r\t".contains(character)`
abbrev is_layout : ℕ → Bool
is_layout c = c == 10 || (c == 13 || c == 9)

unfoldable pub valid_text : Text → ℕ → Bool → Bool
valid_text value max_bytes allow_layout =
    not (is_empty value)
    && (leb (length value) max_bytes
        && (not (any (λ c. is_control c && not (allow_layout && is_layout c)) (chars value))
            && (allow_layout || not (has_separator value))))

module _ (platform : Platform) where
  open platform use {
    parse_rfc3339, format_rfc3339, Float, parse_f64, is_zero, show_f64, is_finite, le_f64, plus,
    minus,
  }

  unfoldable pub decimal_in_range : Text → Float → Float → Bool
  decimal_in_range value minimum maximum = is_some_and (parse_f64 value) λ number.
      let canonical : Text = if is_zero number then str "0" else show_f64 number in
      is_finite number
      && ((le_f64 minimum number && le_f64 number maximum) && text_eq value canonical)

  unfoldable pub coordinates_is_valid : GeoCoordinates → Bool
  coordinates_is_valid c =
      decimal_in_range c.latitude (minus 90) (plus 90)
      && decimal_in_range c.longitude (minus 180) (plus 180)

  unfoldable pub valid_instant : Text → Bool
  valid_instant value = is_some_and (parse_rfc3339 value) λ instant.
      is_some_and (format_rfc3339 instant)
        λ canonical. text_eq canonical value && ends_with_byte b'Z' value

  unfoldable pub metadata_is_valid : NormalizedMetadata → Bool
  metadata_is_valid m =
      is_none_or m.description (λ value. valid_text value (16 * 1024) true)
      && (is_none_or m.taken_at_utc valid_instant
          && (is_none_or m.location coordinates_is_valid
              && (all valid_album m.albums && windows_all text_lt m.albums)))

-- `has_metadata`, `has_metadata_assignment`, `has_assignment`: there is something to assign.
abbrev pub has_metadata : NormalizedMetadata → Bool
has_metadata m = is_some m.description || (is_some m.taken_at_utc || is_some m.location)
