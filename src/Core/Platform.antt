-- ===== src/Core/Platform.antt =====
-- What the validators call outside the repository: the `time` crate, `serde_json` and SHA-256 are
-- not part of the source, and floating point has no counterpart here.
use immich_rs.Common.{ℤ, ℕ, Bool, Option, Text}

pub record Platform : Type 1 where
  -- `OffsetDateTime::parse(value, &Rfc3339)` and `instant.format(&Rfc3339)`
  pub Instant : Type 0
  pub parse_rfc3339 : Text → Option Instant
  pub format_rfc3339 : Instant → Option Text
  -- `value.parse::<f64>()`, `number == 0.0`, `number.to_string()`, `number.is_finite()`, `<=`
  pub Float : Type 0
  pub parse_f64 : Text → Option Float
  pub is_zero : Float → Bool
  pub show_f64 : Float → Text
  pub is_finite : Float → Bool
  pub le_f64 : Float → Float → Bool
  -- the literals `n.0` and `-n.0`
  pub plus : ℕ → Float
  pub minus : ℕ → Float
  -- `OffsetDateTime::from_unix_timestamp_nanos(nanos).is_ok()`
  pub valid_unix_nanos : ℤ → Bool
