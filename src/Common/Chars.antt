-- ===== src/Common/Chars.antt =====
-- What the source uses of `char`, `u8` and `str`: character classes, decoding, trimming.
use Prim.Native.Nat.{ℕ, zero, suc, ◌+◌, ◌-◌, ◌*◌}
use mathlib.Core.Path.{◌≡◌, refl}
use mathlib.Core.Bool.{Bool, true, false, ◌&&◌, ◌||◌, not}
use mathlib.Core.List.{List, [], ◌∷◌}
use native.Mathlib.Omega.{arith}
use immich_rs.Common.Tests.{ltb, leb, ◌==◌, within, if◌then◌else◌}
use immich_rs.Common.Lists.{any}
use immich_rs.Common.Bytes.{Text}

-- `u8::is_ascii_digit`, `is_ascii_uppercase`, `is_ascii_hexdigit`
abbrev pub is_ascii_digit : ℕ → Bool
is_ascii_digit b = within b'0' b'9' b

abbrev pub is_ascii_uppercase : ℕ → Bool
is_ascii_uppercase b = within b'A' b'Z' b

abbrev pub is_ascii_hexdigit : ℕ → Bool
is_ascii_hexdigit b = is_ascii_digit b || (within b'a' b'f' b || within b'A' b'F' b)

-- `byte.is_ascii_digit() || (b'a'..=b'f').contains(&byte)`
abbrev pub is_lower_hexdigit : ℕ → Bool
is_lower_hexdigit b = is_ascii_digit b || within b'a' b'f' b

-- The two ways in which the source says "lowercase hexadecimal" agree on every byte.
pub lower_hexdigit_agree :
    (b : ℕ) → (is_ascii_hexdigit b && not (is_ascii_uppercase b)) ≡ is_lower_hexdigit b
lower_hexdigit_agree b = ground arith

-- `char::is_control`: the general category Cc.
abbrev pub is_control : ℕ → Bool
is_control c = leb c 31 || within 127 159 c

-- `char::is_whitespace`: the property White_Space.
abbrev pub is_whitespace : ℕ → Bool
is_whitespace c =
    within 9 13 c
    || (c == 32
        || (c == 0x85
            || (c == 0xa0
                || (c == 0x1680
                    || (within 0x2000 0x200a c
                        || (c == 0x2028
                            || (c == 0x2029 || (c == 0x202f || (c == 0x205f || c == 0x3000)))))))))

-- `str::chars`: the first byte of a character says how many follow, with six bits each.
unfoldable pub chars_from : ℕ → ℕ → Text → List ℕ
chars_from left value [] = []
chars_from zero value (b ∷ rest) = elim (ltb b 128) [
  | true ↦ b ∷ chars_from 0 0 rest
  | false ↦ elim (ltb b 224) [
    | true ↦ chars_from 1 (b - 192) rest
    | false ↦ chars_from (if ltb b 240 then 2 else 3) (if ltb b 240 then b - 224 else b - 240) rest
  ]
]
chars_from (suc zero) value (b ∷ rest) = (value * 64 + (b - 128)) ∷ chars_from 0 0 rest
chars_from (suc (suc left)) value (b ∷ rest) = chars_from (suc left) (value * 64 + (b - 128)) rest

unfoldable pub chars : Text → List ℕ
unfolding chars_from
chars = chars_from 0 0

-- `value.chars().any(char::is_control)`
unfoldable pub has_control : Text → Bool
unfolding chars
has_control value = any is_control (chars value)

last_is_whitespace : List ℕ → Bool
last_is_whitespace [] = false
last_is_whitespace (c ∷ []) = is_whitespace c
last_is_whitespace (_ ∷ d ∷ rest) = last_is_whitespace (d ∷ rest)

first_is_whitespace : List ℕ → Bool
first_is_whitespace [] = false
first_is_whitespace (c ∷ _) = is_whitespace c

-- `value.trim() == value`: no white space at either end.
unfoldable pub is_trimmed : Text → Bool
unfolding chars first_is_whitespace last_is_whitespace
is_trimmed value = not (first_is_whitespace (chars value)) && not (last_is_whitespace (chars value))

-- `value.contains(byte)` for an ASCII character
unfoldable pub contains_byte : ℕ → Text → Bool
contains_byte b value = any (λ c. c == b) value

-- `value.ends_with(byte)` for an ASCII character
unfoldable pub ends_with_byte : ℕ → Text → Bool
ends_with_byte b [] = false
ends_with_byte b (c ∷ []) = c == b
ends_with_byte b (_ ∷ d ∷ rest) = ends_with_byte b (d ∷ rest)

-- `value.contains(['/', '\\'])`
abbrev pub has_separator : Text → Bool
has_separator value = contains_byte 47 value || contains_byte 92 value

-- U+00E9 in two bytes, U+20AC in three and U+1F600 in four
chars_decode :
    chars (0xc3 ∷ 0xa9 ∷ 0xe2 ∷ 0x82 ∷ 0xac ∷ 0xf0 ∷ 0x9f ∷ 0x98 ∷ 0x80 ∷ b'a' ∷ [])
    ≡ 0xe9 ∷ 0x20ac ∷ 0x1f600 ∷ b'a' ∷ []
unfolding chars
chars_decode = refl
