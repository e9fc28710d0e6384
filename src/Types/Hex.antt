-- ===== src/Types/Hex.antt =====
-- core/types/src/error.rs and macros.rs: byte arrays as hexadecimal text. A text is the list of its
-- bytes.
use rust_eth_playground.Prelude.{
  ℕ, ◌+◌, ◌-◌, ◌*◌, ◌/◌, ◌%◌, ◌<◌, ◌≡◌, refl, Bool, true, false, ◌&&◌, ◌||◌, not, Option, none,
  some, [], ◌∷◌, length, ltb, leb, ◌==◌, ==_iff, if◌then◌else◌, All, IsByte, Bytes, Result, ok,
  panic, ◌>>=◌, ◌>>◌, raise_if, ok_or, arith,
}
use rust_eth_playground.Types.Primitives.{
  ParseError, invalid_hex, odd_hex_length, try_from, IsArray,
}

unfoldable pub check_hex_char : ℕ → Option ℕ
check_hex_char c =
    if leb 0x30 c && leb c 0x39
    then some (c - 0x30)
    else if leb 0x61 c && leb c 0x66
    then some (c - 0x61 + 10)
    else if leb 0x41 c && leb c 0x46
    then some (c - 0x41 + 10)
    else none

-- The loop over the pairs of characters, from the place of the first in the text. Both values are
-- below 16, so that `|` adds.
unfoldable pub decode_pairs : ℕ → Bytes → Result ParseError Bytes
decode_pairs i [] = ok []
decode_pairs i (high ∷ []) = panic
decode_pairs i (high ∷ low ∷ rest) = do
  high_val ← ok_or (check_hex_char high) (invalid_hex high i)
  low_val ← ok_or (check_hex_char low) (invalid_hex low (i + 1))
  decoded ← decode_pairs (i + 2) rest
  ok ((high_val * 16 + low_val) ∷ decoded)

-- `starts_with("0x") || starts_with("0X")`, and the text after it.
abbrev pub decode_digits : Bytes → Result ParseError Bytes
decode_digits [] = decode_pairs 0 []
decode_digits (c ∷ []) = decode_pairs 0 (c ∷ [])
decode_digits (c ∷ x ∷ rest) =
    if c == 0x30 && (x == 0x78 || x == 0x58)
    then decode_pairs 2 rest
    else decode_pairs 0 (c ∷ x ∷ rest)

unfoldable pub decode_hex : Bytes → Result ParseError Bytes
decode_hex [] = ok []
decode_hex (c ∷ s) = do
  raise_if (not (length (c ∷ s) % 2 == 0)) (odd_hex_length (length (c ∷ s)))
  decode_digits (c ∷ s)

-- `FromStr` of an array of `n` bytes.
unfoldable pub from_str : ℕ → Bytes → Result ParseError Bytes
from_str n s = decode_hex s >>= λ x. try_from n x

-- A digit of `{:02x}` and of `{:02X}`.
abbrev pub lower_digit : ℕ → ℕ
lower_digit n = if ltb n 10 then 0x30 + n else 0x57 + n

abbrev pub upper_digit : ℕ → ℕ
upper_digit n = if ltb n 10 then 0x30 + n else 0x37 + n

unfoldable pub write_bytes : (ℕ → ℕ) → Bytes → Bytes
write_bytes digit [] = []
write_bytes digit (b ∷ x) = digit (b / 16) ∷ digit (b % 16) ∷ write_bytes digit x

abbrev pub with_prefix : Bool → Bytes → Bytes
with_prefix true s = 0x30 ∷ 0x78 ∷ s
with_prefix false s = s

-- `LowerHex`, `UpperHex`, with the flag of `#`, and `Display`.
unfoldable pub lower_hex : Bool → Bytes → Bytes
lower_hex alternate x = with_prefix alternate (write_bytes lower_digit x)

unfoldable pub upper_hex : Bool → Bytes → Bytes
upper_hex alternate x = with_prefix alternate (write_bytes upper_digit x)

unfoldable pub display : Bytes → Bytes
display x = with_prefix true (write_bytes lower_digit x)

-- A way to write digits that is read back.
record IsDigit (digit : ℕ → ℕ) : Type 0 where
  read_back : (n : ℕ) → n < 16 → check_hex_char (digit n) ≡ some n
  no_prefix : (n : ℕ) → n < 16 → (digit n == 0x78 || digit n == 0x58) ≡ false

lower_digit-IsDigit : IsDigit lower_digit
unfolding check_hex_char
lower_digit-IsDigit = record { read_back = λ n h. ground arith; no_prefix = λ n h. ground arith }

upper_digit-IsDigit : IsDigit upper_digit
unfolding check_hex_char
upper_digit-IsDigit = record { read_back = λ n h. ground arith; no_prefix = λ n h. ground arith }

length-write_bytes : (digit : ℕ → ℕ) (x : Bytes) → length (write_bytes digit x) ≡ 2 * length x
unfolding write_bytes
length-write_bytes digit [] = omega arith
length-write_bytes digit (b ∷ x) = omega (arith, length-write_bytes digit x)

module _ (digit : ℕ → ℕ) (d : IsDigit digit) where
  decode_pairs-write_bytes :
      (i : ℕ) (x : Bytes) → All IsByte x → decode_pairs i (write_bytes digit x) ≡ ok x
  unfolding decode_pairs write_bytes
  decode_pairs-write_bytes i [] h = refl
  decode_pairs-write_bytes i (b ∷ x) h =
      let whole : b / 16 * 16 + b % 16 ≡ b = omega arith in
      rw
        (
          d.read_back (b / 16) (omega (arith, h.0)),
          d.read_back (b % 16) (omega arith),
          decode_pairs-write_bytes (i + 2) x h.1,
          whole,
        )
        refl

  even : (x : Bytes) → (length (write_bytes digit x) % 2 == 0) ≡ true
  even x = ground (arith, length-write_bytes digit x)

  decode_hex-with_prefix :
      (alternate : Bool) (x : Bytes)
      → All IsByte x
      → decode_hex (with_prefix alternate (write_bytes digit x)) ≡ ok x
  unfolding decode_hex write_bytes decode_pairs
  decode_hex-with_prefix true x h =
      let two : (length (with_prefix true (write_bytes digit x)) % 2 == 0) ≡ true =
        ground (arith, length-write_bytes digit x) in
      rw (two, decode_pairs-write_bytes 2 x h) refl
  decode_hex-with_prefix false [] h = refl
  decode_hex-with_prefix false (b ∷ x) h =
      let plain : (digit (b / 16) == 0x30 && (digit (b % 16) == 0x78 || digit (b % 16) == 0x58))
          ≡ false =
        ground (arith, d.no_prefix (b % 16) (omega arith)) in
      let two : (length (digit (b / 16) ∷ digit (b % 16) ∷ write_bytes digit x) % 2 == 0) ≡ true =
        even (b ∷ x) in
      rw (two, plain) (decode_pairs-write_bytes 0 (b ∷ x) h)

-- An array that is written in any of the forms, lower or upper case, with `0x` before it or
-- without, or by `Display`, is read back by `from_str`.
pub from_str-display :
    (n : ℕ) (x : Bytes) (alternate : Bool)
    → IsArray n x
    → (from_str n (display x) ≡ ok x)
      × (from_str n (lower_hex alternate x) ≡ ok x)
      × (from_str n (upper_hex alternate x) ≡ ok x)
unfolding from_str display lower_hex upper_hex
from_str-display n x alternate h =
    let sized : (length x == n) ≡ true = (==_iff (length x) n).1 h.0 in
    (
      rw (decode_hex-with_prefix lower_digit lower_digit-IsDigit true x h.1, sized) refl,
      rw (decode_hex-with_prefix lower_digit lower_digit-IsDigit alternate x h.1, sized) refl,
      rw (decode_hex-with_prefix upper_digit upper_digit-IsDigit alternate x h.1, sized) refl,
    )
