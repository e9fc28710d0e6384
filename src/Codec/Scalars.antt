-- ===== src/Codec/Scalars.antt =====
-- core/rlp-codec/src/traits.rs: integers, booleans, byte strings and byte arrays as RLP items.
use rust_eth_playground.Prelude.{
  ℕ, ◌-◌, ◌^◌, ◌<◌, ◌≡◌, refl, ap, ◌∙◌, Bool, true, false, not, none, some, List, [], ◌∷◌, length,
  get_elem?, ltb, ◌==◌, ==_iff, if◌then◌else◌, Bytes, copy_to_end, copy_to_end-le, ◌≤◌, ◌>>=◌,
  Result, ok, err, panic, ◌>>◌, raise_if, map_err, le→ltb_false, arith,
}
use rust_eth_playground.Types.Primitives.{IsArray, try_from}
use rust_eth_playground.Rlp.Item.{RlpItem, bytes, list, RlpError, invalid_length, unexpected_type}
use rust_eth_playground.Rlp.BigEndian.{
  from_be, to_be, strip_zeros, from_be-zeros, from_be-strip_zeros, from_be-to_be, length-to_be,
  length-strip_zeros,
}

-- `x[i]` on a vector of items: out of range it panics.
abbrev pub index : List RlpItem → ℕ → Result RlpError RlpItem
index xs i = elim (get_elem? xs i) [ none ↦ panic | some x ↦ ok x ]

-- `if x.len() != n { return Err(InvalidLength(x.len())) }`.
abbrev pub expect_fields : ℕ → List RlpItem → Result RlpError (Unit {0})
expect_fields n xs = raise_if (not (length xs == n)) (invalid_length (length xs))

-- An unsigned integer of `w` bytes, without its leading zeros.
unfoldable pub uint_to_item : ℕ → ℕ → RlpItem
uint_to_item w x = bytes (strip_zeros (to_be w x))

unfoldable pub uint_from_item : ℕ → RlpItem → Result RlpError ℕ
uint_from_item w (bytes x) = do
  raise_if (ltb w (length x)) (invalid_length (length x))
  arr ← copy_to_end w x
  ok (from_be arr)
uint_from_item w (list x) = err (unexpected_type 0xc0)

abbrev pub u64_to_item : ℕ → RlpItem
u64_to_item = uint_to_item 8

abbrev pub u64_from_item : RlpItem → Result RlpError ℕ
u64_from_item = uint_from_item 8

abbrev pub u128_to_item : ℕ → RlpItem
u128_to_item = uint_to_item 16

abbrev pub u128_from_item : RlpItem → Result RlpError ℕ
u128_from_item = uint_from_item 16

unfoldable pub bool_to_item : Bool → RlpItem
bool_to_item false = bytes (0x00 ∷ [])
bool_to_item true = bytes (0x01 ∷ [])

-- The match on the one byte.
abbrev bool_from_byte : ℕ → Result RlpError Bool
bool_from_byte b =
    if b == 0x00 then ok false else if b == 0x01 then ok true else err (unexpected_type b)

unfoldable pub bool_from_item : RlpItem → Result RlpError Bool
bool_from_item (bytes []) = err (invalid_length 0)
bool_from_item (bytes (b ∷ [])) = bool_from_byte b
bool_from_item (bytes (b ∷ c ∷ rest)) = err (invalid_length (length (b ∷ c ∷ rest)))
bool_from_item (list x) = err (unexpected_type 0xc0)

unfoldable pub vec_to_item : Bytes → RlpItem
vec_to_item x = bytes x

unfoldable pub vec_from_item : RlpItem → Result RlpError Bytes
vec_from_item (bytes x) = ok x
vec_from_item (list x) = err (unexpected_type 0xc0)

-- `Address`, `B256` and `Bloom` share one implementation, at 20, 32 and 256 bytes.
unfoldable pub array_to_item : Bytes → RlpItem
array_to_item x = bytes x

unfoldable pub array_from_item : ℕ → RlpItem → Result RlpError Bytes
array_from_item n (bytes x) = map_err (λ _. invalid_length (length x)) (try_from n x)
array_from_item n (list x) = err (unexpected_type 0xc0)

abbrev pub address_from_item : RlpItem → Result RlpError Bytes
address_from_item = array_from_item 20

abbrev pub b256_from_item : RlpItem → Result RlpError Bytes
b256_from_item = array_from_item 32

abbrev pub bloom_from_item : RlpItem → Result RlpError Bytes
bloom_from_item = array_from_item 256

-- An integer of `w` bytes is read back from its stripped big-endian form.
pub uint_from_item-uint_to_item :
    (w x : ℕ) → x < 256 ^ w → uint_from_item w (uint_to_item w x) ≡ ok x
unfolding uint_to_item uint_from_item
uint_from_item-uint_to_item w x h =
    let stripped = strip_zeros (to_be w x) in
    let short : length stripped ≤ w =
      omega (arith, length-strip_zeros (to_be w x), length-to_be w x) in
    rw (le→ltb_false w (length stripped) short, copy_to_end-le {E = RlpError} w stripped short)
      (ap ok (
        from_be-zeros (w - length stripped) stripped
        ∙ from_be-strip_zeros (to_be w x)
        ∙ from_be-to_be w x h))

pub u64_from_item-u64_to_item : (x : ℕ) → x < 2 ^ 64 → u64_from_item (u64_to_item x) ≡ ok x
u64_from_item-u64_to_item x h = uint_from_item-uint_to_item 8 x h

pub u128_from_item-u128_to_item : (x : ℕ) → x < 2 ^ 128 → u128_from_item (u128_to_item x) ≡ ok x
u128_from_item-u128_to_item x h = uint_from_item-uint_to_item 16 x h

pub bool_from_item-bool_to_item : (b : Bool) → bool_from_item (bool_to_item b) ≡ ok b
unfolding bool_to_item bool_from_item
bool_from_item-bool_to_item true = refl
bool_from_item-bool_to_item false = refl

pub vec_from_item-vec_to_item : (x : Bytes) → vec_from_item (vec_to_item x) ≡ ok x
unfolding vec_to_item vec_from_item
vec_from_item-vec_to_item x = refl

pub array_from_item-array_to_item :
    (n : ℕ) (x : Bytes) → IsArray n x → array_from_item n (array_to_item x) ≡ ok x
unfolding array_to_item array_from_item
array_from_item-array_to_item n x h = rw ((==_iff (length x) n).1 h.0)
