-- ===== src/Rlp/Decoder.antt =====
-- core/rlp-codec/src/decoder.rs: decoding one item off the front of a byte slice.
use rust_eth_playground.Prelude.{
  ℕ, zero, suc, ◌+◌, ◌*◌, ◌-◌, [], ◌∷◌, length, ltb, slice_to, slice_from, copy_to_end, ◌==◌,
  if◌then◌else◌, Bytes, Result, ok, err, panic, ◌>>=◌, ◌>>◌, raise_if,
}
use rust_eth_playground.Rlp.Item.{
  RlpItem, RlpItems, bytes, list, nil, cons, RlpError, input_too_short, invalid_length,
}
use rust_eth_playground.Rlp.BigEndian.{from_be}

-- The length's own bytes, at the end of an array of eight.
unfoldable pub decode_length : Bytes → ℕ → Result RlpError ℕ
decode_length slice len_of_len = do
  raise_if (len_of_len == 0) (invalid_length 0)
  raise_if (ltb (length slice) len_of_len) (input_too_short len_of_len (length slice))
  len_bytes ← slice_to len_of_len slice
  arr ← copy_to_end 8 len_bytes
  ok (from_be arr)

-- The test of a payload's length against the slice, and the two halves `[..n]` and `[n..]`.
unfoldable pub split_payload : ℕ → Bytes → Result RlpError (Bytes × Bytes)
split_payload n slice = do
  raise_if (ltb (length slice) n) (input_too_short n (length slice))
  payload ← slice_to n slice
  rest ← slice_from n slice
  ok (payload, rest)

-- A byte string of `n` bytes.
unfoldable pub decode_string : ℕ → Bytes → Result RlpError (RlpItem × Bytes)
decode_string n slice = split_payload n slice >>= λ (payload, rest). ok (bytes payload, rest)

-- A list whose payload is `n` bytes; `items` decodes the payload.
unfoldable pub decode_list :
    (Bytes → Result RlpError RlpItems) → ℕ → Bytes → Result RlpError (RlpItem × Bytes)
decode_list items n slice = split_payload n slice >>= λ (payload, rest).
    items payload >>= λ decoded. ok (list decoded, rest)

-- The branches of `decode` on the first byte.
unfoldable pub decode_by_prefix :
    (Bytes → Result RlpError RlpItems) → ℕ → Bytes → Result RlpError (RlpItem × Bytes)
decode_by_prefix items b tail =
    if ltb b 0x80
    then ok (bytes (b ∷ []), tail)
    else if ltb b 0xb8
    then decode_string (b - 0x80) tail
    else if ltb b 0xc0
    then (do
      n ← decode_length tail (b - 0xb7)
      remaining_after_len ← slice_from (b - 0xb7) tail
      decode_string n remaining_after_len)
    else if ltb b 0xf8
    then decode_list items (b - 0xc0) tail
    else (do
      n ← decode_length tail (b - 0xf7)
      remaining_after_len ← slice_from (b - 0xf7) tail
      decode_list items n remaining_after_len)

-- `decode`, and its loop `while !payload_slice.is_empty()`, on fuel.
unfoldable mutual
  pub decode_with : ℕ → Bytes → Result RlpError (RlpItem × Bytes)
  decode_with zero input = panic
  decode_with (suc fuel) [] = err (input_too_short 1 0)
  decode_with (suc fuel) (b ∷ tail) = decode_by_prefix (decode_items fuel) b tail

  pub decode_items : ℕ → Bytes → Result RlpError RlpItems
  decode_items zero payload = panic
  decode_items (suc fuel) [] = ok nil
  decode_items (suc fuel) (b ∷ tail) = decode_with fuel (b ∷ tail) >>= λ (item, remaining).
      decode_items fuel remaining >>= λ items. ok (cons item items)

-- Each level and each item takes a byte and two units of fuel.
unfoldable pub decode : Bytes → Result RlpError (RlpItem × Bytes)
decode input = decode_with (2 * length input + 1) input
