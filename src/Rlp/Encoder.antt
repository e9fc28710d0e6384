-- ===== src/Rlp/Encoder.antt =====
-- core/rlp-codec/src/encoder.rs: encoding into a byte buffer, and the predicted length. A buffer
-- is the list of the bytes written so far; lengths are those of buffers in memory.
use rust_eth_playground.Prelude.{
  ℕ, zero, suc, ◌+◌, ◌/◌, ◌%◌, Bool, false, [], ◌∷◌, ◌++◌, reverse, length, leb, ltb, ◌==◌,
  if◌then◌else◌, Bytes, as_u8, Result, ok, ◌>>=◌,
}
use rust_eth_playground.Rlp.Item.{RlpItem, RlpItems, bytes, list, nil, cons, RlpError}

-- `data.len() == 1 && data[0] < 0x80`.
abbrev pub is_single_byte : Bytes → Bool
is_single_byte [] = false
is_single_byte (b ∷ []) = ltb b 0x80
is_single_byte (b ∷ c ∷ rest) = false

-- The loop of `encode_length`: eight rounds are enough for a `usize`.
unfoldable pub encode_length_loop : ℕ → ℕ → Bytes → Bytes
encode_length_loop zero val acc = acc
encode_length_loop (suc fuel) val acc =
    let pushed = acc ++ (val % 256 ∷ []) in
    let more = encode_length_loop fuel (val / 256) pushed in if leb val 0xff then pushed else more

unfoldable pub encode_length : ℕ → Bytes
unfolding encode_length_loop
encode_length value = reverse (encode_length_loop 8 value [])

unfoldable pub add_rlp_list_prefix : Bytes → ℕ → Bytes
add_rlp_list_prefix buffer encoded_items_len =
    if leb encoded_items_len 55
    then buffer ++ (as_u8 (0xc0 + as_u8 encoded_items_len) ∷ [])
    else (let length_bytes = encode_length encoded_items_len in
        (buffer ++ (as_u8 (0xf7 + as_u8 (length length_bytes)) ∷ [])) ++ length_bytes)

-- The branch of `encode` for a byte string.
unfoldable pub encode_bytes : Bytes → Bytes → Bytes
encode_bytes content buffer =
    if is_single_byte content
    then buffer ++ content
    else (if leb (length content) 55
        then (buffer ++ (as_u8 (0x80 + as_u8 (length content)) ∷ [])) ++ content
        else (let length_bytes = encode_length (length content) in
            ((buffer ++ (as_u8 (0xb7 + as_u8 (length length_bytes)) ∷ [])) ++ length_bytes)
            ++ content))

-- `encode_items` is the loop over the items of a list.
unfoldable mutual
  pub encode : RlpItem → Bytes → Result RlpError Bytes
  encode (bytes content) buffer = ok (encode_bytes content buffer)
  encode (list items) buffer = encode_items items [] >>= λ encoded_items.
      ok (add_rlp_list_prefix buffer (length encoded_items) ++ encoded_items)

  pub encode_items : RlpItems → Bytes → Result RlpError Bytes
  encode_items nil buffer = ok buffer
  encode_items (cons item items) buffer =
      encode item buffer >>= λ written. encode_items items written

-- `usize::BITS - value.leading_zeros()`, the number of significant bits.
unfoldable pub significant_bits : ℕ → ℕ → ℕ
significant_bits zero value = 0
significant_bits (suc width) value =
    let rest = significant_bits width (value / 2) in if value == 0 then 0 else suc rest

-- `bits.div_ceil(8)`.
unfoldable pub encoded_length_len : ℕ → ℕ
encoded_length_len value = (significant_bits 64 value + 7) / 8

-- `list_prefix_len` is this function too.
unfoldable pub length_prefix_len : ℕ → ℕ
length_prefix_len payload_len = if leb payload_len 55 then 1 else 1 + encoded_length_len payload_len

unfoldable mutual
  pub encoded_len : RlpItem → ℕ
  encoded_len (bytes content) =
      if is_single_byte content then 1 else length_prefix_len (length content) + length content
  encoded_len (list items) = length_prefix_len (encoded_len_items items) + encoded_len_items items

  pub encoded_len_items : RlpItems → ℕ
  encoded_len_items nil = 0
  encoded_len_items (cons item items) = encoded_len item + encoded_len_items items
