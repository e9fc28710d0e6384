-- ===== src/Rlp/RoundTrip.antt =====
-- What core/rlp-codec/src/encoder.rs writes, core/rlp-codec/src/decoder.rs reads back.
use rust_eth_playground.Prelude.{
  ℕ, zero, suc, ◌+◌, ◌*◌, ◌-◌, ◌^◌, ◌≤◌, ◌<◌, ◌≡◌, refl, ap, ◌∙◌, true, false, [], ◌∷◌, ◌++◌,
  append_assoc, length, length-append, slice_to-append, slice_from, slice_from-append,
  copy_to_end-le, leb, ltb, ◌==◌, Bytes, Result, ok, ◌>>=◌, Bool-cases, inl, inr, arith, leb→le,
  le→ltb_false, lt→ltb, ltb→lt,
}
use native.Mathlib.Numerals.{add-one}
use rust_eth_playground.Rlp.Item.{RlpItem, RlpItems, RlpError, bytes, list, nil, cons}
use rust_eth_playground.Rlp.BigEndian.{
  minimal_be, from_be-zeros, from_be-minimal_be, length-minimal_be, length-minimal_be_pos,
}
use rust_eth_playground.Rlp.Encoder.{is_single_byte, encode}
use rust_eth_playground.Rlp.Layout.{header, rlp, rlp_items, encode-rlp}
use rust_eth_playground.Rlp.Lengths.{Fits, FitsItems}
use rust_eth_playground.Rlp.Decoder.{
  decode_length, split_payload, decode_string, decode_list, decode_by_prefix, decode_with,
  decode_items, decode,
}

-- A payload at the front of the slice is split off whole.
pub split_payload-append :
    (payload rest : Bytes) → split_payload (length payload) (payload ++ rest) ≡ ok (payload, rest)
unfolding split_payload
split_payload-append payload rest =
    rw
      (le→ltb_false (length (payload ++ rest)) (length payload)
        (omega (arith, length-append payload rest)))
      (rw (
        slice_to-append {E = RlpError} payload rest,
        slice_from-append {E = RlpError} payload rest,
      ))

-- The length of the length is read back from its minimal form.
decode_length-minimal_be :
    (n : ℕ) (rest : Bytes)
    → n < 2 ^ 64
    → decode_length (minimal_be 8 n ++ rest) (length (minimal_be 8 n)) ≡ ok n
unfolding decode_length
decode_length-minimal_be n rest h =
    let m = minimal_be 8 n in
    rw
      (
        nonempty,
        room,
        slice_to-append {E = RlpError} m rest,
        copy_to_end-le {E = RlpError} 8 m (length-minimal_be 8 n),
      )
      (ap ok (from_be-zeros (8 - length m) m ∙ from_be-minimal_be 8 n h))
  where
    nonempty : (length (minimal_be 8 n) == 0) ≡ false
    nonempty = ground (arith, length-minimal_be_pos 7 n)

    room : ltb (length (minimal_be 8 n ++ rest)) (length (minimal_be 8 n)) ≡ false
    room = le→ltb_false _ _ (omega (arith, length-append (minimal_be 8 n) rest))

decode_string-append :
    (content rest : Bytes)
    → decode_string (length content) (content ++ rest) ≡ ok (bytes content, rest)
unfolding decode_string
decode_string-append content rest = rw (split_payload-append content rest)

decode_list-append :
    (items : Bytes → Result RlpError RlpItems) (payload rest : Bytes) (decoded : RlpItems)
    → items payload ≡ ok decoded
    → decode_list items (length payload) (payload ++ rest) ≡ ok (list decoded, rest)
unfolding decode_list
decode_list-append items payload rest decoded e = rw (split_payload-append payload rest, e)

-- The branch taken at each class of the first byte.
module _ (items : Bytes → Result RlpError RlpItems) (tail : Bytes) where
  prefix_single : (b : ℕ) → b < 0x80 → decode_by_prefix items b tail ≡ ok (bytes (b ∷ []), tail)
  unfolding decode_by_prefix
  prefix_single b h = ground arith

  prefix_string : (n : ℕ) → n ≤ 55 → decode_by_prefix items (0x80 + n) tail ≡ decode_string n tail
  unfolding decode_by_prefix
  prefix_string n h =
      rw (le→ltb_false (0x80 + n) 0x80 (omega arith), lt→ltb (0x80 + n) 0xb8 (omega arith))
        (ap (λ k. decode_string k tail) (omega arith))

  prefix_long_string :
      (k : ℕ)
      → 1 ≤ k
      → k ≤ 8
      → decode_by_prefix items (0x80 + 55 + k) tail
        ≡ (decode_length tail k >>= λ n. slice_from k tail >>= λ after. decode_string n after)
  unfolding decode_by_prefix
  prefix_long_string k lo hi =
      rw
        (
          le→ltb_false (0x80 + 55 + k) 0x80 (omega arith),
          le→ltb_false (0x80 + 55 + k) 0xb8 (omega arith),
          lt→ltb (0x80 + 55 + k) 0xc0 (omega arith),
        )
        (ap
          (λ m. decode_length tail m >>= λ n. slice_from m tail >>= λ after. decode_string n after)
          (omega arith))

  prefix_list : (n : ℕ) → n ≤ 55 → decode_by_prefix items (0xc0 + n) tail ≡ decode_list items n tail
  unfolding decode_by_prefix
  prefix_list n h =
      rw
        (
          le→ltb_false (0xc0 + n) 0x80 (omega arith),
          le→ltb_false (0xc0 + n) 0xb8 (omega arith),
          le→ltb_false (0xc0 + n) 0xc0 (omega arith),
          lt→ltb (0xc0 + n) 0xf8 (omega arith),
        )
        (ap (λ k. decode_list items k tail) (omega arith))

  prefix_long_list :
      (k : ℕ)
      → 1 ≤ k
      → decode_by_prefix items (0xc0 + 55 + k) tail
        ≡ (decode_length tail k >>= λ n. slice_from k tail >>= λ after. decode_list items n after)
  unfolding decode_by_prefix
  prefix_long_list k lo =
      rw
        (
          le→ltb_false (0xc0 + 55 + k) 0x80 (omega arith),
          le→ltb_false (0xc0 + 55 + k) 0xb8 (omega arith),
          le→ltb_false (0xc0 + 55 + k) 0xc0 (omega arith),
          le→ltb_false (0xc0 + 55 + k) 0xf8 (omega arith),
        )
        (ap
          (λ m.
            decode_length tail m >>= λ n. slice_from m tail >>= λ after. decode_list items n after)
          (omega arith))

-- A string's header and content are read back.
decode_header_string :
    (content rest : Bytes) (fuel : ℕ)
    → length content < 2 ^ 64
    → decode_with (suc fuel) (header 0x80 (length content) ++ (content ++ rest))
      ≡ ok (bytes content, rest)
unfolding header decode_with
decode_header_string content rest fuel h = elim (Bool-cases (leb (length content) 55)) [
  | inl short ↦ rw short (
      prefix_string (decode_items fuel) (content ++ rest) (length content)
        (leb→le (length content) 55 short)
      ∙ decode_string-append content rest)
  | inr long ↦ rw long (
      prefix_long_string (decode_items fuel) (minimal_be 8 (length content) ++ (content ++ rest))
        (length (minimal_be 8 (length content))) (length-minimal_be_pos 7 (length content))
        (length-minimal_be 8 (length content))
      ∙ rw
          (
            decode_length-minimal_be (length content) (content ++ rest) h,
            slice_from-append {E = RlpError} (minimal_be 8 (length content)) (content ++ rest),
          )
          (decode_string-append content rest))
]

decode_header_list :
    (fuel : ℕ) (payload rest : Bytes) (decoded : RlpItems)
    → length payload < 2 ^ 64
    → decode_items fuel payload ≡ ok decoded
    → decode_with (suc fuel) (header 0xc0 (length payload) ++ (payload ++ rest))
      ≡ ok (list decoded, rest)
unfolding header decode_with
decode_header_list fuel payload rest decoded h e = elim (Bool-cases (leb (length payload) 55)) [
  | inl short ↦ rw short (
      prefix_list (decode_items fuel) (payload ++ rest) (length payload)
        (leb→le (length payload) 55 short)
      ∙ decode_list-append (decode_items fuel) payload rest decoded e)
  | inr long ↦ rw long (
      prefix_long_list (decode_items fuel) (minimal_be 8 (length payload) ++ (payload ++ rest))
        (length (minimal_be 8 (length payload))) (length-minimal_be_pos 7 (length payload))
      ∙ rw
          (
            decode_length-minimal_be (length payload) (payload ++ rest) h,
            slice_from-append {E = RlpError} (minimal_be 8 (length payload)) (payload ++ rest),
          )
          (decode_list-append (decode_items fuel) payload rest decoded e))
]

length-header_pos : (offset n : ℕ) → 1 ≤ length (header offset n)
unfolding header
length-header_pos offset n = ground arith

single_byte :
    (content : Bytes) → is_single_byte content ≡ true → (b : ℕ) × (content ≡ b ∷ []) × (b < 0x80)
single_byte [] h = cc
single_byte (b ∷ []) h = (b, refl, ltb→lt b 0x80 h)
single_byte (b ∷ c ∷ rest) h = cc

pub length-rlp_pos : (item : RlpItem) → 1 ≤ length (rlp item)
unfolding rlp
length-rlp_pos (bytes content) = elim (Bool-cases (is_single_byte content)) [
  | inl single ↦
      rw single (let (b, e, _) = single_byte content single in omega (arith, ap length e))
  | inr plain ↦ rw plain (
      omega (
        arith,
        length-header_pos 0x80 (length content),
        length-append (header 0x80 (length content)) content,
      ))
]
length-rlp_pos (list items) = omega (
  arith,
  length-header_pos 0xc0 (length (rlp_items items)),
  length-append (header 0xc0 (length (rlp_items items))) (rlp_items items),
)

decode_items_step :
    (fuel : ℕ) (payload : Bytes)
    → 1 ≤ length payload
    → decode_items (suc fuel) payload ≡ (
        decode_with fuel payload >>= λ (item, remaining).
        decode_items fuel remaining >>= λ items. ok (cons item items))
unfolding decode_with
decode_items_step fuel [] h = absurd (omega arith)
decode_items_step fuel (b ∷ tail) h = refl

decode_items_nil : (fuel : ℕ) → decode_items (suc fuel) [] ≡ ok nil
unfolding decode_with
decode_items_nil fuel = refl

decode_with_single :
    (fuel : ℕ) (content rest : Bytes)
    → is_single_byte content ≡ true
    → decode_with (suc fuel) (content ++ rest) ≡ ok (bytes content, rest)
unfolding decode_with
decode_with_single fuel content rest h =
    let (b, e, small) = single_byte content h in
    rw e (prefix_single (decode_items fuel) rest b small)

length-rlp_list : (items : RlpItems) → length (rlp_items items) + 1 ≤ length (rlp (list items))
unfolding rlp
length-rlp_list items = omega (
  arith,
  length-header_pos 0xc0 (length (rlp_items items)),
  length-append (header 0xc0 (length (rlp_items items))) (rlp_items items),
)

mutual
  unfolding rlp

  decode_with-rlp_rec :
      (item : RlpItem) (rest : Bytes) (fuel : ℕ)
      → 2 * length (rlp item) ≤ fuel
      → Fits item
      → decode_with (suc fuel) (rlp item ++ rest) ≡ ok (item, rest)
  decode_with-rlp_rec (bytes content) rest fuel hf h = elim (Bool-cases (is_single_byte content)) [
    | inl single ↦ rw single (decode_with_single fuel content rest single)
    | inr plain ↦
        rw (plain, append_assoc (header 0x80 (length content)) content rest)
          (decode_header_string content rest fuel h)
  ]
  decode_with-rlp_rec (list items) rest fuel hf h =
      rw (append_assoc (header 0xc0 (length (rlp_items items))) (rlp_items items) rest) (
        decode_header_list fuel (rlp_items items) rest items h.1
          (decode_items-rlp_rec items fuel (omega (arith, length-rlp_list items)) h.0))

  decode_items-rlp_rec :
      (items : RlpItems) (fuel : ℕ)
      → 2 * length (rlp_items items) + 2 ≤ fuel
      → FitsItems items
      → decode_items fuel (rlp_items items) ≡ ok items
  decode_items-rlp_rec items zero hf h = absurd (omega arith)
  decode_items-rlp_rec nil (suc fuel) hf h = decode_items_nil fuel
  decode_items-rlp_rec (cons item items) (suc zero) hf h = absurd (omega arith)
  decode_items-rlp_rec (cons item items) (suc (suc fuel)) hf h =
      decode_items_step (suc fuel) (rlp item ++ rlp_items items)
        (omega (arith, length-rlp_pos item, length-append (rlp item) (rlp_items items)))
      ∙ rw (
        decode_with-rlp_rec item (rlp_items items) fuel
            (omega (arith, length-append (rlp item) (rlp_items items))) h.0,
        decode_items-rlp_rec items (suc fuel)
            (omega (arith, length-rlp_pos item, length-append (rlp item) (rlp_items items))) h.1,
      )

-- Decoding what `encode` wrote into an empty buffer, followed by any bytes, gives the item back
-- and leaves those bytes, for every item whose payloads are shorter than 2^64.
pub decode-encode :
    (item : RlpItem) (rest : Bytes)
    → Fits item
    → (out : Bytes) × (encode item [] ≡ ok out) × (decode (out ++ rest) ≡ ok (item, rest))
unfolding decode
decode-encode item rest h = (
  rlp item,
  encode-rlp item [],
  rw (add-one (2 * length (rlp item ++ rest)))
      (decode_with-rlp_rec item rest _ (omega (arith, length-append (rlp item) rest)) h),
)
