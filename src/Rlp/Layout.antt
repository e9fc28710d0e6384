-- ===== src/Rlp/Layout.antt =====
-- The RLP layout, as a function of its own, and that core/rlp-codec/src/encoder.rs writes it.
use rust_eth_playground.Prelude.{
  ℕ, zero, suc, ◌+◌, ◌/◌, ◌%◌, ◌<◌, ◌≡◌, refl, sym, ap, ◌∙◌, [], ◌∷◌, ◌++◌, append_assoc,
  append-nil, reverse, reverse-append, length, leb, if◌then◌else◌, Bytes, as_u8, ok, Bool-cases,
  inl, inr, arith, leb→le,
}
use mathlib.Core.List.{reverse-reverse}
use rust_eth_playground.Rlp.Item.{RlpItem, RlpItems, bytes, list, nil, cons}
use rust_eth_playground.Rlp.BigEndian.{minimal_be, length-minimal_be}
use rust_eth_playground.Rlp.Encoder.{
  is_single_byte, encode_length_loop, encode_length, add_rlp_list_prefix, encode_bytes, encode,
  encode_items,
}

-- The prefix of a payload of `n` bytes: one byte up to 55, else the length's own length first.
unfoldable pub header : ℕ → ℕ → Bytes
header offset n =
    if leb n 55 then (offset + n) ∷ [] else (offset + 55 + length (minimal_be 8 n)) ∷ minimal_be 8 n

unfoldable mutual
  pub rlp : RlpItem → Bytes
  rlp (bytes content) =
      if is_single_byte content then content else header 0x80 (length content) ++ content
  rlp (list items) = header 0xc0 (length (rlp_items items)) ++ rlp_items items

  pub rlp_items : RlpItems → Bytes
  rlp_items nil = []
  rlp_items (cons item items) = rlp item ++ rlp_items items

encode_length_loop-reverse :
    (fuel v : ℕ) (acc : Bytes) → encode_length_loop fuel v acc ≡ acc ++ reverse (minimal_be fuel v)
unfolding encode_length_loop minimal_be
encode_length_loop-reverse zero v acc = sym (append-nil acc)
encode_length_loop-reverse (suc fuel) v acc = elim (Bool-cases (leb v 255)) [
  | inl small ↦ rw small refl
  | inr large ↦ rw large (
      encode_length_loop-reverse fuel (v / 256) (acc ++ (v % 256 ∷ []))
      ∙ append_assoc acc (v % 256 ∷ []) (reverse (minimal_be fuel (v / 256)))
      ∙ ap (◌++◌ acc) (sym (reverse-append (minimal_be fuel (v / 256)) (v % 256 ∷ []))))
]

-- The loop writes the minimal big-endian form.
pub encode_length-minimal_be : (v : ℕ) → encode_length v ≡ minimal_be 8 v
unfolding encode_length
encode_length-minimal_be v =
    ap reverse (encode_length_loop-reverse 8 v []) ∙ reverse-reverse (minimal_be 8 v)

as_u8-add : (offset n : ℕ) → offset + n < 256 → as_u8 (offset + as_u8 n) ≡ offset + n
as_u8-add offset n h = omega arith

add_rlp_list_prefix-header :
    (buffer : Bytes) (n : ℕ) → add_rlp_list_prefix buffer n ≡ buffer ++ header 0xc0 n
unfolding add_rlp_list_prefix header
add_rlp_list_prefix-header buffer n = elim (Bool-cases (leb n 55)) [
  | inl short ↦ rw short (ap (λ b. buffer ++ (b ∷ [])) (omega (arith, leb→le n 55 short)))
  | inr long ↦
      rw (long, encode_length-minimal_be n)
        (append_assoc buffer _ (minimal_be 8 n)
          ∙ ap (λ b. buffer ++ (b ∷ minimal_be 8 n)) (omega (arith, length-minimal_be 8 n)))
]

long_bytes-header :
    (content buffer : Bytes)
    → let m = minimal_be 8 (length content) in
      ((buffer ++ (as_u8 (0xb7 + as_u8 (length m)) ∷ [])) ++ m) ++ content
      ≡ buffer ++ ((0x80 + 55 + length m) ∷ (m ++ content))
long_bytes-header content buffer =
    let m = minimal_be 8 (length content) in
    append_assoc (buffer ++ (as_u8 (0xb7 + as_u8 (length m)) ∷ [])) m content
    ∙ append_assoc buffer _ (m ++ content)
    ∙ ap (λ b. buffer ++ (b ∷ (m ++ content))) (omega (arith, length-minimal_be 8 (length content)))

encode_bytes-rlp :
    (content buffer : Bytes) → encode_bytes content buffer ≡ buffer ++ rlp (bytes content)
unfolding encode_bytes rlp header
encode_bytes-rlp content buffer = elim (Bool-cases (is_single_byte content)) [
  | inl single ↦ rw single refl
  | inr plain ↦ elim (Bool-cases (leb (length content) 55)) [
    | inl short ↦
        rw (plain, short)
          (append_assoc buffer _ content
            ∙ ap (λ b. buffer ++ (b ∷ content)) (omega (arith, leb→le (length content) 55 short)))
    | inr long ↦
        rw (plain, long, encode_length-minimal_be (length content))
          (long_bytes-header content buffer)
  ]
]

mutual
  unfolding encode rlp

  encode-rlp_rec : (item : RlpItem) (buffer : Bytes) → encode item buffer ≡ ok (buffer ++ rlp item)
  encode-rlp_rec (bytes content) buffer = ap ok (encode_bytes-rlp content buffer)
  encode-rlp_rec (list items) buffer = rw (encode_items-rlp_rec items []) (
      ap ok (
        rw (add_rlp_list_prefix-header buffer (length (rlp_items items)))
          (append_assoc buffer (header 0xc0 (length (rlp_items items))) (rlp_items items))))

  encode_items-rlp_rec :
      (items : RlpItems) (buffer : Bytes)
      → encode_items items buffer ≡ ok (buffer ++ rlp_items items)
  encode_items-rlp_rec nil buffer = ap ok (sym (append-nil buffer))
  encode_items-rlp_rec (cons item items) buffer = rw (encode-rlp_rec item buffer) (
      encode_items-rlp_rec items (buffer ++ rlp item)
      ∙ ap ok (append_assoc buffer (rlp item) (rlp_items items)))

-- Encoding never fails, and appends to the buffer exactly the RLP layout of the item: one byte for
-- itself below 0x80, else a prefix that gives the payload's length, in minimal big-endian form
-- above 55, and the payload.
pub encode-rlp : (item : RlpItem) (buffer : Bytes) → encode item buffer ≡ ok (buffer ++ rlp item)
encode-rlp item buffer = encode-rlp_rec item buffer
