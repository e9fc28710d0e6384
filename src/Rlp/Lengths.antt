-- ===== src/Rlp/Lengths.antt =====
-- core/rlp-codec/src/encoder.rs: `encoded_len` predicts the length of what `encode` writes.
use rust_eth_playground.Prelude.{
  ℕ, zero, suc, ◌+◌, ◌/◌, ◌%◌, ◌^◌, ◌≤◌, ◌<◌, ◌≡◌, ◌≢◌, refl, sym, ap, ◌∙◌, true, [], ◌∷◌, ◌++◌,
  length, length-append, leb, Bytes, ok, Bool-cases, inl, inr, arith, leb→le, lt_of_leb-false,
}
use rust_eth_playground.Rlp.Item.{RlpItem, RlpItems, bytes, list, nil, cons}
use rust_eth_playground.Rlp.BigEndian.{minimal_be}
use rust_eth_playground.Rlp.Encoder.{
  is_single_byte, significant_bits, encoded_length_len, length_prefix_len, encoded_len,
  encoded_len_items, encode,
}
use rust_eth_playground.Rlp.Layout.{header, rlp, rlp_items, encode-rlp}

-- The length of every payload in the item is a `usize`.
abbrev mutual
  pub Fits : RlpItem → Type 0
  Fits (bytes content) = length content < 2 ^ 64
  Fits (list items) = FitsItems items × (length (rlp_items items) < 2 ^ 64)

  pub FitsItems : RlpItems → Type 0
  FitsItems nil = Unit
  FitsItems (cons item items) = Fits item × FitsItems items

-- The width in bits of `k` bytes.
abbrev bits_of : ℕ → ℕ
bits_of zero = 0
bits_of (suc k) = suc (suc (suc (suc (suc (suc (suc (suc (bits_of k))))))))

significant_bits-suc :
    (w v : ℕ) → v ≢ 0 → significant_bits (suc w) v ≡ suc (significant_bits w (v / 2))
unfolding significant_bits
significant_bits-suc w v h = ground arith

significant_bits-zero : (w : ℕ) → significant_bits w 0 ≡ 0
unfolding significant_bits
significant_bits-zero zero = refl
significant_bits-zero (suc w) = refl

significant_bits-le : (j w v : ℕ) → v < 2 ^ j → significant_bits w v ≤ j
unfolding significant_bits
significant_bits-le j zero v h = omega arith
significant_bits-le zero (suc w) v h = ground arith
significant_bits-le (suc j) (suc w) v h =
    ground (arith, significant_bits-le j w (v / 2) (omega arith))

significant_bits-two :
    (w v : ℕ) → 1 < v → significant_bits (suc (suc w)) v ≡ suc (suc (significant_bits w (v / 4)))
significant_bits-two w v h =
    significant_bits-suc (suc w) v (omega arith)
    ∙ ap suc (significant_bits-suc w (v / 2) (omega arith))
    ∙ ap (λ u. suc (suc (significant_bits w u))) (omega arith)

significant_bits-four :
    (w v : ℕ)
    → 7 < v
    → significant_bits (suc (suc (suc (suc w)))) v
      ≡ suc (suc (suc (suc (significant_bits w (v / 16)))))
significant_bits-four w v h =
    significant_bits-two (suc (suc w)) v (omega arith)
    ∙ ap (λ u. suc (suc u)) (significant_bits-two w (v / 4) (omega arith))
    ∙ ap (λ u. suc (suc (suc (suc (significant_bits w u))))) (omega arith)

div_div : (v : ℕ) → v / 16 / 16 ≡ v / 256
div_div v = omega arith

significant_bits-byte :
    (w v : ℕ)
    → 255 < v
    → significant_bits (bits_of (suc w)) v ≡ 8 + significant_bits (bits_of w) (v / 256)
significant_bits-byte w v h =
    significant_bits-four (suc (suc (suc (suc (bits_of w))))) v (omega arith)
    ∙ ap (λ u. suc (suc (suc (suc u)))) (significant_bits-four (bits_of w) (v / 16) (omega arith))
    ∙ omega (arith, ap (λ u. significant_bits (bits_of w) u) (div_div v))

above_byte : (v : ℕ) → 255 < v → v / 256 ≢ 0
above_byte v h = omega arith

length_of_length :
    (k v : ℕ)
    → v ≢ 0
    → v < 256 ^ k
    → (significant_bits (bits_of k) v + 7) / 8 ≡ length (minimal_be k v)
unfolding minimal_be
length_of_length zero v nz h = absurd (omega arith)
length_of_length (suc k) v nz h = elim (Bool-cases (leb v 255)) [
  | inl small ↦ rw small (
      omega (
        arith,
        leb→le v 255 small,
        significant_bits-le 8 (bits_of (suc k)) v,
        significant_bits-suc (suc (suc (suc (suc (suc (suc (suc (bits_of k)))))))) v nz,
      ))
  | inr large ↦ rw large (
      omega (
        arith,
        significant_bits-byte k v (lt_of_leb-false v 255 large),
        length_of_length k (v / 256) (above_byte v (lt_of_leb-false v 255 large)) (omega arith),
        length-append (minimal_be k (v / 256)) (v % 256 ∷ []),
      ))
]

nonzero : (n : ℕ) → 55 < n → n ≢ 0
nonzero n h = omega arith

length_prefix_len-header :
    (offset n : ℕ) → n < 2 ^ 64 → length (header offset n) ≡ length_prefix_len n
unfolding header length_prefix_len encoded_length_len
length_prefix_len-header offset n h = elim (Bool-cases (leb n 55)) [
  | inl short ↦ rw short
  | inr long ↦
      rw long (
        ap suc (sym (length_of_length 8 n (nonzero n (lt_of_leb-false n 55 long)) h)) ∙ omega arith)
]

single_byte_length : (content : Bytes) → is_single_byte content ≡ true → length content ≡ 1
single_byte_length [] h = cc
single_byte_length (b ∷ []) h = refl
single_byte_length (b ∷ c ∷ rest) h = cc

mutual
  unfolding encoded_len rlp

  encoded_len-rlp_rec : (item : RlpItem) → Fits item → length (rlp item) ≡ encoded_len item
  encoded_len-rlp_rec (bytes content) h = elim (Bool-cases (is_single_byte content)) [
    | inl single ↦ rw single (single_byte_length content single)
    | inr plain ↦ rw plain (
        length-append (header 0x80 (length content)) content
        ∙ ap (λ n. n + length content) (length_prefix_len-header 0x80 (length content) h))
  ]
  encoded_len-rlp_rec (list items) h =
      length-append (header 0xc0 (length (rlp_items items))) (rlp_items items)
      ∙ ap (λ n. n + length (rlp_items items))
          (length_prefix_len-header 0xc0 (length (rlp_items items)) h.1)
      ∙ ap (λ n. length_prefix_len n + n) (encoded_len_items-rlp_rec items h.0)

  encoded_len_items-rlp_rec :
      (items : RlpItems) → FitsItems items → length (rlp_items items) ≡ encoded_len_items items
  encoded_len_items-rlp_rec nil h = refl
  encoded_len_items-rlp_rec (cons item items) h =
      length-append (rlp item) (rlp_items items)
      ∙ omega (arith, encoded_len-rlp_rec item h.0, encoded_len_items-rlp_rec items h.1)

-- For an item whose payloads are shorter than 2^64, `encode` grows the buffer by exactly
-- `encoded_len` bytes.
pub encode-encoded_len :
    (item : RlpItem) (buffer : Bytes)
    → Fits item
    → (out : Bytes) × (encode item buffer ≡ ok out)
      × (length out ≡ length buffer + encoded_len item)
encode-encoded_len item buffer h = (
  buffer ++ rlp item,
  encode-rlp item buffer,
  length-append buffer (rlp item) ∙ ap (λ n. length buffer + n) (encoded_len-rlp_rec item h),
)
