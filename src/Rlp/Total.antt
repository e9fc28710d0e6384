-- ===== src/Rlp/Total.antt =====
-- core/rlp-codec/src/decoder.rs: decoding ends on every input, and takes bytes off its front only.
use rust_eth_playground.Prelude.{
  ℕ, zero, suc, ◌+◌, ◌*◌, ◌-◌, ◌≤◌, ◌<◌, ◌≡◌, ◌≢◌, refl, ap, ◌∙◌, [], ◌∷◌, length, take, drop, All,
  All-take, All-drop, IsByte, ltb→lt, slice_to-le, slice_from, slice_from-le, copy_to_end-le, ◌>>=◌,
  length-take, length-drop, drop-drop, ltb, ◌==◌, Bytes, Result, ok, panic, arith, le_of_ltb-false,
  Yields, value, error, Yields-ok, Yields-panic, Yields-bind, Yields-raise_if, Yields-if,
  Yields-map,
}
use rust_eth_playground.Rlp.Item.{RlpItem, RlpItems, RlpError}
use rust_eth_playground.Rlp.Decoder.{
  decode_length, split_payload, decode_string, decode_list, decode_by_prefix, decode_with,
  decode_items, decode,
}

-- The rest is the input after its first `k` bytes.
abbrev pub IsSuffix : Bytes → Bytes → Type 0
IsSuffix input rest = (k : ℕ) × (k ≤ length input) × (rest ≡ drop k input)

split_payload-Yields :
    (n : ℕ) (slice : Bytes)
    → Yields
        (λ (payload, rest).
          (length payload ≤ length slice) × (payload ≡ take n slice) × IsSuffix slice rest)
        (split_payload n slice)
unfolding split_payload
split_payload-Yields n slice = Yields-raise_if (ltb (length slice) n) _ λ h.
    let fits = le_of_ltb-false (length slice) n h in
    rw (slice_to-le {E = RlpError} n slice fits, slice_from-le {E = RlpError} n slice fits)
      (value (omega (arith, length-take n slice), refl, (n, fits, refl)))

decode_length-Yields :
    (slice : Bytes) (n : ℕ) → n ≤ 8 → Yields (λ _. n ≤ length slice) (decode_length slice n)
unfolding decode_length
decode_length-Yields slice n small = Yields-raise_if (n == 0) _ λ _.
    Yields-raise_if (ltb (length slice) n) _ λ h.
      let fits = le_of_ltb-false (length slice) n h in
      let short : length (take n slice) ≤ 8 = omega (arith, length-take n slice) in
      rw
        (
          slice_to-le {E = RlpError} n slice fits,
          copy_to_end-le {E = RlpError} 8 (take n slice) short,
        )
        (value fits)

decode_string-Yields :
    (n : ℕ) (slice : Bytes) → Yields (λ (item, rest). IsSuffix slice rest) (decode_string n slice)
unfolding decode_string
decode_string-Yields n slice = Yields-bind (split_payload-Yields n slice) λ _ h. value h.2

suffix_of_drop :
    (k : ℕ) (slice rest : Bytes)
    → k ≤ length slice
    → IsSuffix (drop k slice) rest
    → IsSuffix slice rest
suffix_of_drop k slice rest h (j, hj, e) =
    (k + j, omega (arith, length-drop k slice), e ∙ drop-drop j k slice)

-- After a length of `k` bytes, the slice that follows them is in range.
after_length :
    (k : ℕ) (tail : Bytes) (f : ℕ → Bytes → Result RlpError (RlpItem × Bytes))
    → k ≤ 8
    → ((n : ℕ)
        → k ≤ length tail
        → Yields (λ (item, rest). IsSuffix (drop k tail) rest) (f n (drop k tail)))
    → Yields
        (λ (item, rest). IsSuffix tail rest)
        (decode_length tail k >>= λ n. slice_from k tail >>= λ after. f n after)
after_length k tail f small h = Yields-bind (decode_length-Yields tail k small) λ n le.
    rw (slice_from-le {E = RlpError} k tail le)
      (Yields-map (h n le) λ (item, rest) suffix. suffix_of_drop k tail rest le suffix)

-- `items` ends on every payload of bytes that is no longer than `size`.
module _ (items : Bytes → Result RlpError RlpItems) (size : ℕ)
    (total : (payload : Bytes)
      → All IsByte payload
      → length payload ≤ size
      → Yields (λ _. Unit {0}) (items payload)) where
  decode_list-Yields :
      (n : ℕ) (slice : Bytes)
      → All IsByte slice
      → length slice ≤ size
      → Yields (λ (item, rest). IsSuffix slice rest) (decode_list items n slice)
  unfolding decode_list
  decode_list-Yields n slice valid h =
      Yields-bind (split_payload-Yields n slice) λ (payload, rest) p.
        Yields-bind (total payload (rw p.1 (All-take IsByte n slice valid)) (omega (arith, p.0)))
          λ _ _. value p.2

  decode_by_prefix-Yields :
      (b : ℕ) (tail : Bytes)
      → IsByte b
      → All IsByte tail
      → length tail ≤ size
      → Yields (λ (item, rest). IsSuffix tail rest) (decode_by_prefix items b tail)
  unfolding decode_by_prefix
  decode_by_prefix-Yields b tail byte valid h =
      Yields-if (ltb b 0x80) (λ _. value (0, omega arith, refl))
        λ _.
          Yields-if (ltb b 0xb8) (λ _. decode_string-Yields (b - 0x80) tail)
            λ _.
              Yields-if (ltb b 0xc0)
                (λ below.
                  after_length (b - 0xb7) tail decode_string (omega (arith, ltb→lt b 0xc0 below))
                    λ n _. decode_string-Yields n (drop (b - 0xb7) tail))
                λ _.
                  Yields-if (ltb b 0xf8) (λ _. decode_list-Yields (b - 0xc0) tail valid h)
                    λ _.
                      after_length (b - 0xf7) tail (decode_list items) (omega (arith, byte)) λ n le.
                        decode_list-Yields n (drop (b - 0xf7) tail)
                          (All-drop IsByte (b - 0xf7) tail valid)
                          (omega (arith, length-drop (b - 0xf7) tail))

-- At least one byte is taken.
abbrev pub IsProperSuffix : Bytes → Bytes → Type 0
IsProperSuffix input rest = (k : ℕ) × (1 ≤ k) × (k ≤ length input) × (rest ≡ drop k input)

after_prefix : (b : ℕ) (tail rest : Bytes) → IsSuffix tail rest → IsProperSuffix (b ∷ tail) rest
after_prefix b tail rest (k, h, e) = (suc k, omega arith, omega arith, e)

length_of_suffix : (input rest : Bytes) → IsProperSuffix input rest → length rest < length input
length_of_suffix input rest (k, lo, hi, e) = omega (arith, ap length e, length-drop k input)

mutual
  unfolding decode_with

  decode_with-Yields :
      (fuel : ℕ) (input : Bytes)
      → All IsByte input
      → 2 * length input + 1 ≤ fuel
      → Yields (λ (item, rest). IsProperSuffix input rest) (decode_with fuel input)
  decode_with-Yields zero input valid h = absurd (omega arith)
  decode_with-Yields (suc fuel) [] valid h = error
  decode_with-Yields (suc fuel) (b ∷ tail) valid h =
      Yields-map
        (decode_by_prefix-Yields (decode_items fuel) (length tail)
          (λ payload bytes le. decode_items-Yields fuel payload bytes (omega arith)) b tail valid.0
          valid.1 (omega arith))
        λ (item, rest) suffix. after_prefix b tail rest suffix

  decode_items-Yields :
      (fuel : ℕ) (payload : Bytes)
      → All IsByte payload
      → 2 * length payload + 2 ≤ fuel
      → Yields (λ _. Unit {0}) (decode_items fuel payload)
  decode_items-Yields zero payload valid h = absurd (omega arith)
  decode_items-Yields (suc fuel) [] valid h = value tt
  decode_items-Yields (suc fuel) (b ∷ tail) valid h =
      Yields-bind (decode_with-Yields fuel (b ∷ tail) valid (omega arith))
        λ (item, remaining) suffix.
          Yields-bind
            (decode_items-Yields fuel remaining
              (rw suffix.3 (All-drop IsByte suffix.0 (b ∷ tail) valid))
              (omega (arith, length_of_suffix (b ∷ tail) remaining suffix)))
            λ _ _. value tt

decode-Yields :
    (input : Bytes)
    → All IsByte input
    → Yields (λ (item, rest). IsProperSuffix input rest) (decode input)
unfolding decode
decode-Yields input valid = decode_with-Yields (2 * length input + 1) input valid (omega arith)

-- On every input whose numbers are bytes, decoding panics in no slice and ends with an item or an error within its fuel, and an item comes with
-- the input less its first `k` bytes, where `k` is at least one and at most the input's length.
pub decode_total :
    (input : Bytes)
    → All IsByte input
    → (decode input ≢ panic)
      × ((item : RlpItem) (rest : Bytes)
          → decode input ≡ ok (item, rest)
          → IsProperSuffix input rest)
decode_total input valid = (
  Yields-panic (decode-Yields input valid),
  λ item rest e. Yields-ok (decode-Yields input valid) e,
)
