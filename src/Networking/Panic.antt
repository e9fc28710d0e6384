-- ===== src/Networking/Panic.antt =====
-- core/networking/src/codec.rs: when the frame decoder panics.
use rust_eth_playground.Prelude.{
  ℕ, ◌+◌, ◌≡◌, ◌≤◌, ◌≢◌, ◌↔◌, refl, List, [], ◌∷◌, length, take, drop, All, All-take, All-drop,
  IsByte, ltb, Bytes, Result, ok, err, panic, Bool-cases, inl, inr, ltb→lt, le_of_ltb-false,
  length-take, length-drop, arith, Yields-panic,
}
use rust_eth_playground.Rlp.Item.{RlpItem}
use rust_eth_playground.Rlp.BigEndian.{from_be}
use rust_eth_playground.Rlp.Decoder.{decode}
use rust_eth_playground.Rlp.Total.{decode_total}
use rust_eth_playground.Codec.NoPanic.{
  NoPanic, NoPanic-err, no_panic_items, NoPanic-ok, NoPanic-bind, NoPanic-map_err,
}
use rust_eth_playground.Codec.Transactions.{fields_of}
use rust_eth_playground.Networking.Items.{announcement_from_item, reason_from_item}
use rust_eth_playground.Networking.Codec.{message_of_frame, read_frame, decode_frame}
use rust_eth_playground.Networking.Whole.{decode_whole, decode_frame-decode_whole}

announcement_from_item-NoPanic : (item : RlpItem) → NoPanic (announcement_from_item item)
unfolding announcement_from_item
announcement_from_item-NoPanic item = search no_panic_items depth 20 fits 20000

reason_from_item-NoPanic : (item : RlpItem) → NoPanic (reason_from_item item)
unfolding reason_from_item
reason_from_item-NoPanic (RlpItem.bytes x) = search no_panic_items
reason_from_item-NoPanic (RlpItem.list x) = search no_panic_items

message_of_frame-NoPanic : (tag : ℕ) (fields : List RlpItem) → NoPanic (message_of_frame tag fields)
unfolding message_of_frame
message_of_frame-NoPanic tag fields =
    search (no_panic_items, announcement_from_item-NoPanic, reason_from_item-NoPanic) depth 80 fits
      60000

NoPanic-of : {E : Type 0} {A : Type 0} (r : Result E A) → r ≢ panic → NoPanic r
NoPanic-of (ok a) h = NoPanic-ok a
NoPanic-of (err e) h = NoPanic-err e
NoPanic-of panic h = elim (h refl) [ ]

fields_of-NoPanic : (item : RlpItem) → NoPanic (fields_of item)
fields_of-NoPanic (RlpItem.bytes x) = NoPanic-err _
fields_of-NoPanic (RlpItem.list x) = NoPanic-ok _

read_frame-NoPanic :
    (tag : ℕ) (payload : Bytes) → All IsByte payload → NoPanic (read_frame (tag ∷ payload))
unfolding read_frame
read_frame-NoPanic tag payload valid =
    search
      (
        NoPanic-bind,
        NoPanic-map_err,
        NoPanic-ok,
        fields_of-NoPanic,
        message_of_frame-NoPanic,
        NoPanic-of (decode payload) (decode_total payload valid).0,
      )
      depth 20

read_frame_panic_iff :
    (frame : Bytes) → All IsByte frame → (read_frame frame ≡ panic) ↔ (length frame ≡ 0)
unfolding read_frame
read_frame_panic_iff [] valid = ((λ _. refl), (λ _. refl))
read_frame_panic_iff (tag ∷ payload) valid = (
  (λ h. elim (Yields-panic (read_frame-NoPanic tag payload valid.1) h) [ ]),
  (λ h. let no : ⊥ = omega (arith, h) in elim no [ ]),
)

decode_whole_panic_iff :
    (src : Bytes)
    → All IsByte src
    → ((decode_whole src).0 ≡ panic) ↔ ((4 ≤ length src) × (from_be (take 4 src) ≡ 0))
decode_whole_panic_iff src valid = elim (Bool-cases (ltb (length src) 4)) [
  | inl short ↦ rw short (
    (λ h. cc),
    (λ h. let no : ⊥ = omega (arith, h.0, ltb→lt (length src) 4 short) in elim no [ ]),
  )
  | inr long ↦ elim (Bool-cases (ltb (length src) (4 + from_be (take 4 src)))) [
    | inl part ↦
        rw (long, part)
          (
            (λ h. cc),
            (λ h.
                let no : ⊥ = omega (
                  arith,
                  h.1,
                  ltb→lt (length src) (4 + from_be (take 4 src)) part,
                  le_of_ltb-false (length src) 4 long,
                ) in
                elim no [ ]),
          )
    | inr whole ↦
        let room = le_of_ltb-false (length src) (4 + from_be (take 4 src)) whole in
        let sized : length (take (from_be (take 4 src)) (drop 4 src)) ≡ from_be (take 4 src) =
          omega (arith, length-take (from_be (take 4 src)) (drop 4 src), length-drop 4 src, room) in
        let (there, back) =
          read_frame_panic_iff (take (from_be (take 4 src)) (drop 4 src))
            (All-take IsByte (from_be (take 4 src)) (drop 4 src) (All-drop IsByte 4 src valid)) in
        rw (long, whole)
          (
            (λ h. (omega (arith, room), omega (arith, sized, there h))),
            (λ h. back (omega (arith, sized, h.1))),
          )
  ]
]

-- Decoding a frame of bytes panics, in a slice or in an index, exactly on a buffer that holds the
-- four bytes of a length which is 0; on every other buffer it gives a message, nothing yet, or an
-- error.
pub decode_frame_panic_iff :
    (src : Bytes)
    → All IsByte src
    → ((decode_frame src).0 ≡ panic) ↔ ((4 ≤ length src) × (from_be (take 4 src) ≡ 0))
decode_frame_panic_iff src valid =
    rw (decode_frame-decode_whole src) (decode_whole_panic_iff src valid)
