-- ===== src/Networking/Whole.antt =====
-- core/networking/src/codec.rs: no slice of `decode` is out of range, so that what it does is read
-- off the whole buffer.
use rust_eth_playground.Prelude.{
  ℕ, ◌+◌, ◌≤◌, ◌≡◌, refl, ap, Option, none, length, take, drop, drop-drop, length-drop, ltb, Bytes,
  Result, ok, Bool-cases, inl, inr, le_of_ltb-false, le→ltb_false, if◌then◌else◌, slice_to-le,
  arith,
}
use rust_eth_playground.Prelude.Action.{◌>>=◌, lift}
use rust_eth_playground.Rlp.BigEndian.{from_be}
use rust_eth_playground.Networking.Message.{Message, NetworkError}
use rust_eth_playground.Networking.Codec.{advance, split_to, take_frame, read_frame, decode_frame}

-- A frame that is in the buffer is taken off it with its length.
take_frame-le :
    (n : ℕ) (src : Bytes)
    → 4 + n ≤ length src
    → take_frame n src ≡ (read_frame (take n (drop 4 src)), drop (4 + n) src)
unfolding take_frame advance split_to ◌>>=◌ lift
take_frame-le n src h =
    let four = le→ltb_false (length src) 4 (omega arith) in
    let whole = le→ltb_false (length (drop 4 src)) n (omega (arith, length-drop 4 src)) in
    rw (four, whole) (ap (λ t. (read_frame (take n (drop 4 src)), t)) (drop-drop n 4 src))

-- `decode` without its slices.
abbrev pub decode_whole : Bytes → Result NetworkError (Option Message) × Bytes
decode_whole src =
    if ltb (length src) 4
    then (ok none, src)
    else let frame_length = from_be (take 4 src) in
      if ltb (length src) (4 + frame_length)
      then (ok none, src)
      else (read_frame (take frame_length (drop 4 src)), drop (4 + frame_length) src)

pub decode_frame-decode_whole : (src : Bytes) → decode_frame src ≡ decode_whole src
unfolding decode_frame
decode_frame-decode_whole src = elim (Bool-cases (ltb (length src) 4)) [
  | inl short ↦ rw short refl
  | inr long ↦
      let four = slice_to-le {E = NetworkError} 4 src (le_of_ltb-false (length src) 4 long) in
      elim (Bool-cases (ltb (length src) (4 + from_be (take 4 src)))) [
        | inl part ↦ rw (long, four, part) refl
        | inr whole ↦
            rw (long, four, whole)
              (take_frame-le (from_be (take 4 src)) src
                (le_of_ltb-false (length src) (4 + from_be (take 4 src)) whole))
      ]
]
