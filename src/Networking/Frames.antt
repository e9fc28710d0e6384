-- ===== src/Networking/Frames.antt =====
-- core/networking/src/codec.rs: frames are read back, and a part of a frame is left alone.
use rust_eth_playground.Prelude.{
  ◌+◌, ◌%◌, ◌≡◌, ◌≤◌, ◌<◌, ◌^◌, refl, sym, subst, ap, ◌∙◌, none, some, [], ◌∷◌, ◌++◌, length, take,
  drop, Bytes, ok, err, true, false, ltb, length-append, take-append_length, append_assoc,
  append-nil, lt→ltb, le→ltb_false, if◌then◌else◌, arith, as_u8, ok-injective, take-append_of,
  drop-append_of, take-append_le, Bool-cases, inl, inr, le_of_ltb-false,
}
use rust_eth_playground.Rlp.Item.{list_of, to_list-of_list}
use rust_eth_playground.Rlp.BigEndian.{to_be, from_be, from_be-to_be, length-to_be}
use rust_eth_playground.Rlp.Decoder.{decode}
use rust_eth_playground.Rlp.Layout.{rlp, encode-rlp}
use rust_eth_playground.Rlp.Sizes.{rlp-Fits}
use rust_eth_playground.Rlp.RoundTrip.{decode-encode}
use rust_eth_playground.Codec.Scalars.{u64_from_item-u64_to_item}
use rust_eth_playground.Networking.Message.{Message, frame_too_large, IsMessage}
use rust_eth_playground.Networking.Codec.{
  max_frame_size, encode_list, encode_frame, read_frame, decode_frame,
}
use rust_eth_playground.Networking.Whole.{decode_frame-decode_whole}
use rust_eth_playground.Networking.RoundTrip.{
  tag_of, payload_of, tag_fits, message_to_item-payload_of, message_of_frame-payload_of,
}

-- What follows the length of a frame.
abbrev pub body_of : Message → Bytes
body_of m = tag_of m ∷ rlp (list_of (payload_of m))

-- The bytes of a frame.
abbrev pub frame_of : Message → Bytes
frame_of m = to_be 4 (length (body_of m)) ++ body_of m

pub length-frame_of : (m : Message) → length (frame_of m) ≡ 4 + length (body_of m)
length-frame_of m = omega (
  arith,
  length-append (to_be 4 (length (body_of m))) (body_of m),
  length-to_be 4 (length (body_of m)),
)

abbrev pub IsShort : Message → Type 0
IsShort m = length (body_of m) ≤ max_frame_size

-- Encoding a message fails with the length of what follows the length field when that is more than
-- ten mebibytes, and else appends the message's frame to the buffer.
pub encode_frame-frame_of :
    (m : Message) (dst : Bytes)
    → encode_frame m dst ≡ (
        if ltb max_frame_size (length (body_of m))
        then err (frame_too_large (length (body_of m)))
        else ok (dst ++ frame_of m))
unfolding encode_frame encode_list
encode_frame-frame_of m dst =
    let small : as_u8 (tag_of m) ≡ tag_of m = omega (arith, tag_fits m) in
    let tag = u64_from_item-u64_to_item (tag_of m) (omega (arith, tag_fits m)) in
    let length_eq : 1 + length (rlp (list_of (payload_of m))) ≡ length (body_of m) = omega arith in
    let written = encode-rlp (list_of (payload_of m)) [] in
    elim (Bool-cases (ltb max_frame_size (length (body_of m)))) [
      | inl long ↦
          rw
            (
              message_to_item-payload_of m,
              to_list-of_list (payload_of m),
              tag,
              written,
              length_eq,
              long,
            )
            refl
      | inr short ↦
          let below = le_of_ltb-false max_frame_size (length (body_of m)) short in
          let fits : length (body_of m) % 2 ^ 32 ≡ length (body_of m) = omega (arith, below) in
          rw
            (
              message_to_item-payload_of m,
              to_list-of_list (payload_of m),
              tag,
              written,
              length_eq,
              short,
              small,
              fits,
            )
            refl
    ]

read_frame-body_of : (m : Message) → IsMessage m → IsShort m → read_frame (body_of m) ≡ ok (some m)
unfolding read_frame
read_frame-body_of m valid short =
    let (out, wrote, read) =
      decode-encode (list_of (payload_of m)) []
        (rlp-Fits (list_of (payload_of m)) (omega (arith, short))) in
    let same : out ≡ rlp (list_of (payload_of m)) =
      ok-injective (sym wrote ∙ encode-rlp (list_of (payload_of m)) []) in
    let decoded : decode (rlp (list_of (payload_of m))) ≡ ok (list_of (payload_of m), []) =
      subst (λ x. decode x ≡ ok (list_of (payload_of m), [])) (append-nil out ∙ same) read in
    rw (decoded, to_list-of_list (payload_of m), message_of_frame-payload_of m valid) refl

module _ (body rest : Bytes) (fits : length body < 2 ^ 32) where
  abbrev prefix : Bytes
  prefix = to_be 4 (length body)

  declared : from_be prefix ≡ length body
  declared = from_be-to_be 4 (length body) (omega (arith, fits))

  -- A whole frame is read, and what follows it is left.
  decode_frame-whole : decode_frame ((prefix ++ body) ++ rest) ≡ (read_frame body, rest)
  decode_frame-whole =
      let all = (prefix ++ body) ++ rest in
      let four : length prefix ≡ 4 = length-to_be 4 (length body) in
      let whole : length (prefix ++ body) ≡ 4 + length body =
        omega (arith, four, length-append prefix body) in
      let assoc : all ≡ prefix ++ (body ++ rest) = append_assoc prefix body rest in
      let front : take 4 all ≡ prefix =
        ap (take 4) assoc ∙ take-append_of 4 prefix (body ++ rest) four in
      let back : drop 4 all ≡ body ++ rest =
        ap (drop 4) assoc ∙ drop-append_of 4 prefix (body ++ rest) four in
      let long : ltb (length all) 4 ≡ false =
        le→ltb_false (length all) 4 (omega (arith, length-append (prefix ++ body) rest, whole)) in
      let full : ltb (length all) (4 + length body) ≡ false =
        le→ltb_false (length all) (4 + length body)
          (omega (arith, length-append (prefix ++ body) rest, whole)) in
      decode_frame-decode_whole all
      ∙ rw
          (
            long,
            front,
            declared,
            full,
            back,
            take-append_length body rest,
            drop-append_of (4 + length body) (prefix ++ body) rest whole,
          )
          refl

-- A part of a frame yields no message, and stays in the buffer.
decode_frame-part :
    (body part rest : Bytes)
    → length body < 2 ^ 32
    → to_be 4 (length body) ++ body ≡ part ++ rest
    → 0 < length rest
    → decode_frame part ≡ (ok none, part)
decode_frame-part body part rest fits split more =
    let four : length (to_be 4 (length body)) ≡ 4 = length-to_be 4 (length body) in
    let total : length part + length rest ≡ 4 + length body = omega (
      arith,
      four,
      length-append (to_be 4 (length body)) body,
      length-append part rest,
      ap length split,
    ) in
    elim (Bool-cases (ltb (length part) 4)) [
      | inl short ↦ decode_frame-decode_whole part ∙ rw short refl
      | inr long ↦
          let front : take 4 part ≡ to_be 4 (length body) =
            sym (take-append_le 4 part rest (le_of_ltb-false (length part) 4 long))
            ∙ ap (take 4) (sym split)
            ∙ take-append_of 4 (to_be 4 (length body)) body four in
          let unfinished : ltb (length part) (4 + length body) ≡ true =
            lt→ltb (length part) (4 + length body) (omega (arith, total, more)) in
          decode_frame-decode_whole part ∙ rw (long, front, declared body [] fits, unfinished) refl
    ]

-- Decoding a frame in front of any bytes gives its message and leaves those bytes.
pub decode_frame-frame_of :
    (m : Message) (rest : Bytes)
    → IsMessage m
    → IsShort m
    → decode_frame (frame_of m ++ rest) ≡ (ok (some m), rest)
decode_frame-frame_of m rest valid short =
    decode_frame-whole (body_of m) rest (omega (arith, short))
    ∙ rw (read_frame-body_of m valid short) refl

-- As long as a part of a frame is missing, however the bytes are cut, decoding what has come gives
-- no message and no error, and leaves those bytes in the buffer.
pub decode_frame_waits :
    (m : Message) (part rest : Bytes)
    → IsShort m
    → frame_of m ≡ part ++ rest
    → 0 < length rest
    → decode_frame part ≡ (ok none, part)
decode_frame_waits m part rest short split more =
    decode_frame-part (body_of m) part rest (omega (arith, short)) split more
