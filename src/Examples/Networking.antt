-- ===== src/Examples/Networking.antt =====
-- Tests of messages and frames: a ping and a status.
use rust_eth_playground.Prelude.{
  ◌↔◌, ◌≤◌, take, panic, ◌≡◌, refl, sym, ap, [], ◌∷◌, ◌++◌, List, Bytes, ok, err, none, some,
  length, ltb, if◌then◌else◌, arith, replicate,
}
use rust_eth_playground.Networking.Message.{Message, ping, status}
use rust_eth_playground.Networking.Items.{message_to_item, message_from_item}
use rust_eth_playground.Networking.Codec.{encode_frame, decode_frame, max_frame_size}
use rust_eth_playground.Networking.Message.{frame_too_large}
use rust_eth_playground.Networking.RoundTrip.{message_from_item-message_to_item}
use rust_eth_playground.Networking.Frames.{
  body_of, frame_of, IsShort, encode_frame-frame_of, decode_frame-frame_of, decode_frame_waits,
}
use rust_eth_playground.Networking.Panic.{decode_frame_panic_iff}
use rust_eth_playground.Rlp.BigEndian.{from_be}
use rust_eth_playground.Networking.Stream.{receive, receive-wire}

abbrev hello : Message
hello = status 1337 (replicate 32 3) 7

abbrev ping_body : Bytes
ping_body = 0 ∷ 0xc0 ∷ []

ping-body_of : body_of ping ≡ ping_body
unfolding rust_eth_playground.Rlp.Layout.rlp rust_eth_playground.Rlp.Layout.header
    rust_eth_playground.Rlp.BigEndian.minimal_be rust_eth_playground.Rlp.BigEndian.to_be
    rust_eth_playground.Rlp.BigEndian.strip_zeros
ping-body_of = refl

ping_frame : frame_of ping ≡ 0 ∷ 0 ∷ 0 ∷ 2 ∷ ping_body
unfolding rust_eth_playground.Rlp.Layout.rlp rust_eth_playground.Rlp.Layout.header
    rust_eth_playground.Rlp.BigEndian.minimal_be rust_eth_playground.Rlp.BigEndian.to_be
    rust_eth_playground.Rlp.BigEndian.strip_zeros
ping_frame = refl

ping-IsShort : IsShort ping
unfolding rust_eth_playground.Rlp.Layout.rlp rust_eth_playground.Rlp.Layout.header
    rust_eth_playground.Rlp.BigEndian.minimal_be rust_eth_playground.Rlp.BigEndian.to_be
    rust_eth_playground.Rlp.BigEndian.strip_zeros
ping-IsShort = omega arith

message_round_trip_example : message_from_item (message_to_item hello) ≡ ok hello
message_round_trip_example = message_from_item-message_to_item hello (omega arith)

encode_frame_example : encode_frame hello (5 ∷ []) ≡ (
    if ltb max_frame_size (length (body_of hello))
    then err (frame_too_large (length (body_of hello)))
    else ok ((5 ∷ []) ++ frame_of hello))
encode_frame_example = encode_frame-frame_of hello (5 ∷ [])

decode_frame_example : decode_frame (frame_of ping ++ (4 ∷ [])) ≡ (ok (some ping), 4 ∷ [])
decode_frame_example = decode_frame-frame_of ping (4 ∷ []) tt ping-IsShort

decode_frame_waits_example :
    decode_frame (0 ∷ 0 ∷ 0 ∷ 2 ∷ 0 ∷ []) ≡ (ok none, 0 ∷ 0 ∷ 0 ∷ 2 ∷ 0 ∷ [])
decode_frame_waits_example =
    decode_frame_waits ping (0 ∷ 0 ∷ 0 ∷ 2 ∷ 0 ∷ []) (0xc0 ∷ []) ping-IsShort ping_frame
      (omega arith)

abbrev pieces : List Bytes
pieces = (0 ∷ 0 ∷ []) ∷ (2 ∷ 0 ∷ []) ∷ (0xc0 ∷ []) ∷ []

nothing_yet : decode_frame (0 ∷ []) ≡ (ok none, 0 ∷ [])
unfolding decode_frame
nothing_yet = refl

receive_example : receive pieces (0 ∷ []) ≡ ping ∷ []
receive_example =
    receive-wire pieces (0 ∷ []) (ping ∷ []) ((tt, ping-IsShort), tt) nothing_yet
      (ap (λ t. t ++ []) (sym ping_frame))

abbrev no_length : Bytes
no_length = 0 ∷ 0 ∷ 0 ∷ 0 ∷ 7 ∷ []

decode_frame_panic_example :
    ((decode_frame no_length).0 ≡ panic)
    ↔ ((4 ≤ length no_length) × (from_be (take 4 no_length) ≡ 0))
decode_frame_panic_example =
    decode_frame_panic_iff no_length
      (omega arith, (omega arith, (omega arith, (omega arith, (omega arith, tt)))))
