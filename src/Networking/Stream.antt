-- ===== src/Networking/Stream.antt =====
-- core/networking/src/codec.rs under a reader that appends what has arrived to its buffer and then
-- takes messages until `decode` returns none, as a framed stream does.
use rust_eth_playground.Prelude.{
  ℕ, zero, suc, ◌≡◌, ◌≤◌, ◌<◌, refl, sym, ap, ◌∙◌, Option, none, some, List, [], ◌∷◌, ◌++◌, length,
  take, drop, Bytes, Result, ok, err, panic, ltb, Bool-cases, inl, inr, length-append, length-drop,
  take-append-drop, take-append_le, take-append_length, drop-append_length, append_assoc,
  append-nil, arith, All, le_of_ltb-false, ltb→lt,
}
use rust_eth_playground.Networking.Message.{Message, NetworkError, IsMessage}
use rust_eth_playground.Networking.Codec.{decode_frame}
use rust_eth_playground.Networking.Frames.{
  frame_of, IsShort, decode_frame-frame_of, decode_frame_waits, length-frame_of,
}

-- Messages taken off a buffer until one is missing, with what is left. An error ends it.
abbrev taken :
    Result NetworkError (Option Message) × Bytes
    → (Bytes → List Message × Bytes)
    → List Message × Bytes
taken (ok none, left) next = ([], left)
taken (ok (some m), left) next = let (ms, rest) = next left in (m ∷ ms, rest)
taken (err e, left) next = ([], left)
taken (panic, left) next = ([], left)

unfoldable pub take_messages : ℕ → Bytes → List Message × Bytes
take_messages zero buffer = ([], buffer)
take_messages (suc fuel) buffer = taken (decode_frame buffer) (take_messages fuel)

-- A reader with a buffer, over the pieces that arrive. A message takes at least a byte.
unfoldable pub receive : List Bytes → Bytes → List Message
receive [] buffer = []
receive (piece ∷ pieces) buffer =
    let (ms, left) = take_messages (suc (length (buffer ++ piece))) (buffer ++ piece) in
    ms ++ receive pieces left

abbrev pub joined : List Bytes → Bytes
joined [] = []
joined (piece ∷ pieces) = piece ++ joined pieces

-- The frames of messages, one after the other.
abbrev pub wire : List Message → Bytes
wire [] = []
wire (m ∷ ms) = frame_of m ++ wire ms

abbrev pub IsSendable : Message → Type 0
IsSendable m = IsMessage m × IsShort m

-- Two ways to cut the same bytes.
cut_within : (a b c d : Bytes) → a ++ b ≡ c ++ d → length a ≤ length c → c ≡ a ++ drop (length a) c
cut_within a b c d same h =
    sym (take-append-drop (length a) c)
    ∙ ap (λ t. t ++ drop (length a) c)
        (sym (take-append_le (length a) c d h)
          ∙ sym (ap (take (length a)) same)
          ∙ take-append_length a b)

cut_rest : (a b c d e : Bytes) → a ++ b ≡ c ++ d → c ≡ a ++ e → b ≡ e ++ d
cut_rest a b c d e same within =
    sym (drop-append_length a b)
    ∙ ap (drop (length a)) (same ∙ ap (λ t. t ++ d) within ∙ append_assoc a e d)
    ∙ drop-append_length a (e ++ d)

-- What has been read of some frames: whole ones, and a part that yields nothing.
pub record Read (xs ys : Bytes) (ms : List Message) : Type 0 where
  pub whole : List Message
  pub later : List Message
  pub part : Bytes
  pub messages_split : ms ≡ whole ++ later
  pub read_split : xs ≡ wire whole ++ part
  pub rest_split : part ++ ys ≡ wire later
  pub waiting : decode_frame part ≡ (ok none, part)
  pub whole_sendable : All IsSendable whole
  pub later_sendable : All IsSendable later

decode_frame-nil : decode_frame [] ≡ (ok none, [])
unfolding decode_frame
decode_frame-nil = refl

Read_cases :
    (xs ys : Bytes) (ms : List Message) → All IsSendable ms → xs ++ ys ≡ wire ms → Read xs ys ms
Read_cases [] ys ms valid same = record {
  whole = [];
  later = ms;
  part = [];
  messages_split = refl;
  read_split = refl;
  rest_split = same;
  waiting = decode_frame-nil;
  whole_sendable = tt;
  later_sendable = valid;
}
Read_cases (x ∷ xs) ys [] valid same = cc
Read_cases (x ∷ xs) ys (m ∷ ms) valid same =
    elim (Bool-cases (ltb (length (x ∷ xs)) (length (frame_of m)))) [
      | inl short ↦
          let less = ltb→lt (length (x ∷ xs)) (length (frame_of m)) short in
          let within = cut_within (x ∷ xs) ys (frame_of m) (wire ms) same (omega (arith, less)) in
          record {
            whole = [];
            later = m ∷ ms;
            part = x ∷ xs;
            messages_split = refl;
            read_split = refl;
            rest_split = same;
            waiting =
                decode_frame_waits m (x ∷ xs) (drop (length (x ∷ xs)) (frame_of m)) valid.0.1 within
                  (omega (arith, less, length-drop (length (x ∷ xs)) (frame_of m)));
            whole_sendable = tt;
            later_sendable = valid;
          }
      | inr long ↦
          let left = drop (length (frame_of m)) (x ∷ xs) in
          let within =
            cut_within (frame_of m) (wire ms) (x ∷ xs) ys (sym same)
              (le_of_ltb-false (length (x ∷ xs)) (length (frame_of m)) long) in
          let r =
            Read_cases left ys ms valid.1
              (sym (cut_rest (frame_of m) (wire ms) (x ∷ xs) ys left (sym same) within)) in
          record {
            whole = m ∷ r.whole;
            later = r.later;
            part = r.part;
            messages_split = ap (◌∷◌ m) r.messages_split;
            read_split =
                within
                ∙ ap (λ t. frame_of m ++ t) r.read_split
                ∙ sym (append_assoc (frame_of m) (wire r.whole) r.part);
            rest_split = r.rest_split;
            waiting = r.waiting;
            whole_sendable = (valid.0, r.whole_sendable);
            later_sendable = r.later_sendable;
          }
    ]

take_messages-wire :
    (ms : List Message) (part : Bytes) (fuel : ℕ)
    → All IsSendable ms
    → decode_frame part ≡ (ok none, part)
    → length ms < fuel
    → take_messages fuel (wire ms ++ part) ≡ (ms, part)
unfolding take_messages
take_messages-wire ms part zero valid waiting h = let no : ⊥ = omega (arith, h) in elim no [ ]
take_messages-wire [] part (suc fuel) valid waiting h = rw waiting refl
take_messages-wire (m ∷ ms) part (suc fuel) valid waiting h =
    rw
      (
        append_assoc (frame_of m) (wire ms) part,
        decode_frame-frame_of m (wire ms ++ part) valid.0.0 valid.0.1,
        take_messages-wire ms part fuel valid.1 waiting (omega (arith, h)),
      )
      refl

length-wire : (ms : List Message) → length ms ≤ length (wire ms)
length-wire [] = omega arith
length-wire (m ∷ ms) =
    omega (arith, length-wire ms, length-append (frame_of m) (wire ms), length-frame_of m)

-- However the frames of some messages are cut into pieces on their way, a reader gets exactly
-- those messages, in their order. Each is a value of its Rust type and within the frame limit, and
-- the reader starts with what it had of the first frame.
pub receive-wire :
    (pieces : List Bytes) (buffer : Bytes) (ms : List Message)
    → All IsSendable ms
    → decode_frame buffer ≡ (ok none, buffer)
    → buffer ++ joined pieces ≡ wire ms
    → receive pieces buffer ≡ ms
unfolding receive
receive-wire [] buffer [] valid waiting same = refl
receive-wire [] buffer (m ∷ ms) valid waiting same =
    let whole : buffer ≡ wire (m ∷ ms) = sym (append-nil buffer) ∙ same in
    let read = decode_frame-frame_of m (wire ms) valid.0.0 valid.0.1 in
    cc (sym waiting ∙ ap decode_frame whole ∙ read)
receive-wire (piece ∷ pieces) buffer ms valid waiting same =
    let r =
      Read_cases (buffer ++ piece) (joined pieces) ms valid
        (append_assoc buffer piece (joined pieces) ∙ same) in
    let read : take_messages (suc (length (buffer ++ piece))) (buffer ++ piece)
        ≡ (r.whole, r.part) =
      ap (take_messages (suc (length (buffer ++ piece)))) r.read_split
      ∙ take_messages-wire r.whole r.part (suc (length (buffer ++ piece))) r.whole_sendable
          r.waiting
          (omega (
            arith,
            ap length r.read_split,
            length-append (wire r.whole) r.part,
            length-wire r.whole,
          )) in
    rw read (
      ap (λ t. r.whole ++ t)
        (receive-wire pieces r.part r.later r.later_sendable r.waiting r.rest_split)
      ∙ sym r.messages_split)
