-- ===== src/Networking/Connection.antt =====
-- core/networking/src/connection.rs: the loop of a connection, with the handshake that opens it.
use rust_eth_playground.Prelude.{
  ℕ, Bool, true, false, not, Option, none, some, List, [], ◌∷◌, ◌++◌, ◌==◌, if◌then◌else◌, Bytes,
  Result, ok, err, panic,
}
use rust_eth_playground.Types.Primitives.{ChainHead}
use rust_eth_playground.Networking.Message.{Message, NetworkError, status, disconnect}

-- An address and a port, and the channel of a peer's connection, which is known by a number.
pub record SocketAddr : Type 0 where
  pub ip : Bytes
  pub port : ℕ

abbrev pub Sender : Type 0
Sender = ℕ

-- A peer id is a number.
pub data PeerEvent : Type 0 where
  connected : ℕ → SocketAddr → Sender → PeerEvent
  disconnected : ℕ → PeerEvent
  message : ℕ → Message → PeerEvent
  send_message : ℕ → Message → PeerEvent

pub data HandshakeState : Type 0 where
  awaiting_status : HandshakeState
  established : HandshakeState

-- `invalid_chain_id` makes the text of a refusal out of the received and the expected chain id.
pub record ConnectionContext : Type 0 where
  pub peer_id : ℕ
  pub peer_address : SocketAddr
  pub expected_chain_id : ℕ
  pub peer_sender : Sender
  pub invalid_chain_id : ℕ → ℕ → Bytes

-- What `select!` has: the next message of the peer, an error or the end of the stream; or the next
-- message for the peer, or the end of that channel.
pub data Selected : Type 0 where
  framed_next : Option (Result NetworkError Message) → Selected
  peer_rx : Option Message → Selected

-- A turn of the loop: what was selected, the shared head, and whether a send to the peer and one
-- to the manager succeed in it.
pub record Turn : Type 0 where
  pub selected : Selected
  pub chain_state : ChainHead
  pub peer_open : Bool
  pub manager_open : Bool

-- How the loop goes on. A decoder that panics takes the task of the connection with it.
pub data Next : Type 0 where
  continues : HandshakeState → Next
  breaks : Next
  panics : Next

-- What is sent to the peer and to the manager.
pub record Outcome : Type 0 where
  pub to_peer : List Message
  pub events : List PeerEvent
  pub next : Next

abbrev pub broken : Outcome
broken = record { to_peer = []; events = []; next = breaks }

abbrev pub panicked : Outcome
panicked = record { to_peer = []; events = []; next = panics }

abbrev pub stay : HandshakeState → Outcome
stay state = record { to_peer = []; events = []; next = continues state }

-- A send to the peer, and what follows its success.
abbrev pub then_to_peer : Bool → Message → Outcome → Outcome
then_to_peer false m o = broken
then_to_peer true m o = record o { to_peer = m ∷ o.to_peer }

abbrev pub then_event : Bool → PeerEvent → Outcome → Outcome
then_event false e o = broken
then_event true e o = record o { events = e ∷ o.events }

-- The match on `Message::Status`.
abbrev pub status_chain_id : Message → Option ℕ
status_chain_id (status chain_id head_hash total_difficulty) = some chain_id
status_chain_id m = none

abbrev pub joined : Outcome → Outcome → Outcome
joined o p = record {
  to_peer = o.to_peer ++ p.to_peer;
  events = o.events ++ p.events;
  next = p.next;
}

-- A turn, and the loop after it.
abbrev pub follow : Outcome → Next → (HandshakeState → Outcome) → Outcome
follow o (continues later) rest = joined o (rest later)
follow o breaks rest = o
follow o panics rest = o

module _ (c : ConnectionContext) where
  -- The answer to a status while one is awaited.
  unfoldable pub greet : Turn → ℕ → Outcome
  greet t chain_id =
      if not (chain_id == c.expected_chain_id)
      then then_to_peer t.peer_open (disconnect (c.invalid_chain_id chain_id c.expected_chain_id))
          broken
      else then_to_peer t.peer_open
          (status c.expected_chain_id t.chain_state.hash t.chain_state.total_difficulty)
          (then_event t.manager_open (connected c.peer_id c.peer_address c.peer_sender)
            (stay established))

  -- A message of the peer while its status is awaited, and one after the handshake.
  abbrev pub await_status : Turn → Option ℕ → Outcome
  await_status t none = broken
  await_status t (some chain_id) = greet t chain_id

  abbrev pub forward : Turn → Message → Option ℕ → Outcome
  forward t m none = then_event t.manager_open (message c.peer_id m) (stay established)
  forward t m (some chain_id) = broken

  -- One turn of the loop.
  unfoldable pub turn : HandshakeState → Turn → Selected → Outcome
  turn awaiting_status t (framed_next (some (ok m))) = await_status t (status_chain_id m)
  turn established t (framed_next (some (ok m))) = forward t m (status_chain_id m)
  turn state t (framed_next (some (err e))) = broken
  turn state t (framed_next (some panic)) = panicked
  turn state t (framed_next none) = broken
  turn established t (peer_rx (some m)) = then_to_peer t.peer_open m (stay established)
  turn established t (peer_rx none) = broken
  turn awaiting_status t (peer_rx (some m)) = stay awaiting_status
  turn awaiting_status t (peer_rx none) = broken

  -- The loop, over the turns that it has had so far.
  unfoldable pub session : HandshakeState → List Turn → Outcome
  session state [] = stay state
  session state (t ∷ turns) =
      let o = turn state t t.selected in follow o o.next (λ later. session later turns)

  -- The event after the loop.
  abbrev pub farewell : Bool → Next → List PeerEvent
  farewell true breaks = disconnected c.peer_id ∷ []
  farewell false breaks = []
  farewell manager_open panics = []
  farewell manager_open (continues state) = []

  -- `handle_connection`: what it tells the manager. The flag says whether its last send succeeds.
  unfoldable pub handle_connection : List Turn → Bool → List PeerEvent
  handle_connection turns manager_open =
      let o = session awaiting_status turns in o.events ++ farewell manager_open o.next
