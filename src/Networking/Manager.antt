-- ===== src/Networking/Manager.antt =====
-- core/networking/src/manager.rs: the loop of the manager over the events of its connections. The
-- order of a loop over the map of peers is that of the list; the source leaves it open.
use rust_eth_playground.Prelude.{
  ℕ, Bool, true, false, none, some, List, [], ◌∷◌, ◌++◌, ◌==◌, if◌then◌else◌, Bytes, HashMap,
  nat_eq, get, insert, remove,
}
use rust_eth_playground.Types.Primitives.{Address}
use rust_eth_playground.Types.Transaction.{Block}
use rust_eth_playground.Networking.Message.{
  Message, ping, pong, status, transactions, get_block_headers, new_block, new_block_hashes,
  block_headers, disconnect, get_account_state, account_state, get_chain_head, chain_head,
}
use rust_eth_playground.Networking.Connection.{
  Sender, PeerEvent, connected, disconnected, message, send_message,
}

pub data NetworkEvent : Type 0 where
  new_block_from : Block → ℕ → NetworkEvent
  account_state_for : Address → ℕ → NetworkEvent
  chain_head_for : ℕ → NetworkEvent

abbrev pub Peers : Type 0
Peers = HashMap ℕ Sender

-- What `select!` has: an event, or the end of their channel; a tick of the clock; the shutdown.
pub data Input : Type 0 where
  event : PeerEvent → Input
  events_closed : Input
  tick : Input
  shutdown : Input

-- What a turn sends to peers that still listen, in its order, and to the processor; the peers after
-- it; and whether the loop goes on.
pub record Managed : Type 0 where
  pub sent : List (ℕ × Message)
  pub network : List NetworkEvent
  pub peers : Peers
  pub running : Bool

-- "node shutting down".
abbrev pub shutdown_reason : Bytes
shutdown_reason =
    0x6e ∷ 0x6f ∷ 0x64 ∷ 0x65 ∷ 0x20 ∷ 0x73 ∷ 0x68 ∷ 0x75 ∷ 0x74 ∷ 0x74 ∷ 0x69 ∷ 0x6e ∷ 0x67 ∷ 0x20
    ∷ 0x64 ∷ 0x6f ∷ 0x77 ∷ 0x6e ∷ []

-- Nothing is sent, only logged.
abbrev pub idle : Peers → Managed
idle peers = record { sent = []; network = []; peers = peers; running = true }

-- The stale peers go.
unfoldable pub remove_all : List ℕ → Peers → Peers
remove_all [] peers = peers
remove_all (id ∷ stale) peers = remove_all stale (remove id peers)

-- Which channels to peers are open in a turn, and whether that to the processor is.
module _ (listens : Sender → Bool) where
  -- A send to each peer but the skipped ones: what arrives, and the peers that are stale.
  unfoldable pub send_all : (ℕ → Bool) → Message → Peers → List (ℕ × Message) × List ℕ
  send_all skipped m [] = ([], [])
  send_all skipped m ((id, sender) ∷ rest) =
      let (sent, stale) = send_all skipped m rest in
      if skipped id
      then (sent, stale)
      else if listens sender
      then ((id, m) ∷ sent, stale)
      else (sent, id ∷ stale)

  unfoldable pub broadcast : (ℕ → Bool) → Message → Peers → Managed
  broadcast skipped m peers =
      let (sent, stale) = send_all skipped m peers in
      record { sent = sent; network = []; peers = remove_all stale peers; running = true }

  -- A send to one peer, which goes when its channel is closed.
  unfoldable pub send_to : ℕ → Message → Peers → Managed
  send_to id m peers = elim (get id peers) [
    | none ↦ idle peers
    | some sender ↦
        if listens sender
        then record { sent = (id, m) ∷ []; network = []; peers = peers; running = true }
        else idle (remove id peers)
  ]

  module _ (processor_open : Bool) where
    abbrev pub to_processor : NetworkEvent → Peers → Managed
    to_processor e peers = record {
      sent = [];
      network = if processor_open then e ∷ [] else [];
      peers = peers;
      running = true;
    }

    -- A message of a peer.
    unfoldable pub on_message : ℕ → Message → Peers → Managed
    on_message id ping peers = send_to id pong peers
    on_message id (transactions txs) peers =
        broadcast (λ other. other == id) (transactions txs) peers
    on_message id (new_block block td) peers = to_processor (new_block_from block id) peers
    on_message id (get_account_state address) peers =
        to_processor (account_state_for address id) peers
    on_message id get_chain_head peers = to_processor (chain_head_for id) peers
    on_message id pong peers = idle peers
    on_message id (status chain_id head_hash total_difficulty) peers = idle peers
    on_message id (get_block_headers start_hash count) peers = idle peers
    on_message id (new_block_hashes new_blocks) peers = idle peers
    on_message id (block_headers headers) peers = idle peers
    on_message id (disconnect reason) peers = idle peers
    on_message id (account_state address nonce balance) peers = idle peers
    on_message id (chain_head number hash total_difficulty) peers = idle peers

    unfoldable pub on_event : PeerEvent → Peers → Managed
    on_event (connected id address sender) peers = idle (insert id sender peers)
    on_event (disconnected id) peers = idle (remove id peers)
    on_event (message id m) peers = on_message id m peers
    on_event (send_message id m) peers = send_to id m peers

    -- One turn of `manage`.
    unfoldable pub manage_turn : Input → Peers → Managed
    manage_turn (event e) peers = on_event e peers
    manage_turn events_closed peers = record (idle peers) { running = false }
    manage_turn tick peers = broadcast (λ other. false) ping peers
    manage_turn shutdown peers = record {
      sent = (send_all (λ other. false) (disconnect shutdown_reason) peers).0;
      network = [];
      peers = [];
      running = false;
    }

-- A turn of the loop: its input, and which channels are open in it.
pub record ManagerTurn : Type 0 where
  pub input : Input
  pub listens : Sender → Bool
  pub processor_open : Bool

abbrev pub step : ManagerTurn → Peers → Managed
step t peers = manage_turn t.listens t.processor_open t.input peers

abbrev pub then_more : Managed → (Peers → Managed) → Managed
then_more o more =
    let rest = more o.peers in
    if o.running
    then record {
      sent = o.sent ++ rest.sent;
      network = o.network ++ rest.network;
      peers = rest.peers;
      running = rest.running;
    }
    else o

-- `manage`, over the turns that it has had so far.
unfoldable pub manage : List ManagerTurn → Peers → Managed
manage [] peers = idle peers
manage (t ∷ turns) peers = then_more (step t peers) (manage turns)
