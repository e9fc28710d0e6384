-- ===== src/Examples/Peers.antt =====
-- The theorems on connections, on the manager of peers and on the node, at two peers.
use rust_eth_playground.Prelude.{
  ◌≡◌, ◌⊎◌, refl, ℕ, some, [], ◌∷◌, ◌++◌, List, ok, true, nat_eq, get, ◌==◌, Bool, IsMap,
}
use rust_eth_playground.Types.Primitives.{zero_array}
use rust_eth_playground.Networking.Message.{Message, ping, status, transactions}
use rust_eth_playground.Networking.Connection.{
  ConnectionContext, Turn, PeerEvent, connected, disconnected, message, framed_next,
  awaiting_status, session, handle_connection,
}
use rust_eth_playground.Networking.Handshake.{Greeted, handle_connection-Greeted}
use rust_eth_playground.Networking.Manager.{Peers, ManagerTurn, event, on_message, manage, step}
use rust_eth_playground.Networking.Peers.{sent_to, share, kept, on_message-transactions}
use rust_eth_playground.Networking.Silence.{manage_silent}
use rust_eth_playground.Node.Serve.{Channels, replies, IsServed, serve_message}
use rust_eth_playground.Processor.Process.{account_state}
use rust_eth_playground.Examples.Data.{crypto, alice, genesis_head}
use rust_eth_playground.Examples.Processor.{started}

abbrev context : ConnectionContext
context = record {
  peer_id = 1;
  peer_address = record { ip = 127 ∷ 0 ∷ 0 ∷ 1 ∷ []; port = 30303 };
  expected_chain_id = 1337;
  peer_sender = 8;
  invalid_chain_id = λ received expected. received ∷ expected ∷ [];
}

abbrev hears : Message → Turn
hears m = record {
  selected = framed_next (some (ok m));
  chain_state = genesis_head;
  peer_open = true;
  manager_open = true;
}

abbrev turns : List Turn
turns = hears (status 1337 (zero_array 32) 0) ∷ hears ping ∷ []

handle_connection_example :
    (end : List PeerEvent) × (handle_connection context turns true
      ≡ (session context awaiting_status turns).events ++ end)
    × ((end ≡ []) ⊎ (end ≡ disconnected 1 ∷ []))
    × (((session context awaiting_status turns).events ≡ [])
        ⊎ Greeted context turns (session context awaiting_status turns))
handle_connection_example = handle_connection-Greeted context turns true

-- Peer 1 on the channel 8, which listens, and peer 2 on the channel 9.
abbrev two_peers : Peers
two_peers = (1, 8) ∷ (2, 9) ∷ []

two_peers-IsMap : IsMap two_peers
unfolding get
two_peers-IsMap = (refl, (refl, tt))

abbrev listening : ℕ → Bool
listening sender = sender == 8

on_message_example :
    (sent_to 1 (on_message listening true 2 (transactions []) two_peers).sent
      ≡ share listening (λ other. other == 2) (transactions []) 1 (get 1 two_peers))
    × (get 1 (on_message listening true 2 (transactions []) two_peers).peers
        ≡ kept listening (λ other. other == 2) (transactions []) 1 (get 1 two_peers))
on_message_example = on_message-transactions listening true 2 [] two_peers 1 two_peers-IsMap

abbrev manager_turn : PeerEvent → ManagerTurn
manager_turn e = record { input = event e; listens = listening; processor_open = true }

abbrev left : List ManagerTurn
left =
    manager_turn (connected 1 context.peer_address 8)
    ∷ manager_turn (connected 2 context.peer_address 9)
    ∷ manager_turn (disconnected 1)
    ∷ []

manage_silent_example :
    sent_to 1 (step (manager_turn (message 2 (transactions []))) (manage left []).peers).sent ≡ []
manage_silent_example = manage_silent 1 left (manager_turn (message 2 (transactions []))) refl

abbrev all_open : Channels
all_open = record { adapter_open = true; processor_open = true; manager_open = true }

serve_message_example :
    IsServed crypto started listening all_open 1 (Message.get_account_state alice) two_peers
serve_message_example =
    serve_message crypto started listening all_open 1 (Message.get_account_state alice) two_peers

-- A peer that asks for an account gets it.
alice_answered :
    replies crypto started listening all_open 1 (Message.get_account_state alice) two_peers
    ≡ (1, Message.account_state alice 0 1000) ∷ []
unfolding replies account_state rust_eth_playground.Execution.Provider.get_account get
    rust_eth_playground.Networking.Manager.manage_turn
    rust_eth_playground.Networking.Manager.on_event
    rust_eth_playground.Networking.Manager.on_message rust_eth_playground.Node.adapt_all
    rust_eth_playground.Node.adapt rust_eth_playground.Networking.Manager.manage
    rust_eth_playground.Networking.Manager.send_to
alice_answered = refl
