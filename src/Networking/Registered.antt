-- ===== src/Networking/Registered.antt =====
-- core/networking/src/manager.rs: the map of peers follows the events of the connections.
use rust_eth_playground.Prelude.{
  ℕ, ◌≡◌, ◌⊎◌, refl, ap, ◌∙◌, Bool, true, false, Option, none, some, List, [], ◌∷◌, ◌==◌, ==_iff,
  if◌then◌else◌, nat_eq, get, remove, get-remove, get-insert, IsMap, insert-IsMap, remove-IsMap,
  arith, Option-cases, inl, inr,
}
use rust_eth_playground.Networking.Message.{
  Message, ping, pong, status, transactions, get_block_headers, new_block, new_block_hashes,
  block_headers, disconnect, get_account_state, account_state, get_chain_head, chain_head,
}
use rust_eth_playground.Networking.Connection.{
  Sender, connected, disconnected, message, send_message,
}
use rust_eth_playground.Networking.Manager.{
  Peers, Managed, Input, event, events_closed, tick, shutdown, remove_all, broadcast, send_to,
  on_message, on_event, manage_turn, ManagerTurn, send_all, shutdown_reason,
}
use rust_eth_playground.Networking.Peers.{sent_to, share, kept, broadcast-kept, send_all-share}

-- The channel of a peer by the events alone: that of its last connection, if it has not ended
-- since. `now` is what it was before.
abbrev pub registered_by : ℕ → Input → Option Sender → Option Sender
registered_by k (event (connected id address sender)) now = if id == k then some sender else now
registered_by k (event (disconnected id)) now = if id == k then none else now
registered_by k (event (message id m)) now = now
registered_by k (event (send_message id m)) now = now
registered_by k events_closed now = now
registered_by k tick now = now
registered_by k shutdown now = none

abbrev pub goes_on : Input → Bool
goes_on (event e) = true
goes_on events_closed = false
goes_on tick = true
goes_on shutdown = false

abbrev pub registered : ℕ → List ManagerTurn → Option Sender → Option Sender
registered k [] now = now
registered k (t ∷ turns) now =
    if goes_on t.input
    then registered k turns (registered_by k t.input now)
    else registered_by k t.input now

-- Nothing, or the same.
abbrev pub AtMost : Option Sender → Option Sender → Type 0
AtMost now then_ = (now ≡ none) ⊎ (now ≡ then_)

module _ (listens : Sender → Bool) (processor_open : Bool) (k : ℕ) where
  broadcast-AtMost :
      (skipped : ℕ → Bool) (m : Message) (peers : Peers)
      → IsMap peers
      → AtMost (get k (broadcast listens skipped m peers).peers) (get k peers)
  broadcast-AtMost skipped m peers h = elim (Option-cases (get k peers)) [
    | inl absent ↦
        inl (broadcast-kept listens skipped m k peers h ∙ ap (kept listens skipped m k) absent)
    | inr (sender, present) ↦ ground (arith, broadcast-kept listens skipped m k peers h)
  ]

  send_to-AtMost :
      (id : ℕ) (m : Message) (peers : Peers)
      → AtMost (get k (send_to listens id m peers).peers) (get k peers)
  unfolding send_to
  send_to-AtMost id m peers = ground (arith, get-remove id k peers)

  -- A turn leaves of a peer what the events say, or nothing.
  pub step-AtMost :
      (input : Input) (peers : Peers)
      → IsMap peers
      → AtMost
          (get k (manage_turn listens processor_open input peers).peers)
          (registered_by k input (get k peers))
  unfolding manage_turn on_event on_message get
  step-AtMost (event (connected id address sender)) peers h = inr (get-insert id k sender peers)
  step-AtMost (event (disconnected id)) peers h = inr (get-remove id k peers)
  step-AtMost (event (message id ping)) peers h = send_to-AtMost id pong peers
  step-AtMost (event (message id (transactions txs))) peers h =
      broadcast-AtMost (λ other. other == id) (transactions txs) peers h
  step-AtMost (event (message id pong)) peers h = inr refl
  step-AtMost (event (message id (status chain_id head_hash total_difficulty))) peers h = inr refl
  step-AtMost (event (message id (get_block_headers start_hash count))) peers h = inr refl
  step-AtMost (event (message id (new_block block td))) peers h = inr refl
  step-AtMost (event (message id (new_block_hashes new_blocks))) peers h = inr refl
  step-AtMost (event (message id (block_headers headers))) peers h = inr refl
  step-AtMost (event (message id (disconnect reason))) peers h = inr refl
  step-AtMost (event (message id (get_account_state address))) peers h = inr refl
  step-AtMost (event (message id (account_state address nonce balance))) peers h = inr refl
  step-AtMost (event (message id get_chain_head)) peers h = inr refl
  step-AtMost (event (message id (chain_head number hash total_difficulty))) peers h = inr refl
  step-AtMost (event (send_message id m)) peers h = send_to-AtMost id m peers
  step-AtMost events_closed peers h = inr refl
  step-AtMost tick peers h = broadcast-AtMost (λ other. false) ping peers h
  step-AtMost shutdown peers h = inl refl

  send_to-silent :
      (id : ℕ) (m : Message) (peers : Peers)
      → get k peers ≡ none
      → sent_to k (send_to listens id m peers).sent ≡ []
  unfolding send_to
  send_to-silent id m peers h = ground (arith, ==_iff id k)

  broadcast-silent :
      (skipped : ℕ → Bool) (m : Message) (peers : Peers)
      → IsMap peers
      → get k peers ≡ none
      → sent_to k (send_all listens skipped m peers).0 ≡ []
  broadcast-silent skipped m peers h absent =
      send_all-share listens skipped m k peers h ∙ ap (share listens skipped m k) absent

  -- A peer that is not in the map is sent nothing.
  pub step-silent :
      (input : Input) (peers : Peers)
      → IsMap peers
      → get k peers ≡ none
      → sent_to k (manage_turn listens processor_open input peers).sent ≡ []
  unfolding manage_turn on_event on_message broadcast
  step-silent (event (connected id address sender)) peers h absent = refl
  step-silent (event (disconnected id)) peers h absent = refl
  step-silent (event (message id ping)) peers h absent = send_to-silent id pong peers absent
  step-silent (event (message id (transactions txs))) peers h absent =
      broadcast-silent (λ other. other == id) (transactions txs) peers h absent
  step-silent (event (message id pong)) peers h absent = refl
  step-silent (event (message id (status chain_id head_hash td))) peers h absent = refl
  step-silent (event (message id (get_block_headers start_hash count))) peers h absent = refl
  step-silent (event (message id (new_block block td))) peers h absent = refl
  step-silent (event (message id (new_block_hashes new_blocks))) peers h absent = refl
  step-silent (event (message id (block_headers headers))) peers h absent = refl
  step-silent (event (message id (disconnect reason))) peers h absent = refl
  step-silent (event (message id (get_account_state address))) peers h absent = refl
  step-silent (event (message id (account_state address nonce balance))) peers h absent = refl
  step-silent (event (message id get_chain_head)) peers h absent = refl
  step-silent (event (message id (chain_head number hash td))) peers h absent = refl
  step-silent (event (send_message id m)) peers h absent = send_to-silent id m peers absent
  step-silent events_closed peers h absent = refl
  step-silent tick peers h absent = broadcast-silent (λ other. false) ping peers h absent
  step-silent shutdown peers h absent =
      broadcast-silent (λ other. false) (disconnect shutdown_reason) peers h absent

remove_all-IsMap : (stale : List ℕ) (peers : Peers) → IsMap peers → IsMap (remove_all stale peers)
unfolding remove_all
remove_all-IsMap [] peers h = h
remove_all-IsMap (id ∷ stale) peers h =
    remove_all-IsMap stale (remove id peers) (remove-IsMap id peers h)

module _ (listens : Sender → Bool) (processor_open : Bool) where
  -- A turn keeps each peer once, and goes on unless the input ends the loop.
  abbrev pub IsSteady : Bool → Managed → Type 0
  IsSteady more o = IsMap o.peers × (o.running ≡ more)

  broadcast-IsSteady :
      (skipped : ℕ → Bool) (m : Message) (peers : Peers)
      → IsMap peers
      → IsSteady true (broadcast listens skipped m peers)
  unfolding broadcast
  broadcast-IsSteady skipped m peers h =
      (remove_all-IsMap (send_all listens skipped m peers).1 peers h, refl)

  send_to-IsSteady :
      (id : ℕ) (m : Message) (peers : Peers)
      → IsMap peers
      → IsSteady true (send_to listens id m peers)
  unfolding send_to
  send_to-IsSteady id m peers h = ground (arith, remove-IsMap id peers h)

  pub step-IsSteady :
      (input : Input) (peers : Peers)
      → IsMap peers
      → IsSteady (goes_on input) (manage_turn listens processor_open input peers)
  unfolding manage_turn on_event on_message
  step-IsSteady (event (connected id address sender)) peers h =
      (insert-IsMap id sender peers h, refl)
  step-IsSteady (event (disconnected id)) peers h = (remove-IsMap id peers h, refl)
  step-IsSteady (event (message id ping)) peers h = send_to-IsSteady id pong peers h
  step-IsSteady (event (message id (transactions txs))) peers h =
      broadcast-IsSteady (λ other. other == id) (transactions txs) peers h
  step-IsSteady (event (message id pong)) peers h = (h, refl)
  step-IsSteady (event (message id (status chain_id head_hash td))) peers h = (h, refl)
  step-IsSteady (event (message id (get_block_headers start_hash count))) peers h = (h, refl)
  step-IsSteady (event (message id (new_block block td))) peers h = (h, refl)
  step-IsSteady (event (message id (new_block_hashes new_blocks))) peers h = (h, refl)
  step-IsSteady (event (message id (block_headers headers))) peers h = (h, refl)
  step-IsSteady (event (message id (disconnect reason))) peers h = (h, refl)
  step-IsSteady (event (message id (get_account_state address))) peers h = (h, refl)
  step-IsSteady (event (message id (account_state address nonce balance))) peers h = (h, refl)
  step-IsSteady (event (message id get_chain_head)) peers h = (h, refl)
  step-IsSteady (event (message id (chain_head number hash td))) peers h = (h, refl)
  step-IsSteady (event (send_message id m)) peers h = send_to-IsSteady id m peers h
  step-IsSteady events_closed peers h = (h, refl)
  step-IsSteady tick peers h = broadcast-IsSteady (λ other. false) ping peers h
  step-IsSteady shutdown peers h = (tt, refl)
