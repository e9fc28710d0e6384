-- ===== src/Networking/Peers.antt =====
-- core/networking/src/manager.rs: who is sent what, and which peers the manager knows.
use rust_eth_playground.Prelude.{
  ℕ, ◌≡◌, refl, ◌∙◌, Bool, true, false, Option, none, some, List, [], ◌∷◌, ◌==◌, ==_iff,
  if◌then◌else◌, nat_eq, get, remove, get-remove, IsMap, arith,
}
use rust_eth_playground.Types.Transaction.{Transaction}
use rust_eth_playground.Networking.Message.{Message, transactions}
use rust_eth_playground.Networking.Connection.{Sender}
use rust_eth_playground.Networking.Manager.{Peers, send_all, remove_all, broadcast, on_message}

-- The messages that are for one peer.
abbrev pub sent_to : ℕ → List (ℕ × Message) → List Message
sent_to k [] = []
sent_to k ((id, m) ∷ rest) = if id == k then m ∷ sent_to k rest else sent_to k rest

module _ (listens : Sender → Bool) (skipped : ℕ → Bool) (m : Message) where
  -- What a send to all peers brings to one of them.
  abbrev pub share : ℕ → Option Sender → List Message
  share k none = []
  share k (some sender) = if skipped k then [] else if listens sender then m ∷ [] else []

  send_all-absent :
      (k : ℕ) (peers : Peers)
      → get k peers ≡ none
      → sent_to k (send_all listens skipped m peers).0 ≡ []
  unfolding send_all get
  send_all-absent k [] h = refl
  send_all-absent k ((id, sender) ∷ rest) h = ground (arith, ==_iff id k, send_all-absent k rest)

  pub send_all-share :
      (k : ℕ) (peers : Peers)
      → IsMap peers
      → sent_to k (send_all listens skipped m peers).0 ≡ share k (get k peers)
  unfolding send_all get
  send_all-share k [] h = refl
  send_all-share k ((id, sender) ∷ rest) h =
      ground (arith, ==_iff id k, send_all-share k rest h.1, send_all-absent k rest)

  abbrev pub kept : ℕ → Option Sender → Option Sender
  kept k none = none
  kept k (some sender) =
      if skipped k then some sender else if listens sender then some sender else none

abbrev has : ℕ → List ℕ → Bool
has k [] = false
has k (id ∷ rest) = if id == k then true else has k rest

get-remove_all :
    (k : ℕ) (stale : List ℕ) (peers : Peers)
    → get k (remove_all stale peers) ≡ (if has k stale then none else get k peers)
unfolding remove_all
get-remove_all k [] peers = refl
get-remove_all k (id ∷ stale) peers =
    ground (arith, ==_iff id k, get-remove_all k stale (remove id peers), get-remove id k peers)

module _ (listens : Sender → Bool) (skipped : ℕ → Bool) (m : Message) where
  has-stale_absent :
      (k : ℕ) (peers : Peers)
      → get k peers ≡ none
      → has k (send_all listens skipped m peers).1 ≡ false
  unfolding send_all get
  has-stale_absent k [] h = refl
  has-stale_absent k ((id, sender) ∷ rest) h = ground (arith, ==_iff id k, has-stale_absent k rest)

  stale-kept :
      (k : ℕ) (peers : Peers)
      → IsMap peers
      → (if has k (send_all listens skipped m peers).1 then none else get k peers)
        ≡ kept listens skipped m k (get k peers)
  unfolding send_all get
  stale-kept k [] h = refl
  stale-kept k ((id, sender) ∷ rest) h =
      ground (arith, ==_iff id k, stale-kept k rest h.1, has-stale_absent k rest)

  pub broadcast-kept :
      (k : ℕ) (peers : Peers)
      → IsMap peers
      → get k (broadcast listens skipped m peers).peers ≡ kept listens skipped m k (get k peers)
  unfolding broadcast
  broadcast-kept k peers h =
      get-remove_all k (send_all listens skipped m peers).1 peers ∙ stale-kept k peers h

-- Transactions that a peer sends go on, once each, to exactly the known peers but that one which
-- still listen; a peer that does not is forgotten, and nothing else changes in the map of peers.
pub on_message-transactions :
    (listens : Sender → Bool) (processor_open : Bool) (id : ℕ) (txs : List Transaction)
    (peers : Peers) (k : ℕ)
    → IsMap peers
    → (sent_to k (on_message listens processor_open id (transactions txs) peers).sent
        ≡ share listens (λ other. other == id) (transactions txs) k (get k peers))
      × (get k (on_message listens processor_open id (transactions txs) peers).peers
          ≡ kept listens (λ other. other == id) (transactions txs) k (get k peers))
unfolding on_message broadcast
on_message-transactions listens processor_open id txs peers k h = (
  send_all-share listens (λ other. other == id) (transactions txs) k peers h,
  broadcast-kept listens (λ other. other == id) (transactions txs) k peers h,
)
