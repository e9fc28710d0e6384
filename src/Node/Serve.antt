-- ===== src/Node/Serve.antt =====
-- node/src/main.rs, core/networking/src/manager.rs and processor/src/block_processor.rs together:
-- what a message of a peer brings about.
use rust_eth_playground.Prelude.{
  ℕ, ◌≡◌, refl, arith, sym, Bool, true, false, ◌&&◌, Option, none, some, List, [], ◌∷◌, ◌++◌,
  nat_eq, get, if◌then◌else◌, Result, ok, err, panic,
}
use rust_eth_playground.Types.Primitives.{Address, Account}
use rust_eth_playground.Types.Transaction.{Block}
use rust_eth_playground.Signing.{Crypto}
use rust_eth_playground.Networking.Message.{Message}
use rust_eth_playground.Networking.Connection.{Sender, PeerEvent, message, send_message}
use rust_eth_playground.Networking.Manager.{
  Peers, event, manage_turn, on_event, on_message, send_to, broadcast, ManagerTurn, manage,
}
use rust_eth_playground.Processor.State.{ProcessorError, BlockProcessor}
use rust_eth_playground.Processor.Process.{account_state}
use rust_eth_playground.Processor.Run.{ProcessorMessage}
use rust_eth_playground.Processor.Run
use rust_eth_playground.Node.{Passed, adapt, adapt_all, account_answer}

-- Which channels are open: from the manager to the adapter, and from there to the processor and
-- back to the manager.
pub record Channels : Type 0 where
  pub adapter_open : Bool
  pub processor_open : Bool
  pub manager_open : Bool

-- The answer that a request for an account gets.
abbrev pub account_reply : Address → Result ProcessorError Account → List Message
account_reply address (ok a) = Message.account_state address a.nonce a.balance ∷ []
account_reply address (err e) = []
account_reply address panic = []

abbrev pub head_reply : BlockProcessor → Message
head_reply s =
    Message.chain_head s.shared_head.number s.shared_head.hash s.shared_head.total_difficulty

-- What a message is worth to the processor.
abbrev pub forwarded : ℕ → Message → List ProcessorMessage
forwarded id (Message.new_block block td) = Run.new_block block id ∷ []
forwarded id (Message.get_account_state address) = Run.get_account_state address ∷ []
forwarded id m = []

-- What comes to a peer, if it is known and listens.
abbrev pub to_peer : (Sender → Bool) → ℕ → Option Sender → List Message → List (ℕ × Message)
to_peer listens id none ms = []
to_peer listens id (some sender) [] = []
to_peer listens id (some sender) (m ∷ ms) =
    let rest = to_peer listens id (some sender) ms in
    if listens sender then (id, m) ∷ rest else rest

if_same : {A : Type 0} (b : Bool) → if◌then◌else◌ {A = List A} b [] [] ≡ []
if_same true = refl
if_same false = refl

to_peer-nil :
    (listens : Sender → Bool) (id : ℕ) (known : Option Sender) → to_peer listens id known [] ≡ []
to_peer-nil listens id none = refl
to_peer-nil listens id (some sender) = refl

module _ (crypto : Crypto) (s : BlockProcessor) (c : Channels) where
  -- The answer of the node to a message.
  abbrev pub answers : Message → List Message
  answers Message.get_chain_head = if c.manager_open then head_reply s ∷ [] else []
  answers (Message.get_account_state address) =
      if c.processor_open && c.manager_open
      then account_reply address (account_state crypto address s)
      else []
  answers m = []

module _ (crypto : Crypto) (s : BlockProcessor) (listens : Sender → Bool) (c : Channels) where
  -- The turns of the manager that some events make.
  abbrev turns_of : List PeerEvent → List ManagerTurn
  turns_of [] = []
  turns_of (e ∷ rest) =
      record { input = event e; listens = listens; processor_open = c.adapter_open } ∷ turns_of rest

  -- A message of a peer: what the adapter makes of what the manager passes on.
  unfoldable pub serve : ℕ → Message → Peers → Passed
  serve id m peers =
      adapt_all crypto s c.processor_open c.manager_open
        (manage_turn listens c.adapter_open (event (message id m)) peers).network

  -- What the peers get, once the manager has handled the answers.
  unfoldable pub replies : ℕ → Message → Peers → List (ℕ × Message)
  unfolding serve
  replies id m peers = (manage (turns_of (serve id m peers).to_manager) peers).sent

  -- One answer through the manager.
  delivered :
      (id : ℕ) (m : Message) (peers : Peers)
      → (manage (turns_of (send_message id m ∷ [])) peers).sent
        ≡ to_peer listens id (get id peers) (m ∷ [])
  unfolding manage manage_turn on_event send_to
  delivered id m peers = ground arith

  account-delivered :
      (id : ℕ) (address : Address) (peers : Peers) (r : Result ProcessorError Account)
      → (manage (turns_of (account_answer crypto address id r ++ [])) peers).sent
        ≡ to_peer listens id (get id peers) (account_reply address r)
  unfolding manage
  account-delivered id address peers (ok a) =
      delivered id (Message.account_state address a.nonce a.balance) peers
  account-delivered id address peers (err e) = sym (to_peer-nil listens id (get id peers))
  account-delivered id address peers panic = sym (to_peer-nil listens id (get id peers))

  -- A message that the manager handles itself.
  kept_by_manager :
      (id : ℕ) (m : Message) (peers : Peers)
      → (manage_turn listens c.adapter_open (event (message id m)) peers).network ≡ []
      → (replies id m peers ≡ to_peer listens id (get id peers) [])
        × ((serve id m peers).to_processor ≡ [])
  unfolding serve replies adapt_all manage
  kept_by_manager id m peers h = rw (replies, h, to_peer-nil listens id (get id peers)) (refl, refl)

module _ (crypto : Crypto) (s : BlockProcessor) (listens : Sender → Bool) where
  -- What a message brings about is the node's answer, for its peer, and what is worth forwarding.
  abbrev pub IsServed : Channels → ℕ → Message → Peers → Type 0
  IsServed c id m peers =
      (replies crypto s listens c id m peers
        ≡ to_peer listens id (get id peers) (if c.adapter_open then answers crypto s c m else []))
      × ((serve crypto s listens c id m peers).to_processor
          ≡ (if c.adapter_open && c.processor_open then forwarded id m else []))

  abbrev channels : Bool → Bool → Bool → Channels
  channels a p m = record { adapter_open = a; processor_open = p; manager_open = m }

  unanswered : (id : ℕ) (peers : Peers) → [] ≡ to_peer listens id (get id peers) []
  unanswered id peers = sym (to_peer-nil listens id (get id peers))

  head-IsServed :
      (a p q : Bool) (id : ℕ) (peers : Peers)
      → IsServed (channels a p q) id Message.get_chain_head peers
  unfolding replies serve manage_turn on_event on_message adapt_all adapt manage
  head-IsServed true true true id peers =
      (delivered crypto s listens (channels true true true) id (head_reply s) peers, refl)
  head-IsServed true false true id peers =
      (delivered crypto s listens (channels true false true) id (head_reply s) peers, refl)
  head-IsServed true true false id peers = (unanswered id peers, refl)
  head-IsServed true false false id peers = (unanswered id peers, refl)
  head-IsServed false p q id peers = (unanswered id peers, refl)

  account-IsServed :
      (a p q : Bool) (id : ℕ) (address : Address) (peers : Peers)
      → IsServed (channels a p q) id (Message.get_account_state address) peers
  unfolding replies serve manage_turn on_event on_message adapt_all adapt manage
  account-IsServed true true true id address peers = (
    account-delivered crypto s listens (channels true true true) id address peers
        (account_state crypto address s),
    refl,
  )
  account-IsServed true true false id address peers = (unanswered id peers, refl)
  account-IsServed true false q id address peers = (unanswered id peers, refl)
  account-IsServed false p q id address peers = (unanswered id peers, refl)

  block-IsServed :
      (a p q : Bool) (id : ℕ) (block : Block) (td : ℕ) (peers : Peers)
      → IsServed (channels a p q) id (Message.new_block block td) peers
  unfolding replies serve manage_turn on_event on_message adapt_all adapt manage
  block-IsServed true true q id block td peers = (unanswered id peers, refl)
  block-IsServed true false q id block td peers = (unanswered id peers, refl)
  block-IsServed false p q id block td peers = (unanswered id peers, refl)

  idle-IsServed :
      (c : Channels) (id : ℕ) (m : Message) (peers : Peers)
      → (manage_turn listens c.adapter_open (event (message id m)) peers).network ≡ []
      → answers crypto s c m ≡ []
      → forwarded id m ≡ []
      → IsServed c id m peers
  idle-IsServed c id m peers kept no_answer nothing =
      let (r, f) = kept_by_manager crypto s listens c id m peers kept in
      rw (no_answer, nothing, if_same c.adapter_open, if_same (c.adapter_open && c.processor_open))
        (r, f)

  pong-network : (id : ℕ) (peers : Peers) → (send_to listens id Message.pong peers).network ≡ []
  unfolding send_to
  pong-network id peers = ground arith

  -- Whatever a peer sends, and whichever channels are open, what the node answers through the
  -- adapter goes to that peer alone, and only if the manager knows it and it listens: the shared
  -- head to a request for the head of the chain, and the nonce and balance of an account to a
  -- request for it, if the processor is there and finds the account; no answer comes while a
  -- channel that it needs is closed. The processor gets each block and each request for an account
  -- while the channels to it are open, and nothing else.
  pub serve_message : (c : Channels) (id : ℕ) (m : Message) (peers : Peers) → IsServed c id m peers
  unfolding manage_turn on_event on_message broadcast
  serve_message c id Message.get_chain_head peers =
      head-IsServed c.adapter_open c.processor_open c.manager_open id peers
  serve_message c id (Message.get_account_state address) peers =
      account-IsServed c.adapter_open c.processor_open c.manager_open id address peers
  serve_message c id (Message.new_block block td) peers =
      block-IsServed c.adapter_open c.processor_open c.manager_open id block td peers
  serve_message c id Message.ping peers =
      idle-IsServed c id Message.ping peers (pong-network id peers) refl refl
  serve_message c id Message.pong peers = idle-IsServed c id Message.pong peers refl refl refl
  serve_message c id (Message.status chain_id head_hash td) peers =
      idle-IsServed c id (Message.status chain_id head_hash td) peers refl refl refl
  serve_message c id (Message.transactions txs) peers =
      idle-IsServed c id (Message.transactions txs) peers refl refl refl
  serve_message c id (Message.get_block_headers hash count) peers =
      idle-IsServed c id (Message.get_block_headers hash count) peers refl refl refl
  serve_message c id (Message.new_block_hashes hashes) peers =
      idle-IsServed c id (Message.new_block_hashes hashes) peers refl refl refl
  serve_message c id (Message.block_headers headers) peers =
      idle-IsServed c id (Message.block_headers headers) peers refl refl refl
  serve_message c id (Message.disconnect reason) peers =
      idle-IsServed c id (Message.disconnect reason) peers refl refl refl
  serve_message c id (Message.account_state address nonce balance) peers =
      idle-IsServed c id (Message.account_state address nonce balance) peers refl refl refl
  serve_message c id (Message.chain_head number hash td) peers =
      idle-IsServed c id (Message.chain_head number hash td) peers refl refl refl
