-- ===== src/Node.antt =====
-- node/src/main.rs: the task between the manager of peers and the block processor.
pub mod Serve
use rust_eth_playground.Prelude.{
  ℕ, Bool, true, false, List, [], ◌∷◌, ◌++◌, if◌then◌else◌, Result, ok, err, panic,
}
use rust_eth_playground.Types.Primitives.{Address, Account}
use rust_eth_playground.Signing.{Crypto}
use rust_eth_playground.Networking.Message.{Message}
use rust_eth_playground.Networking.Message
use rust_eth_playground.Networking.Connection.{PeerEvent, send_message}
use rust_eth_playground.Networking.Manager.{
  NetworkEvent, new_block_from, account_state_for, chain_head_for,
}
use rust_eth_playground.Processor.State.{ProcessorError, BlockProcessor}
use rust_eth_playground.Processor.Run.{ProcessorMessage}
use rust_eth_playground.Processor.Run
use rust_eth_playground.Processor.Process.{account_state}

-- What goes on to the processor and back to the manager.
pub record Passed : Type 0 where
  pub to_processor : List ProcessorMessage
  pub to_manager : List PeerEvent

module _ (crypto : Crypto) where
  -- The answer to a peer, once the processor has answered.
  abbrev pub account_answer : Address → ℕ → Result ProcessorError Account → List PeerEvent
  account_answer address peer_id (ok account) =
      send_message peer_id (Message.account_state address account.nonce account.balance) ∷ []
  account_answer address peer_id (err e) = []
  account_answer address peer_id panic = []

  -- One event of the manager. `s` is the processor when it answers, and its shared head; the flags
  -- say whether the channels to the processor and to the manager are open.
  unfoldable pub adapt : BlockProcessor → Bool → Bool → NetworkEvent → Passed
  adapt s processor_open manager_open (new_block_from block peer_id) = record {
    to_processor = if processor_open then Run.new_block block peer_id ∷ [] else [];
    to_manager = [];
  }
  adapt s processor_open manager_open (account_state_for address peer_id) =
      if processor_open
      then record {
        to_processor = Run.get_account_state address ∷ [];
        to_manager =
            if manager_open
            then account_answer address peer_id (account_state crypto address s)
            else [];
      }
      else record { to_processor = []; to_manager = [] }
  adapt s processor_open manager_open (chain_head_for peer_id) = record {
    to_processor = [];
    to_manager =
        if manager_open
        then send_message peer_id (
            Message.chain_head s.shared_head.number s.shared_head.hash
              s.shared_head.total_difficulty)
          ∷ []
        else [];
  }

  -- The events of a turn of the manager, one after the other.
  unfoldable pub adapt_all : BlockProcessor → Bool → Bool → List NetworkEvent → Passed
  adapt_all s processor_open manager_open [] = record { to_processor = []; to_manager = [] }
  adapt_all s processor_open manager_open (e ∷ rest) =
      let now = adapt s processor_open manager_open e in
      let later = adapt_all s processor_open manager_open rest in
      record {
        to_processor = now.to_processor ++ later.to_processor;
        to_manager = now.to_manager ++ later.to_manager;
      }
