-- ===== src/Execution/Executor.antt =====
-- core/execution/src/executor.rs: the state root, and the execution of the value transfers of a
-- block.
use rust_eth_playground.Prelude as Prelude
use rust_eth_playground.Prelude.{
  ℕ, ◌+◌, ◌*◌, ◌/◌, Bool, true, false, not, Option, none, some, List, [], ◌∷◌, ◌++◌, ltb, ◌==◌,
  Bytes, u64_mod, u128_mod, Result, ok, err, panic, raise_if, ok_or, map_err, checked_add,
  checked_mul, checked_sub, bit_or, wrapping_add_u64,
}
use rust_eth_playground.Types.Primitives.{
  Address, B256, Bloom, Account, default_account, zero_array,
}
use rust_eth_playground.Types.Transaction.{
  Transaction, SignedTransaction, Block, nonce_of, gas_limit_of, to_of, value_of, max_cost,
  effective_gas_price,
}
use rust_eth_playground.Rlp.Item.{list_of}
use rust_eth_playground.Codec.Scalars.{u64_to_item, u128_to_item, array_to_item}
use rust_eth_playground.Trie.Node.{MerkleTrie, new_trie, trie_insert, TrieError}
use rust_eth_playground.Trie.Hash.{encode_item, root_hash}
use rust_eth_playground.Signing.{Crypto, signed_transaction_hash, hash_header}
use rust_eth_playground.Execution.Types.{
  Receipt, ExecutionError, account_not_found, insufficient_balance, invalid_nonce, overflow,
  underflow, transaction, signing, root_compute, rlp,
}
use rust_eth_playground.Execution.Provider.{InMemoryProvider, get_account, set_account}
use rust_eth_playground.Execution.Monad.{ProviderAction, lift, reads, modify, ◌>>=◌, ◌>>◌}

-- The loop of `compute_state_root` over the accounts; the storage root is the zero hash.
unfoldable pub insert_accounts : List (Address × Account) → MerkleTrie → Result TrieError MerkleTrie
insert_accounts [] trie = ok trie
insert_accounts ((address, info) ∷ rest) trie =
    Prelude.◌>>=◌
      (encode_item
        (list_of (
          u64_to_item info.nonce
          ∷ u128_to_item info.balance
          ∷ array_to_item (zero_array 32)
          ∷ array_to_item info.code_hash
          ∷ []))
        [])
      λ encoded.
        Prelude.◌>>=◌ (trie_insert address encoded trie) λ grown. insert_accounts rest grown

unfoldable pub compute_state_root : (Bytes → B256) → InMemoryProvider → Result TrieError B256
unfolding insert_accounts
compute_state_root keccak256 p =
    Prelude.◌>>=◌ (insert_accounts p.state new_trie) λ trie. root_hash keccak256 trie

pub record ExecutionOutput : Type 0 where
  pub gas_used : ℕ
  pub receipts : List Receipt
  pub logs_bloom : Bloom
  pub state_root : B256

pub record BlockWithSenders : Type 0 where
  pub block : Block
  pub senders : List Address

-- `logs_bloom |= &receipt.logs_bloom`.
abbrev pub bitor_assign : Bloom → Bloom → Bloom
bitor_assign [] bs = []
bitor_assign (a ∷ as') [] = a ∷ as'
bitor_assign (a ∷ as') (b ∷ bs) = bit_or a b ∷ bitor_assign as' bs

-- The sender's checks and payment: the gas price, and the account after the transaction.
unfoldable pub charge : ℕ → Transaction → Address → Account → Result ExecutionError (ℕ × Account)
charge base_fee tx sender account =
    Prelude.◌>>◌
      (raise_if (not (nonce_of tx == account.nonce))
        (invalid_nonce sender account.nonce (nonce_of tx)))
      (Prelude.◌>>=◌ (map_err transaction (max_cost tx)) λ cost.
        Prelude.◌>>◌
          (raise_if (ltb account.balance cost) (insufficient_balance sender account.balance cost))
          (Prelude.◌>>=◌ (map_err transaction (effective_gas_price tx base_fee)) λ price.
            Prelude.◌>>=◌ (ok_or (checked_mul u128_mod price (gas_limit_of tx)) overflow)
              λ gas_cost.
                Prelude.◌>>=◌ (ok_or (checked_add u128_mod gas_cost (value_of tx)) overflow)
                  λ total.
                    Prelude.◌>>=◌ (ok_or (checked_sub account.balance total) underflow) λ balance.
                      Prelude.◌>>=◌ (ok_or (checked_add u64_mod account.nonce 1) overflow)
                        λ nonce. ok (price, record account { balance = balance; nonce = nonce })))

-- `get_account(..).or_else(..)`: an address without an account has the default one.
abbrev pub or_default : Result ExecutionError Account → Result ExecutionError Account
or_default (ok account) = ok account
or_default (err (account_not_found address)) = ok default_account
or_default (err e) = err e
or_default panic = panic

-- The recipient's part. A transaction without a recipient reaches `todo!()`.
unfoldable pub credit : Option Address → ℕ → ProviderAction (Unit {0})
credit none value = lift panic
credit (some recipient) value = do
  account ← reads (λ p. or_default (get_account recipient p))
  balance ← lift (ok_or (checked_add u128_mod account.balance value) overflow)
  modify (set_account recipient (record account { balance = balance }))

-- The variables of the loop.
pub record Progress : Type 0 where
  pub cumulative_gas_used : ℕ
  pub receipts : List Receipt
  pub logs_bloom : Bloom

abbrev pub no_progress : Progress
no_progress = record { cumulative_gas_used = 0; receipts = []; logs_bloom = zero_array 256 }

abbrev pub make_receipt : B256 → ℕ → ℕ → B256 → ℕ → SignedTransaction → Address → ℕ → Receipt
make_receipt block_hash block_number i hash cumulative t sender price = record {
  transaction_hash = hash;
  transaction_index = i;
  block_hash = block_hash;
  block_number = block_number;
  sender = sender;
  to = to_of t.transaction;
  contract_address = none;
  cumulative_gas_used = cumulative;
  effective_gas_price = price;
  gas_used = gas_limit_of t.transaction;
  status = true;
  logs = [];
  logs_bloom = zero_array 256;
}

module _ (crypto : Crypto) where
  -- The gas and the receipt of a transaction whose transfers are done.
  unfoldable pub add_receipt :
      B256 → ℕ → ℕ → SignedTransaction → Address → ℕ → Progress → Result ExecutionError Progress
  add_receipt block_hash block_number i t sender price progress =
      Prelude.◌>>=◌
        (ok_or (checked_add u64_mod progress.cumulative_gas_used (gas_limit_of t.transaction))
          overflow)
        λ cumulative. Prelude.◌>>=◌ (map_err signing (signed_transaction_hash crypto t)) λ hash.
          let receipt = make_receipt block_hash block_number i hash cumulative t sender price in
          ok (record {
            cumulative_gas_used = cumulative;
            receipts = progress.receipts ++ (receipt ∷ []);
            logs_bloom = bitor_assign progress.logs_bloom receipt.logs_bloom;
          })

  -- The body of the loop.
  unfoldable pub execute_transaction :
      B256 → ℕ → ℕ → ℕ → SignedTransaction → Address → Progress → ProviderAction Progress
  execute_transaction block_hash block_number base_fee i t sender progress = do
    account ← reads (get_account sender)
    (price, charged) ← lift (charge base_fee t.transaction sender account)
    modify (set_account sender charged)
    credit (to_of t.transaction) (value_of t.transaction)
    lift (add_receipt block_hash block_number i t sender price progress)

  -- The loop over `transactions.zip(senders).enumerate()`.
  unfoldable pub execute_transactions :
      B256 → ℕ → ℕ → ℕ → List SignedTransaction → List Address → Progress → ProviderAction Progress
  execute_transactions block_hash block_number base_fee i [] senders progress = lift (ok progress)
  execute_transactions block_hash block_number base_fee i (t ∷ txs) [] progress = lift (ok progress)
  execute_transactions block_hash block_number base_fee i (t ∷ txs) (sender ∷ senders) progress =
      execute_transaction block_hash block_number base_fee i t sender progress >>= λ progress'.
      execute_transactions block_hash block_number base_fee (i + 1) txs senders progress'

  -- `ValueTransferExecutor::execute`.
  unfoldable pub execute : BlockWithSenders → ProviderAction ExecutionOutput
  execute b = do
    block_hash ← lift (map_err rlp (hash_header crypto b.block.header))
    progress ←
        execute_transactions block_hash b.block.header.number (b.block.header.gas_limit / 2) 0
          b.block.transactions b.senders no_progress
    state_root ← reads (λ p. map_err root_compute (compute_state_root crypto.keccak256 p))
    lift (
        ok (record {
          gas_used = progress.cumulative_gas_used;
          receipts = progress.receipts;
          logs_bloom = progress.logs_bloom;
          state_root = state_root;
        }))
