-- ===== src/Execution/Provider.antt =====
-- core/execution/src/in_memory.rs: the in-memory provider, its reads of providers.rs, and the
-- journal of account changes.
use rust_eth_playground.Prelude.{
  ℕ, ◌≡◌, Bool, true, Option, none, some, List, [], ◌∷◌, bytes_eq, nat_eq, HashMap, get, insert,
  remove, Result, ok, err, panic, ◌>>=◌, ok_or, Eq, bytes_beq, ◌&&◌, arith, ◌↔◌, bytes_beq_iff,
}
use rust_eth_playground.Types.Primitives.{Address, B256, Account, Header, zero_array}
use rust_eth_playground.Types.Transaction.{SignedTransaction, Block}
use rust_eth_playground.Signing.{Crypto, signed_transaction_hash, hash_header}
use rust_eth_playground.Execution.Types.{
  Receipt, ExecutionError, block_not_found, header_not_found, transaction_not_found,
  receipt_not_found, account_not_found, journal_already_set, signing, rlp,
}

-- The key `(address, slot)` of the storage map.
abbrev pub pair_beq : Address × B256 → Address × B256 → Bool
pair_beq (a, s) (b, t) = bytes_beq a b && bytes_beq s t

pub pair_beq_iff : (x y : Address × B256) → (pair_beq x y ≡ true) ↔ (x ≡ y)
pair_beq_iff (a, s) (b, t) = ground (arith, bytes_beq_iff a b, bytes_beq_iff s t)

instance abbrev pub pair_eq : Eq (Address × B256)
pair_eq = record { beq = pair_beq; beq_iff = pair_beq_iff }

-- `StateJournal`: what each account was when it was first changed.
abbrev pub StateJournal : Type 0
StateJournal = HashMap Address (Option Account)

pub record InMemoryProvider : Type 0 where
  pub blocks : HashMap ℕ Block
  pub blocks_by_hash : HashMap B256 ℕ
  pub transactions : HashMap B256 (SignedTransaction × ℕ)
  pub receipts : HashMap B256 Receipt
  pub state : HashMap Address Account
  pub storage : HashMap (Address × B256) B256
  pub journal : Option StateJournal

-- `InMemoryProvider::default()`.
abbrev pub empty_provider : InMemoryProvider
empty_provider = record {
  blocks = [];
  blocks_by_hash = [];
  transactions = [];
  receipts = [];
  state = [];
  storage = [];
  journal = none;
}

-- The reads, each with the error of a missing key.
unfoldable pub get_block_by_number : ℕ → InMemoryProvider → Result ExecutionError Block
get_block_by_number number p = ok_or (get number p.blocks) (block_not_found number)

unfoldable pub get_block_by_hash : B256 → InMemoryProvider → Result ExecutionError Block
get_block_by_hash hash p = do
  number ← ok_or (get hash p.blocks_by_hash) (header_not_found hash)
  get_block_by_number number p

unfoldable pub get_header_by_number : ℕ → InMemoryProvider → Result ExecutionError Header
get_header_by_number number p = do
  block ← ok_or (get number p.blocks) (block_not_found number)
  ok (block.header)

unfoldable pub get_header_by_hash : B256 → InMemoryProvider → Result ExecutionError Header
get_header_by_hash hash p = do
  number ← ok_or (get hash p.blocks_by_hash) (header_not_found hash)
  get_header_by_number number p

unfoldable pub get_account : Address → InMemoryProvider → Result ExecutionError Account
get_account address p = ok_or (get address p.state) (account_not_found address)

unfoldable pub get_balance : Address → InMemoryProvider → Result ExecutionError ℕ
get_balance address p = do account_info ← get_account address p; ok (account_info.balance)

unfoldable pub get_nonce : Address → InMemoryProvider → Result ExecutionError ℕ
get_nonce address p = do account_info ← get_account address p; ok (account_info.nonce)

abbrev or_zero_hash : Option B256 → B256
or_zero_hash none = zero_array 32
or_zero_hash (some value) = value

unfoldable pub get_storage : Address → B256 → InMemoryProvider → Result ExecutionError B256
get_storage address slot p = ok (or_zero_hash (get (address, slot) p.storage))

unfoldable pub get_transaction : B256 → InMemoryProvider → Result ExecutionError SignedTransaction
get_transaction hash p = do
  entry ← ok_or (get hash p.transactions) (transaction_not_found hash)
  ok entry.0

unfoldable pub get_block_transactions :
    ℕ → InMemoryProvider → Result ExecutionError (List SignedTransaction)
get_block_transactions number p = do
  block ← ok_or (get number p.blocks) (block_not_found number)
  ok (block.transactions)

unfoldable pub get_receipt : B256 → InMemoryProvider → Result ExecutionError Receipt
get_receipt hash p = ok_or (get hash p.receipts) (receipt_not_found hash)

-- The writes.
unfoldable pub insert_transaction :
    B256 → SignedTransaction → ℕ → InMemoryProvider → InMemoryProvider
insert_transaction hash transaction number p = record p {
  transactions = insert hash (transaction, number) p.transactions;
}

unfoldable pub insert_receipt : Receipt → InMemoryProvider → InMemoryProvider
insert_receipt receipt p = record p {
  receipts = insert receipt.transaction_hash receipt p.receipts;
}

unfoldable pub set_storage : Address → B256 → B256 → InMemoryProvider → InMemoryProvider
set_storage address slot value p = record p { storage = insert (address, slot) value p.storage }

-- The journal notes an account once, before its first change.
unfoldable pub journal_account :
    Address → Option Account → Option StateJournal → Option StateJournal
journal_account address before none = none
journal_account address before (some accounts) = elim (get address accounts) [
  | none ↦ some (insert address before accounts)
  | some noted ↦ some accounts
]

unfoldable pub set_account : Address → Account → InMemoryProvider → InMemoryProvider
unfolding journal_account
set_account address info p = record p {
  state = insert address info p.state;
  journal = journal_account address (get address p.state) p.journal;
}

unfoldable pub begin_journal : InMemoryProvider → Result ExecutionError InMemoryProvider
begin_journal p = elim p.journal [
  | none ↦ ok (record p { journal = some [] })
  | some j ↦ err journal_already_set
]

unfoldable pub commit_journal : InMemoryProvider → InMemoryProvider
commit_journal p = record p { journal = none }

-- One account put back.
abbrev pub restore_account :
    Address → Option Account → HashMap Address Account → HashMap Address Account
restore_account address none state = remove address state
restore_account address (some account) state = insert address account state

-- The loop over the journal.
unfoldable pub restore : StateJournal → HashMap Address Account → HashMap Address Account
restore [] state = state
restore ((address, account) ∷ rest) state = restore rest (restore_account address account state)

abbrev restored : Option StateJournal → HashMap Address Account → HashMap Address Account
restored none state = state
restored (some journal) state = restore journal state

unfoldable pub rollback_journal : InMemoryProvider → InMemoryProvider
unfolding restore
rollback_journal p = record p { state = restored p.journal p.state; journal = none }

-- `insert_block`: the loop that indexes the transactions, then the block. An error of a hash ends
-- it with what was written before, which is the second component.
module _ (crypto : Crypto) where
  unfoldable pub index_transactions :
      List SignedTransaction
      → ℕ
      → InMemoryProvider
      → Result ExecutionError (Unit {0}) × InMemoryProvider
  unfolding insert_transaction
  index_transactions [] number p = (ok tt, p)
  index_transactions (t ∷ rest) number p = elim (signed_transaction_hash crypto t) [
    | ok hash ↦ index_transactions rest number (insert_transaction hash t number p)
    | err e ↦ (err (signing e), p)
    | panic ↦ (panic, p)
  ]

  -- `self.blocks.insert(block_number, block)` once the transactions are in.
  abbrev store_block :
      Block
      → Result ExecutionError (Unit {0}) × InMemoryProvider
      → Result ExecutionError (Unit {0}) × InMemoryProvider
  store_block block (ok _, p) =
      (ok tt, record p { blocks = insert block.header.number block p.blocks })
  store_block block (err e, p) = (err e, p)
  store_block block (panic, p) = (panic, p)

  unfoldable pub insert_block :
      Block → InMemoryProvider → Result ExecutionError (Unit {0}) × InMemoryProvider
  unfolding index_transactions
  insert_block block p = elim (hash_header crypto block.header) [
    | ok hash ↦ store_block block (
        index_transactions block.transactions block.header.number
          (record p { blocks_by_hash = insert hash block.header.number p.blocks_by_hash }))
    | err e ↦ (err (rlp e), p)
    | panic ↦ (panic, p)
  ]
