-- ===== src/Execution/Journal.antt =====
-- core/execution/src/in_memory.rs: after any changes of accounts under a journal, a rollback
-- brings every account back.
use rust_eth_playground.Prelude.{
  ◌≡◌, refl, sym, ap, ◌∙◌, Option, none, some, [], ◌∷◌, bytes_beq, bytes_beq_iff, bytes_eq, HashMap,
  get, insert, get-insert, get-remove, IsMap, insert-IsMap, if◌then◌else◌, arith,
}
use rust_eth_playground.Prelude.{Result, ok, err, panic}
use rust_eth_playground.Execution.Types.{ExecutionError}
use rust_eth_playground.Execution.Monad.{ProviderAction, continue, ◌>>=◌, lift, reads, modify}
use rust_eth_playground.Types.Primitives.{Address, Account}
use rust_eth_playground.Execution.Provider.{
  InMemoryProvider, StateJournal, journal_account, set_account, restore_account, restore,
  rollback_journal,
}

-- `before` is what the account was when the journal began: what the journal notes, or else what
-- the state still says.
abbrev IsBefore : Option Account → Option (Option Account) → Option Account → Type 0
IsBefore before none current = current ≡ before
IsBefore before (some noted) current = noted ≡ before

-- `p` is `origin` with accounts changed under a journal that began at `origin`.
pub record Tracks (origin p : InMemoryProvider) : Type 0 where
  pub same_blocks : p.blocks ≡ origin.blocks
  pub same_blocks_by_hash : p.blocks_by_hash ≡ origin.blocks_by_hash
  pub same_transactions : p.transactions ≡ origin.transactions
  pub same_receipts : p.receipts ≡ origin.receipts
  pub same_storage : p.storage ≡ origin.storage
  pub accounts : StateJournal
  pub is_journal : p.journal ≡ some accounts
  pub is_map : IsMap accounts
  pub noted : (a : Address) → IsBefore (get a origin.state) (get a accounts) (get a p.state)

-- The two providers agree on every read.
pub record SameProvider (p q : InMemoryProvider) : Type 0 where
  pub same_blocks : q.blocks ≡ p.blocks
  pub same_blocks_by_hash : q.blocks_by_hash ≡ p.blocks_by_hash
  pub same_transactions : q.transactions ≡ p.transactions
  pub same_receipts : q.receipts ≡ p.receipts
  pub same_storage : q.storage ≡ p.storage
  pub same_journal : q.journal ≡ p.journal
  pub same_accounts : (a : Address) → get a q.state ≡ get a p.state

-- The journal after a change of `address`.
noted_accounts : Address → Option Account → StateJournal → StateJournal
noted_accounts address before accounts = elim (get address accounts) [
  | none ↦ insert address before accounts
  | some n ↦ accounts
]

journal_account-noted :
    (address : Address) (before : Option Account) (accounts : StateJournal)
    → journal_account address before (some accounts) ≡ some (noted_accounts address before accounts)
unfolding journal_account noted_accounts
journal_account-noted address before accounts = ground arith

noted_accounts-IsMap :
    (address : Address) (before : Option Account) (accounts : StateJournal)
    → IsMap accounts
    → IsMap (noted_accounts address before accounts)
unfolding noted_accounts
noted_accounts-IsMap address before accounts h =
    ground (arith, insert-IsMap address before accounts h)

noted_step :
    (address a : Address) (info : Account) (state : HashMap Address Account)
    (accounts : StateJournal) (before : Option Account)
    → IsBefore before (get a accounts) (get a state)
    → IsBefore before
        (get a (noted_accounts address (get address state) accounts))
        (get a (insert address info state))
unfolding noted_accounts
noted_step address a info state accounts before h = ground (
  arith,
  bytes_beq_iff address a,
  get-insert address a info state,
  get-insert address a (get address state) accounts,
)

pub set_account-Tracks :
    (origin p : InMemoryProvider) (address : Address) (info : Account)
    → Tracks origin p
    → Tracks origin (set_account address info p)
unfolding set_account
set_account-Tracks origin p address info t = record {
  same_blocks = t.same_blocks;
  same_blocks_by_hash = t.same_blocks_by_hash;
  same_transactions = t.same_transactions;
  same_receipts = t.same_receipts;
  same_storage = t.same_storage;
  accounts = noted_accounts address (get address p.state) t.accounts;
  is_journal =
      ap (journal_account address (get address p.state)) t.is_journal
      ∙ journal_account-noted address (get address p.state) t.accounts;
  is_map = noted_accounts-IsMap address (get address p.state) t.accounts t.is_map;
  noted = λ a. noted_step address a info p.state t.accounts (get a origin.state) (t.noted a);
}

get-restore_account :
    (address a : Address) (account : Option Account) (state : HashMap Address Account)
    → get a (restore_account address account state)
      ≡ (if bytes_beq address a then account else get a state)
get-restore_account address a none state = get-remove address a state
get-restore_account address a (some account) state = get-insert address a account state

-- An account is as the journal notes it, or as it was.
abbrev restored_account : Option (Option Account) → Option Account → Option Account
restored_account none current = current
restored_account (some noted) current = noted

get-restore :
    (journal : StateJournal) (state : HashMap Address Account) (a : Address)
    → IsMap journal
    → get a (restore journal state) ≡ restored_account (get a journal) (get a state)
unfolding restore get
get-restore [] state a h = refl
get-restore ((address, account) ∷ rest) state a h =
    get-restore rest (restore_account address account state) a h.1
    ∙ ground (arith, bytes_beq_iff address a, get-restore_account address a account state, h.0)

restored-before :
    (before : Option Account) (noted : Option (Option Account)) (current : Option Account)
    → IsBefore before noted current
    → restored_account noted current ≡ before
restored-before before none current h = h
restored-before before (some n) current h = h

pub rollback_journal-SameProvider :
    (origin p : InMemoryProvider)
    → origin.journal ≡ none
    → Tracks origin p
    → SameProvider origin (rollback_journal p)
unfolding rollback_journal
rollback_journal-SameProvider origin p fresh t = record {
  same_blocks = t.same_blocks;
  same_blocks_by_hash = t.same_blocks_by_hash;
  same_transactions = t.same_transactions;
  same_receipts = t.same_receipts;
  same_storage = t.same_storage;
  same_journal = sym fresh;
  same_accounts = λ a. rw t.is_journal (
      get-restore t.accounts p.state a t.is_map
      ∙ restored-before (get a origin.state) (get a t.accounts) (get a p.state) (t.noted a));
}

pub SameProvider-refl : (p : InMemoryProvider) → SameProvider p p
SameProvider-refl p = record {
  same_blocks = refl;
  same_blocks_by_hash = refl;
  same_transactions = refl;
  same_receipts = refl;
  same_storage = refl;
  same_journal = refl;
  same_accounts = λ a. refl;
}

-- A journal that has just begun.
pub begun-Tracks : (p : InMemoryProvider) → Tracks p (record p { journal = some [] })
unfolding get
begun-Tracks p = record {
  same_blocks = refl;
  same_blocks_by_hash = refl;
  same_transactions = refl;
  same_receipts = refl;
  same_storage = refl;
  accounts = [];
  is_journal = refl;
  is_map = tt;
  noted = λ a. refl;
}

-- An action that changes the provider by changing accounts only, whatever its outcome.
pub record OnlyAccounts {ℓ} {A : Type ℓ} (m : ProviderAction A) : Type 0 where
  pub keeps : (origin p : InMemoryProvider) → Tracks origin p → Tracks origin (m p).1

module _ {ℓ κ} {A : Type ℓ} {B : Type κ} where
  continue-Tracks :
      (origin : InMemoryProvider) (r : Result ExecutionError A × InMemoryProvider)
      (f : A → ProviderAction B)
      → Tracks origin r.1
      → ((a : A) → OnlyAccounts (f a))
      → Tracks origin (continue r f).1
  continue-Tracks origin (ok a, p) f t k = (k a).keeps origin p t
  continue-Tracks origin (err e, p) f t k = t
  continue-Tracks origin (panic, p) f t k = t

  pub OnlyAccounts-bind :
      {m : ProviderAction A} {f : A → ProviderAction B}
      → OnlyAccounts m
      → ((a : A) → OnlyAccounts (f a))
      → OnlyAccounts (m >>= f)
  unfolding ◌>>=◌
  OnlyAccounts-bind {m} {f} h k = record {
    keeps = λ origin p t. continue-Tracks origin (m p) f (h.keeps origin p t) k;
  }

module _ {ℓ} {A : Type ℓ} where
  pub OnlyAccounts-lift : (r : Result ExecutionError A) → OnlyAccounts (lift r)
  unfolding lift
  OnlyAccounts-lift r = record { keeps = λ origin p t. t }

  pub OnlyAccounts-reads : (f : InMemoryProvider → Result ExecutionError A) → OnlyAccounts (reads f)
  unfolding reads
  OnlyAccounts-reads f = record { keeps = λ origin p t. t }

pub OnlyAccounts-set_account :
    (address : Address) (info : Account) → OnlyAccounts (modify (set_account address info))
unfolding modify
OnlyAccounts-set_account address info = record {
  keeps = λ origin p t. set_account-Tracks origin p address info t;
}

pub ruleset only_accounts =
    (OnlyAccounts-bind, OnlyAccounts-lift, OnlyAccounts-reads, OnlyAccounts-set_account)
