-- ===== src/Execution/Balances.antt =====
-- core/execution/src/executor.rs: what value transfers do to the sum of the balances.
use rust_eth_playground.Prelude.{
  ℕ, ◌+◌, ◌*◌, ◌≡◌, refl, ◌∙◌, Option, none, some, List, [], ◌∷◌, ◌++◌, bytes_eq, HashMap, get,
  insert, ok, panic, ok_or, >>=-eq-ok, ok-injective, checked_add, u128_mod, u64_mod, map_err, subst,
  ◌/◌, arith,
}
use rust_eth_playground.Types.Primitives.{Address, B256, Account}
use rust_eth_playground.Types.Transaction.{
  Transaction, SignedTransaction, nonce_of, gas_limit_of, to_of, value_of,
}
use rust_eth_playground.Execution.Types.{Receipt, overflow, signing, rlp, root_compute}
use rust_eth_playground.Execution.Provider.{InMemoryProvider, get_account, set_account}
use rust_eth_playground.Prelude.Outcome.{
  Outcome, Outcome-lift, Outcome-lift_bind, Outcome-reads_bind, Outcome-modify_bind, Outcome-bind,
  Outcome-modify, Outcome-ok, Outcome-map,
}
use rust_eth_playground.Execution.Executor.{
  charge, credit, or_default, Progress, no_progress, add_receipt, execute_transaction,
  execute_transactions, execute, ExecutionOutput, BlockWithSenders, make_receipt,
  compute_state_root,
}
use rust_eth_playground.Signing.{Crypto, signed_transaction_hash, hash_header}

unfoldable pub total_balance : HashMap Address Account → ℕ
total_balance [] = 0
total_balance ((address, account) ∷ rest) = account.balance + total_balance rest

-- The balance of an address, 0 where there is no account.
abbrev pub balance_of : Option Account → ℕ
balance_of none = 0
balance_of (some account) = account.balance

total_balance-insert :
    (a : Address) (new : Account) (state : HashMap Address Account)
    → total_balance (insert a new state) + balance_of (get a state)
      ≡ total_balance state + new.balance
unfolding total_balance insert get
total_balance-insert a new [] = omega arith
total_balance-insert a new ((j, w) ∷ rest) = ground (arith, total_balance-insert a new rest)

-- What the sender's account has become when its checks have passed.
pub record Charged (tx : Transaction) (account : Account) (price : ℕ) (charged : Account)
    : Type 0 where
  pub nonce_matches : nonce_of tx ≡ account.nonce
  pub paid : charged.balance + (price * gas_limit_of tx + value_of tx) ≡ account.balance
  pub nonce_raised : charged.nonce ≡ account.nonce + 1
  pub same_code : charged.code_hash ≡ account.code_hash

pub charge-Charged :
    (base_fee : ℕ) (tx : Transaction) (sender : Address) (account : Account) (r : ℕ × Account)
    → charge base_fee tx sender account ≡ ok r
    → Charged tx account r.0 r.1
unfolding charge
charge-Charged base_fee tx sender account r h = ground arith

set_account-total :
    (a : Address) (new : Account) (p : InMemoryProvider)
    → total_balance (set_account a new p).state + balance_of (get a p.state)
      ≡ total_balance p.state + new.balance
unfolding set_account
set_account-total a new p = total_balance-insert a new p.state

pub get_account-ok :
    (a : Address) (p : InMemoryProvider) (account : Account)
    → get_account a p ≡ ok account
    → get a p.state ≡ some account
unfolding get_account
get_account-ok a p account h = ground arith

sender_balance :
    (a : Address) (p : InMemoryProvider) (account : Account)
    → get_account a p ≡ ok account
    → balance_of (get a p.state) ≡ account.balance
unfolding get_account
sender_balance a p account h = ground arith

recipient_balance :
    (a : Address) (p : InMemoryProvider) (account : Account)
    → or_default (get_account a p) ≡ ok account
    → balance_of (get a p.state) ≡ account.balance
unfolding get_account
recipient_balance a p account h = ground arith

checked_add-ok :
    {E : Type 0} (modulus a b c : ℕ) (e : E) → ok_or (checked_add modulus a b) e ≡ ok c → c ≡ a + b
checked_add-ok modulus a b c e h = ground arith

-- The recipient receives exactly the value.
credit-Outcome :
    (to : Option Address) (value : ℕ) (p : InMemoryProvider)
    → Outcome (λ _ q. total_balance q.state ≡ total_balance p.state + value) (credit to value p)
unfolding credit
credit-Outcome none value p = Outcome-lift panic p (λ a h. cc)
credit-Outcome (some recipient) value p =
    Outcome-reads_bind (λ p. or_default (get_account recipient p)) _ p
      λ account found.
        Outcome-lift_bind (ok_or (checked_add u128_mod account.balance value) overflow) _ p
          λ balance sum. Outcome-modify _ p (
            omega (
              arith,
              recipient_balance recipient p account found,
              checked_add-ok u128_mod account.balance value balance overflow sum,
              set_account-total recipient (record account { balance = balance }) p,
            ))

-- The fees of the receipts: what leaves the balances.
abbrev pub fees : List Receipt → ℕ
fees [] = 0
fees (r ∷ rest) = r.effective_gas_price * r.gas_used + fees rest

fees-snoc :
    (rs : List Receipt) (r : Receipt)
    → fees (rs ++ (r ∷ [])) ≡ fees rs + r.effective_gas_price * r.gas_used
fees-snoc [] r = omega arith
fees-snoc (x ∷ rs) r = omega (arith, fees-snoc rs r)

-- The gas of the receipts.
abbrev pub gas_of : List Receipt → ℕ
gas_of [] = 0
gas_of (r ∷ rest) = r.gas_used + gas_of rest

gas_of-snoc : (rs : List Receipt) (r : Receipt) → gas_of (rs ++ (r ∷ [])) ≡ gas_of rs + r.gas_used
gas_of-snoc [] r = omega arith
gas_of-snoc (x ∷ rs) r = omega (arith, gas_of-snoc rs r)

-- From `before` with `progress` to `after` with `progress'`, nothing is lost but fees, and the gas
-- is that of the receipts.
pub record Conserves (before : InMemoryProvider) (progress : Progress) (progress' : Progress)
    (after : InMemoryProvider) : Type 0 where
  pub conserved :
      total_balance after.state + fees progress'.receipts
      ≡ total_balance before.state + fees progress.receipts
  pub gas_counted :
      progress'.cumulative_gas_used + gas_of progress.receipts
      ≡ progress.cumulative_gas_used + gas_of progress'.receipts

Conserves-refl : (p : InMemoryProvider) (progress : Progress) → Conserves p progress progress p
Conserves-refl p progress = record { conserved = refl; gas_counted = omega arith }

Conserves-trans :
    (p : InMemoryProvider) (progress progress₁ : Progress) (p₁ : InMemoryProvider)
    (progress₂ : Progress) (p₂ : InMemoryProvider)
    → Conserves p progress progress₁ p₁
    → Conserves p₁ progress₁ progress₂ p₂
    → Conserves p progress progress₂ p₂
Conserves-trans p progress progress₁ p₁ progress₂ p₂ h k = record {
  conserved = k.conserved ∙ h.conserved;
  gas_counted = omega (arith, h.gas_counted, k.gas_counted);
}

module _ (crypto : Crypto) where
  -- The receipt that `add_receipt` puts at the end.
  record AddsReceipt (t : SignedTransaction) (price : ℕ) (progress progress' : Progress)
      : Type 0 where
    fees_grow :
        fees progress'.receipts ≡ fees progress.receipts + price * gas_limit_of t.transaction
    gas_grows : gas_of progress'.receipts ≡ gas_of progress.receipts + gas_limit_of t.transaction
    cumulative :
        progress'.cumulative_gas_used ≡ progress.cumulative_gas_used + gas_limit_of t.transaction

  add_receipt-AddsReceipt :
      (block_hash : B256) (block_number i : ℕ) (t : SignedTransaction) (sender : Address)
      (price : ℕ) (progress progress' : Progress)
      → add_receipt crypto block_hash block_number i t sender price progress ≡ ok progress'
      → AddsReceipt t price progress progress'
  unfolding add_receipt
  add_receipt-AddsReceipt block_hash block_number i t sender price progress progress' h =
      let (cumulative, counted, h₁) =
        >>=-eq-ok
          (ok_or (checked_add u64_mod progress.cumulative_gas_used (gas_limit_of t.transaction))
            overflow)
          _ h in
      let (hash, _, h₂) = >>=-eq-ok (map_err signing (signed_transaction_hash crypto t)) _ h₁ in
      let receipt = make_receipt block_hash block_number i hash cumulative t sender price in
      subst (AddsReceipt t price progress) (ok-injective h₂) (record {
        fees_grow = fees-snoc progress.receipts receipt;
        gas_grows = gas_of-snoc progress.receipts receipt;
        cumulative =
            checked_add-ok u64_mod progress.cumulative_gas_used (gas_limit_of t.transaction)
              cumulative overflow counted;
      })

  execute_transaction-Outcome :
      (block_hash : B256) (block_number base_fee i : ℕ) (t : SignedTransaction) (sender : Address)
      (progress : Progress) (p : InMemoryProvider)
      → Outcome
          (Conserves p progress)
          (execute_transaction crypto block_hash block_number base_fee i t sender progress p)
  unfolding execute_transaction
  execute_transaction-Outcome block_hash block_number base_fee i t sender progress p =
      Outcome-reads_bind (get_account sender) _ p λ account found.
        Outcome-lift_bind (charge base_fee t.transaction sender account) _ p λ r passed.
          let c = charge-Charged base_fee t.transaction sender account r passed in
          Outcome-modify_bind (set_account sender r.1) _ p (
            Outcome-bind (credit (to_of t.transaction) (value_of t.transaction)) _ _
              (credit-Outcome (to_of t.transaction) (value_of t.transaction)
                (set_account sender r.1 p))
              λ _ q credited.
                Outcome-lift (add_receipt crypto block_hash block_number i t sender r.0 progress) q
                  λ progress' added.
                    let a =
                      add_receipt-AddsReceipt block_hash block_number i t sender r.0 progress
                        progress' added in
                    record {
                      conserved = omega (
                        arith,
                        set_account-total sender r.1 p,
                        sender_balance sender p account found,
                        c.paid,
                        credited,
                        a.fees_grow,
                      );
                      gas_counted = omega (arith, a.gas_grows, a.cumulative);
                    })

  pub execute_transactions-Outcome :
      (block_hash : B256) (block_number base_fee i : ℕ) (txs : List SignedTransaction)
      (senders : List Address) (progress : Progress) (p : InMemoryProvider)
      → Outcome
          (Conserves p progress)
          (execute_transactions crypto block_hash block_number base_fee i txs senders progress p)
  unfolding execute_transactions
  execute_transactions-Outcome block_hash block_number base_fee i [] senders progress p =
      Outcome-lift (ok progress) p
        λ progress' e. subst (λ q. Conserves p progress q p) (cc) (Conserves-refl p progress)
  execute_transactions-Outcome block_hash block_number base_fee i (t ∷ txs) [] progress p =
      Outcome-lift (ok progress) p
        λ progress' e. subst (λ q. Conserves p progress q p) (cc) (Conserves-refl p progress)
  execute_transactions-Outcome block_hash block_number base_fee i (t ∷ txs) (sender ∷ senders)
        progress p =
      Outcome-bind (execute_transaction crypto block_hash block_number base_fee i t sender progress)
        _ p (execute_transaction-Outcome block_hash block_number base_fee i t sender progress p)
        λ progress₁ p₁ first.
          Outcome-map
            (execute_transactions-Outcome block_hash block_number base_fee (i + 1) txs senders
              progress₁ p₁)
            λ progress₂ p₂ later. Conserves-trans p progress progress₁ p₁ progress₂ p₂ first later

  execute-Outcome :
      (b : BlockWithSenders) (p : InMemoryProvider)
      → Outcome
          (λ output q.
            (total_balance q.state + fees output.receipts ≡ total_balance p.state)
            × (output.gas_used ≡ gas_of output.receipts))
          (execute crypto b p)
  unfolding execute
  execute-Outcome b p =
      Outcome-lift_bind (map_err rlp (hash_header crypto b.block.header)) _ p λ block_hash _.
        Outcome-bind
          (execute_transactions crypto block_hash b.block.header.number
            (b.block.header.gas_limit / 2) 0 b.block.transactions b.senders no_progress)
          _ p
          (execute_transactions-Outcome block_hash _ _ _ b.block.transactions b.senders no_progress
            p)
          λ progress q kept.
            Outcome-reads_bind (λ p. map_err root_compute (compute_state_root crypto.keccak256 p)) _
              q
              λ root _. Outcome-lift _ q λ output e.
                subst {A = ExecutionOutput}
                  (λ o.
                    (total_balance q.state + fees o.receipts ≡ total_balance p.state)
                    × (o.gas_used ≡ gas_of o.receipts))
                  (ok-injective e) (omega (arith, kept.conserved), omega (arith, kept.gas_counted))

  -- A block that executes moves value and burns fees, and creates none: the balances of all
  -- accounts afterwards and the fees of the receipts (price times gas used) make up the balances
  -- before, and the gas that the output reports is the sum over its receipts.
  pub execute_conserves :
      (b : BlockWithSenders) (p : InMemoryProvider) (output : ExecutionOutput)
      → (execute crypto b p).0 ≡ ok output
      → (total_balance (execute crypto b p).1.state + fees output.receipts ≡ total_balance p.state)
        × (output.gas_used ≡ gas_of output.receipts)
  execute_conserves b p output h = Outcome-ok (execute-Outcome b p) h
