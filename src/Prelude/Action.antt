-- ===== src/Prelude/Action.antt =====
-- Actions on a state that can fail: what was written before an error stays written, as with
-- `&mut self` and `?` in Rust.
use rust_eth_playground.Prelude.Results.{Result, ok, err, panic}

abbrev pub Action {ℓ} : Type 0 → Type 0 → Type ℓ → Type ℓ
Action S E A = S → Result E A × S

module _ {ℓ κ} {S E : Type 0} {A : Type ℓ} {B : Type κ} where
  abbrev pub continue : Result E A × S → (A → Action S E B) → Result E B × S
  continue (ok a, s) f = f a s
  continue (err e, s) f = (err e, s)
  continue (panic, s) f = (panic, s)

  -- These stay shut, so that a rule for each of them applies to a `do` block.
  infixl 5 ◌>>=◌
  unfoldable pub ◌>>=◌ : Action S E A → (A → Action S E B) → Action S E B
  ◌>>=◌ m f s = continue (m s) f

module _ {κ} {S E : Type 0} {B : Type κ} where
  infixl 5 ◌>>◌
  abbrev pub ◌>>◌ : Action S E (Unit {0}) → Action S E B → Action S E B
  m >> k = m >>= λ _. k

module _ {ℓ} {S E : Type 0} {A : Type ℓ} where
  unfoldable pub lift : Result E A → Action S E A
  lift r s = (r, s)

  unfoldable pub reads : (S → Result E A) → Action S E A
  reads f s = (f s, s)

module _ {S E : Type 0} where
  unfoldable pub modify : (S → S) → Action S E (Unit {0})
  modify f s = (ok tt, f s)
