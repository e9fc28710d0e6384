-- ===== src/Prelude/Outcome.antt =====
-- Postconditions of actions.
use mathlib.Core.Path.{◌≡◌, refl, subst}
use rust_eth_playground.Prelude.Results.{Result, ok, err, panic}
use rust_eth_playground.Prelude.Action.{Action, continue, ◌>>=◌, lift, reads, modify}

-- `Q` holds of the value and of the provider after a success.
pub data Outcome {ℓ κ} {S E : Type 0} {A : Type ℓ} (Q : A → S → Type κ)
    : Result E A × S → Type (ℓ ⊔ κ) where
  done : {a : A} {p : S} → Q a p → Outcome Q (ok a, p)
  failed : {e : E} {p : S} → Outcome Q (err e, p)
  panicked : {p : S} → Outcome Q (panic, p)

module _ {ℓ κ} {S E : Type 0} {A : Type ℓ} {Q : A → S → Type κ} where
  pub Outcome-ok : {r : Result E A × S} {a : A} → Outcome Q r → r.0 ≡ ok a → Q a r.1
  Outcome-ok (done {p = p} h) e = subst (λ x. Q x p) (cc) h
  Outcome-ok failed e = cc
  Outcome-ok panicked e = cc

  pub Outcome-map {κ'} :
      {R : A → S → Type κ'} {r : Result E A × S}
      → Outcome Q r
      → ((a : A) (p : S) → Q a p → R a p)
      → Outcome R r
  Outcome-map (done {a = a} {p = p} h) k = done (k a p h)
  Outcome-map failed k = failed
  Outcome-map panicked k = panicked

  pub Outcome-lift : (r : Result E A) (p : S) → ((a : A) → r ≡ ok a → Q a p) → Outcome Q (lift r p)
  unfolding lift
  Outcome-lift (ok a) p h = done (h a refl)
  Outcome-lift (err e) p h = failed
  Outcome-lift panic p h = panicked

  pub Outcome-bind {ℓ' κ'} :
      {B : Type ℓ'} {R : B → S → Type κ'} (m : Action S E A) (f : A → Action S E B) (p : S)
      → Outcome Q (m p)
      → ((a : A) (q : S) → Q a q → Outcome R (f a q))
      → Outcome R ((m >>= f) p)
  unfolding ◌>>=◌
  Outcome-bind {R} m f p h k = go (m p) h
    where
      go : (r : Result E A × S) → Outcome Q r → Outcome R (continue r f)
      go r (done {a = a} {p = q} h) = k a q h
      go r failed = failed
      go r panicked = panicked

module _ {ℓ κ} {S E : Type 0} {A B : Type ℓ} {R : B → S → Type κ} where
  continue-Outcome :
      (r : Result E A) (f : A → Action S E B) (p : S)
      → ((a : A) → r ≡ ok a → Outcome R (f a p))
      → Outcome R (continue (r, p) f)
  continue-Outcome (ok a) f p k = k a refl
  continue-Outcome (err e) f p k = failed
  continue-Outcome panic f p k = panicked

  -- A step that changes nothing, at the head of an action.
  pub Outcome-lift_bind :
      (r : Result E A) (f : A → Action S E B) (p : S)
      → ((a : A) → r ≡ ok a → Outcome R (f a p))
      → Outcome R ((lift r >>= f) p)
  unfolding ◌>>=◌ lift
  Outcome-lift_bind r f p k = continue-Outcome r f p k

  pub Outcome-reads_bind :
      (g : S → Result E A) (f : A → Action S E B) (p : S)
      → ((a : A) → g p ≡ ok a → Outcome R (f a p))
      → Outcome R ((reads g >>= f) p)
  unfolding ◌>>=◌ reads
  Outcome-reads_bind g f p k = continue-Outcome (g p) f p k

module _ {ℓ κ} {S E : Type 0} {B : Type ℓ} {R : B → S → Type κ} where
  pub Outcome-modify_bind :
      (g : S → S) (f : Unit {0} → Action S E B) (p : S)
      → Outcome R (f tt (g p))
      → Outcome R ((modify g >>= f) p)
  unfolding ◌>>=◌ modify
  Outcome-modify_bind g f p h = h

pub Outcome-modify {κ} :
    {S E : Type 0} {Q : Unit {0} → S → Type κ} (f : S → S) (p : S)
    → Q tt (f p)
    → Outcome Q (modify {E = E} f p)
unfolding modify
Outcome-modify f p h = done h
