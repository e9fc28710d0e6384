-- ===== src/Prelude/Ends.antt =====
-- Postconditions of actions that also say what an error leaves.
use mathlib.Core.Path.{◌≡◌, refl, subst, sym}
use rust_eth_playground.Prelude.Results.{Result, ok, err, panic}
use rust_eth_playground.Prelude.Action.{Action, continue, ◌>>=◌, reads, modify}

-- `P` holds of the value and the state after a success, `Q` of the state after an error.
pub data Ends {ℓ} {S E : Type 0} {A : Type ℓ} (P : A → S → Type 0) (Q : S → Type 0)
    : Result E A × S → Type ℓ where
  done : {a : A} {s : S} → P a s → Ends P Q (ok a, s)
  failed : {e : E} {s : S} → Q s → Ends P Q (err e, s)
  panicked : {s : S} → Ends P Q (panic, s)

module _ {S E A : Type 0} {P : A → S → Type 0} {Q : S → Type 0} where
  pub Ends-ok : {r : Result E A × S} {a : A} → Ends P Q r → r.0 ≡ ok a → P a r.1
  Ends-ok (done {s = s} h) e = subst (λ x. P x s) (cc) h
  Ends-ok (failed h) e = cc
  Ends-ok panicked e = cc

  pub Ends-err : {r : Result E A × S} {e : E} → Ends P Q r → r.0 ≡ err e → Q r.1
  Ends-err (done h) e = cc
  Ends-err (failed h) e = h
  Ends-err panicked e = cc

  pub Ends-map :
      {R : A → S → Type 0} {r : Result E A × S}
      → Ends P Q r
      → ((a : A) (s : S) → P a s → R a s)
      → Ends R Q r
  Ends-map (done {a = a} {s = s} h) k = done (k a s h)
  Ends-map (failed h) k = failed h
  Ends-map panicked k = panicked

  pub Ends-weaken :
      {R : A → S → Type 0} {T : S → Type 0} {r : Result E A × S}
      → Ends P Q r
      → ((a : A) (s : S) → P a s → R a s)
      → ((s : S) → Q s → T s)
      → Ends R T r
  Ends-weaken (done {a = a} {s = s} h) k l = done (k a s h)
  Ends-weaken (failed {s = s} h) k l = failed (l s h)
  Ends-weaken panicked k l = panicked

  pub Ends-continue :
      {B : Type 0} {R : B → S → Type 0} (r : Result E A × S) (f : A → Action S E B)
      → Ends P Q r
      → ((a : A) (t : S) → P a t → Ends R Q (f a t))
      → Ends R Q (continue r f)
  Ends-continue r f (done {a = a} {s = t} h) k = k a t h
  Ends-continue r f (failed h) k = failed h
  Ends-continue r f panicked k = panicked

  pub Ends-bind :
      {B : Type 0} {R : B → S → Type 0} (m : Action S E A) (f : A → Action S E B) (s : S)
      → Ends P Q (m s)
      → ((a : A) (t : S) → P a t → Ends R Q (f a t))
      → Ends R Q ((m >>= f) s)
  unfolding ◌>>=◌
  Ends-bind m f s h k = Ends-continue (m s) f h k

module _ {S E A : Type 0} {Q : S → Type 0} where
  -- A step that leaves the state as it is when it succeeds.
  pub Ends-pure_bind :
      {B : Type 0} {R : B → S → Type 0} {P : A → Type 0} (m : Action S E A) (f : A → Action S E B)
      (s : S)
      → Ends (λ a t. P a × (t ≡ s)) Q (m s)
      → ((a : A) → P a → Ends R Q (f a s))
      → Ends R Q ((m >>= f) s)
  Ends-pure_bind {R = R} m f s h k =
      Ends-bind m f s h λ a t (holds, same). subst (λ u. Ends R Q (f a u)) (sym same) (k a holds)

  -- A step whose result is known.
  pub Ends-known_bind :
      {B : Type 0} {R : B → S → Type 0} (m : Action S E A) (f : A → Action S E B) (s t : S) (a : A)
      → m s ≡ (ok a, t)
      → Ends R Q (f a t)
      → Ends R Q ((m >>= f) s)
  unfolding ◌>>=◌
  Ends-known_bind {R = R} m f s t a known h = subst (λ r. Ends R Q (continue r f)) (sym known) h

  pub Ends-reads :
      (g : S → Result E A) (s : S) → Q s → Ends (λ a t. (g s ≡ ok a) × (t ≡ s)) Q (reads g s)
  unfolding reads
  Ends-reads g s h = go (g s) refl
    where
      go : (r : Result E A) → g s ≡ r → Ends (λ a t. (g s ≡ ok a) × (t ≡ s)) Q (r, s)
      go (ok a) same = done (same, refl)
      go (err e) same = failed h
      go panic same = panicked

pub Ends-modify :
    {S E : Type 0} {P : Unit {0} → S → Type 0} {Q : S → Type 0} (f : S → S) (s : S)
    → P tt (f s)
    → Ends P Q (modify {E = E} f s)
unfolding modify
Ends-modify f s h = done h
