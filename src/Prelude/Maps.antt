-- ===== src/Prelude/Maps.antt =====
-- Equality of keys as an interface, byte strings, and hash maps as association lists.
use Prim.Native.Nat.{ℕ}
use mathlib.Core.Path.{◌≡◌, refl}
use mathlib.Core.Logic.{◌↔◌, ◌≢◌, ◌⊎◌, inl, inr}
use mathlib.Core.Bool.{Bool, true, false, ◌&&◌}
use mathlib.Core.Option.{Option, none, some}
use mathlib.Core.List.{List, [], ◌∷◌}
use native.Mathlib.Omega.{arith}
use rust_eth_playground.Prelude.Tests.{◌==◌, ==_iff, if◌then◌else◌}

pub record Eq (K : Type 0) : Type 0 where
  pub beq : K → K → Bool
  pub beq_iff : (a b : K) → (beq a b ≡ true) ↔ (a ≡ b)

abbrev pub nat_beq : ℕ → ℕ → Bool
nat_beq a b = a == b

instance abbrev pub nat_eq : Eq ℕ
nat_eq = record { beq = nat_beq; beq_iff = ==_iff }

abbrev pub Bytes : Type 0
Bytes = List ℕ

abbrev pub bytes_beq : Bytes → Bytes → Bool
bytes_beq [] [] = true
bytes_beq [] (y ∷ ys) = false
bytes_beq (x ∷ xs) [] = false
bytes_beq (x ∷ xs) (y ∷ ys) = (x == y) && bytes_beq xs ys

pub bytes_beq_iff : (a b : Bytes) → (bytes_beq a b ≡ true) ↔ (a ≡ b)
bytes_beq_iff [] [] = ((λ _. refl), (λ _. refl))
bytes_beq_iff [] (y ∷ ys) = ((λ h. cc), (λ h. cc))
bytes_beq_iff (x ∷ xs) [] = ((λ h. cc), (λ h. cc))
bytes_beq_iff (x ∷ xs) (y ∷ ys) = ground (arith, bytes_beq_iff xs ys)

instance abbrev pub bytes_eq : Eq Bytes
bytes_eq = record { beq = bytes_beq; beq_iff = bytes_beq_iff }

-- `HashMap<K, V>` and `BTreeMap<K, V>`: `insert` replaces the value of a key that is there.
abbrev pub HashMap : Type 0 → Type 0 → Type 0
HashMap K V = List (K × V)

pub beq_refl : {K : Type 0} ⦃e : Eq K⦄ (k : K) → e.beq k k ≡ true
beq_refl ⦃e⦄ k = (e.beq_iff k k).1 refl

module _ {K V : Type 0} ⦃e : Eq K⦄ where
  unfoldable pub get : K → HashMap K V → Option V
  get k [] = none
  get k ((j, v) ∷ m) = if e.beq j k then some v else get k m

  unfoldable pub insert : K → V → HashMap K V → HashMap K V
  insert k v [] = (k, v) ∷ []
  insert k v ((j, w) ∷ m) = if e.beq j k then (k, v) ∷ m else (j, w) ∷ insert k v m

  -- Every entry of the key goes, so that the key is absent afterwards whatever the list was.
  unfoldable pub remove : K → HashMap K V → HashMap K V
  remove k [] = []
  remove k ((j, w) ∷ m) = let rest = remove k m in if e.beq j k then rest else (j, w) ∷ rest

  pub get-insert :
      (k j : K) (v : V) (m : HashMap K V)
      → get j (insert k v m) ≡ (if e.beq k j then some v else get j m)
  unfolding get insert
  get-insert k j v [] = refl
  get-insert k j v ((i, w) ∷ m) =
      ground (arith, e.beq_iff k j, e.beq_iff i k, e.beq_iff i j, get-insert k j v m)

  pub get-insert_same : (k : K) (v : V) (m : HashMap K V) → get k (insert k v m) ≡ some v
  get-insert_same k v m = rw (get-insert k k v m, beq_refl k) refl

  pub get-remove :
      (k j : K) (m : HashMap K V) → get j (remove k m) ≡ (if e.beq k j then none else get j m)
  unfolding get remove
  get-remove k j [] = ground arith
  get-remove k j ((i, w) ∷ m) =
      ground (arith, e.beq_iff k j, e.beq_iff i k, e.beq_iff i j, get-remove k j m)

  pub get-insert_other :
      (k j : K) (v : V) (m : HashMap K V) → k ≢ j → get j (insert k v m) ≡ get j m
  get-insert_other k j v m apart = ground (arith, e.beq_iff k j, get-insert k j v m)

  -- Where an entry of the new map comes from.
  pub get-insert_cases :
      (k j : K) (v w : V) (m : HashMap K V)
      → get j (insert k v m) ≡ some w
      → ((k ≡ j) × (v ≡ w)) ⊎ ((k ≢ j) × (get j m ≡ some w))
  get-insert_cases k j v w m h = go (e.beq k j) refl
    where
      go : (b : Bool) → e.beq k j ≡ b → ((k ≡ j) × (v ≡ w)) ⊎ ((k ≢ j) × (get j m ≡ some w))
      go true eq = inl ((e.beq_iff k j).0 eq, ground (arith, get-insert k j v m))
      go false eq =
          inr ((λ same. ground (arith, e.beq_iff k j)), ground (arith, get-insert k j v m))

  pub get-remove-some :
      (k j : K) (w : V) (m : HashMap K V)
      → get j (remove k m) ≡ some w
      → (k ≢ j) × (get j m ≡ some w)
  get-remove-some k j w m h = ground (arith, e.beq_iff k j, get-remove k j m)

  -- Every key stands once.
  abbrev pub IsMap : HashMap K V → Type 0
  IsMap [] = Unit
  IsMap ((k, v) ∷ m) = (get k m ≡ none) × IsMap m

  pub insert-IsMap : (k : K) (v : V) (m : HashMap K V) → IsMap m → IsMap (insert k v m)
  unfolding get insert
  insert-IsMap k v [] h = (refl, tt)
  insert-IsMap k v ((j, w) ∷ m) h =
      ground (arith, e.beq_iff j k, e.beq_iff k j, insert-IsMap k v m h.1, get-insert k j v m)

  pub remove-IsMap : (k : K) (m : HashMap K V) → IsMap m → IsMap (remove k m)
  unfolding get remove
  remove-IsMap k [] h = tt
  remove-IsMap k ((j, w) ∷ m) h = ground (arith, remove-IsMap k m h.1, get-remove k j m)
