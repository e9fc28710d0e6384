-- ===== src/Execution/Cached/Memory.antt =====
-- core/execution/src/cached.rs: one cache over a read that it repeats.
use rust_eth_playground.Prelude.{
  ℕ, suc, ◌≤◌, ◌<◌, ◌≡◌, refl, sym, ◌∙◌, max, Option, none, some, [], ◌∷◌, length, leb, Bool-cases,
  inl, inr, HashMap, get, insert, remove, Eq, Result, ok, err, panic, get-insert_cases,
  get-remove-some, get-remove, arith, lt_of_leb-false,
}
use rust_eth_playground.Execution.Types.{ExecutionError}
use rust_eth_playground.Execution.Cached.{KeyOrder, evicted, without, lookup_or}

-- What the standard library documents: the first key of a map that has an entry is in the map.
pub record IsKeyOrder (order : KeyOrder) : Type 1 where
  pub first_present :
      {K V : Type 0} ⦃e : Eq K⦄ (entry : K × V) (m : HashMap K V)
      → (k : K) × (v : V) × (order.first_key (entry ∷ m) ≡ some k) × (get k (entry ∷ m) ≡ some v)

module _ {K V : Type 0} ⦃e : Eq K⦄ where
  -- The cache repeats what the read gives.
  abbrev pub Repeats : (K → Result ExecutionError V) → HashMap K V → Type 0
  Repeats read cache = (k : K) (v : V) → get k cache ≡ some v → read k ≡ ok v

  pub Repeats-empty : (read : K → Result ExecutionError V) → Repeats read []
  unfolding get
  Repeats-empty read = λ k v h. cc

  length-insert :
      (k : K) (v : V) (m : HashMap K V) → get k m ≡ none → length (insert k v m) ≡ suc (length m)
  unfolding get insert
  length-insert k v [] h = refl
  length-insert k v ((j, w) ∷ m) h = ground (arith, length-insert k v m)

  length-remove : (k : K) (m : HashMap K V) → length (remove k m) ≤ length m
  unfolding remove
  length-remove k [] = omega arith
  length-remove k ((j, w) ∷ m) = ground (arith, length-remove k m)

  length-remove_less :
      (k : K) (v : V) (m : HashMap K V) → get k m ≡ some v → length (remove k m) < length m
  unfolding remove get
  length-remove_less k v [] h = cc
  length-remove_less k v ((j, w) ∷ m) h =
      ground (arith, length-remove k m, length-remove_less k v m)

  module _ (order : KeyOrder) where
    without-Repeats :
        (read : K → Result ExecutionError V) (o : Option K) (cache : HashMap K V)
        → Repeats read cache
        → Repeats read (without order o cache)
    without-Repeats read none cache h = h
    without-Repeats read (some key) cache h =
        λ k v there. h k v (get-remove-some key k v cache there).1

    -- What is looked up is what the read gives, and the cache goes on repeating it.
    pub lookup_or-Repeats :
        (read : K → Result ExecutionError V) (capacity : ℕ) (key : K) (r : Result ExecutionError V)
        (cache : HashMap K V)
        → r ≡ read key
        → Repeats read cache
        → ((lookup_or order capacity key r cache).0 ≡ r)
          × Repeats read (lookup_or order capacity key r cache).1
    unfolding lookup_or
    lookup_or-Repeats read capacity key r cache same h = go (get key cache) refl r same
      where
        go :
            (o : Option V)
            → get key cache ≡ o
            → (r : Result ExecutionError V) → r ≡ read key
            → ((lookup_or order capacity key r cache).0 ≡ r)
              × Repeats read (lookup_or order capacity key r cache).1
        go (some v) eq r same = rw (lookup_or, eq) (sym (h key v eq) ∙ sym same, h)
        go none eq (ok v) same =
            rw (lookup_or, eq)
              (
                refl,
                λ k w there.
                    elim (get-insert_cases key k v w
                      (without order (evicted order capacity cache) cache) there) [
                        | inl (k_eq, v_eq) ↦ cc
                        | inr (_, kept) ↦
                            without-Repeats read (evicted order capacity cache) cache h k w kept
                      ],
              )
        go none eq (err e) same = rw (lookup_or, eq) (refl, h)
        go none eq panic same = rw (lookup_or, eq) (refl, h)

    without-absent :
        (o : Option K) (key : K) (cache : HashMap K V)
        → get key cache ≡ none
        → get key (without order o cache) ≡ none
    without-absent none key cache h = h
    without-absent (some k) key cache h = ground (arith, get-remove k key cache)

    -- Room for one entry more.
    without-evicted :
        IsKeyOrder order
        → (capacity : ℕ) (cache : HashMap K V) → length cache ≤ max 1 capacity
        → suc (length (without order (evicted order capacity cache) cache)) ≤ max 1 capacity
    unfolding evicted remove
    without-evicted fair capacity [] h = elim (Bool-cases (leb capacity 0)) [
      | inl full ↦ rw full (unfilled (order.first_key []))
      | inr room ↦ rw room (omega arith)
    ]
      where
        unfilled :
            (o : Option K) → suc (length (without order {K = K} {V = V} o [])) ≤ max 1 capacity
        unfilled none = omega arith
        unfilled (some k) = omega arith
    without-evicted fair capacity (entry ∷ m) h =
        let (k, v, first, there) = fair.first_present entry m in
        elim (Bool-cases (leb capacity (length (entry ∷ m)))) [
          | inl full ↦ rw (full, first) (omega (arith, h, length-remove_less k v (entry ∷ m) there))
          | inr room ↦ rw room (omega (arith, lt_of_leb-false capacity (length (entry ∷ m)) room))
        ]

    -- A cache never holds more entries than its capacity, or one if that is 0.
    pub lookup_or-bound :
        IsKeyOrder order
        → (capacity : ℕ) (key : K) (r : Result ExecutionError V) (cache : HashMap K V)
        → length cache ≤ max 1 capacity
        → length (lookup_or order capacity key r cache).1 ≤ max 1 capacity
    unfolding lookup_or
    lookup_or-bound fair capacity key r cache h = go (get key cache) refl r
      where
        go :
            (o : Option V)
            → get key cache ≡ o
            → (r : Result ExecutionError V)
            → length (lookup_or order capacity key r cache).1 ≤ max 1 capacity
        go (some v) eq r = rw (lookup_or, eq) h
        go none eq (ok v) =
            let kept = without order (evicted order capacity cache) cache in
            rw (lookup_or, eq)
              (omega (
                arith,
                without-evicted fair capacity cache h,
                length-insert key v kept
                    (without-absent (evicted order capacity cache) key cache eq),
              ))
        go none eq (err e) = rw (lookup_or, eq) h
        go none eq panic = rw (lookup_or, eq) h
