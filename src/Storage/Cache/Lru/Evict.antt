-- ===== src/Storage/Cache/Lru/Evict.antt =====
-- Which entry an eviction removes.
use py2to3_example_project.Prelude.{
  ℕ, zero, suc, ◌+◌, ◌≤◌, ◌<◌, ◌≡◌, refl, ap, ◌⊎◌, inl, inr, true, false, Option, none, some, [],
  ◌∷◌, arith, length, take, ltb, leb, Bool-cases, if_pos, if_neg,
}
use py2to3_example_project.Prelude.Dict.{lookup, erase, Distinct, Fresh}
use py2to3_example_project.Storage.Cache.Lru.{
  Entry, Store, Cache, eviction_batch, oldest_from, evict_lru,
}

module _ {K V : Type 0} where
  -- `l` holds the entry `e` under `k`.
  abbrev pub Holds : K → Entry K V → Store K V → Type 0
  Holds k e [] = ⊥
  Holds k e ((j, f) ∷ l) = (j ≡ k) × (f ≡ e) ⊎ Holds k e l

  -- No entry was used before `t`.
  abbrev pub AtLeast : ℕ → Store K V → Type 0
  AtLeast t [] = Unit
  AtLeast t ((j, f) ∷ l) = (t ≤ f.last_access) × AtLeast t l

  -- No entry was used after `t`.
  abbrev pub AtMost : ℕ → Store K V → Type 0
  AtMost t [] = Unit
  AtMost t ((j, f) ∷ l) = (f.last_access ≤ t) × AtMost t l

  pub AtMost-le : (s t : ℕ) (l : Store K V) → s ≤ t → AtMost s l → AtMost t l
  AtMost-le s t [] h a = tt
  AtMost-le s t ((j, f) ∷ l) h a = (omega arith, AtMost-le s t l h a.1)

  Holds-take : (n : ℕ) (k : K) (e : Entry K V) (l : Store K V) → Holds k e (take n l) → Holds k e l
  Holds-take zero k e l h = absurd h
  Holds-take (suc n) k e [] h = absurd h
  Holds-take (suc n) k e ((j, f) ∷ l) (inl h) = inl h
  Holds-take (suc n) k e ((j, f) ∷ l) (inr h) = inr (Holds-take n k e l h)

  -- What a scan of `l` with `checked` entries behind it finds.
  abbrev Found : Option K → ℕ → Option K → Store K V → Type 0
  Found before time result seen =
      AtLeast time seen × (result ≡ before)
      ⊎ ((k : K) × (e : Entry K V) × (result ≡ some k)
          × Holds k e seen
          × (e.last_access < time)
          × AtLeast e.last_access seen)

  Found-cons_older :
      (before result : Option K) (time : ℕ) (j : K) (f : Entry K V) (seen : Store K V)
      → f.last_access < time
      → Found (some j) f.last_access result seen
      → Found before time result ((j, f) ∷ seen)
  Found-cons_older before result time j f seen h (inl (a, r)) =
      inr (j, f, r, inl (refl, refl), h, (omega arith, a))
  Found-cons_older before result time j f seen h (inr (k, e, r, held, lt, a)) =
      inr (k, e, r, inr held, omega arith, (omega arith, a))

  Found-cons_newer :
      (before result : Option K) (time : ℕ) (j : K) (f : Entry K V) (seen : Store K V)
      → time ≤ f.last_access
      → Found before time result seen
      → Found before time result ((j, f) ∷ seen)
  Found-cons_newer before result time j f seen h (inl (a, r)) = inl ((h, a), r)
  Found-cons_newer before result time j f seen h (inr (k, e, r, held, lt, a)) =
      inr (k, e, r, inr held, lt, (omega arith, a))

  oldest_from_lem :
      (before : Option K) (time checked : ℕ) (l : Store K V) (left : ℕ)
      → checked + left ≡ eviction_batch
      → 0 < left
      → Found before time (oldest_from before time checked l) (take left l)
  unfolding oldest_from
  oldest_from_lem before time checked l zero h p = absurd (omega arith)
  oldest_from_lem before time checked [] (suc left) h p = inl (tt, refl)
  oldest_from_lem before time checked ((j, f) ∷ l) (suc zero) h p =
      let stop : leb eviction_batch (checked + 1) ≡ true = ground arith in
      elim (Bool-cases (ltb f.last_access time)) [
        | inl older ↦
            rw (stop, older)
              (Found-cons_older before (some j) time j f [] (ground arith) (inl (tt, refl)))
        | inr newer ↦
            rw (stop, newer)
              (Found-cons_newer before before time j f [] (ground arith) (inl (tt, refl)))
      ]
  oldest_from_lem before time checked ((j, f) ∷ l) (suc (suc left)) h p =
      let go_on : leb eviction_batch (checked + 1) ≡ false = ground arith in
      let ih = λ (b : Option K) (t : ℕ).
        oldest_from_lem b t (checked + 1) l (suc left) (omega arith) (omega arith) in
      elim (Bool-cases (ltb f.last_access time)) [
        | inl older ↦
            rw (go_on, older)
              (Found-cons_older before _ time j f (take (suc left) l) (ground arith)
                (ih (some j) f.last_access))
        | inr newer ↦
            rw (go_on, newer)
              (Found-cons_newer before _ time j f (take (suc left) l) (ground arith)
                (ih before time))
      ]

module _ {K V : Type 0} (dec : Discrete K) where
  Holds-not_Fresh : (k : K) (e : Entry K V) (l : Store K V) → Fresh dec k l → ¬ Holds k e l
  Holds-not_Fresh k e [] f h = h
  Holds-not_Fresh k e ((j, g) ∷ l) f (inl h) = f.0 h.0
  Holds-not_Fresh k e ((j, g) ∷ l) f (inr h) = Holds-not_Fresh k e l f.1 h

  lookup-Holds :
      (k : K) (e : Entry K V) (l : Store K V)
      → Distinct dec l
      → Holds k e l
      → lookup dec k l ≡ some e
  unfolding lookup
  lookup-Holds k e [] d h = absurd h
  lookup-Holds k e ((j, g) ∷ l) d (inl h) = rw (if_pos (dec j k) h.0) (ap some h.1)
  lookup-Holds k e ((j, g) ∷ l) d (inr h) = elim (dec j k) [
    | yes p ↦ absurd (Holds-not_Fresh j e l d.0 (rw (← p) at h))
    | no p ↦ rw (if_neg _ p) (lookup-Holds k e l d.1 h)
  ]

  -- The scan of a store that has an entry, none of them used in the future, finds one.
  oldest_from-some :
      (now : ℕ) (l : Store K V)
      → AtMost now l
      → 0 < length l
      → (k : K) × (e : Entry K V) × (oldest_from none (now + 1) 0 l ≡ some k)
        × Holds k e (take eviction_batch l)
        × AtLeast e.last_access (take eviction_batch l)
  oldest_from-some now [] m p = absurd (omega arith)
  oldest_from-some now ((j, f) ∷ l) m p =
      elim (oldest_from_lem none (now + 1) 0 ((j, f) ∷ l) eviction_batch refl (omega arith)) [
        | inl (a, r) ↦ absurd (omega arith)
        | inr (k, e, r, held, lt, a) ↦ (k, e, r, held, a)
      ]

  evict_lru_step :
      (c : Cache K V) (now : ℕ) (k : K)
      → 0 < length c.store
      → oldest_from none (now + 1) 0 c.store ≡ some k
      → evict_lru dec c now ≡ record c { store = erase dec k c.store; evictions = c.evictions + 1 }
  unfolding evict_lru
  evict_lru_step c now k p r = ground arith

  -- On a store that is not empty, with distinct keys and no use after the clock, an eviction
  -- removes exactly one entry and counts it: one of the first 128 in insertion order, none of
  -- which was used before it.
  pub evict_lru_lem :
      (c : Cache K V) (now : ℕ)
      → Distinct dec c.store
      → AtMost now c.store
      → 0 < length c.store
      → (k : K) × (e : Entry K V) × (lookup dec k c.store ≡ some e)
        × Holds k e (take eviction_batch c.store)
        × AtLeast e.last_access (take eviction_batch c.store)
        × (evict_lru dec c now
            ≡ record c { store = erase dec k c.store; evictions = c.evictions + 1 })
  evict_lru_lem c now d m p =
      let (k, e, r, held, a) = oldest_from-some now c.store m p in
      (
        k,
        e,
        lookup-Holds k e c.store d (Holds-take eviction_batch k e c.store held),
        held,
        a,
        evict_lru_step c now k p r,
      )

  Holds-AtLeast :
      (t : ℕ) (k : K) (e : Entry K V) (l : Store K V)
      → Holds k e l
      → AtLeast t l
      → t ≤ e.last_access
  Holds-AtLeast t k e [] h a = absurd h
  Holds-AtLeast t k e ((j, f) ∷ l) (inl h) a = rw (← h.1) a.0
  Holds-AtLeast t k e ((j, f) ∷ l) (inr h) a = Holds-AtLeast t k e l h a.1

  -- If all of the first 128 entries were used after `now`, an eviction removes nothing.
  pub evict_lru_none :
      (c : Cache K V) (now : ℕ)
      → AtLeast (now + 1) (take eviction_batch c.store)
      → evict_lru dec c now ≡ c
  unfolding evict_lru
  evict_lru_none c now a =
      elim (oldest_from_lem none (now + 1) 0 c.store eviction_batch refl (omega arith)) [
        | inl (b, r) ↦ ground arith
        | inr (k, e, r, held, lt, b) ↦
            absurd (omega (arith, Holds-AtLeast (now + 1) k e (take eviction_batch c.store) held a))
      ]
