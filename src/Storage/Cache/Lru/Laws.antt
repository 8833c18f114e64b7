-- ===== src/Storage/Cache/Lru/Laws.antt =====
-- The invariant of LRUCache, and what can be read after an operation.
use py2to3_example_project.Prelude.{
  ℕ, ◌≤◌, ◌<◌, ◌≡◌, refl, inl, inr, Option, [], ◌∷◌, arith, length, leb, Bool-cases, Option-cases,
}
use py2to3_example_project.Prelude.Dict.{
  lookup, insert, erase, Distinct, Distinct-erase, Distinct-insert, length-erase, length-insert-le,
  length-insert_old, length-erase-le,
}
use py2to3_example_project.Storage.Cache.Lru.{
  Entry, Store, Cache, Hashing, is_expired, make_room, put, get, new_entry, touch,
}
use py2to3_example_project.Storage.Cache.Lru.Evict.{AtMost, AtMost-le, evict_lru_lem}

module _ {K V : Type 0} (dec : Discrete K) where
  -- The cache at time `t`: no key twice, never more entries than `max_size`, and no entry used
  -- after `t`.
  pub record IsValid (c : Cache K V) (t : ℕ) : Type 0 where
    pub positive : 0 < c.max_size
    pub bounded : length c.store ≤ c.max_size
    pub distinct : Distinct dec c.store
    pub past : AtMost t c.store

  AtMost-insert :
      (t : ℕ) (k : K) (e : Entry K V) (l : Store K V)
      → e.last_access ≤ t
      → AtMost t l
      → AtMost t (insert dec k e l)
  unfolding insert
  AtMost-insert t k e [] h a = (h, tt)
  AtMost-insert t k e ((j, f) ∷ l) h a = ground (arith, AtMost-insert t k e l h)

  AtMost-erase : (t : ℕ) (k : K) (l : Store K V) → AtMost t l → AtMost t (erase dec k l)
  unfolding erase
  AtMost-erase t k [] a = tt
  AtMost-erase t k ((j, f) ∷ l) a = ground (arith, AtMost-erase t k l)

  -- After `make_room` the cache is valid and has a place left.
  make_room-IsValid :
      (c : Cache K V) (t now : ℕ)
      → IsValid c t
      → t ≤ now
      → IsValid (make_room dec c now) now
        × (length (make_room dec c now).store < c.max_size)
        × ((make_room dec c now).max_size ≡ c.max_size)
  unfolding make_room
  make_room-IsValid c t now v h = elim (Bool-cases (leb c.max_size (length c.store))) [
    | inl full ↦
        let (k, e, found, held, least, evicted) =
          evict_lru_lem dec c now v.distinct (AtMost-le t now c.store h v.past)
            (ground (arith, v)) in
        rw (full, evicted)
          (
            record {
              positive = v.positive;
              bounded = omega (arith, length-erase dec k e c.store found);
              distinct = Distinct-erase dec k c.store v.distinct;
              past = AtMost-erase now k c.store (AtMost-le t now c.store h v.past);
            },
            omega (arith, length-erase dec k e c.store found),
            refl,
          )
    | inr room ↦ rw room (
      record {
        positive = v.positive;
        bounded = v.bounded;
        distinct = v.distinct;
        past = AtMost-le t now c.store h v.past;
      },
      ground arith,
      refl,
    )
  ]

  module _ (h : Hashing K V) where
    -- From a valid cache `put` gives a valid one, when the clock does not step back: the store
    -- never holds more than `max_size` entries.
    pub put-IsValid :
        (c : Cache K V) (key : K) (value : Option V) (ttl t evicting created accessed : ℕ)
        → IsValid c t
        → t ≤ evicting
        → evicting ≤ accessed
        → IsValid (put dec h c key value ttl evicting created accessed) accessed
    unfolding put
    put-IsValid c key value ttl t evicting created accessed v p q =
        let (room, free, same) = make_room-IsValid c t evicting v p in
        let e = new_entry h key value ttl created accessed in
        let s = (make_room dec c evicting).store in
        record {
          positive = room.positive;
          bounded = omega (arith, length-insert-le dec key e s);
          distinct = Distinct-insert dec key e s room.distinct;
          past =
              unfold new_entry in
              AtMost-insert accessed key e s (omega arith)
                (AtMost-le evicting accessed s q room.past);
        }

    -- A lookup keeps the invariant, whatever it finds.
    pub get-IsValid :
        (c : Cache K V) (key : K) (t checked touched : ℕ)
        → IsValid c t
        → t ≤ touched
        → IsValid (get dec h c key checked touched).0 touched
    unfolding get
    get-IsValid c key t checked touched v p = elim (Option-cases (lookup dec key c.store)) [
      | inl miss ↦
          rw (miss, get)
            (record {
              positive = v.positive;
              bounded = v.bounded;
              distinct = v.distinct;
              past = AtMost-le t touched c.store p v.past;
            })
      | inr (e, hit) ↦ elim (Bool-cases (is_expired e checked)) [
        | inl old ↦
            rw (hit, get)
              (rw old (record {
                positive = v.positive;
                bounded = omega (arith, length-erase-le dec key c.store, v.bounded);
                distinct = Distinct-erase dec key c.store v.distinct;
                past = AtMost-erase touched key c.store (AtMost-le t touched c.store p v.past);
              }))
        | inr live ↦
            rw (hit, get)
              (rw live (record {
                positive = v.positive;
                bounded =
                    omega
                      (arith, length-insert_old dec key (touch e touched) e c.store hit, v.bounded);
                distinct = Distinct-insert dec key (touch e touched) c.store v.distinct;
                past =
                    AtMost-insert touched key (touch e touched) c.store (omega arith)
                      (AtMost-le t touched c.store p v.past);
              }))
      ]
    ]
