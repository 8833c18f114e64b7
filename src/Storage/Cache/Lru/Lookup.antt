-- ===== src/Storage/Cache/Lru/Lookup.antt =====
-- What a lookup returns and changes, and what a put makes room for.
use py2to3_example_project.Prelude.{
  ℕ, ◌+◌, ◌≤◌, ◌<◌, ◌≡◌, refl, ◌∙◌, inl, inr, true, false, Option, none, some, arith, length, take,
  ltb, leb, if◌then◌else◌, Bool-cases, Option-cases,
}
use py2to3_example_project.Prelude.Dict.{
  lookup, erase, Distinct, lookup-erase_ne, lookup-erase_self, lookup-insert_self, lookup-insert_ne,
  length-insert_new,
}
use py2to3_example_project.Prelude.Py.{ok}
use py2to3_example_project.Storage.Cache.Lru.{
  Entry, Cache, Hashing, eviction_batch, is_expired, make_room, put, get, new_entry, touch,
}
use py2to3_example_project.Storage.Cache.Lru.Evict.{
  AtMost-le, AtLeast, Holds, evict_lru_lem, evict_lru_none,
}
use py2to3_example_project.Storage.Cache.Lru.Laws.{IsValid}

module _ {K V : Type 0} (dec : Discrete K) where
  module _ (h : Hashing K V) where
    -- A lookup counts exactly one hit or one miss, evicts nothing, and leaves every other key as
    -- it was.
    pub get_counts :
        (c : Cache K V) (key q : K) (checked touched : ℕ)
        → ¬ (key ≡ q)
        → ((get dec h c key checked touched).0.hits + (get dec h c key checked touched).0.misses
            ≡ c.hits + c.misses + 1)
          × ((get dec h c key checked touched).0.evictions ≡ c.evictions)
          × (lookup dec q (get dec h c key checked touched).0.store ≡ lookup dec q c.store)
    unfolding get
    get_counts c key q checked touched ne = elim (Option-cases (lookup dec key c.store)) [
      | inl miss ↦ rw (miss, get) (omega arith, refl, refl)
      | inr (e, hit) ↦ elim (Bool-cases (is_expired e checked)) [
        | inl old ↦ rw (hit, get) (rw old (omega arith, refl, lookup-erase_ne dec key q c.store ne))
        | inr live ↦
            rw (hit, get)
              (rw live (omega arith, refl, lookup-insert_ne dec key q (touch e touched) c.store ne))
      ]
    ]

    pub get_found :
        (c : Cache K V) (key : K) (e : Entry K V) (checked touched : ℕ)
        → lookup dec key c.store ≡ some e
        → 0 < c.num_buckets
        → (get dec h c key checked touched).1
          ≡ (if ltb (e.ttl + e.created_at) checked then ok none else ok e.value)
    unfolding get
    get_found c key e checked touched found p = ground arith

    make_room-num_buckets :
        (c : Cache K V) (now : ℕ) → (make_room dec c now).num_buckets ≡ c.num_buckets
    unfolding make_room
    make_room-num_buckets c now = ground arith

    -- What a lookup returns after a `put` of the same key: the value until its TTL has passed, and
    -- None from then on. The cache must have a bucket.
    pub get-put :
        (c : Cache K V) (key : K) (value : Option V)
        (ttl evicting created accessed checked touched : ℕ)
        → 0 < c.num_buckets
        → (get dec h (put dec h c key value ttl evicting created accessed) key checked touched).1
          ≡ (if ltb (ttl + created) checked then ok none else ok value)
    unfolding put new_entry
    get-put c key value ttl evicting created accessed checked touched p =
        let room = make_room dec c evicting in
        let e = new_entry h key value ttl created accessed in
        get_found (put dec h c key value ttl evicting created accessed) key e checked touched
          (lookup-insert_self dec key e room.store)
          (omega (arith, make_room-num_buckets c evicting))

  -- An expired entry is never returned: the lookup is a miss and drops the entry.
  pub get_expired :
      (h : Hashing K V) (c : Cache K V) (key : K) (e : Entry K V) (checked touched : ℕ)
      → Distinct dec c.store
      → lookup dec key c.store ≡ some e
      → e.ttl + e.created_at < checked
      → ((get dec h c key checked touched).1 ≡ ok none)
        × ((get dec h c key checked touched).0.misses ≡ c.misses + 1)
        × (lookup dec key (get dec h c key checked touched).0.store ≡ none)
  unfolding get
  get_expired h c key e checked touched d found old =
      let test : is_expired e checked ≡ true = ground arith in
      rw (found, get) (rw test (refl, refl, lookup-erase_self dec key c.store d))

  module _ (h : Hashing K V) (c : Cache K V) (key : K) (value : Option V)
      (ttl evicting created accessed : ℕ) where
    -- With room left, `put` evicts nothing and changes no other key.
    pub put_room :
        length c.store < c.max_size
        → ((put dec h c key value ttl evicting created accessed).evictions ≡ c.evictions)
          × ((q : K)
              → ¬ (key ≡ q)
              → lookup dec q (put dec h c key value ttl evicting created accessed).store
                ≡ lookup dec q c.store)
    unfolding put make_room
    put_room p =
        let room : leb c.max_size (length c.store) ≡ false = ground arith in
        let e = new_entry h key value ttl created accessed in
        rw room (refl, λ q ne. lookup-insert_ne dec key q e c.store ne)

    -- On a full cache `put` evicts one key, whose entry was among the first 128 and used no later
    -- than any of these, and it changes no other key than that one and its own.
    pub put_full :
        {t : ℕ}
        → IsValid dec c t
        → t ≤ evicting
        → length c.store ≡ c.max_size
        → (k : K) × (e : Entry K V) × (lookup dec k c.store ≡ some e)
          × Holds k e (take eviction_batch c.store)
          × AtLeast e.last_access (take eviction_batch c.store)
          × ((put dec h c key value ttl evicting created accessed).evictions ≡ c.evictions + 1)
          × ((q : K)
              → ¬ (key ≡ q)
              → ¬ (k ≡ q)
              → lookup dec q (put dec h c key value ttl evicting created accessed).store
                ≡ lookup dec q c.store)
    unfolding put make_room
    put_full {t} v p q =
        let full : leb c.max_size (length c.store) ≡ true = ground arith in
        let (k, e, found, held, least, evicted) =
          evict_lru_lem dec c evicting v.distinct (AtMost-le t evicting c.store p v.past)
            (ground (arith, v)) in
        let new = new_entry h key value ttl created accessed in
        (
          k,
          e,
          found,
          held,
          least,
          rw (full, evicted),
          λ r ne1 ne2.
              rw (full, evicted)
                (lookup-insert_ne dec key r new (erase dec k c.store) ne1
                  ∙ lookup-erase_ne dec k r c.store ne2),
        )

    -- When the clock has stepped back behind every use among the first 128 entries, `put` finds
    -- nothing to evict: a new key makes the store one entry longer, also when it is full.
    pub put_overflows :
        AtLeast (evicting + 1) (take eviction_batch c.store)
        → lookup dec key c.store ≡ none
        → length (put dec h c key value ttl evicting created accessed).store ≡ length c.store + 1
    unfolding put make_room
    put_overflows a new_key =
        let e = new_entry h key value ttl created accessed in
        let grows = length-insert_new dec key e c.store new_key in
        elim (Bool-cases (leb c.max_size (length c.store))) [
          | inl full ↦ rw (full, evict_lru_none dec c evicting a) grows
          | inr room ↦ rw room grows
        ]
