-- ===== src/Storage/Cache/Manager/Laws.antt =====
-- Round trips through CacheManager: set and get, flush and load, and invalidation.
use py2to3_example_project.Prelude.{
  ℕ, ◌+◌, ◌≤◌, ◌<◌, ◌≡◌, refl, true, Option, none, some, arith, ltb, if◌then◌else◌, Bool-cases, inl,
  inr,
}
use py2to3_example_project.Prelude.Dict.{lookup, Distinct, lookup-erase_self}
use py2to3_example_project.Prelude.Py.{ok}
use py2to3_example_project.Storage.Cache.Lru
use py2to3_example_project.Storage.Cache.Lru.{Entry, Cache, Hashing, is_expired}
use py2to3_example_project.Storage.Cache.Lru.Lookup.{get-put}
use py2to3_example_project.Storage.Cache.Manager.{
  saved, written, Host, Manager, Times, init, ttl_or, get, set, invalidate, flush_to_disk,
  load_from_disk,
}
use py2to3_example_project.Storage.Cache.Manager.Disk.{lookup-flush_to_disk}

module _ {R K V : Type 0} (dec : Discrete K) (host : Host R K) (h : Hashing K V) where
  -- A value that is set is returned while its TTL has not passed; the TTL is the manager's default
  -- if none, or zero, was given. The cache must have a bucket.
  pub get-set :
      (m : Manager K V) (key : R) (v : V) (ttl : Option ℕ) (t u : Times) (checked touched now : ℕ)
      → 0 < m.cache.num_buckets
      → checked ≤ ttl_or ttl m.default_ttl + t.created
      → (get dec host h (set dec host h m key (some v) ttl t) key checked touched now u).1
        ≡ ok (some v)
  unfolding get set
  get-set m key v ttl t u checked touched now p live =
      let k = host.hash_key key in
      let e =
        get-put dec h m.cache k (some v) (ttl_or ttl m.default_ttl) t.evicting t.created t.accessed
          checked touched p in
      ground (arith, e)

  Lru-get_empty :
      (c : Cache K V) (k : K) (checked touched : ℕ)
      → lookup dec k c.store ≡ none
      → Lru.get dec h c k checked touched ≡ (record c { misses = c.misses + 1 }, ok none)
  unfolding Lru.get
  Lru-get_empty c k checked touched e = ground arith

  -- What a lookup finds when the key is not in memory and its file was saved.
  pub get_from_disk :
      (m : Manager K V) (key : R) (value : Option V) (ttl created : ℕ) (checked touched now : ℕ)
      (u : Times)
      → lookup dec (host.hash_key key) m.cache.store ≡ none
      → m.has_dir ≡ true
      → host.readable (host.hash_key key) ≡ true
      → lookup dec (host.hash_key key) m.disk ≡ some (saved value ttl created)
      → (get dec host h m key checked touched now u).1
        ≡ (if ltb (ttl + created) now then ok none else ok value)
  unfolding get
  get_from_disk m key value ttl created checked touched now u absent dir can file =
      ground (arith, Lru-get_empty m.cache (host.hash_key key) checked touched absent)

  flush-saved :
      (m : Manager K V) (clock : K → ℕ) (k : K) (e : Entry K V)
      → m.has_dir ≡ true
      → Distinct dec m.cache.store
      → lookup dec k m.cache.store ≡ some e
      → clock k ≤ e.ttl + e.created_at
      → host.write_outcome k ≡ written
      → lookup dec k (flush_to_disk dec host m clock).disk ≡ some (saved e.value e.ttl e.created_at)
  unfolding is_expired
  flush-saved m clock k e dir d found live wrote =
      ground (arith, (lookup-flush_to_disk dec host m clock k dir d).0)

  -- A flushed entry survives a restart: a new manager on the same directory returns the value that
  -- the old one held, until the TTL of the original entry has passed. The manager has a directory,
  -- the keys are distinct, the entry was not expired at the flush, its write succeeded, and its
  -- file can be read.
  pub get-flush_to_disk :
      (m : Manager K V) (clock : K → ℕ) (key : R) (e : Entry K V)
      (max_size ttl checked touched now : ℕ) (u : Times)
      → m.has_dir ≡ true
      → Distinct dec m.cache.store
      → lookup dec (host.hash_key key) m.cache.store ≡ some e
      → clock (host.hash_key key) ≤ e.ttl + e.created_at
      → host.write_outcome (host.hash_key key) ≡ written
      → host.readable (host.hash_key key) ≡ true
      → (get dec host h
          (init true max_size ttl (flush_to_disk dec host m clock).disk)
          key
          checked
          touched
          now
          u).1
        ≡ (if ltb (e.ttl + e.created_at) now then ok none else ok e.value)
  unfolding init lookup
  get-flush_to_disk m clock key e max_size ttl checked touched now u dir d found live wrote can =
      get_from_disk (init true max_size ttl (flush_to_disk dec host m clock).disk) key e.value e.ttl
        e.created_at checked touched now u refl refl can
        (flush-saved m clock (host.hash_key key) e dir d found live wrote)

  invalidate-cache :
      (m : Manager K V) (key : R)
      → Distinct dec m.cache.store
      → lookup dec (host.hash_key key) (invalidate dec host m key).cache.store ≡ none
  unfolding invalidate Lru.invalidate
  invalidate-cache m key d =
      ground (arith, lookup-erase_self dec (host.hash_key key) m.cache.store d)

  invalidate-disk :
      (m : Manager K V) (key : R)
      → Distinct dec m.disk
      → host.removable (host.hash_key key) ≡ true
      → ((invalidate dec host m key).has_dir ≡ m.has_dir)
        × (m.has_dir ≡ true
            → lookup dec (host.hash_key key) (invalidate dec host m key).disk ≡ none)
  unfolding invalidate
  invalidate-disk m key d can =
      (ground arith, λ dir. ground (arith, dir, lookup-erase_self dec (host.hash_key key) m.disk d))

  -- After an invalidation that can remove the key's file, a lookup finds nothing, in memory or on
  -- disk.
  pub get-invalidate :
      (m : Manager K V) (key : R) (checked touched now : ℕ) (u : Times)
      → Distinct dec m.cache.store
      → Distinct dec m.disk
      → host.removable (host.hash_key key) ≡ true
      → (get dec host h (invalidate dec host m key) key checked touched now u).1 ≡ ok none
  unfolding get load_from_disk
  get-invalidate m key checked touched now u d dd can =
      let m' = invalidate dec host m key in
      let gone = invalidate-disk m key dd can in
      elim (Bool-cases m.has_dir) [
        | inl dir ↦ ground (
          arith,
          gone.1 dir,
          Lru-get_empty m'.cache (host.hash_key key) checked touched (invalidate-cache m key d),
        )
        | inr no_dir ↦ ground (
          arith,
          gone.0,
          Lru-get_empty m'.cache (host.hash_key key) checked touched (invalidate-cache m key d),
        )
      ]
