-- ===== src/Storage/Cache/Lru.antt =====
-- CacheEntry and LRUCache of src/storage/cache.py. Python's None as a stored or returned value is
-- `none`. Each read of `int(time.time())` is an argument of its own, in the order of the reads, so
-- the clock may tick, or step back, inside an operation. Ages and TTLs are compared as integers:
-- `now - created > ttl` is written `ttl + created < now`.
pub mod Evict
pub mod Laws
pub mod Lookup
use Prim.Native.String.{String}
use py2to3_example_project.Prelude.{
  ℕ, zero, suc, ◌+◌, ◌*◌, ◌/◌, ◌%◌, Bool, true, false, Option, none, some, List, [], ◌∷◌, length,
  ltb, leb, ◌==◌, if◌then◌else◌,
}
use py2to3_example_project.Prelude.Dict.{lookup, insert, erase, has_key}
use py2to3_example_project.Prelude.Py.{Result, ok, raise, zero_division}

abbrev pub default_ttl : ℕ
default_ttl = 300

abbrev pub max_entries : ℕ
max_entries = 10000

abbrev pub default_buckets : ℕ
default_buckets = 64

abbrev pub eviction_batch : ℕ
eviction_batch = 128

pub record Entry (K V : Type 0) : Type 0 where
  pub key : K
  pub value : Option V
  pub created_at : ℕ
  pub last_access : ℕ
  pub ttl : ℕ
  pub access_count : ℕ
  pub fingerprint : Option String

abbrev pub Store : Type 0 → Type 0 → Type 0
Store K V = List (K × Entry K V)

pub record Cache (K V : Type 0) : Type 0 where
  pub store : Store K V
  pub max_size : ℕ
  pub num_buckets : ℕ
  pub hits : ℕ
  pub misses : ℕ
  pub evictions : ℕ

-- hashlib and pickle: the SHA-1 of a pickled value (None where pickling fails), and the first 32
-- bits of the MD5 of a key.
pub record Hashing (K V : Type 0) : Type 0 where
  pub fingerprint_of : Option V → Option String
  pub key_hash : K → ℕ

pub record Stats : Type 0 where
  pub size : ℕ
  pub limit : ℕ
  pub hit_count : ℕ
  pub miss_count : ℕ
  pub eviction_count : ℕ
  pub hit_rate_pct : ℕ

module _ {K V : Type 0} where
  unfoldable pub new_entry : Hashing K V → K → Option V → ℕ → (created accessed : ℕ) → Entry K V
  new_entry h key value ttl created accessed = record {
    key = key;
    value = value;
    created_at = created;
    last_access = accessed;
    ttl = ttl;
    access_count = 0;
    fingerprint = h.fingerprint_of value;
  }

  unfoldable pub is_expired : Entry K V → ℕ → Bool
  is_expired e now = ltb (e.ttl + e.created_at) now

  unfoldable pub touch : Entry K V → ℕ → Entry K V
  touch e now = record e { last_access = now; access_count = e.access_count + 1 }

  unfoldable pub init : (max_size num_buckets : ℕ) → Cache K V
  init max_size num_buckets = record {
    store = [];
    max_size = max_size;
    num_buckets = num_buckets;
    hits = 0;
    misses = 0;
    evictions = 0;
  }

  unfoldable pub bucket_for_key : Hashing K V → Cache K V → K → Result ℕ
  bucket_for_key h c key =
      if c.num_buckets == 0
      then raise zero_division
      else ok (h.key_hash key / c.num_buckets % c.num_buckets)

  -- The loop of `_evict_lru`: the key of the oldest entry seen so far. It breaks after the batch.
  unfoldable pub oldest_from : Option K → (oldest_time checked : ℕ) → Store K V → Option K
  oldest_from oldest_key oldest_time checked [] = oldest_key
  oldest_from oldest_key oldest_time checked ((k, e) ∷ rest) =
      let older = ltb e.last_access oldest_time in
      let key' = if older then some k else oldest_key in
      let time' = if older then e.last_access else oldest_time in
      let more = oldest_from key' time' (checked + 1) rest in
      if leb eviction_batch (checked + 1) then key' else more

  module _ (dec : Discrete K) where
    unfoldable pub evict_lru : Cache K V → ℕ → Cache K V
    unfolding oldest_from
    evict_lru c now = elim c.store [
      | [] ↦ c
      | _ ∷ _ ↦ elim (oldest_from none (now + 1) 0 c.store) [
        | none ↦ c
        | some k ↦ record c { store = erase dec k c.store; evictions = c.evictions + 1 }
      ]
    ]

    -- The clock is read by `is_expired` and again by `touch`. The result is returned, or the log
    -- line's `_bucket_for_key` raises; the state has changed by then.
    unfoldable pub get :
        Hashing K V → Cache K V → K → (checked touched : ℕ) → Cache K V × Result (Option V)
    unfolding is_expired touch bucket_for_key
    get h c key checked touched = elim (lookup dec key c.store) [
      | none ↦ (record c { misses = c.misses + 1 }, ok none)
      | some e ↦
          if is_expired e checked
          then (record c { store = erase dec key c.store; misses = c.misses + 1 }, ok none)
          else (
            record c { store = insert dec key (touch e touched) c.store; hits = c.hits + 1 },
            elim (bucket_for_key h c key) [ ok b ↦ ok e.value | raise x ↦ raise x ],
          )
    ]

    -- The first half of `put`: room is made when the store is full, also for a key that it holds.
    unfoldable pub make_room : Cache K V → ℕ → Cache K V
    unfolding evict_lru
    make_room c now = if leb c.max_size (length c.store) then evict_lru c now else c

    unfoldable pub put :
        Hashing K V → Cache K V → K → Option V → ℕ → (evicting created accessed : ℕ) → Cache K V
    unfolding make_room new_entry
    put h c key value ttl evicting created accessed =
        let room = make_room c evicting in
        record room {
          store = insert dec key (new_entry h key value ttl created accessed) room.store;
        }

    unfoldable pub invalidate : Cache K V → K → Cache K V
    invalidate c key =
        if has_key dec key c.store then record c { store = erase dec key c.store } else c

  unfoldable pub stats : Cache K V → Stats
  stats c =
      let total = c.hits + c.misses in
      record {
        size = length c.store;
        limit = c.max_size;
        hit_count = c.hits;
        miss_count = c.misses;
        eviction_count = c.evictions;
        hit_rate_pct = if ltb 0 total then c.hits * 100 / total else 0;
      }
