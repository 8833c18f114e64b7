-- ===== src/Storage/Cache/Manager.antt =====
-- CacheManager of src/storage/cache.py. The disk is the dictionary of the files in `_cache_dir`,
-- named by the hashed key; a file holds what a flush saved, or what cannot be unpickled. The lock
-- is held by one operation at a time and is always released, so an operation is one step here.
pub mod Disk
pub mod Laws
use py2to3_example_project.Prelude.{
  ℕ, zero, suc, ◌+◌, ◌-◌, Bool, true, false, Option, none, some, List, [], ◌∷◌, length, ltb,
  if◌then◌else◌,
}
use py2to3_example_project.Prelude.Dict.{lookup, insert, erase, has_key}
use py2to3_example_project.Prelude.Py.{Result, ok, raise}
use py2to3_example_project.Storage.Cache.Lru
use py2to3_example_project.Storage.Cache.Lru.{
  Cache, Entry, Store, Hashing, Stats, default_buckets, is_expired,
}

pub data File (V : Type 0) : Type 0 where
  saved : (value : Option V) (ttl created_at : ℕ) → File V
  corrupt : File V

-- What happens to a write of a file: it succeeds, fails before the file is opened, or after.
pub data Outcome : Type 0 where
  written unopened torn : Outcome

-- The file system and the hash of raw keys.
pub record Host (R K : Type 0) : Type 0 where
  pub hash_key : R → K
  pub write_outcome : K → Outcome
  pub readable : K → Bool
  pub removable : K → Bool

pub record Manager (K V : Type 0) : Type 0 where
  pub cache : Cache K V
  pub default_ttl : ℕ
  pub has_dir : Bool
  pub disk : List (K × File V)

-- The reads of the clock by a `put`.
pub record Times : Type 0 where
  pub evicting : ℕ
  pub created : ℕ
  pub accessed : ℕ

-- `ttl or self._default_ttl`
unfoldable pub ttl_or : Option ℕ → ℕ → ℕ
ttl_or none d = d
ttl_or (some zero) d = d
ttl_or (some (suc n)) d = suc n

module _ {K V : Type 0} where
  unfoldable pub init : Bool → (max_size default_ttl : ℕ) → List (K × File V) → Manager K V
  unfolding Lru.init
  init has_dir max_size default_ttl disk = record {
    cache = Lru.init max_size default_buckets;
    default_ttl = default_ttl;
    has_dir = has_dir;
    disk = disk;
  }

  unfoldable pub stats : Manager K V → Stats
  unfolding Lru.stats
  stats m = Lru.stats m.cache

module _ {R K V : Type 0} (dec : Discrete K) (host : Host R K) where
  unfoldable pub remove_file : K → List (K × File V) → List (K × File V)
  remove_file k disk = if host.removable k then erase dec k disk else disk

  unfoldable pub remove_from_disk : Manager K V → K → Manager K V
  unfolding remove_file
  remove_from_disk m k =
      if m.has_dir
      then (if has_key dec k m.disk then record m { disk = remove_file k m.disk } else m)
      else m

  unfoldable pub invalidate : Manager K V → R → Manager K V
  unfolding remove_from_disk
  invalidate m key =
      let hashed = host.hash_key key in
      remove_from_disk (record m { cache = Lru.invalidate dec m.cache hashed }) hashed

  unfoldable pub write_file : K → Entry K V → List (K × File V) → List (K × File V)
  write_file k e disk = elim (host.write_outcome k) [
    | written ↦ insert dec k (saved e.value e.ttl e.created_at) disk
    | unopened ↦ disk
    | torn ↦ insert dec k corrupt disk
  ]

  -- The clock is read for each entry of the snapshot: `clock k` is the second at which the entry
  -- under `k` is examined.
  unfoldable pub flush_loop : (K → ℕ) → Store K V → List (K × File V) → List (K × File V)
  unfolding write_file
  flush_loop clock [] disk = disk
  flush_loop clock ((k, e) ∷ entries) disk =
      flush_loop clock entries (if is_expired e (clock k) then disk else write_file k e disk)

  unfoldable pub flush_to_disk : Manager K V → (K → ℕ) → Manager K V
  unfolding flush_loop
  flush_to_disk m clock =
      if m.has_dir then record m { disk = flush_loop clock m.cache.store m.disk } else m

module _ {R K V : Type 0} (dec : Discrete K) (host : Host R K) (h : Hashing K V) where
  unfoldable pub load_from_disk : Manager K V → K → (now : ℕ) → Times → Manager K V × Option V
  unfolding remove_file
  load_from_disk m k now t =
      if m.has_dir
      then elim (lookup dec k m.disk) [
        | none ↦ (m, none)
        | some corrupt ↦ (m, none)
        | some (saved value ttl created_at) ↦
            if host.readable k
            then (if ltb (ttl + created_at) now
                then (record m { disk = remove_file dec host k m.disk }, none)
                else (
                  record m {
                    cache =
                        Lru.put dec h m.cache k value (ttl + created_at - now) t.evicting t.created
                          t.accessed;
                  },
                  value,
                ))
            else (m, none)
      ]
      else (m, none)

  unfoldable pub get :
      Manager K V → R → (checked touched now : ℕ) → Times → Manager K V × Result (Option V)
  unfolding load_from_disk
  get m key checked touched now t =
      let hashed = host.hash_key key in
      let (c, r) = Lru.get dec h m.cache hashed checked touched in
      let m' : Manager K V = record m { cache = c } in
      elim r [
        | raise x ↦ (m', raise x)
        | ok (some v) ↦ (m', ok (some v))
        | ok none ↦ let (m'', v) = load_from_disk m' hashed now t in (m'', ok v)
      ]

  unfoldable pub set : Manager K V → R → Option V → Option ℕ → Times → Manager K V
  unfolding ttl_or
  set m key value ttl t = record m {
    cache =
        Lru.put dec h m.cache (host.hash_key key) value (ttl_or ttl m.default_ttl) t.evicting
          t.created t.accessed;
  }

  -- The loop of `warm`; `loaded` counts the entries, and finds the times of each `set`.
  warm_loop : Manager K V → List (R × Option V) → ℕ → (ℕ → Times) → ℕ → Manager K V × ℕ
  unfolding set
  warm_loop m [] ttl t loaded = (m, loaded)
  warm_loop m ((key, value) ∷ pairs) ttl t loaded =
      warm_loop (set m key value (some ttl) (t loaded)) pairs ttl t (loaded + 1)

  unfoldable pub warm : Manager K V → List (R × Option V) → Option ℕ → (ℕ → Times) → Manager K V × ℕ
  unfolding warm_loop ttl_or
  warm m pairs ttl t = warm_loop m pairs (ttl_or ttl m.default_ttl) t 0

module _ {K V : Type 0} (dec : Discrete K) where
  unfoldable pub expired_keys : (K → ℕ) → Store K V → List K
  expired_keys clock [] = []
  expired_keys clock ((k, e) ∷ store) =
      if is_expired e (clock k) then k ∷ expired_keys clock store else expired_keys clock store

  unfoldable pub delete_all : List K → Store K V → Store K V
  delete_all [] store = store
  delete_all (k ∷ ks) store = delete_all ks (erase dec k store)

  unfoldable pub purge_expired : Manager K V → (K → ℕ) → Manager K V × ℕ
  unfolding expired_keys delete_all
  purge_expired m clock =
      let expired = expired_keys clock m.cache.store in
      (
        record m { cache = record m.cache { store = delete_all expired m.cache.store } },
        length expired,
      )
