-- ===== src/Storage/Tests.antt =====
-- Tests and instances for src/storage: a cache of numbers under numbers.
use py2to3_example_project.Prelude.{
  ℕ, ◌+◌, ◌*◌, ◌≡◌, refl, true, none, some, [], ◌∷◌, arith, length, take, ltb, if◌then◌else◌,
  ℕ_discrete,
}
use py2to3_example_project.Prelude.Dict.{lookup, erase}
use py2to3_example_project.Prelude.Py.{ok}
use py2to3_example_project.Storage.Cache.Lru
use py2to3_example_project.Storage.Cache.Lru.{
  Entry, Cache, Store, Hashing, eviction_batch, evict_lru, put,
}
use py2to3_example_project.Storage.Cache.Lru.Evict.{AtLeast, Holds, evict_lru_lem}
use py2to3_example_project.Storage.Cache.Lru.Laws
use py2to3_example_project.Storage.Cache.Lru.Lookup
use py2to3_example_project.Storage.Cache.Manager
use py2to3_example_project.Storage.Cache.Manager.{
  Host, Manager, Times, Outcome, written, init, set, flush_to_disk, invalidate, purge_expired,
}
use py2to3_example_project.Storage.Cache.Manager.Laws as ManagerLaws

abbrev hashing : Hashing ℕ ℕ
hashing = record { fingerprint_of = λ v. none; key_hash = λ k. k * 1000 }

abbrev entry : (key value last_access : ℕ) → Entry ℕ ℕ
entry key v last = record {
  key = key;
  value = some v;
  created_at = 100;
  last_access = last;
  ttl = 300;
  access_count = 0;
  fingerprint = none;
}

-- A full cache of two entries; key 2 was used longest ago.
abbrev full : Cache ℕ ℕ
full = record {
  store = (1, entry 1 10 120) ∷ (2, entry 2 20 110) ∷ [];
  max_size = 2;
  num_buckets = 64;
  hits = 0;
  misses = 0;
  evictions = 0;
}

full-IsValid : Laws.IsValid ℕ_discrete full 120
full-IsValid = record {
  positive = omega arith;
  bounded = omega arith;
  distinct = omega arith;
  past = omega arith;
}

evicts_second : (evict_lru ℕ_discrete full 130).store ≡ (1, entry 1 10 120) ∷ []
unfolding evict_lru erase ℕ_discrete
evicts_second = refl

evict_lru_lem_example :
    (k : ℕ) × (e : Entry ℕ ℕ) × (lookup ℕ_discrete k full.store ≡ some e)
    × Holds k e (take eviction_batch full.store)
    × AtLeast e.last_access (take eviction_batch full.store)
    × (evict_lru ℕ_discrete full 130
        ≡ record full { store = erase ℕ_discrete k full.store; evictions = 0 + 1 })
evict_lru_lem_example = evict_lru_lem ℕ_discrete full 130 (omega arith) (omega arith) (omega arith)

put-IsValid_example :
    Laws.IsValid ℕ_discrete (put ℕ_discrete hashing full 3 (some 30) 60 130 130 131) 131
put-IsValid_example =
    Laws.put-IsValid ℕ_discrete hashing full 3 (some 30) 60 120 130 130 131 full-IsValid
      (omega arith) (omega arith)

get-put_example :
    (Lru.get ℕ_discrete hashing
      (put ℕ_discrete hashing full 3 (some 30) 60 130 130 131)
      3
      190
      190).1
    ≡ (if ltb (60 + 130) 190 then ok none else ok (some 30))
get-put_example =
    Lookup.get-put ℕ_discrete hashing full 3 (some 30) 60 130 130 131 190 190 (omega arith)

put_overflows_example :
    length (put ℕ_discrete hashing full 3 (some 30) 60 90 90 90).store ≡ length full.store + 1
unfolding lookup ℕ_discrete
put_overflows_example =
    Lookup.put_overflows ℕ_discrete hashing full 3 (some 30) 60 90 90 90 (omega arith) refl

abbrev host : Host ℕ ℕ
host = record {
  hash_key = λ r. r;
  write_outcome = λ k. written;
  readable = λ k. true;
  removable = λ k. true;
}

abbrev manager : Manager ℕ ℕ
manager = record { cache = full; default_ttl = 300; has_dir = true; disk = [] }

abbrev times : Times
times = record { evicting = 130; created = 130; accessed = 131 }

get-set_example :
    (Manager.get ℕ_discrete host hashing
      (set ℕ_discrete host hashing manager 3 (some 30) none times)
      3
      200
      200
      200
      times).1
    ≡ ok (some 30)
unfolding Manager.ttl_or
get-set_example =
    ManagerLaws.get-set ℕ_discrete host hashing manager 3 30 none times times 200 200 200
      (omega arith) (omega arith)

get-flush_to_disk_example :
    (Manager.get ℕ_discrete host hashing
      (init true 10 300 (flush_to_disk ℕ_discrete host manager (λ k. 200)).disk)
      1
      300
      300
      300
      times).1
    ≡ (if ltb (300 + 100) 300 then ok none else ok (some 10))
unfolding lookup ℕ_discrete
get-flush_to_disk_example =
    ManagerLaws.get-flush_to_disk ℕ_discrete host hashing manager (λ k. 200) 1 (entry 1 10 120) 10
      300 300 300 300 times refl (omega arith) refl (omega arith) refl refl
