-- ===== src/Storage/Cache/Manager/Disk.antt =====
-- What a flush leaves on disk, what a purge leaves in memory, and what a load brings back.
use mathlib.Core.Path.{subst}
use py2to3_example_project.Prelude.{
  ℕ, ◌+◌, ◌≡◌, refl, sym, ap, ◌∙◌, inl, inr, true, Option, none, some, List, [], ◌∷◌, arith, length,
  if◌then◌else◌, Bool-cases, if_pos, if_neg,
}
use py2to3_example_project.Prelude.Dict.{
  lookup, erase, Fresh, Distinct, lookup-insert_self, lookup-insert_ne, lookup-Fresh,
}
use py2to3_example_project.Storage.Cache.Lru.{Entry, Store, is_expired}
use py2to3_example_project.Storage.Cache.Manager.{
  File, saved, corrupt, written, unopened, torn, Host, Manager, write_file, flush_loop,
  flush_to_disk, expired_keys, delete_all, purge_expired,
}

module _ {R K V : Type 0} (dec : Discrete K) (host : Host R K) where
  -- The file under a key after a flush, from the entry and the file before it.
  abbrev pub flushed : K → (clock : K → ℕ) → Option (Entry K V) → Option (File V) → Option (File V)
  flushed q clock none old = old
  flushed q clock (some e) old =
      if is_expired e (clock q) then old else elim (host.write_outcome q) [
        | written ↦ some (saved e.value e.ttl e.created_at)
        | unopened ↦ old
        | torn ↦ some corrupt
      ]

  lookup-write_file_self :
      (k : K) (clock : K → ℕ) (e : Entry K V) (disk : List (K × File V))
      → lookup dec k (if is_expired e (clock k) then disk else write_file dec host k e disk)
        ≡ flushed k clock (some e) (lookup dec k disk)
  unfolding write_file
  lookup-write_file_self k clock e disk = ground (
    arith,
    lookup-insert_self dec k (saved e.value e.ttl e.created_at) disk,
    lookup-insert_self {V = File V} dec k corrupt disk,
  )

  lookup-write_file_eq :
      (k q : K) (clock : K → ℕ) (e : Entry K V) (disk : List (K × File V))
      → k ≡ q
      → lookup dec q (if is_expired e (clock k) then disk else write_file dec host k e disk)
        ≡ flushed q clock (some e) (lookup dec q disk)
  lookup-write_file_eq k q clock e disk p =
      subst
        (λ r.
          lookup dec r (if is_expired e (clock k) then disk else write_file dec host k e disk)
          ≡ flushed r clock (some e) (lookup dec r disk))
        p (lookup-write_file_self k clock e disk)

  lookup-write_file_ne :
      (k q : K) (clock : K → ℕ) (e : Entry K V) (disk : List (K × File V))
      → ¬ (k ≡ q)
      → lookup dec q (if is_expired e (clock k) then disk else write_file dec host k e disk)
        ≡ lookup dec q disk
  unfolding write_file
  lookup-write_file_ne k q clock e disk ne = ground (
    arith,
    lookup-insert_ne dec k q (saved e.value e.ttl e.created_at) disk,
    lookup-insert_ne {V = File V} dec k q corrupt disk,
  )

  lookup-flush_loop-Fresh :
      (q : K) (clock : K → ℕ) (l : Store K V) (disk : List (K × File V))
      → Fresh dec q l
      → lookup dec q (flush_loop dec host clock l disk) ≡ lookup dec q disk
  unfolding flush_loop
  lookup-flush_loop-Fresh q clock [] disk f = refl
  lookup-flush_loop-Fresh q clock ((k, e) ∷ l) disk f =
      lookup-flush_loop-Fresh q clock l _ f.1 ∙ lookup-write_file_ne k q clock e disk f.0

  lookup-flush_loop :
      (q : K) (clock : K → ℕ) (l : Store K V) (disk : List (K × File V))
      → Distinct dec l
      → lookup dec q (flush_loop dec host clock l disk)
        ≡ flushed q clock (lookup dec q l) (lookup dec q disk)
  unfolding flush_loop lookup
  lookup-flush_loop q clock [] disk d = refl
  lookup-flush_loop q clock ((k, e) ∷ l) disk d = elim (dec k q) [
    | yes p ↦ rw (if_pos _ p) (
        lookup-flush_loop-Fresh q clock l _ (rw p at (d.0))
        ∙ lookup-write_file_eq k q clock e disk p)
    | no p ↦ rw (if_neg _ p) (
        lookup-flush_loop q clock l _ d.1
        ∙ ap (flushed q clock (lookup dec q l)) (lookup-write_file_ne k q clock e disk p))
  ]

  -- A flush to a directory saves every entry that is not expired, if its write succeeds, and
  -- leaves the files of all other keys as they were; a write that fails after the file is opened
  -- leaves a corrupt file. The memory does not change. The keys must be distinct.
  pub lookup-flush_to_disk :
      (m : Manager K V) (clock : K → ℕ) (q : K)
      → m.has_dir ≡ true
      → Distinct dec m.cache.store
      → (lookup dec q (flush_to_disk dec host m clock).disk
          ≡ flushed q clock (lookup dec q m.cache.store) (lookup dec q m.disk))
        × ((flush_to_disk dec host m clock).cache ≡ m.cache)
  unfolding flush_to_disk
  lookup-flush_to_disk m clock q dir d =
      rw dir (lookup-flush_loop q clock m.cache.store m.disk d, refl)

module _ {K V : Type 0} (dec : Discrete K) where
  -- The entry that a purge keeps.
  abbrev pub unexpired : ℕ → Option (Entry K V) → Option (Entry K V)
  unexpired now none = none
  unexpired now (some e) = if is_expired e now then none else some e

  -- The entries of a store that are not expired, in their order.
  unfoldable pub live_entries : (K → ℕ) → Store K V → Store K V
  live_entries clock [] = []
  live_entries clock ((k, e) ∷ l) =
      if is_expired e (clock k) then live_entries clock l else (k, e) ∷ live_entries clock l

  delete_all-cons :
      (clock : K → ℕ) (k : K) (e : Entry K V) (l s : Store K V)
      → Fresh dec k l
      → delete_all dec (expired_keys dec clock l) ((k, e) ∷ s)
        ≡ (k, e) ∷ delete_all dec (expired_keys dec clock l) s
  unfolding expired_keys delete_all erase
  delete_all-cons clock k e [] s f = refl
  delete_all-cons clock k e ((j, g) ∷ l) s f = elim (Bool-cases (is_expired g (clock j))) [
    | inl old ↦ rw old (
        ap (delete_all dec (expired_keys dec clock l))
          (if_neg (dec k j) (λ p. f.0 (sym p)) s ((k, e) ∷ erase dec j s))
        ∙ delete_all-cons clock k e l (erase dec j s) f.1)
    | inr live ↦ rw live (delete_all-cons clock k e l s f.1)
  ]

  delete_all-live :
      (clock : K → ℕ) (l : Store K V)
      → Distinct dec l
      → delete_all dec (expired_keys dec clock l) l ≡ live_entries clock l
  unfolding expired_keys delete_all erase live_entries
  delete_all-live clock [] d = refl
  delete_all-live clock ((k, e) ∷ l) d = elim (Bool-cases (is_expired e (clock k))) [
    | inl old ↦ rw old (
        ap (delete_all dec (expired_keys dec clock l))
          (if_pos (dec k k) refl l ((k, e) ∷ erase dec k l))
        ∙ delete_all-live clock l d.1)
    | inr live ↦
        rw live (delete_all-cons clock k e l l d.0 ∙ ap (◌∷◌ (k, e)) (delete_all-live clock l d.1))
  ]

  length-live_entries :
      (clock : K → ℕ) (l : Store K V)
      → length (expired_keys dec clock l) + length (live_entries clock l) ≡ length l
  unfolding expired_keys live_entries
  length-live_entries clock [] = refl
  length-live_entries clock ((k, e) ∷ l) = ground (arith, length-live_entries clock l)

  Fresh-live_entries :
      (clock : K → ℕ) (q : K) (l : Store K V) → Fresh dec q l → Fresh dec q (live_entries clock l)
  unfolding live_entries
  Fresh-live_entries clock q [] f = tt
  Fresh-live_entries clock q ((k, e) ∷ l) f = ground (arith, Fresh-live_entries clock q l)

  lookup-live_entries :
      (clock : K → ℕ) (q : K) (l : Store K V)
      → Distinct dec l
      → lookup dec q (live_entries clock l) ≡ unexpired (clock q) (lookup dec q l)
  unfolding live_entries lookup
  lookup-live_entries clock q [] d = refl
  lookup-live_entries clock q ((k, e) ∷ l) d = elim (dec k q) [
    | yes p ↦
        rw (if_pos _ p, ← p)
          (ground
            (arith, lookup-Fresh dec k (live_entries clock l) (Fresh-live_entries clock k l d.0)))
    | no p ↦ rw (if_neg _ p) (ground (arith, lookup-live_entries clock q l d.1))
  ]

  -- A purge of a cache with distinct keys keeps exactly the entries that are not expired, in their
  -- order, and returns the number of the others.
  pub purge_expired_lem :
      (m : Manager K V) (clock : K → ℕ)
      → Distinct dec m.cache.store
      → ((purge_expired dec m clock).0.cache.store ≡ live_entries clock m.cache.store)
        × ((purge_expired dec m clock).1 + length (purge_expired dec m clock).0.cache.store
            ≡ length m.cache.store)
        × ((q : K)
            → lookup dec q (purge_expired dec m clock).0.cache.store
              ≡ unexpired (clock q) (lookup dec q m.cache.store))
  unfolding purge_expired
  purge_expired_lem m clock d = rw (delete_all-live clock m.cache.store d) (
    refl,
    length-live_entries clock m.cache.store,
    λ q. lookup-live_entries clock q m.cache.store d,
  )
