-- ===== src/Storage/Files/Fates.antt =====
-- What becomes of a file under purge_before of src/storage/file_store.py, and how that goes on from
-- one file and one directory to the next.
use mathlib.Core.Path.{subst}
use py2to3_example_project.Prelude.{
  ℕ, ◌+◌, ◌≤◌, ◌<◌, ◌≡◌, ◌≢◌, ◌⊎◌, refl, if_pos, if_neg, Option, none, some, List, [], ◌∷◌, arith,
  length, inl, inr,
}
use py2to3_example_project.Prelude.Str.{Str, Key_discrete}
use py2to3_example_project.Prelude.Dict.{lookup, Fresh, lookup-Fresh}
use py2to3_example_project.Prelude.Py.{Result, ok, raise, os_error}
use py2to3_example_project.Storage.Files.Store.{File, Files}
use py2to3_example_project.Storage.Files.Purge.{Access, allowed, counted, kept_beside}

-- The directory is one of those.
abbrev pub Among : Str → List Str → Type 0
Among d [] = ⊥
Among d (dir ∷ dirs) = (d ≡ dir) ⊎ Among d dirs

-- What becomes of a file under a key: it is removed if it stands in one of the directories and was
-- modified before the cutoff, and else it stays as it is.
abbrev pub Fate :
    (dirs : List Str) → (cutoff : ℕ) → (key : Str × Str) → (before after : Option File) → Type 0
Fate dirs cutoff key none after = after ≡ none
Fate dirs cutoff key (some f) after =
    (Among key.0 dirs × (f.mtime < cutoff) × (after ≡ none))
    ⊎ (((¬ (Among key.0 dirs)) ⊎ (cutoff ≤ f.mtime)) × (after ≡ some f))

-- After an error no file has become another one, and only such files are gone.
abbrev pub Spared :
    (dirs : List Str) → (cutoff : ℕ) → (key : Str × Str) → (before after : Option File) → Type 0
Spared dirs cutoff key none after = after ≡ none
Spared dirs cutoff key (some f) after =
    (after ≡ some f) ⊎ (Among key.0 dirs × (f.mtime < cutoff) × (after ≡ none))

-- How a purge ends.
abbrev pub Purges :
    (access : Str × Str → Access)
    → (dirs : List Str) → (cutoff : ℕ) → (key : Str × Str) → (fs : Files) → Files × Result ℕ
    → Type 0
Purges access dirs cutoff key fs (left, ok n) =
    Fate dirs cutoff key (lookup Key_discrete key fs) (lookup Key_discrete key left)
    × (length left + n ≡ length fs)
Purges access dirs cutoff key fs (left, raise e) =
    (e ≡ os_error)
    × ((q : Str × Str) × (access q ≢ allowed))
    × Spared dirs cutoff key (lookup Key_discrete key fs) (lookup Key_discrete key left)

pub Spared-refl :
    (dirs : List Str) (cutoff : ℕ) (key : Str × Str) (o : Option File) → Spared dirs cutoff key o o
Spared-refl dirs cutoff key none = refl
Spared-refl dirs cutoff key (some f) = inl refl

-- A file that stays where it stands, and one that is removed, by whether it is the one that is
-- looked up.
module _ (access : Str × Str → Access) (cutoff : ℕ) (dirs : List Str) (k key : Str × Str) (f : File)
    (fs : Files) where
  pub kept-Purges :
      (next : Files × Result ℕ)
      → ((¬ (Among key.0 dirs)) ⊎ (cutoff ≤ f.mtime))
      → Purges access dirs cutoff k fs next
      → Purges access dirs cutoff k ((key, f) ∷ fs) (kept_beside (key, f) next)
  unfolding lookup
  kept-Purges (left, ok n) stays h = elim (Key_discrete key k) [
    | yes e ↦
        rw
          (
            if_pos (Key_discrete key k) e (some f) (lookup Key_discrete k fs),
            if_pos (Key_discrete key k) e (some f) (lookup Key_discrete k left),
          )
          (
            inr (
              subst (λ (q : Str × Str). (¬ (Among q.0 dirs)) ⊎ (cutoff ≤ f.mtime)) e stays,
              refl,
            ),
            omega (arith, h.1),
          )
    | no d ↦
        rw
          (
            if_neg (Key_discrete key k) d (some f) (lookup Key_discrete k fs),
            if_neg (Key_discrete key k) d (some f) (lookup Key_discrete k left),
          )
          (h.0, omega (arith, h.1))
  ]
  kept-Purges (left, raise x) stays h = elim (Key_discrete key k) [
    | yes e ↦
        rw
          (
            if_pos (Key_discrete key k) e (some f) (lookup Key_discrete k fs),
            if_pos (Key_discrete key k) e (some f) (lookup Key_discrete k left),
          )
          (h.0, h.1, inl refl)
    | no d ↦
        rw
          (
            if_neg (Key_discrete key k) d (some f) (lookup Key_discrete k fs),
            if_neg (Key_discrete key k) d (some f) (lookup Key_discrete k left),
          )
          h
  ]

  pub deleted-Purges :
      (next : Files × Result ℕ)
      → Among key.0 dirs
      → f.mtime < cutoff
      → Fresh Key_discrete key next.0
      → Purges access dirs cutoff k fs next
      → Purges access dirs cutoff k ((key, f) ∷ fs) (counted next)
  unfolding lookup
  deleted-Purges (left, ok n) among old fresh h = elim (Key_discrete key k) [
    | yes e ↦ rw (if_pos (Key_discrete key k) e (some f) (lookup Key_discrete k fs)) (
      inl (
        subst (λ (q : Str × Str). Among q.0 dirs) e among,
        old,
        lookup-Fresh Key_discrete k left
            (subst (λ (q : Str × Str). Fresh Key_discrete q left) e fresh),
      ),
      omega (arith, h.1),
    )
    | no d ↦
        rw (if_neg (Key_discrete key k) d (some f) (lookup Key_discrete k fs))
          (h.0, omega (arith, h.1))
  ]
  deleted-Purges (left, raise x) among old fresh h = elim (Key_discrete key k) [
    | yes e ↦ rw (if_pos (Key_discrete key k) e (some f) (lookup Key_discrete k fs)) (
      h.0,
      h.1,
      inr (
        subst (λ (q : Str × Str). Among q.0 dirs) e among,
        old,
        lookup-Fresh Key_discrete k left
            (subst (λ (q : Str × Str). Fresh Key_discrete q left) e fresh),
      ),
    )
    | no d ↦ rw (if_neg (Key_discrete key k) d (some f) (lookup Key_discrete k fs)) h
  ]

-- One directory after another.
module _ (cutoff : ℕ) (dir : Str) (dirs : List Str) (k : Str × Str) where
  pub Fate-cons :
      (a b c : Option File)
      → Fate (dir ∷ []) cutoff k a b
      → Fate dirs cutoff k b c
      → Fate (dir ∷ dirs) cutoff k a c
  Fate-cons none b c h g = subst (λ o. Fate dirs cutoff k o c) h g
  Fate-cons (some f) b c (inl (inl here, old, gone)) g =
      inl (inl here, old, subst (λ o. Fate dirs cutoff k o c) gone g)
  Fate-cons (some f) b c (inl (inr x, old, gone)) g = elim x [ ]
  Fate-cons (some f) b c (inr (stays, same)) g =
      later stays (subst (λ o. Fate dirs cutoff k o c) same g)
    where
      both :
          ((¬ (Among k.0 (dir ∷ []))) ⊎ (cutoff ≤ f.mtime))
          → ((¬ (Among k.0 dirs)) ⊎ (cutoff ≤ f.mtime))
          → (¬ (Among k.0 (dir ∷ dirs))) ⊎ (cutoff ≤ f.mtime)
      both (inr recent) other = inr recent
      both (inl away) (inr recent) = inr recent
      both (inl away) (inl others) = inl neither
        where
          neither : Among k.0 (dir ∷ dirs) → ⊥
          neither (inl e) = away (inl e)
          neither (inr e) = others e

      later :
          ((¬ (Among k.0 (dir ∷ []))) ⊎ (cutoff ≤ f.mtime))
          → Fate dirs cutoff k (some f) c
          → Fate (dir ∷ dirs) cutoff k (some f) c
      later st (inl (among, old, gone)) = inl (inr among, old, gone)
      later st (inr (stays', same')) = inr (both st stays', same')

  pub Spared-cons :
      (a b c : Option File)
      → Fate (dir ∷ []) cutoff k a b
      → Spared dirs cutoff k b c
      → Spared (dir ∷ dirs) cutoff k a c
  Spared-cons none b c h g = subst (λ o. Spared dirs cutoff k o c) h g
  Spared-cons (some f) b c (inl (inl here, old, gone)) g =
      inr (inl here, old, subst (λ o. Spared dirs cutoff k o c) gone g)
  Spared-cons (some f) b c (inl (inr x, old, gone)) g = elim x [ ]
  Spared-cons (some f) b c (inr (stays, same)) g =
      later (subst (λ o. Spared dirs cutoff k o c) same g)
    where
      later : Spared dirs cutoff k (some f) c → Spared (dir ∷ dirs) cutoff k (some f) c
      later (inl kept) = inl kept
      later (inr (among, old, gone)) = inr (inr among, old, gone)

  pub Spared-append :
      (a b : Option File) → Spared (dir ∷ []) cutoff k a b → Spared (dir ∷ dirs) cutoff k a b
  Spared-append none b h = h
  Spared-append (some f) b (inl kept) = inl kept
  Spared-append (some f) b (inr (inl here, old, gone)) = inr (inl here, old, gone)
  Spared-append (some f) b (inr (inr x, old, gone)) = elim x [ ]

pub Fate-nil : (cutoff : ℕ) (k : Str × Str) (o : Option File) → Fate [] cutoff k o o
Fate-nil cutoff k none = refl
Fate-nil cutoff k (some f) = inr (inl (λ e. e), refl)
