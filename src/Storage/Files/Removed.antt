-- ===== src/Storage/Files/Removed.antt =====
-- What purge_before of src/storage/file_store.py removes.
use py2to3_example_project.Prelude.{
  ℕ, ◌≤◌, ◌<◌, ◌≡◌, refl, sym, ap, ◌∙◌, Bool, true, false, Option, none, some, List, [], ◌∷◌, arith,
  if◌then◌else◌, inl, inr,
}
use py2to3_example_project.Prelude.Text.{codes}
use py2to3_example_project.Prelude.Str.{Str, Key_discrete, same_str, same_str_eq, same_str_refl}
use py2to3_example_project.Prelude.Dict.{lookup, Fresh, Distinct}
use py2to3_example_project.Prelude.Py.{Result, ok, raise}
use py2to3_example_project.Storage.Files.Store.{File, Files}
use py2to3_example_project.Storage.Files.Fates.{
  Among, Purges, Spared-refl, kept-Purges, deleted-Purges, Fate-cons, Spared-cons, Spared-append,
  Fate-nil,
}
use py2to3_example_project.Storage.Files.Purge.{
  Access, allowed, no_mtime, no_remove, Verdict, keep, delete, fails, is_old, verdict, kept_beside,
  decide, added, purge_dir, purge_dirs, purge_before,
}

not_old : (cutoff : ℕ) (f : File) → is_old cutoff f ≡ false → cutoff ≤ f.mtime
not_old cutoff f h = ground arith

old_before : (cutoff : ℕ) (f : File) → is_old cutoff f ≡ true → f.mtime < cutoff
old_before cutoff f h = ground arith

module _ (access : Str × Str → Access) (cutoff : ℕ) where
  purge_dir-Fresh :
      (dir : Str) (k : Str × Str) (fs : Files)
      → Fresh Key_discrete k fs
      → Fresh Key_discrete k (purge_dir access cutoff dir fs).0
  unfolding purge_dir
  purge_dir-Fresh dir k [] h = tt
  purge_dir-Fresh dir k ((key, f) ∷ fs) h =
      by_test (same_str key.0 dir) (verdict (access key) (is_old cutoff f))
        (purge_dir-Fresh dir k fs h.1)
    where
      by_test :
          (here : Bool) (v : Verdict)
          → Fresh Key_discrete k (purge_dir access cutoff dir fs).0
          → Fresh Key_discrete k
              (if here
                then decide v (key, f) ((key, f) ∷ fs) (purge_dir access cutoff dir fs)
                else kept_beside (key, f) (purge_dir access cutoff dir fs)).0
      by_test false v ih = (h.0, ih)
      by_test true keep ih = (h.0, ih)
      by_test true delete ih = ih
      by_test true fails ih = h

  purge_dir-Distinct :
      (dir : Str) (fs : Files)
      → Distinct Key_discrete fs
      → Distinct Key_discrete (purge_dir access cutoff dir fs).0
  unfolding purge_dir
  purge_dir-Distinct dir [] h = tt
  purge_dir-Distinct dir ((key, f) ∷ fs) h =
      by_test (same_str key.0 dir) (verdict (access key) (is_old cutoff f))
        (purge_dir-Fresh dir key fs h.0) (purge_dir-Distinct dir fs h.1)
    where
      by_test :
          (here : Bool) (v : Verdict)
          → Fresh Key_discrete key (purge_dir access cutoff dir fs).0
          → Distinct Key_discrete (purge_dir access cutoff dir fs).0
          → Distinct Key_discrete
              (if here
                then decide v (key, f) ((key, f) ∷ fs) (purge_dir access cutoff dir fs)
                else kept_beside (key, f) (purge_dir access cutoff dir fs)).0
      by_test false v fresh ih = (fresh, ih)
      by_test true keep fresh ih = (fresh, ih)
      by_test true delete fresh ih = ih
      by_test true fails fresh ih = h

  decide-Purges :
      (dir : Str) (k key : Str × Str) (f : File) (fs : Files) (next : Files × Result ℕ) (a : Access)
      (old : Bool)
      → same_str key.0 dir ≡ true
      → access key ≡ a
      → is_old cutoff f ≡ old
      → Fresh Key_discrete key next.0
      → Purges access (dir ∷ []) cutoff k fs next
      → Purges access
          (dir ∷ [])
          cutoff
          k
          ((key, f) ∷ fs)
          (decide (verdict a old) (key, f) ((key, f) ∷ fs) next)
  decide-Purges dir k key f fs next no_mtime old here p q fresh h =
      (refl, (key, λ e. by_access (sym p ∙ e)), Spared-refl (dir ∷ []) cutoff k _)
    where
      by_access : no_mtime ≡ allowed → ⊥
      by_access e = cc
  decide-Purges dir k key f fs next no_remove true here p q fresh h =
      (refl, (key, λ e. by_access (sym p ∙ e)), Spared-refl (dir ∷ []) cutoff k _)
    where
      by_access : no_remove ≡ allowed → ⊥
      by_access e = cc
  decide-Purges dir k key f fs next no_remove false here p q fresh h =
      kept-Purges access cutoff (dir ∷ []) k key f fs next (inr (not_old cutoff f q)) h
  decide-Purges dir k key f fs next allowed false here p q fresh h =
      kept-Purges access cutoff (dir ∷ []) k key f fs next (inr (not_old cutoff f q)) h
  decide-Purges dir k key f fs next allowed true here p q fresh h =
      deleted-Purges access cutoff (dir ∷ []) k key f fs next (inl (same_str_eq key.0 dir here))
        (old_before cutoff f q) fresh h

  purge_dir-Purges :
      (dir : Str) (k : Str × Str) (fs : Files)
      → Distinct Key_discrete fs
      → Purges access (dir ∷ []) cutoff k fs (purge_dir access cutoff dir fs)
  unfolding purge_dir lookup
  purge_dir-Purges dir k [] h = (refl, omega arith)
  purge_dir-Purges dir k ((key, f) ∷ fs) h =
      by_test (same_str key.0 dir) refl (purge_dir-Purges dir k fs h.1)
        (purge_dir-Fresh dir key fs h.0)
    where
      elsewhere : same_str key.0 dir ≡ false → ¬ (Among key.0 (dir ∷ []))
      elsewhere p (inl e) =
          let same : same_str key.0 dir ≡ true = ap (λ d. same_str d dir) e ∙ same_str_refl dir in
          cc
      elsewhere p (inr e) = e

      by_test :
          (here : Bool)
          → same_str key.0 dir ≡ here
          → Purges access (dir ∷ []) cutoff k fs (purge_dir access cutoff dir fs)
          → Fresh Key_discrete key (purge_dir access cutoff dir fs).0
          → Purges access (dir ∷ []) cutoff k ((key, f) ∷ fs) (
              if here
              then decide
                  (verdict (access key) (is_old cutoff f))
                  (key, f)
                  ((key, f) ∷ fs)
                  (purge_dir access cutoff dir fs)
              else kept_beside (key, f) (purge_dir access cutoff dir fs))
      by_test true p ih fresh =
          decide-Purges dir k key f fs (purge_dir access cutoff dir fs) (access key)
            (is_old cutoff f) p refl refl fresh ih
      by_test false p ih fresh =
          kept-Purges access cutoff (dir ∷ []) k key f fs (purge_dir access cutoff dir fs)
            (inl (elsewhere p)) ih

module _ (access : Str × Str → Access) (cutoff : ℕ) where
  added-Purges :
      (dir : Str) (dirs : List Str) (k : Str × Str) (fs left : Files) (n : ℕ)
      (rest : Files × Result ℕ)
      → Purges access (dir ∷ []) cutoff k fs (left, ok n)
      → Purges access dirs cutoff k left rest
      → Purges access (dir ∷ dirs) cutoff k fs (added n rest)
  added-Purges dir dirs k fs left n (last, ok m) h g =
      (Fate-cons cutoff dir dirs k _ _ _ h.0 g.0, omega (arith, h.1, g.1))
  added-Purges dir dirs k fs left n (last, raise e) h g =
      (g.0, g.1, Spared-cons cutoff dir dirs k _ _ _ h.0 g.2)

  purge_dirs-Purges :
      (dirs : List Str) (k : Str × Str) (fs : Files)
      → Distinct Key_discrete fs
      → Purges access dirs cutoff k fs (purge_dirs access cutoff dirs fs)
  unfolding purge_dirs
  purge_dirs-Purges [] k fs h = (Fate-nil cutoff k (lookup Key_discrete k fs), omega arith)
  purge_dirs-Purges (dir ∷ dirs) k fs h =
      by_end (purge_dir access cutoff dir fs) (purge_dir-Purges access cutoff dir k fs h) (
        purge_dirs-Purges dirs k (purge_dir access cutoff dir fs).0
          (purge_dir-Distinct access cutoff dir fs h))
    where
      by_end :
          (x : Files × Result ℕ)
          → Purges access (dir ∷ []) cutoff k fs x
          → Purges access dirs cutoff k x.0 (purge_dirs access cutoff dirs x.0)
          → Purges access (dir ∷ dirs) cutoff k fs (elim x.1 as (λ r. Files × Result ℕ) [
            | raise e ↦ (x.0, raise e)
            | ok n ↦ added n (purge_dirs access cutoff dirs x.0)
          ])
      by_end (left, raise e) g ih = (g.0, g.1, Spared-append cutoff dir dirs k _ _ g.2)
      by_end (left, ok n) g ih =
          added-Purges dir dirs k fs left n (purge_dirs access cutoff dirs left) g ih

-- The directories that a purge is asked for: the one that is named, or those of reports, exports and
-- raw dumps.
abbrev pub asked_for : Option Str → List Str
asked_for none = codes "reports" ∷ codes "exports" ∷ codes "raw_dumps" ∷ []
asked_for (some subdir) = subdir ∷ []

-- In a file system where no file stands twice, a purge that returns has removed exactly the files
-- that stand in one of the directories it was asked for and were modified before the cutoff, as many
-- as it says, and left every other file as it is. It raises only OSError, and only if some file does
-- not allow all: then no file has changed, and none is gone but such a file.
pub purge_before_lem :
    (access : Str × Str → Access) (cutoff : ℕ) (subdir : Option Str) (k : Str × Str) (fs : Files)
    → Distinct Key_discrete fs
    → Purges access (asked_for subdir) cutoff k fs (purge_before access cutoff subdir fs)
unfolding purge_before
purge_before_lem access cutoff none k fs h = purge_dirs-Purges access cutoff (asked_for none) k fs h
purge_before_lem access cutoff (some subdir) k fs h =
    purge_dirs-Purges access cutoff (asked_for (some subdir)) k fs h
