-- ===== src/Storage/Files/Purge.antt =====
-- purge_before and clear_temp of src/storage/file_store.py.
use py2to3_example_project.Prelude.{
  ℕ, ◌+◌, Bool, true, false, Option, none, some, List, [], ◌∷◌, ltb, if◌then◌else◌,
}
use py2to3_example_project.Prelude.Str.{Str, same_str}
use py2to3_example_project.Prelude.Py.{Result, ok, raise, ◌>>=◌, os_error}
use py2to3_example_project.Storage.Files.Store.{
  File, Files, dir_reports, dir_exports, dir_raw_dumps, dir_temp,
}

-- What the operating system allows with a file: all, or an OSError of getmtime or of remove.
pub data Access : Type 0 where
  allowed no_mtime no_remove : Access

-- The directory of its own, or the three of reports, exports and raw dumps.
abbrev pub purged_dirs : Option Str → List Str
purged_dirs none = dir_reports ∷ dir_exports ∷ dir_raw_dumps ∷ []
purged_dirs (some subdir) = subdir ∷ []

-- What is done with one file.
pub data Verdict : Type 0 where
  keep delete : Verdict
  fails : Verdict

abbrev pub is_old : (cutoff : ℕ) → File → Bool
is_old cutoff f = ltb f.mtime cutoff

abbrev pub verdict : Access → (old : Bool) → Verdict
verdict no_mtime old = fails
verdict no_remove true = fails
verdict no_remove false = keep
verdict allowed true = delete
verdict allowed false = keep

abbrev pub counted : Files × Result ℕ → Files × Result ℕ
counted (fs, r) = (fs, (r >>= λ n. ok (n + 1)))

abbrev pub kept_beside : (Str × Str) × File → Files × Result ℕ → Files × Result ℕ
kept_beside entry (fs, r) = (entry ∷ fs, r)

abbrev pub decide :
    Verdict → (Str × Str) × File → (here : Files) → Files × Result ℕ → Files × Result ℕ
decide keep entry here next = kept_beside entry next
decide delete entry here next = counted next
decide fails entry here next = (here, raise os_error)

-- The files after one directory, with the number of the removed ones; the order of the store stands
-- for that of os.listdir. An error ends the loop.
unfoldable pub purge_dir :
    (access : Str × Str → Access) → (cutoff : ℕ) → (dir : Str) → Files → Files × Result ℕ
unfolding same_str
purge_dir access cutoff dir [] = ([], ok 0)
purge_dir access cutoff dir ((key, f) ∷ fs) =
    let next = purge_dir access cutoff dir fs in
    if same_str key.0 dir
    then decide (verdict (access key) (is_old cutoff f)) (key, f) ((key, f) ∷ fs) next
    else kept_beside (key, f) next

abbrev pub added : ℕ → Files × Result ℕ → Files × Result ℕ
added n (fs, r) = (fs, (r >>= λ m. ok (n + m)))

unfoldable pub purge_dirs :
    (access : Str × Str → Access) → (cutoff : ℕ) → (dirs : List Str) → Files → Files × Result ℕ
unfolding purge_dir
purge_dirs access cutoff [] fs = (fs, ok 0)
purge_dirs access cutoff (dir ∷ dirs) fs =
    let (left, r) = purge_dir access cutoff dir fs in
    elim r [ raise e ↦ (left, raise e) | ok n ↦ added n (purge_dirs access cutoff dirs left) ]

unfoldable pub purge_before :
    (access : Str × Str → Access) → (cutoff : ℕ) → (subdir : Option Str) → Files → Files × Result ℕ
unfolding purge_dirs
purge_before access cutoff subdir fs = purge_dirs access cutoff (purged_dirs subdir) fs

-- The temporary directory is removed with what is in it and made again.
unfoldable pub clear_temp : Files → Files
unfolding same_str
clear_temp [] = []
clear_temp (((d, name), f) ∷ fs) =
    let rest = clear_temp fs in if same_str d dir_temp then rest else ((d, name), f) ∷ rest
