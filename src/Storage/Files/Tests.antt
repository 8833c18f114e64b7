-- ===== src/Storage/Files/Tests.antt =====
-- Instances for src/storage/file_store.py: a file system of two files.
use py2to3_example_project.Prelude.{
  ℕ, ltb, if◌then◌else◌, ◌≡◌, refl, true, false, none, some, List, [], ◌∷◌, ◌++◌, arith,
}
use py2to3_example_project.Prelude.Text.{codes}
use py2to3_example_project.Prelude.Str.{Str, Key_discrete, all}
use py2to3_example_project.Prelude.Dict.{lookup, Fresh-lookup}
use py2to3_example_project.Prelude.Py.{text, Result, ok, raise, value_error, storage_error}
use py2to3_example_project.Storage.Files.Store
use py2to3_example_project.Storage.Files.Store.{
  File, Files, dir_reports, dir_exports, dir_raw_dumps, store_report, store_export, failure,
  Emptied,
}
use py2to3_example_project.Storage.Files.Dumps
use py2to3_example_project.Storage.Files.Dumps.{
  Reading, dump, dump_readings, number, read_frames, u32,
}
use py2to3_example_project.Storage.Files.Purge.{Access, allowed, purge_before}
use py2to3_example_project.Storage.Files.Removed
use py2to3_example_project.Storage.Files.Removed.{asked_for}
use py2to3_example_project.Storage.Files.Fates.{Purges}

abbrev file : (mtime : ℕ) → File
file mtime = record { content = codes "old"; mtime = mtime; mode = 420 }

abbrev files : Files
files = ((dir_reports, codes "day"), file 10) ∷ ((dir_exports, codes "day"), file 90) ∷ []

-- An encoding that knows characters below 128.
abbrev ascii : Str → Result (List ℕ)
ascii s = if all (λ c. ltb c 128) s then ok s else raise value_error

store_text-raises_example :
    ((store_report ascii true 100 files (codes "day") (text (233 ∷ []))).1
      ≡ raise (failure ascii (text (233 ∷ []))))
    × Emptied 100 files
        (store_report ascii true 100 files (codes "day") (text (233 ∷ []))).0
        (codes "reports", codes "day")
        (dir_reports, codes "day")
    × ((store_export ascii true 100 files (codes "day") (text (233 ∷ []))).1
        ≡ raise (failure ascii (text (233 ∷ []))))
    × Emptied 100 files
        (store_export ascii true 100 files (codes "day") (text (233 ∷ []))).0
        (codes "exports", codes "day")
        (dir_reports, codes "day")
    × (store_report ascii false 100 files (codes "day") (text (233 ∷ []))
        ≡ (files, raise storage_error))
    × (store_export ascii false 100 files (codes "day") (text (233 ∷ []))
        ≡ (files, raise storage_error))
store_text-raises_example =
    Store.store_text-raises ascii 100 files (codes "day") (dir_reports, codes "day")
      (text (233 ∷ []))

abbrev reading : Reading
reading = record { tag = codes "TT"; timestamp = 0 ∷ 0 ∷ 0 ∷ 0 ∷ 0 ∷ 0 ∷ 0 ∷ 0 ∷ []; quality = 192 }

abbrev frames : List (List ℕ)
frames = (1 ∷ 2 ∷ []) ∷ [] ∷ (3 ∷ []) ∷ []

-- The bytes of the reading.
abbrev tail : List ℕ
tail = 0 ∷ 2 ∷ 84 ∷ 84 ∷ 0 ∷ 0 ∷ 0 ∷ 0 ∷ 0 ∷ 0 ∷ 0 ∷ 0 ∷ 0 ∷ 0 ∷ 0 ∷ 192 ∷ []

read_frames-dump_example :
    (bs rest : List ℕ) × (dump frames (reading ∷ []) ≡ ok bs)
    × (number bs ≡ some (3, rest))
    × (read_frames 3 rest ≡ some (frames, u32 1 ++ tail))
    × (number (u32 1 ++ tail) ≡ some (1, tail))
read_frames-dump_example =
    Dumps.read_frames-dump frames (reading ∷ []) {tail = tail} (omega arith)
      (omega arith, (omega arith, (omega arith, tt))) (omega arith) (unfold dump_readings in refl)

abbrev every : Str × Str → Access
every key = allowed

purge_before_lem_example :
    Purges every
      (asked_for none)
      50
      (dir_reports, codes "day")
      files
      (purge_before every 50 none files)
unfolding Key_discrete
purge_before_lem_example =
    Removed.purge_before_lem every 50 none (dir_reports, codes "day") files
      (
        Fresh-lookup Key_discrete (dir_reports, codes "day")
            (((dir_exports, codes "day"), file 90) ∷ []) (unfold lookup in refl),
        (tt, tt),
      )
