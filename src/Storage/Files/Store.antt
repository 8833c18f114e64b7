-- ===== src/Storage/Files/Store.antt =====
-- FileStore of src/storage/file_store.py over a file system that maps a directory and a name to a
-- file. What `open` allows, and the time of a write, are arguments.
use py2to3_example_project.Prelude.{
  ℕ, ◌+◌, ◌*◌, ◌≡◌, refl, ite, Bool, true, false, Option, none, some, List, [], ◌∷◌, ◌++◌, ◌&&◌,
  if◌then◌else◌,
}
use py2to3_example_project.Prelude.Text.{codes}
use py2to3_example_project.Prelude.Str.{Str, Key_discrete, same_str, starts_with}
use py2to3_example_project.Prelude.Dict.{lookup, insert, lookup-insert, lookup-insert_self}
use py2to3_example_project.Prelude.Py.{
  Exc, Raw, bytes, text, Result, ok, raise, ◌>>=◌, type_error, storage_error,
}
use py2to3_example_project.Data.Analyzer.Keywords.{le_str}

abbrev pub dir_reports : Str
dir_reports = codes "reports"

abbrev pub dir_exports : Str
dir_exports = codes "exports"

abbrev pub dir_raw_dumps : Str
dir_raw_dumps = codes "raw_dumps"

abbrev pub dir_temp : Str
dir_temp = codes ".tmp"

pub record File : Type 0 where
  pub content : List ℕ
  pub mtime : ℕ
  pub mode : ℕ

abbrev pub Files : Type 0
Files = List ((Str × Str) × File)

-- 0o644 and 0o600
abbrev pub file_permissions : ℕ
file_permissions = 6 * 64 + 4 * 8 + 4

abbrev pub file_permissions_restricted : ℕ
file_permissions_restricted = 6 * 64

-- The mode of a file before it is set: that of the umask 022 for a new one.
abbrev pub mode_before : Option File → ℕ
mode_before none = file_permissions
mode_before (some f) = f.mode

-- An open for writing makes the file, or makes it empty.
abbrev pub opened : Files → (dir name : Str) → (now : ℕ) → Files
opened fs dir name now =
    insert Key_discrete (dir, name)
      (record {
        content = [];
        mtime = now;
        mode = mode_before (lookup Key_discrete (dir, name) fs);
      })
      fs

-- `f.write(content)` on a file that is open for text, after `content.encode(encoding)`: bytes.
abbrev pub write_text : Raw → Result (List ℕ)
write_text (bytes bs) = raise type_error
write_text (text s) = ok s

-- `content.encode(encoding)` of a text, which may raise.
abbrev pub encoded : (encode : Str → Result (List ℕ)) → Raw → Result Raw
encoded encode (text s) = encode s >>= λ bs. ok (bytes bs)
encoded encode (bytes bs) = ok (bytes bs)

-- store_report and store_export, each in its directory. Only an IOError becomes a StorageError.
unfoldable pub store_text :
    (encode : Str → Result (List ℕ))
    → (opens : Bool) → (now : ℕ) → Files
    → (dir filename : Str) → Raw
    → Files × Result (Unit {0})
store_text encode false now fs dir filename content = (fs, raise storage_error)
store_text encode true now fs dir filename content = elim (encoded encode content >>= write_text) [
  | raise e ↦ (opened fs dir filename now, raise e)
  | ok written ↦ (
    insert Key_discrete (dir, filename)
        (record { content = written; mtime = now; mode = file_permissions }) fs,
    ok tt,
  )
]

unfoldable pub store_report :
    (encode : Str → Result (List ℕ))
    → (opens : Bool) → (now : ℕ) → Files
    → (filename : Str) → Raw
    → Files × Result (Unit {0})
unfolding store_text
store_report encode opens now fs filename content =
    store_text encode opens now fs dir_reports filename content

unfoldable pub store_export :
    (encode : Str → Result (List ℕ))
    → (opens : Bool) → (now : ℕ) → Files
    → (filename : Str) → Raw
    → Files × Result (Unit {0})
unfolding store_text
store_export encode opens now fs filename content =
    store_text encode opens now fs dir_exports filename content

-- `subdir or _DIR_RAW_DUMPS`
abbrev pub dump_dir : Option Str → Str
dump_dir none = dir_raw_dumps
dump_dir (some []) = dir_raw_dumps
dump_dir (some (c ∷ dir)) = c ∷ dir

unfoldable pub store_binary :
    (opens : Bool)
    → (now : ℕ) → Files
    → (filename : Str) → Raw
    → (subdir : Option Str) → Files × Result (Unit {0})
store_binary false now fs filename content subdir = (fs, raise storage_error)
store_binary true now fs filename (text s) subdir =
    (opened fs (dump_dir subdir) filename now, raise type_error)
store_binary true now fs filename (bytes bs) subdir = (
  insert Key_discrete (dump_dir subdir, filename)
      (record { content = bs; mtime = now; mode = file_permissions }) fs,
  ok tt,
)

-- None for a file that is not there. `opens` is that of `open`.
unfoldable pub read_binary :
    (opens : Bool) → Files → (filename : Str) → (subdir : Option Str) → Result (Option (List ℕ))
read_binary opens fs filename subdir = elim (lookup Key_discrete (dump_dir subdir, filename) fs) [
  | none ↦ ok none
  | some f ↦ if opens then ok (some f.content) else raise storage_error
]

-- A read of text decodes; its error is no IOError.
unfoldable pub read_report :
    (decode : List ℕ → Result Str) → (opens : Bool) → Files → (filename : Str) → Result (Option Str)
read_report decode opens fs filename = elim (lookup Key_discrete (dir_reports, filename) fs) [
  | none ↦ ok none
  | some f ↦
      let outcome = decode f.content >>= λ s. ok (some s) in
      if opens then outcome else raise storage_error
]

-- The names in a directory, in order.
unfoldable pub insert_name : Str → List Str → List Str
insert_name s [] = s ∷ []
insert_name s (t ∷ ts) = if le_str s t then s ∷ t ∷ ts else t ∷ insert_name s ts

unfoldable pub list_dir : (keep : Str → Bool) → (dir : Str) → Files → List Str
unfolding insert_name same_str le_str
list_dir keep dir [] = []
list_dir keep dir (((d, name), f) ∷ fs) =
    let rest = list_dir keep dir fs in
    if same_str d dir && keep name then insert_name name rest else rest

unfoldable pub list_reports : Files → List Str
unfolding list_dir
list_reports fs = list_dir (λ name. true) dir_reports fs

unfoldable pub list_exports : Files → List Str
unfolding list_dir
list_exports fs = list_dir (λ name. true) dir_exports fs

unfoldable pub list_raw_dumps : Files → (sensor_id : Option Str) → List Str
unfolding list_dir starts_with
list_raw_dumps fs none = list_dir (λ name. true) dir_raw_dumps fs
list_raw_dumps fs (some sensor_id) =
    list_dir (λ name. starts_with (sensor_id ++ codes "_") name) dir_raw_dumps fs

-- What a call with a content raises where the file opens.
abbrev pub failure : (encode : Str → Result (List ℕ)) → Raw → Exc
failure encode (bytes bs) = type_error
failure encode (text s) = elim (encode s) [ ok bs ↦ type_error | raise e ↦ e ]

-- The files after such a call: the file of that name is there and empty, with its mode or that of a
-- new one, and every other file is as before.
abbrev pub Emptied : (now : ℕ) → (fs after : Files) → (written key : Str × Str) → Type 0
Emptied now fs after written key =
    lookup Key_discrete key after
    ≡ ite (Key_discrete written key)
        (some (record {
          content = [];
          mtime = now;
          mode = mode_before (lookup Key_discrete written fs);
        }))
        (lookup Key_discrete key fs)

store_text-Emptied :
    (encode : Str → Result (List ℕ)) (now : ℕ) (fs : Files) (dir filename : Str) (key : Str × Str)
    (content : Raw)
    → ((store_text encode true now fs dir filename content).1 ≡ raise (failure encode content))
      × Emptied now fs (store_text encode true now fs dir filename content).0 (dir, filename) key
unfolding store_text
store_text-Emptied encode now fs dir filename key (bytes bs) =
    (refl, lookup-insert Key_discrete (dir, filename) key _ fs)
store_text-Emptied encode now fs dir filename key (text s) = by_encoding (encode s) refl
  where
    by_encoding :
        (r : Result (List ℕ))
        → encode s ≡ r
        → ((store_text encode true now fs dir filename (text s)).1
            ≡ raise (failure encode (text s)))
          × Emptied now fs
              (store_text encode true now fs dir filename (text s)).0
              (dir, filename)
              key
    by_encoding (ok bs) p =
        rw (store_text, failure, p) (refl, lookup-insert Key_discrete (dir, filename) key _ fs)
    by_encoding (raise e) p =
        rw (store_text, failure, p) (refl, lookup-insert Key_discrete (dir, filename) key _ fs)

-- A report or an export is never written. Where the file opens the call raises what the encoding
-- raises, and TypeError if it raises nothing, and what stood under the name in the directory of
-- reports or of exports is gone, an empty file is left; every other file is as before. Where the
-- file does not open the call raises StorageError and the files are as before.
pub store_text-raises :
    (encode : Str → Result (List ℕ)) (now : ℕ) (fs : Files) (filename : Str) (key : Str × Str)
    (content : Raw)
    → ((store_report encode true now fs filename content).1 ≡ raise (failure encode content))
      × Emptied now fs
          (store_report encode true now fs filename content).0
          (codes "reports", filename)
          key
      × ((store_export encode true now fs filename content).1 ≡ raise (failure encode content))
      × Emptied now fs
          (store_export encode true now fs filename content).0
          (codes "exports", filename)
          key
      × (store_report encode false now fs filename content ≡ (fs, raise storage_error))
      × (store_export encode false now fs filename content ≡ (fs, raise storage_error))
unfolding store_report store_export
store_text-raises encode now fs filename key content =
    let report = store_text-Emptied encode now fs dir_reports filename key content in
    let export = store_text-Emptied encode now fs dir_exports filename key content in
    (report.0, report.1, export.0, export.1, refl, refl)

-- Bytes that were stored are read back, under the directory for raw dumps where none is named, and
-- every other file is as before.
pub read_binary-store_binary :
    (now : ℕ) (fs : Files) (filename : Str) (bs : List ℕ) (subdir : Option Str) (dir name : Str)
    → (read_binary true (store_binary true now fs filename (bytes bs) subdir).0 filename subdir
        ≡ ok (some bs))
      × (lookup Key_discrete (dir, name) (store_binary true now fs filename (bytes bs) subdir).0
          ≡ ite
              (Key_discrete (dump_dir subdir, filename) (dir, name))
              (some (record { content = bs; mtime = now; mode = file_permissions }))
              (lookup Key_discrete (dir, name) fs))
unfolding read_binary store_binary
read_binary-store_binary now fs filename bs subdir dir name =
    let file : File = record { content = bs; mtime = now; mode = file_permissions } in
    (
      rw (read_binary, lookup-insert_self Key_discrete (dump_dir subdir, filename) file fs) refl,
      lookup-insert Key_discrete (dump_dir subdir, filename) (dir, name) file fs,
    )
