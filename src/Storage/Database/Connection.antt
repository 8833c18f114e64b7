-- ===== src/Storage/Database/Connection.antt =====
-- A connection of sqlite3, which is an argument, and TransactionContext of src/storage/database.py
-- over it, with store_readings_batch, which is its one user.
use Prim.Native.String.{String}
use py2to3_example_project.Prelude.{ℕ, Option, none, some, List, [], ◌∷◌, map, replicate}
use py2to3_example_project.Prelude.Text.{codes}
use py2to3_example_project.Prelude.Str.{Str}
use py2to3_example_project.Prelude.Py.{
  Exc, Raw, bytes, text, Result, ok, raise, type_error, database_error,
}

-- A value of a column.
pub data Cell : Type 0 where
  null : Cell
  integer : ℕ → Cell
  real : String → Cell
  str : Str → Cell
  blob : List ℕ → Cell

abbrev pub Row : Type 0
Row = List Cell

-- A connection of sqlite3: a statement gives all its rows, and `rowcount` is the cursor's.
pub record Connection (C : Type 0) : Type 0 where
  pub execute : C → (sql : Str) → List Cell → C × Result (List Row)
  pub commit : C → C × Result (Unit {0})
  pub rowcount : C → ℕ

pub record Reading : Type 0 where
  pub sensor_id : Str
  pub tag : Str
  pub value : Cell
  pub quality : ℕ
  pub timestamp : Cell
  pub raw_frame : Option Raw

abbrev pub ins_reading : Str
ins_reading =
    codes
      "INSERT INTO sensor_readings (sensor_id,tag,value,quality,timestamp,raw_frame,created_at) VALUES (?,?,?,?,?,?,?)"

abbrev pub schema : List Str
schema = map codes (
    "CREATE TABLE IF NOT EXISTS sensor_readings (id INTEGER PRIMARY KEY AUTOINCREMENT, sensor_id TEXT NOT NULL, tag TEXT NOT NULL, value REAL, quality INTEGER DEFAULT 192, timestamp REAL NOT NULL, raw_frame BLOB, created_at REAL NOT NULL)"
    ∷ "CREATE TABLE IF NOT EXISTS events (id INTEGER PRIMARY KEY AUTOINCREMENT, event_type TEXT NOT NULL, source TEXT, payload BLOB, timestamp REAL NOT NULL)"
    ∷ "CREATE TABLE IF NOT EXISTS object_store (key TEXT PRIMARY KEY, pickled BLOB NOT NULL, protocol INTEGER DEFAULT 2, updated_at REAL NOT NULL)"
    ∷ [])

-- `sqlite3.Binary(raw)`: a text has no buffer.
abbrev pub binary : Raw → Result Cell
binary (bytes bs) = ok (blob bs)
binary (text s) = raise type_error

-- `… if raw_frame is not None else None`, and `… if raw else None`.
abbrev pub frame_cell : Option Raw → Result Cell
frame_cell none = ok null
frame_cell (some raw) = binary raw

abbrev pub batch_cell : Option Raw → Result Cell
batch_cell none = ok null
batch_cell (some (bytes [])) = ok null
batch_cell (some (text [])) = ok null
batch_cell (some (bytes (b ∷ bs))) = ok (blob (b ∷ bs))
batch_cell (some (text (c ∷ cs))) = raise type_error

-- `bytes(cell)` of what is not None.
abbrev pub cell_bytes : Cell → Result (List ℕ)
cell_bytes null = raise type_error
cell_bytes (integer n) = ok (replicate n 0)
cell_bytes (real s) = raise type_error
cell_bytes (str s) = raise type_error
cell_bytes (blob bs) = ok bs

abbrev pub values_of : Reading → (frame : Cell) → (now : ℕ) → List Cell
values_of r frame now =
    str r.sensor_id
    ∷ str r.tag
    ∷ r.value
    ∷ integer r.quality
    ∷ r.timestamp
    ∷ frame
    ∷ integer now
    ∷ []

-- `except Exception as e: raise …`
abbrev pub raised_as {ℓ} : {A : Type ℓ} → Exc → Result A → Result A
raised_as e (ok a) = ok a
raised_as e (raise cause) = raise e

module _ {C : Type 0} (db : Connection C) where
  -- `__exit__`, after the body has not raised: COMMIT, and ROLLBACK when it fails.
  abbrev pub rolled_back : C × Result (List Row) → C × Result (Unit {0})
  rolled_back (c, raise e) = (c, raise e)
  rolled_back (c, ok rows) = (c, raise database_error)

  abbrev pub exit_committed : C → Result (List Row) → C × Result (Unit {0})
  exit_committed c (ok rows) = (c, ok tt)
  exit_committed c (raise e) = rolled_back (db.execute c (codes "ROLLBACK") [])

  -- `__exit__` by the end of the body; what a ROLLBACK after it raises is only printed.
  unfoldable pub exit_transaction : C → Result (Unit {0}) → C × Result (Unit {0})
  exit_transaction c (ok u) =
      exit_committed (db.execute c (codes "COMMIT") []).0 (db.execute c (codes "COMMIT") []).1
  exit_transaction c (raise e) = ((db.execute c (codes "ROLLBACK") []).0, raise e)

  -- The body of store_readings_batch.
  abbrev pub insert_one : (now : ℕ) → C → Reading → Result Cell → C × Result (List Row)
  insert_one now c r (raise e) = (c, raise e)
  insert_one now c r (ok frame) = db.execute c ins_reading (values_of r frame now)

  unfoldable pub insert_all : (now : ℕ) → C → List Reading → C × Result (Unit {0})
  insert_all now c [] = (c, ok tt)
  insert_all now c (x ∷ rs) =
      let (c', r) = insert_one now c x (batch_cell x.raw_frame) in
      elim r [ raise e ↦ (c', raise e) | ok rows ↦ insert_all now c' rs ]

  unfoldable pub store_readings_batch :
      (now : ℕ) → Option C → List Reading → Option C × Result (Unit {0})
  unfolding insert_all exit_transaction
  store_readings_batch now none rs = (none, raise database_error)
  store_readings_batch now (some c) rs =
      let (c', r) = db.execute c (codes "BEGIN") [] in
      elim r [
        | raise e ↦ (some c', raise e)
        | ok rows ↦
            let body = insert_all now c' rs in
            let end = exit_transaction body.0 body.1 in (some end.0, end.1)
      ]
