-- ===== src/Storage/Database/Manager.antt =====
-- DatabaseManager of src/storage/database.py. A clock reading stands beside each call of the clock,
-- and what pickle makes of an object beside the object.
use py2to3_example_project.Prelude.{ℕ, Option, none, some, List, [], ◌∷◌, map}
use py2to3_example_project.Prelude.Text.{codes}
use py2to3_example_project.Prelude.Str.{Str}
use py2to3_example_project.Prelude.Py.{
  Result, ok, raise, ◌>>=◌, index_error, attribute_error, database_error, storage_error,
}
use py2to3_example_project.Storage.Database.Query.{
  QueryBuilder, new_query, select, where_clause, order_by, limit, build,
}
use py2to3_example_project.Storage.Database.Connection.{
  Cell, null, integer, str, blob, Row, Connection, Reading, ins_reading, schema, frame_cell,
  cell_bytes, values_of, raised_as, null, integer, str, blob,
}

module _ {C : Type 0} (db : Connection C) where
  -- A statement, alone and followed by commit, where None has neither method.
  abbrev pub run : Option C → (sql : Str) → List Cell → Option C × Result (List Row)
  run none sql params = (none, raise attribute_error)
  run (some c) sql params = let (c', r) = db.execute c sql params in (some c', r)

  abbrev pub run_commit : Option C → (sql : Str) → List Cell → Option C × Result (Unit {0})
  run_commit none sql params = (none, raise attribute_error)
  run_commit (some c) sql params =
      let (c', r) = db.execute c sql params in
      elim r [
        | raise e ↦ (some c', raise e)
        | ok rows ↦ let (c'', r) = db.commit c' in (some c'', r)
      ]

  -- `opened` is what sqlite3.connect gives.
  unfoldable pub connect : Option C → (opened : Result C) → Option C × Result (Unit {0})
  connect conn (raise e) = (conn, raise database_error)
  connect conn (ok c) =
      let (c', r) = db.execute c (codes "PRAGMA journal_mode=WAL") [] in
      elim r [ raise e ↦ (some c', raise database_error) | ok rows ↦ (some c', ok tt) ]

  unfoldable pub close : Option C → Option C
  close conn = none

  unfoldable pub create_tables : C → List Str → C × Result (Unit {0})
  create_tables c [] = db.commit c
  create_tables c (s ∷ ss) =
      let (c', r) = db.execute c s [] in
      elim r [ raise e ↦ (c', raise e) | ok rows ↦ create_tables c' ss ]

  unfoldable pub ensure_schema : Option C → Option C × Result (Unit {0})
  unfolding create_tables
  ensure_schema none = (none, raise database_error)
  ensure_schema (some c) =
      let (c', r) = create_tables c schema in (some c', raised_as database_error r)

  unfoldable pub store_reading : (now : ℕ) → Option C → Reading → Option C × Result (Unit {0})
  store_reading now conn r = elim (frame_cell r.raw_frame) [
    | raise e ↦ (conn, raise e)
    | ok frame ↦
        let (conn', end) = run_commit conn ins_reading (values_of r frame now) in
        (conn', raised_as database_error end)
  ]

  unfoldable pub fetch_readings :
      Option C → (tag : Str) → (limit : ℕ) → Option C × Result (List Row)
  fetch_readings conn tag n =
      let (conn', rows) =
        run conn
          (codes
            "SELECT sensor_id,tag,value,quality,timestamp,raw_frame FROM sensor_readings WHERE tag=? ORDER BY timestamp DESC LIMIT ?")
          (str tag ∷ integer n ∷ []) in
      (conn', raised_as database_error rows)

  -- `bytes(row[0]) if row and row[0] is not None else None` of the first row.
  abbrev pub first_blob : List Row → Result (Option (List ℕ))
  first_blob [] = ok none
  first_blob ([] ∷ rows) = ok none
  first_blob ((null ∷ row) ∷ rows) = ok none
  first_blob ((cell ∷ row) ∷ rows) = cell_bytes cell >>= λ bs. ok (some bs)

  unfoldable pub get_raw_frame : Option C → (reading_id : ℕ) → Option C × Result (Option (List ℕ))
  get_raw_frame conn reading_id =
      let (conn', rows) =
        run conn (codes "SELECT raw_frame FROM sensor_readings WHERE id=?")
          (integer reading_id ∷ []) in
      (conn', raised_as database_error (rows >>= first_blob))

  -- `pickled` is what pickle.dumps makes of the payload, none when there is none.
  abbrev pub payload_cell : Option (Result (List ℕ)) → Cell
  payload_cell none = null
  payload_cell (some (raise e)) = null
  payload_cell (some (ok bs)) = blob bs

  unfoldable pub log_event :
      (now : ℕ)
      → Option C
      → (event_type : Str) → (source : Cell) → (pickled : Option (Result (List ℕ)))
      → Option C × Result (Unit {0})
  log_event now conn event_type source pickled =
      let (conn', end) =
        run_commit conn
          (codes "INSERT INTO events (event_type,source,payload,timestamp) VALUES (?,?,?,?)")
          (str event_type ∷ source ∷ payload_cell pickled ∷ integer now ∷ []) in
      (conn', raised_as database_error end)

  unfoldable pub event_query : (event_type : Option Str) → (limit : ℕ) → Str × List Cell
  unfolding new_query select where_clause order_by limit build
  event_query event_type n =
      let all : QueryBuilder Cell =
        select (new_query (codes "events"))
          (map codes ("id" ∷ "event_type" ∷ "source" ∷ "payload" ∷ "timestamp" ∷ [])) in
      let chosen : QueryBuilder Cell = elim event_type [
        | none ↦ all
        | some t ↦ where_clause all (codes "event_type = ?") (str t ∷ [])
      ] in
      build (limit (order_by chosen (codes "timestamp") (codes "DESC")) n)

  unfoldable pub put_object :
      (now : ℕ)
      → Option C
      → (key : Str) → (pickled : Result (List ℕ)) → Option C × Result (Unit {0})
  put_object now conn key (raise e) = (conn, raise storage_error)
  put_object now conn key (ok bs) =
      let (conn', end) =
        run_commit conn
          (codes
            "INSERT OR REPLACE INTO object_store (key,pickled,protocol,updated_at) VALUES (?,?,?,?)")
          (str key ∷ blob bs ∷ integer 2 ∷ integer now ∷ []) in
      (conn', raised_as database_error end)

  unfoldable pub purge_readings_before : Option C → (cutoff_ts : Cell) → Option C × Result ℕ
  purge_readings_before none cutoff_ts = (none, raise database_error)
  purge_readings_before (some c) cutoff_ts =
      let (c', r) =
        db.execute c (codes "DELETE FROM sensor_readings WHERE timestamp < ?") (cutoff_ts ∷ []) in
      elim r [
        | raise e ↦ (some c', raise database_error)
        | ok rows ↦
            let (c'', end) = db.commit c' in
            (some c'', raised_as database_error (end >>= λ u. ok (db.rowcount c')))
      ]

  -- What VACUUM raises is printed.
  unfoldable pub vacuum : Option C → Option C
  vacuum conn = (run conn (codes "VACUUM") []).0

module _ {C V : Type 0} (db : Connection C) (loads : List ℕ → Result V) where
  pub record Event : Type 0 where
    pub id : Cell
    pub event_type : Cell
    pub source : Cell
    pub payload : Option V
    pub timestamp : Cell

  -- A payload that cannot be read is printed and left out.
  abbrev pub payload_of : Cell → Option V
  payload_of null = none
  payload_of cell = elim (cell_bytes cell >>= loads) [ raise e ↦ none | ok v ↦ some v ]

  unfoldable pub events_of : List Row → Result (List Event)
  events_of [] = ok []
  events_of ((id ∷ event_type ∷ source ∷ payload ∷ timestamp ∷ cells) ∷ rows) =
      events_of rows >>= λ es. ok (
        record {
          id = id;
          event_type = event_type;
          source = source;
          payload = payload_of payload;
          timestamp = timestamp;
        }
        ∷ es)
  events_of (row ∷ rows) = raise index_error

  unfoldable pub fetch_events :
      Option C → (event_type : Option Str) → (limit : ℕ) → Option C × Result (List Event)
  unfolding event_query events_of
  fetch_events conn event_type n =
      let query = event_query db event_type n in
      let (conn', rows) = run db conn query.0 query.1 in
      (conn', raised_as database_error (rows >>= events_of))

  abbrev pub first_object : List Row → Result (Option V)
  first_object [] = ok none
  first_object ([] ∷ rows) = ok none
  first_object ((cell ∷ row) ∷ rows) = cell_bytes cell >>= λ bs. loads bs >>= λ v. ok (some v)

  unfoldable pub get_object : Option C → (key : Str) → Option C × Result (Option V)
  get_object conn key =
      let (conn', rows) =
        run db conn (codes "SELECT pickled FROM object_store WHERE key=?") (str key ∷ []) in
      (conn', raised_as storage_error (rows >>= first_object))
