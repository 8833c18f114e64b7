-- ===== src/Storage/Database/Tests.antt =====
-- Instances for src/storage/database.py: a connection that keeps rows and fails to commit.
use py2to3_example_project.Prelude.{ℕ, ◌≡◌, refl, some, List, [], ◌∷◌, if◌then◌else◌, length}
use py2to3_example_project.Prelude.Text.{codes}
use py2to3_example_project.Prelude.Str.{Str, same_str}
use py2to3_example_project.Prelude.Py.{bytes, Result, ok, raise, other_error}
use py2to3_example_project.Storage.Database.Query
use py2to3_example_project.Storage.Database.Query.{
  QueryBuilder, new_query, select, where_clause, order_by, limit, build, marks, new, selecting,
  filtering, ordering, limiting,
}
use py2to3_example_project.Storage.Database.Connection.{
  Cell, null, integer, Row, Connection, Reading, store_readings_batch,
}
use py2to3_example_project.Storage.Database.Batch
use py2to3_example_project.Storage.Database.Batch.{Ends}
use py2to3_example_project.Storage.Database.Rows.{Transactions}

abbrev recent : QueryBuilder ℕ
recent =
    limit
      (order_by
        (where_clause (select (new_query (codes "events")) (codes "id" ∷ codes "source" ∷ []))
          (codes "id > ? AND id < ?") (3 ∷ 9 ∷ []))
        (codes "id") (codes "DESC"))
      50

marks-build_example : marks (build recent).0 ≡ length (build recent).1
unfolding marks
marks-build_example = Query.marks-build (
    limiting
      (ordering
        (filtering (selecting (new (codes "events") refl) (codes "id" ∷ codes "source" ∷ []) refl)
          (codes "id > ? AND id < ?") (3 ∷ 9 ∷ []) refl)
        (codes "id") (codes "DESC") refl refl)
      50)

-- The rows, and those at the last BEGIN.
abbrev Tables : Type 0
Tables = List Row × List Row

unfoldable execute : Tables → (sql : Str) → List Cell → Tables × Result (List Row)
unfolding same_str
execute c sql cells =
    if same_str sql (codes "BEGIN")
    then ((c.0, c.0), ok [])
    else if same_str sql (codes "ROLLBACK")
    then ((c.1, c.1), ok [])
    else if same_str sql (codes "COMMIT")
    then (c, raise other_error)
    else ((cells ∷ c.0, c.1), ok [])

abbrev db : Connection Tables
db = record { execute = execute; commit = λ c. (c, ok tt); rowcount = λ c. 0 }

abbrev content : Tables → List Row
content c = c.0

abbrev saved : Tables → List Row
saved c = c.1

db-Transactions : Transactions db content saved ◌∷◌
unfolding execute
db-Transactions = record {
  begins = λ c p. (refl, refl);
  inserts = λ c cells p. refl;
  keeps = λ c cells. refl;
  commits = λ c p. refl;
  fails = λ c p. refl;
  restores = λ c p. refl;
}

abbrev reading : Reading
reading = record {
  sensor_id = codes "S1";
  tag = codes "TT";
  value = null;
  quality = 192;
  timestamp = integer 5;
  raw_frame = some (bytes (1 ∷ 2 ∷ []));
}

abbrev before_batch : Tables
before_batch = ((integer 1 ∷ []) ∷ [], [])

store_readings_batch-Ends_example :
    Ends db content saved ◌∷◌ db-Transactions 7
      (reading ∷ reading ∷ [])
      (content before_batch)
      (store_readings_batch db 7 (some before_batch) (reading ∷ reading ∷ []))
unfolding execute
store_readings_batch-Ends_example =
    Batch.store_readings_batch-Ends db content saved ◌∷◌ db-Transactions 7 before_batch
      (reading ∷ reading ∷ []) refl
