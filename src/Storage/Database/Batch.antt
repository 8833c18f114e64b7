-- ===== src/Storage/Database/Batch.antt =====
-- What store_readings_batch of src/storage/database.py makes of the stored content.
use py2to3_example_project.Prelude.{ℕ, ◌≡◌, refl, ◌∙◌, ◌⊎◌, inl, inr, Option, some, List, []}
use py2to3_example_project.Prelude.Text.{codes}
use py2to3_example_project.Prelude.Py.{Exc, Result, ok, raise, database_error}
use py2to3_example_project.Storage.Database.Connection.{
  Cell, Row, Connection, Reading, rolled_back, exit_committed, exit_transaction, insert_all,
  store_readings_batch,
}
use py2to3_example_project.Storage.Database.Rows.{
  Transactions, AllStorable, with_rows, Failed, Inserted, insert_all-Inserted,
}

module _ {C D : Type 0} (db : Connection C) (content saved : C → D) (add : List Cell → D → D)
    (laws : Transactions db content saved add) where
  -- The call has returned and the content holds all the rows.
  abbrev pub Whole : (now : ℕ) → List Reading → D → Option C × Result (Unit {0}) → Type 0
  Whole now rs d end =
      (c : C) × (end ≡ (some c, ok tt)) × AllStorable rs × (content c ≡ with_rows add now rs d)

  -- The call has raised, for a frame or a statement, and the content is as it was.
  abbrev pub Unchanged : List Reading → D → Option C × Result (Unit {0}) → Type 0
  Unchanged rs d end =
      (e : Exc) × (c : C) × (end ≡ (some c, raise e))
      × (content c ≡ d)
      × Failed db content saved add laws rs

  -- The call has raised, and so has the ROLLBACK that it ended with, which was to restore the
  -- content as it was.
  abbrev pub Stuck : D → Option C × Result (Unit {0}) → Type 0
  Stuck d end =
      (e cause : Exc) × (c : C) × (saved c ≡ d)
      × ((db.execute c (codes "ROLLBACK") []).1 ≡ raise cause)
      × (end ≡ (some (db.execute c (codes "ROLLBACK") []).0, raise e))

  -- One of the three.
  abbrev pub Ends : (now : ℕ) → List Reading → D → Option C × Result (Unit {0}) → Type 0
  Ends now rs d end = Whole now rs d end ⊎ (Unchanged rs d end ⊎ Stuck d end)

  abbrev at : C × Result (Unit {0}) → Option C × Result (Unit {0})
  at x = (some x.0, x.1)

  -- A ROLLBACK after which the call raises an error.
  rollback-ends :
      {d : D} (rs : List Reading) (c : C) (e : Exc) (r : Result (List Row))
      → (db.execute c (codes "ROLLBACK") []).1 ≡ r
      → saved c ≡ d
      → Failed db content saved add laws rs
      → Unchanged rs d (some (db.execute c (codes "ROLLBACK") []).0, raise e)
        ⊎ Stuck d (some (db.execute c (codes "ROLLBACK") []).0, raise e)
  rollback-ends rs c e (ok rows) p h why =
      inl (e, (db.execute c (codes "ROLLBACK") []).0, refl, laws.restores c p ∙ h, why)
  rollback-ends rs c e (raise cause) p h why = inr (e, cause, c, h, p, refl)

  -- The ROLLBACK after a COMMIT that has raised.
  rolled_back-ends :
      {d : D} (rs : List Reading) (c : C) (r : Result (List Row))
      → (db.execute c (codes "ROLLBACK") []).1 ≡ r
      → saved c ≡ d
      → Failed db content saved add laws rs
      → Unchanged rs d (at (rolled_back db ((db.execute c (codes "ROLLBACK") []).0, r)))
        ⊎ Stuck d (at (rolled_back db ((db.execute c (codes "ROLLBACK") []).0, r)))
  rolled_back-ends rs c (ok rows) p h why = rollback-ends rs c database_error (ok rows) p h why
  rolled_back-ends rs c (raise cause) p h why = rollback-ends rs c cause (raise cause) p h why

  commit-Ends :
      (now : ℕ) (rs : List Reading) (d : D) (c : C) (r : Result (List Row))
      → (db.execute c (codes "COMMIT") []).1 ≡ r
      → saved c ≡ d
      → AllStorable rs
      → content c ≡ with_rows add now rs d
      → Ends now rs d (at (exit_committed db (db.execute c (codes "COMMIT") []).0 r))
  commit-Ends now rs d c (ok rows) p h can rows_in =
      inl ((db.execute c (codes "COMMIT") []).0, refl, can, laws.commits c p ∙ rows_in)
  commit-Ends now rs d c (raise e) p h can rows_in =
      let later : C = (db.execute c (codes "COMMIT") []).0 in
      inr (
        rolled_back-ends rs later (db.execute later (codes "ROLLBACK") []).1 refl
          (laws.fails c p ∙ h) (inr (c, codes "COMMIT", [], e, inr refl, p)))

  exit_transaction-Ends :
      (now : ℕ) (rs : List Reading) (begun : C) (body : C × Result (Unit {0})) (d : D)
      → Inserted db content saved add laws now rs begun body
      → saved begun ≡ d
      → content begun ≡ d
      → Ends now rs d (at (exit_transaction db body.0 body.1))
  unfolding exit_transaction Inserted
  exit_transaction-Ends now rs begun (c, ok tt) d h s k =
      commit-Ends now rs d c (db.execute c (codes "COMMIT") []).1 refl (h.0 ∙ s) h.1
        (h.2 ∙ (λ i. with_rows add now rs (k i)))
  exit_transaction-Ends now rs begun (c, raise e) d h s k =
      inr (rollback-ends rs c e (db.execute c (codes "ROLLBACK") []).1 refl (h.0 ∙ s) h.1)

  -- A batch of readings is stored as a whole or not at all, on a connection that keeps to what
  -- SQLite documents and once BEGIN has succeeded. Either the call returns, no raw frame was a text
  -- but the empty one, and a row has been added to the content for every reading, in their order
  -- and with its values; or it raises, and the content is what it was before, which it does only if
  -- a raw frame is such a text or an INSERT of readings or a COMMIT raises on some connection; or
  -- it raises and the ROLLBACK that it ended with has raised too, on a connection that was still to
  -- restore the content of before.
  pub store_readings_batch-Ends :
      (now : ℕ) (c : C) (rs : List Reading) {rows : List Row}
      → (db.execute c (codes "BEGIN") []).1 ≡ ok rows
      → Ends now rs (content c) (store_readings_batch db now (some c) rs)
  unfolding store_readings_batch
  store_readings_batch-Ends now c rs h =
      let begun : C = (db.execute c (codes "BEGIN") []).0 in
      let started : store_readings_batch db now (some c) rs
          ≡ at (exit_transaction db (insert_all db now begun rs).0 (insert_all db now begun rs).1) =
        rw (store_readings_batch, h) refl in
      rw started (
        exit_transaction-Ends now rs begun (insert_all db now begun rs) (content c)
          (insert_all-Inserted db content saved add laws now begun rs) (laws.begins c h).0
          (laws.begins c h).1)
