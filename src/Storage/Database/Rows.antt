-- ===== src/Storage/Database/Rows.antt =====
-- What SQLite documents of transactions, and the rows that the body of store_readings_batch of
-- src/storage/database.py adds to the stored content.
use py2to3_example_project.Prelude.{
  ℕ, ◌≡◌, refl, ap, ◌∙◌, ◌⊎◌, inl, inr, Option, none, some, List, [], ◌∷◌, arith,
}
use py2to3_example_project.Prelude.Text.{codes}
use py2to3_example_project.Prelude.Str.{Str}
use py2to3_example_project.Prelude.Py.{Exc, Raw, bytes, text, Result, ok, raise}
use py2to3_example_project.Storage.Database.Connection.{
  Cell, null, integer, str, blob, Row, Connection, Reading, ins_reading, batch_cell, values_of,
  insert_one, insert_all,
}

-- What SQLite documents of transactions: `content` is what stands in the tables, `saved` what stood
-- there at the last BEGIN, and `add` is what an INSERT into the readings does with its values.
pub record Transactions {C D : Type 0} (db : Connection C) (content saved : C → D)
    (add : List Cell → D → D) : Type 0 where
  pub begins :
      (c : C) {rows : List Row}
      → (db.execute c (codes "BEGIN") []).1 ≡ ok rows
      → (saved (db.execute c (codes "BEGIN") []).0 ≡ content c)
        × (content (db.execute c (codes "BEGIN") []).0 ≡ content c)
  pub inserts :
      (c : C) (cells : List Cell) {rows : List Row}
      → (db.execute c ins_reading cells).1 ≡ ok rows
      → content (db.execute c ins_reading cells).0 ≡ add cells (content c)
  pub keeps : (c : C) (cells : List Cell) → saved (db.execute c ins_reading cells).0 ≡ saved c
  pub commits :
      (c : C) {rows : List Row}
      → (db.execute c (codes "COMMIT") []).1 ≡ ok rows
      → content (db.execute c (codes "COMMIT") []).0 ≡ content c
  pub fails :
      (c : C) {e : Exc}
      → (db.execute c (codes "COMMIT") []).1 ≡ raise e
      → saved (db.execute c (codes "COMMIT") []).0 ≡ saved c
  pub restores :
      (c : C) {rows : List Row}
      → (db.execute c (codes "ROLLBACK") []).1 ≡ ok rows
      → content (db.execute c (codes "ROLLBACK") []).0 ≡ saved c

-- The raw frame of a reading as it is stored: NULL where there is none or an empty one.
abbrev pub stored_frame : Option Raw → Cell
stored_frame none = null
stored_frame (some (bytes [])) = null
stored_frame (some (bytes (b ∷ bs))) = blob (b ∷ bs)
stored_frame (some (text s)) = null

-- A raw frame that can be stored: no text, but for the empty one.
abbrev pub Storable : Option Raw → Type 0
Storable (some (text (c ∷ s))) = ⊥
Storable _ = Unit

abbrev pub AllStorable : List Reading → Type 0
AllStorable [] = Unit
AllStorable (r ∷ rs) = Storable r.raw_frame × AllStorable rs

-- The content with a row for every reading, in their order.
abbrev pub with_rows : {D : Type 0} → (add : List Cell → D → D) → (now : ℕ) → List Reading → D → D
with_rows add now [] d = d
with_rows add now (r ∷ rs) d = with_rows add now rs (
    add
      (str r.sensor_id
        ∷ str r.tag
        ∷ r.value
        ∷ integer r.quality
        ∷ r.timestamp
        ∷ stored_frame r.raw_frame
        ∷ integer now
        ∷ [])
      d)

stored_frame-Storable :
    (raw : Option Raw) (frame : Cell)
    → batch_cell raw ≡ ok frame
    → (frame ≡ stored_frame raw) × Storable raw
stored_frame-Storable none frame h = (ground arith, tt)
stored_frame-Storable (some (bytes [])) frame h = (ground arith, tt)
stored_frame-Storable (some (bytes (b ∷ bs))) frame h = (ground arith, tt)
stored_frame-Storable (some (text [])) frame h = (ground arith, tt)
stored_frame-Storable (some (text (c ∷ s))) frame h = ground arith

batch_cell-Storable : (raw : Option Raw) (e : Exc) → batch_cell raw ≡ raise e → Storable raw → ⊥
batch_cell-Storable none e h can = ground arith
batch_cell-Storable (some (bytes [])) e h can = ground arith
batch_cell-Storable (some (bytes (b ∷ bs))) e h can = ground arith
batch_cell-Storable (some (text [])) e h can = ground arith
batch_cell-Storable (some (text (c ∷ s))) e h can = can

module _ {C D : Type 0} (db : Connection C) (content saved : C → D) (add : List Cell → D → D)
    (laws : Transactions db content saved add) where
  -- Why a batch is not stored: a raw frame that is a text, or an INSERT of readings or a COMMIT that
  -- raises on some connection.
  abbrev pub Failed : List Reading → Type 0
  Failed rs =
      (AllStorable rs → ⊥)
      ⊎ ((c : C) × (sql : Str) × (cells : List Cell) × (cause : Exc) × ((sql ≡ ins_reading)
            ⊎ (sql ≡ codes "COMMIT"))
          × ((db.execute c sql cells).1 ≡ raise cause))

  insert_one-saved :
      (now : ℕ) (c : C) (r : Reading) (cell : Result Cell)
      → saved (insert_one db now c r cell).0 ≡ saved c
  insert_one-saved now c r (raise e) = refl
  insert_one-saved now c r (ok frame) = laws.keeps c (values_of r frame now)

  insert_one-add :
      (now : ℕ) (c : C) (r : Reading) (cell : Result Cell) (rows : List Row)
      → batch_cell r.raw_frame ≡ cell
      → (insert_one db now c r cell).1 ≡ ok rows
      → Storable r.raw_frame
        × (content (insert_one db now c r cell).0
            ≡ add (values_of r (stored_frame r.raw_frame) now) (content c))
  insert_one-add now c r (raise e) rows p h = ground arith
  insert_one-add now c r (ok frame) rows p h =
      let (same, can) = stored_frame-Storable r.raw_frame frame p in
      (
        can,
        laws.inserts c (values_of r frame now) h
            ∙ ap (λ x. add (values_of r x now) (content c)) same,
      )

  Failed-cons : (r : Reading) (rs : List Reading) → Failed rs → Failed (r ∷ rs)
  Failed-cons r rs (inl bad) = inl (λ all. bad all.1)
  Failed-cons r rs (inr why) = inr why

  insert_one-Failed :
      (now : ℕ) (c : C) (r : Reading) (rs : List Reading) (cell : Result Cell) (e : Exc)
      → batch_cell r.raw_frame ≡ cell
      → (insert_one db now c r cell).1 ≡ raise e
      → Failed (r ∷ rs)
  insert_one-Failed now c r rs (raise x) e p h =
      inl (λ all. batch_cell-Storable r.raw_frame x p all.0)
  insert_one-Failed now c r rs (ok frame) e p h =
      inr (c, ins_reading, values_of r frame now, e, inl refl, h)

  -- The content after inserts that have not raised, and what a ROLLBACK is to restore.
  unfoldable pub Inserted : (now : ℕ) → List Reading → (c : C) → C × Result (Unit {0}) → Type 0
  Inserted now rs c (c', ok u) =
      (saved c' ≡ saved c) × AllStorable rs × (content c' ≡ with_rows add now rs (content c))
  Inserted now rs c (c', raise e) = (saved c' ≡ saved c) × Failed rs

  pub insert_all-Inserted :
      (now : ℕ) (c : C) (rs : List Reading) → Inserted now rs c (insert_all db now c rs)
  unfolding insert_all Inserted
  insert_all-Inserted now c [] = (refl, tt, refl)
  insert_all-Inserted now c (r ∷ rs) =
      after (insert_one db now c r (batch_cell r.raw_frame)).1 refl (insert_all db now next rs)
        (insert_all-Inserted now next rs)
    where
      next : C
      next = (insert_one db now c r (batch_cell r.raw_frame)).0

      kept : saved next ≡ saved c
      kept = insert_one-saved now c r (batch_cell r.raw_frame)

      more :
          (rows : List Row) (end : C × Result (Unit {0}))
          → (insert_one db now c r (batch_cell r.raw_frame)).1 ≡ ok rows
          → Inserted now rs next end
          → Inserted now (r ∷ rs) c end
      more rows (c', ok u) p h =
          let (can, row) = insert_one-add now c r (batch_cell r.raw_frame) rows refl p in
          (h.0 ∙ kept, (can, h.1), h.2 ∙ ap (with_rows add now rs) row)
      more rows (c', raise e) p h = (h.0 ∙ kept, Failed-cons r rs h.1)

      after :
          (one : Result (List Row))
          → (insert_one db now c r (batch_cell r.raw_frame)).1 ≡ one
          → (end : C × Result (Unit {0})) → Inserted now rs next end
          → Inserted now (r ∷ rs) c (elim one as (λ x. C × Result (Unit {0})) [
            | raise e ↦ (next, raise e)
            | ok rows ↦ end
          ])
      after (raise e) p end h =
          (kept, insert_one-Failed now c r rs (batch_cell r.raw_frame) e refl p)
      after (ok rows) p end h = more rows end p h
