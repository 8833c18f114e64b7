-- ===== src/Data/Csv/Records.antt =====
-- What the records of src/data_processing/csv_processor.py hold.
use py2to3_example_project.Prelude.{
  ◌≡◌, refl, sym, ap, ◌∙◌, ite, Option, none, some, List, [], ◌∷◌, ◌++◌, arith, length, replicate,
  ◌-◌, ◌≤◌, ltb, Bool-cases, inl, inr, length-append, length-replicate,
}
use py2to3_example_project.Prelude.Str.{Str, Str_discrete}
use py2to3_example_project.Prelude.Dict.{lookup, insert, lookup-insert}
use py2to3_example_project.Prelude.Py.{Exc, Result, ok, raise}
use py2to3_example_project.Data.Csv.Mapper.{
  CsvFieldMapper, cell_value, fill, build_record, padded, value_or, last_column,
}

module _ {V : Type 0} (cell : Str → V) (m : Option (CsvFieldMapper V)) where
  -- In two lists, as long as the second is not shorter than the first.
  abbrev pub Covers : (row header : List Str) → Type 0
  Covers row [] = Unit
  Covers [] (name ∷ header) = ⊥
  Covers (value ∷ row) (name ∷ header) = Covers row header

  fill_raise :
      (name value : Str) (header row : List Str) (r : List (Str × V)) {e : Exc}
      → cell_value cell m name value ≡ raise e
      → fill cell m (name ∷ header) (value ∷ row) r ≡ raise e
  unfolding fill
  fill_raise name value header row r h = rw (h, fill) refl

  fill_ok :
      (name value : Str) (header row : List Str) (r : List (Str × V)) {v : V}
      → cell_value cell m name value ≡ ok v
      → fill cell m (name ∷ header) (value ∷ row) r
        ≡ fill cell m header row (insert Str_discrete name v r)
  unfolding fill
  fill_ok name value header row r h = rw (h, fill) refl

  fill_nil :
      (row : List Str) (r : List (Str × V)) {s : List (Str × V)}
      → fill cell m [] row r ≡ ok s
      → r ≡ s
  unfolding fill
  fill_nil row r h = cc

  column_ok :
      (q name value : Str) (r : List (Str × V)) {v : V}
      → cell_value cell m name value ≡ ok v
      → lookup Str_discrete q (insert Str_discrete name v r)
        ≡ ite
            (Str_discrete name q)
            (value_or (cell_value cell m name value) (lookup Str_discrete q r))
            (lookup Str_discrete q r)
  column_ok q name value r {v} h = lookup-insert Str_discrete name q v r ∙ (λ i.
      ite (Str_discrete name q) (value_or (sym h i) (lookup Str_discrete q r))
        (lookup Str_discrete q r))

  lookup-fill :
      (q : Str) (header row : List Str) (r : List (Str × V)) {s : List (Str × V)}
      → Covers row header
      → fill cell m header row r ≡ ok s
      → lookup Str_discrete q s ≡ last_column cell m q header row (lookup Str_discrete q r)
  lookup-fill q [] row r c h = ap (λ t. lookup Str_discrete q t) (sym (fill_nil row r h))
  lookup-fill q (name ∷ header) [] r c h = absurd c
  lookup-fill q (name ∷ header) (value ∷ row) r {s} c h =
      by_value (cell_value cell m name value) refl
        (λ v. lookup-fill q header row (insert Str_discrete name v r) {s = s} c)
    where
      by_value :
          (o : Result V)
          → cell_value cell m name value ≡ o
          → ((v : V)
              → fill cell m header row (insert Str_discrete name v r) ≡ ok s
              → lookup Str_discrete q s
                ≡ last_column cell m q header row
                    (lookup Str_discrete q (insert Str_discrete name v r)))
          → lookup Str_discrete q s
            ≡ last_column cell m q (name ∷ header) (value ∷ row) (lookup Str_discrete q r)
      by_value (raise e) p ih =
          let bad : ◌≡◌ {A = Result (List (Str × V))} (raise e) (ok s) =
            sym (fill_raise name value header row r p) ∙ h in
          cc
      by_value (ok v) p ih =
          ih v (sym (fill_ok name value header row r p) ∙ h)
          ∙ ap (λ o. last_column cell m q header row o) (column_ok q name value r p)

  Covers-long : (header row : List Str) → length header ≤ length row → Covers row header
  Covers-long [] row h = tt
  Covers-long (name ∷ header) [] h = absurd (omega arith)
  Covers-long (name ∷ header) (value ∷ row) h = Covers-long header row (omega arith)

  padded-Covers : (header row : List Str) → Covers (padded header row) header
  padded-Covers header row = elim (Bool-cases (ltb (length row) (length header))) [
    | inl short ↦
        let pad : List Str = replicate (length header - length row) [] in
        rw short (
          Covers-long header (row ++ pad) (
            ground (
              arith,
              length-append row pad,
              length-replicate {A = Str} (length header - length row) [],
            )))
    | inr long ↦ rw long (Covers-long header row (ground arith))
  ]

  -- A record that is built from a row holds for every name of the header the transformed cell of
  -- the last column with that name, the empty text where the row is shorter, and for other names
  -- nothing.
  pub lookup-build_record :
      (q : Str) (header row : List Str) {s : List (Str × V)}
      → build_record cell m (some header) row ≡ ok s
      → lookup Str_discrete q s ≡ last_column cell m q header (padded header row) none
  unfolding build_record lookup
  lookup-build_record q header row h =
      lookup-fill q header (padded header row) [] (padded-Covers header row) h
