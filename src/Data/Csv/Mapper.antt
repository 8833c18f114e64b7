-- ===== src/Data/Csv/Mapper.antt =====
-- CsvFieldMapper and _build_record of src/data_processing/csv_processor.py. `V` are the values of
-- records: the cells, and what transforms return.
use py2to3_example_project.Prelude.{
  ℕ, suc, ◌+◌, ◌-◌, ite, Option, none, some, List, [], ◌∷◌, ◌++◌, ltb, if◌then◌else◌, length,
  replicate,
}
use py2to3_example_project.Prelude.Text.{codes}
use py2to3_example_project.Prelude.Str.{Str, Str_discrete, digits}
use py2to3_example_project.Prelude.Dict.{lookup, insert}
use py2to3_example_project.Prelude.Py.{Result, ok, raise}

unfoldable pub field_name : ℕ → Str
unfolding digits
field_name i = codes "field_" ++ digits (suc i) i

pub record CsvFieldMapper (V : Type 0) : Type 0 where
  pub mappings : List (Str × Str)
  pub transforms : List (Str × (Str → Result V))

unfoldable pub new_mapper : (V : Type 0) → CsvFieldMapper V
new_mapper V = record { mappings = []; transforms = [] }

-- `row + [u""] * (len(header) - len(row))`, for a row that is shorter.
abbrev pub padded : (header row : List Str) → List Str
padded header row =
    if ltb (length row) (length header)
    then row ++ replicate (length header - length row) []
    else row

module _ {V : Type 0} where
  -- `key` is `lower().strip()` of a name.
  unfoldable pub add_mapping :
      (key : Str → Str)
      → CsvFieldMapper V
      → (external_name internal_name : Str) → Option (Str → Result V)
      → CsvFieldMapper V
  add_mapping key m external_name internal_name transform_func =
      let m' : CsvFieldMapper V = record m {
        mappings = insert Str_discrete (key external_name) internal_name m.mappings;
      } in
      elim transform_func [
        | none ↦ m'
        | some f ↦ record m' { transforms = insert Str_discrete internal_name f m'.transforms }
      ]

  -- A header of texts; a column that is not known stays as it is.
  unfoldable pub map_header :
      (key : Str → Str) → CsvFieldMapper V → (header_row : List Str) → List Str
  map_header key m [] = []
  map_header key m (col ∷ cols) =
      elim (lookup Str_discrete (key col) m.mappings) [ none ↦ col | some name ↦ name ]
      ∷ map_header key m cols

  unfoldable pub transform_value :
      (cell : Str → V) → CsvFieldMapper V → (internal_name raw_value : Str) → Result V
  transform_value cell m internal_name raw_value =
      elim (lookup Str_discrete internal_name m.transforms) [
        | none ↦ ok (cell raw_value)
        | some f ↦ f raw_value
      ]

  abbrev pub cell_value : (cell : Str → V) → Option (CsvFieldMapper V) → (name raw : Str) → Result V
  cell_value cell none name raw = ok (cell raw)
  cell_value cell (some m) name raw = transform_value cell m name raw

  unfoldable pub positional : (cell : Str → V) → ℕ → List Str → List (Str × V) → List (Str × V)
  unfolding field_name
  positional cell i [] r = r
  positional cell i (value ∷ row) r =
      positional cell (i + 1) row (insert Str_discrete (field_name i) (cell value) r)

  -- The loop over the header, with the row beside it.
  unfoldable pub fill :
      (cell : Str → V)
      → Option (CsvFieldMapper V)
      → (header row : List Str) → List (Str × V)
      → Result (List (Str × V))
  unfolding transform_value
  fill cell m [] row r = ok r
  fill cell m (name ∷ header) [] r = fill cell m header [] r
  fill cell m (name ∷ header) (value ∷ row) r = elim (cell_value cell m name value) [
    | raise e ↦ raise e
    | ok v ↦ fill cell m header row (insert Str_discrete name v r)
  ]

  unfoldable pub build_record :
      (cell : Str → V)
      → Option (CsvFieldMapper V)
      → (header : Option (List Str)) → (row : List Str) → Result (List (Str × V))
  unfolding positional fill
  build_record cell m none row = ok (positional cell 0 row [])
  build_record cell m (some header) row = fill cell m header (padded header row) []

  -- The value of a name: that of the last column with it, the cell beside it or the empty text.
  abbrev pub value_or : Result V → Option V → Option V
  value_or (raise e) found = found
  value_or (ok v) found = some v

  abbrev pub last_column :
      (cell : Str → V)
      → Option (CsvFieldMapper V)
      → Str
      → (header row : List Str) → Option V
      → Option V
  last_column cell m q [] row found = found
  last_column cell m q (name ∷ header) [] found =
      last_column cell m q header []
        (ite (Str_discrete name q) (value_or (cell_value cell m name []) found) found)
  last_column cell m q (name ∷ header) (value ∷ row) found =
      last_column cell m q header row
        (ite (Str_discrete name q) (value_or (cell_value cell m name value) found) found)
