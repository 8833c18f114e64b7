-- ===== src/Data/Csv/Processor.antt =====
-- CsvProcessor of src/data_processing/csv_processor.py. In Python 3 the cells of csv.reader are
-- texts, and its input must not be bytes; how it cuts texts into records is an argument.
use Prim.Native.String.{String}
use py2to3_example_project.Prelude.{
  ℕ, ◌+◌, Bool, true, false, Option, none, some, List, [], ◌∷◌, ◌++◌, if◌then◌else◌, length, map,
  take, ite, ◌==◌,
}
use py2to3_example_project.Prelude.Str.{Str, Str_discrete, same_str}
use py2to3_example_project.Prelude.Text.{String_discrete}
use py2to3_example_project.Prelude.Dict.{lookup}
use py2to3_example_project.Prelude.Py.{
  Exc, Raw, bytes, text, Result, ok, raise, ◌>>=◌, type_error, attribute_error, other_error,
  data_error, encoding_error, parse_error, validation_error,
}
use py2to3_example_project.Core.Strings.Convert.{Part, raw, other, Codecs, detect_encoding}
use py2to3_example_project.Data.Csv.Mapper.{CsvFieldMapper, map_header, build_record}

pub record Processor (V : Type 0) : Type 0 where
  pub field_mapper : Option (CsvFieldMapper V)
  pub default_encoding : String
  pub processed_count : ℕ
  pub error_count : ℕ

-- What a file or a buffer gives, line by line.
pub data Lines : Type 0 where
  binary : List (List ℕ) → Lines
  texts : List Str → Lines

abbrev pub with_first : ℕ → List (List ℕ) → List (List ℕ)
with_first b [] = (b ∷ []) ∷ []
with_first b (line ∷ lines) = (b ∷ line) ∷ lines

-- The lines, each with the LF that ends it.
unfoldable pub lines_of : List ℕ → List (List ℕ)
lines_of [] = []
lines_of (b ∷ bs) = let rest = lines_of bs in if b == 10 then (b ∷ []) ∷ rest else with_first b rest

abbrev pub text_cells : List Str → List Raw
text_cells [] = []
text_cells (s ∷ ss) = text s ∷ text_cells ss

-- `csv.reader`, with its Error at a line of bytes; the loop ends at the first error.
abbrev pub csv_reader :
    (records : List Str → List (Result (List Str))) → Lines → List (Result (List Raw))
csv_reader records (binary []) = []
csv_reader records (binary (line ∷ lines)) = raise other_error ∷ []
csv_reader records (texts lines) = map (λ r. r >>= λ row. ok (text_cells row)) (records lines)

-- `cell.decode(encoding, "replace")`: a text has no such method.
unfoldable pub decode_row : (decode : List ℕ → Result Str) → List Raw → Result (List Str)
decode_row decode [] = ok []
decode_row decode (text s ∷ row) = raise attribute_error
decode_row decode (bytes bs ∷ row) = do
  cell ← decode bs
  cells ← decode_row decode row
  ok (cell ∷ cells)

abbrev pub unicode_csv_reader :
    (records : List Str → List (Result (List Str)))
    → (decode : List ℕ → Result Str) → Lines
    → List (Result (List Str))
unicode_csv_reader records decode lines =
    map (λ r. r >>= decode_row decode) (csv_reader records lines)

-- `except DataError`
abbrev pub is_data_error : Exc → Bool
is_data_error data_error = true
is_data_error encoding_error = true
is_data_error parse_error = true
is_data_error validation_error = true
is_data_error _ = false

-- `==` of two texts or byte strings: a text never equals bytes.
abbrev pub same_raw : Raw → Raw → Bool
same_raw (bytes a) (bytes b) = same_str a b
same_raw (text a) (text b) = same_str a b
same_raw (bytes a) (text b) = false
same_raw (text a) (bytes b) = false

abbrev bom_utf8 : Raw
bom_utf8 = text (0xEF ∷ 0xBB ∷ 0xBF ∷ [])

abbrev bom_utf16_le : Raw
bom_utf16_le = text (0xFF ∷ 0xFE ∷ [])

abbrev bom_utf16_be : Raw
bom_utf16_be = text (0xFE ∷ 0xFF ∷ [])

-- The encoding of a file with the given content.
unfoldable pub detect_file_encoding :
    Codecs → (default_encoding : String) → (content : List ℕ) → String
unfolding detect_encoding
detect_file_encoding c default_encoding content =
    if same_raw (bytes (take 3 content)) bom_utf8
    then "utf-8-sig"
    else if same_raw (bytes (take 2 content)) bom_utf16_le
    then "utf-16-le"
    else if same_raw (bytes (take 2 content)) bom_utf16_be
    then "utf-16-be"
    else let detected = detect_encoding c (bytes (take 8192 content)) in
      ite (String_discrete detected "ascii") default_encoding detected

abbrev pub encoding_or : (detected : String) → (encoding : Option String) → String
encoding_or detected none = detected
encoding_or detected (some encoding) = encoding

-- `line + "\n"`
abbrev pub add_newline : Raw → Result Raw
add_newline (bytes bs) = raise type_error
add_newline (text s) = ok (text (s ++ 10 ∷ []))

-- `",".join(cells)`
abbrev pub join_cells : List Raw → Result Raw
join_cells [] = ok (text [])
join_cells (bytes bs ∷ cells) = raise type_error
join_cells (text s ∷ []) = ok (text s)
join_cells (text s ∷ c ∷ cells) = elim (join_cells (c ∷ cells)) [
  | ok (text t) ↦ ok (text (s ++ b',' ∷ t))
  | ok (bytes bs) ↦ raise type_error
  | raise e ↦ raise e
]

abbrev pub encoded : (encode : Str → Result (List ℕ)) → Part → Result Raw
encoded encode (raw (text s)) = encode s >>= λ bs. ok (bytes bs)
encoded encode (raw (bytes bs)) = ok (bytes bs)
encoded encode (other shown) = ok (text shown)

-- `record.get(name, u"")`, encoded.
abbrev pub cell_for : (encode : Str → Result (List ℕ)) → List (Str × Part) → Str → Result Raw
cell_for encode r name = elim (lookup Str_discrete name r) [
  | none ↦ encoded encode (raw (text []))
  | some p ↦ encoded encode p
]

abbrev pub cells_for :
    (encode : Str → Result (List ℕ))
    → List (Str × Part)
    → (field_names : List Str) → Result (List Raw)
cells_for encode r [] = ok []
cells_for encode r (name ∷ names) = do
  cell ← cell_for encode r name
  cells ← cells_for encode r names
  ok (cell ∷ cells)

abbrev pub write_records :
    (encode : Str → Result (List ℕ))
    → (field_names : List Str) → List (List (Str × Part))
    → List Raw × Result (Unit {0})
write_records encode field_names [] = ([], ok tt)
write_records encode field_names (r ∷ rs) =
    let (written, outcome) = write_records encode field_names rs in
    elim (cells_for encode r field_names >>= join_cells >>= add_newline) [
      | raise e ↦ ([], raise e)
      | ok line ↦ (line ∷ written, outcome)
    ]

abbrev pub comma_joined : List Str → Str
comma_joined [] = []
comma_joined (s ∷ []) = s
comma_joined (s ∷ t ∷ ss) = s ++ b',' ∷ comma_joined (t ∷ ss)

-- The lines that are written, and how it ends. `opened` is how codecs.open ends, which raises
-- LookupError for an unknown encoding; `encode` is `encode(encoding, "replace")`.
unfoldable pub write_csv :
    (opened : Result (Unit {0}))
    → (encode : Str → Result (List ℕ)) → (field_names : List Str) → List (List (Str × Part))
    → List Raw × Result (Unit {0})
write_csv (raise e) encode field_names records = ([], raise e)
write_csv (ok u) encode field_names records =
    elim (encode (comma_joined field_names) >>= λ bs. add_newline (bytes bs)) [
      | raise e ↦ ([], raise e)
      | ok line ↦
          let (written, outcome) = write_records encode field_names records in
          (line ∷ written, outcome)
    ]

abbrev parts : {V : Type 0} → (part : V → Part) → List (Str × V) → List (Str × Part)
parts part [] = []
parts part ((name, v) ∷ r) = (name, part v) ∷ parts part r

abbrev names : {V : Type 0} → List (Str × V) → List Str
names [] = []
names ((name, v) ∷ r) = name ∷ names r

-- What transcode_csv does with what was read.
abbrev transcoded :
    {V : Type 0} (opened : Result (Unit {0}))
    → (encode : Str → Result (List ℕ)) → (part : V → Part)
    → Processor V × Result (List (List (Str × V)))
    → Processor V × Result ℕ
transcoded opened encode part (p, raise e) = (p, raise e)
transcoded opened encode part (p, ok []) = (p, ok 0)
transcoded opened encode part (p, ok (r ∷ rs)) = (
  p,
  ((write_csv opened encode (names r) (map (parts part) (r ∷ rs))).1 >>= λ done.
      ok (length (r ∷ rs))),
)

module _ {V : Type 0} (key : Str → Str) (cell : Str → V) where
  abbrev pub named_header : Option (CsvFieldMapper V) → List Str → List Str
  named_header none row = row
  named_header (some m) row = map_header key m row

  -- The loop over the rows after the header. `counts` says whether a record is counted.
  unfoldable pub each_row :
      (counts : Bool)
      → Processor V
      → (header : Option (List Str)) → List (Result (List Str))
      → Processor V × Result (List (List (Str × V)))
  unfolding build_record
  each_row counts p header [] = (p, ok [])
  each_row counts p header (raise e ∷ rows) = (p, raise e)
  each_row counts p header (ok row ∷ rows) = elim (build_record cell p.field_mapper header row) [
    | ok r ↦
        let p' : Processor V =
          if counts then record p { processed_count = p.processed_count + 1 } else p in
        let (p'', rest) = each_row counts p' header rows in (p'', (rest >>= λ rs. ok (r ∷ rs)))
    | raise e ↦
        let go_on = each_row counts (record p { error_count = p.error_count + 1 }) header rows in
        if is_data_error e then go_on else (p, raise e)
  ]

  -- The first row is the header if there is one.
  unfoldable pub read_rows :
      (counts has_header : Bool)
      → Processor V
      → List (Result (List Str))
      → Processor V × Result (List (List (Str × V)))
  unfolding each_row map_header
  read_rows counts false p rows = each_row counts p none rows
  read_rows counts true p [] = (p, ok [])
  read_rows counts true p (raise e ∷ rows) = (p, raise e)
  read_rows counts true p (ok row ∷ rows) =
      each_row counts p (some (named_header p.field_mapper row)) rows

  module _ (records : List Str → List (Result (List Str)))
      (decode : (encoding : String) → List ℕ → Result Str) where
    -- `StringIO(csv_text)` takes a text only.
    unfoldable pub read_csv_string :
        Processor V
        → (csv_text : Raw) → (encoding : String) → (has_header : Bool)
        → Processor V × Result (List (List (Str × V)))
    unfolding read_rows decode_row lines_of
    read_csv_string p (bytes bs) encoding has_header = (p, raise type_error)
    read_csv_string p (text s) encoding has_header =
        read_rows false has_header p
          (unicode_csv_reader records (decode encoding) (texts (lines_of s)))

    -- `file` is the content of the file, or the error with which it does not open.
    unfoldable pub read_csv :
        Codecs
        → Processor V
        → (file : Result (List ℕ)) → (encoding : Option String) → (has_header : Bool)
        → Processor V × Result (List (List (Str × V)))
    unfolding read_rows detect_file_encoding decode_row lines_of
    read_csv c p (raise e) encoding has_header = (p, raise e)
    read_csv c p (ok content) encoding has_header = read_rows true has_header p (
        unicode_csv_reader records
          (decode (encoding_or (detect_file_encoding c p.default_encoding content) encoding))
          (binary (lines_of content)))

    -- Reading and then writing again; the written file is not kept here.
    unfoldable pub transcode_csv :
        Codecs
        → Processor V
        → (file : Result (List ℕ)) → (from_encoding : Option String) → (opened : Result (Unit {0}))
        → (encode : Str → Result (List ℕ)) → (part : V → Part) → Processor V × Result ℕ
    unfolding read_csv write_csv
    transcode_csv c p file from_encoding opened encode part =
        transcoded opened encode part (read_csv c p file from_encoding true)
