-- ===== src/Data/Csv/Raises.antt =====
-- Where the operations of src/data_processing/csv_processor.py raise in Python 3.
use Prim.Native.String.{String}
use py2to3_example_project.Prelude.{
  ℕ, suc, ◌≡◌, refl, ap, ◌∙◌, ◌+◌, ite, Bool, true, false, Option, none, some, List, [], ◌∷◌, ◌-◌,
  if◌then◌else◌, take, replicate, map, ◌==◌, Bool-cases, inl, inr, arith,
}
use py2to3_example_project.Prelude.Str.{Str}
use py2to3_example_project.Prelude.Text.{String_discrete}
use py2to3_example_project.Prelude.Py.{
  Exc, bytes, text, Result, ok, raise, ◌>>=◌, type_error, attribute_error, other_error,
}
use py2to3_example_project.Core.Strings.Convert.{Part, Codecs, detect_encoding}
use py2to3_example_project.Data.Csv.Mapper.{
  CsvFieldMapper, build_record, map_header, fill, positional,
}
use py2to3_example_project.Data.Csv.Processor.{
  Processor, lines_of, text_cells, with_first, decode_row, named_header, each_row, read_rows,
  read_csv, read_csv_string, write_csv, comma_joined, detect_file_encoding,
}

-- The number of the records of csv.reader, if it raises at none and none has a cell.
abbrev pub blank_rows : List (Result (List Str)) → Result ℕ
blank_rows [] = ok 0
blank_rows (raise e ∷ rows) = raise e
blank_rows (ok [] ∷ rows) = blank_rows rows >>= λ n. ok (n + 1)
blank_rows (ok (cell ∷ row) ∷ rows) = raise attribute_error

-- That many empty records, less the header.
abbrev pub empty_records : {V : Type 0} → (has_header : Bool) → ℕ → List (List (Str × V))
empty_records has_header n = replicate (if has_header then n - 1 else n) []

lines_of-cons :
    (b : ℕ) (bs : List ℕ)
    → (line : List ℕ) × (lines : List (List ℕ)) × (lines_of (b ∷ bs) ≡ line ∷ lines)
unfolding lines_of
lines_of-cons b bs = elim (Bool-cases (b == 10)) [
  | inl e ↦ (b ∷ [], lines_of bs, rw e refl)
  | inr e ↦ rw e (by_rest (lines_of bs))
]
  where
    by_rest :
        (ls : List (List ℕ))
        → (line : List ℕ) × (lines : List (List ℕ)) × (with_first b ls ≡ line ∷ lines)
    by_rest [] = (b ∷ [], [], refl)
    by_rest (l ∷ ls) = (b ∷ l, ls, refl)

module _ {V : Type 0} (key : Str → Str) (cell : Str → V) where
  named_header-nil : (m : Option (CsvFieldMapper V)) → named_header key cell m [] ≡ []
  unfolding map_header
  named_header-nil none = refl
  named_header-nil (some m) = refl

  -- The loop over rows of which a blank one gives an empty record.
  each_row-blank :
      (p : Processor V) (header : Option (List Str)) (decode : List ℕ → Result Str)
      (rows : List (Result (List Str)))
      → build_record cell p.field_mapper header [] ≡ ok []
      → each_row key cell false p header
          (map (λ r. r >>= decode_row decode) (map (λ r. r >>= λ row. ok (text_cells row)) rows))
        ≡ (p, (blank_rows rows >>= λ n. ok (replicate n [])))
  unfolding each_row decode_row
  each_row-blank p header decode [] h = refl
  each_row-blank p header decode (raise e ∷ rows) h = refl
  each_row-blank p header decode (ok (c ∷ row) ∷ rows) h = refl
  each_row-blank p header decode (ok [] ∷ rows) h =
      rw (each_row, h, each_row-blank p header decode rows h) (by_count (blank_rows rows))
    where
      by_count :
          (r : Result ℕ)
          → ◌≡◌ {A = Processor V × Result (List (List (Str × V)))}
              (p, ((r >>= λ n. ok (replicate n [])) >>= λ rs. ok ([] ∷ rs)))
              (p, ((r >>= λ n. ok (n + 1)) >>= λ n. ok (replicate n [])))
      by_count (raise e) = refl
      by_count (ok n) =
          let next : suc n ≡ n + 1 = omega arith in ap (λ (k : ℕ). (p, ok (replicate k []))) next

  read_rows-blank :
      (p : Processor V) (has_header : Bool) (decode : List ℕ → Result Str)
      (rows : List (Result (List Str)))
      → read_rows key cell false has_header p
          (map (λ r. r >>= decode_row decode) (map (λ r. r >>= λ row. ok (text_cells row)) rows))
        ≡ (p, (blank_rows rows >>= λ n. ok (empty_records has_header n)))
  unfolding read_rows decode_row
  read_rows-blank p false decode rows =
      each_row-blank p none decode rows (unfold build_record positional in refl)
  read_rows-blank p true decode [] = refl
  read_rows-blank p true decode (raise e ∷ rows) = refl
  read_rows-blank p true decode (ok (c ∷ row) ∷ rows) = refl
  read_rows-blank p true decode (ok [] ∷ rows) =
      each_row-blank p (some (named_header key cell p.field_mapper [])) decode rows built
      ∙ by_count (blank_rows rows)
    where
      built :
          build_record cell p.field_mapper (some (named_header key cell p.field_mapper [])) []
          ≡ ok []
      built = rw (named_header-nil p.field_mapper) (unfold build_record fill in refl)

      by_count :
          (r : Result ℕ)
          → ◌≡◌ {A = Processor V × Result (List (List (Str × V)))}
              (p, (r >>= λ n. ok (replicate n [])))
              (p, ((r >>= λ n. ok (n + 1)) >>= λ n. ok (empty_records true n)))
      by_count (raise e) = refl
      by_count (ok n) =
          let less : n ≡ n + 1 - 1 = omega arith in ap (λ (k : ℕ). (p, ok (replicate k []))) less

  -- In Python 3 the processor gives no record with a value. A file is opened for bytes, so that a
  -- file that is not empty raises csv.Error, whatever its encoding, and an empty one has no
  -- records; where the file does not open the call raises that error. A text raises
  -- AttributeError at the first record with a cell, or what csv.reader raises before it, and gives
  -- an empty record for each blank one but the header if there is no such record; bytes in place
  -- of a text raise TypeError. No counter changes in any of these. Writing writes nothing and
  -- raises what opening the output or encoding the header raises, and else TypeError. A byte
  -- order mark is never recognised: the encoding is what the heuristic says, or the default for
  -- ASCII.
  pub csv_raises :
      (records : List Str → List (Result (List Str))) (decode : String → List ℕ → Result Str)
      (c : Codecs) (default_encoding : String) (p : Processor V) (b : ℕ) (content : List ℕ)
      (s : Str) (encoding : Option String) (named : String) (e : Exc) (has_header : Bool)
      (opened : Result (Unit {0})) (encode : Str → Result (List ℕ)) (field_names : List Str)
      (written : List (List (Str × Part)))
      → (read_csv key cell records decode c p (ok (b ∷ content)) encoding has_header
          ≡ (p, raise other_error))
        × (read_csv key cell records decode c p (ok []) encoding has_header ≡ (p, ok []))
        × (read_csv key cell records decode c p (raise e) encoding has_header ≡ (p, raise e))
        × (read_csv_string key cell records decode p (text s) named has_header
            ≡ (p, (blank_rows (records (lines_of s)) >>= λ n. ok (empty_records has_header n))))
        × (read_csv_string key cell records decode p (bytes content) named has_header
            ≡ (p, raise type_error))
        × (write_csv opened encode field_names written
            ≡ ([], (opened >>= λ u. encode (comma_joined field_names) >>= λ bs. raise type_error)))
        × (detect_file_encoding c default_encoding content
            ≡ ite
                (String_discrete (detect_encoding c (bytes (take 8192 content))) "ascii")
                default_encoding
                (detect_encoding c (bytes (take 8192 content))))
  unfolding read_csv write_csv
  csv_raises records decode c default_encoding p b content s encoding named e has_header opened
        encode field_names written =
      (
        read_csv-binary has_header,
        read_csv-empty has_header,
        (unfold read_csv in refl),
        (unfold read_csv_string in
            read_rows-blank p has_header (decode named) (records (lines_of s))),
        (unfold read_csv_string in refl),
        write_csv-raises opened,
        (unfold detect_file_encoding in refl),
      )
    where
      read_csv-binary :
          (header : Bool)
          → read_csv key cell records decode c p (ok (b ∷ content)) encoding header
            ≡ (p, raise other_error)
      read_csv-binary header =
          let (line, lines, cut) = lines_of-cons b content in rw (read_csv, cut) (at_header header)
        where
          at_header :
              (h : Bool)
              → read_rows key cell true h p (raise other_error ∷ []) ≡ (p, raise other_error)
          at_header true = unfold read_rows in refl
          at_header false = unfold read_rows each_row in refl

      read_csv-empty :
          (header : Bool)
          → read_csv key cell records decode c p (ok []) encoding header ≡ (p, ok [])
      read_csv-empty true = unfold read_csv lines_of read_rows in refl
      read_csv-empty false = unfold read_csv lines_of read_rows each_row in refl

      write_csv-raises :
          (o : Result (Unit {0}))
          → write_csv o encode field_names written
            ≡ ([], (o >>= λ u. encode (comma_joined field_names) >>= λ bs. raise type_error))
      write_csv-raises (raise x) = unfold write_csv in refl
      write_csv-raises (ok u) = by_encoding (encode (comma_joined field_names)) refl
        where
          by_encoding :
              (r : Result (List ℕ))
              → encode (comma_joined field_names) ≡ r
              → write_csv (ok u) encode field_names written
                ≡ ([], (encode (comma_joined field_names) >>= λ bs. raise type_error))
          by_encoding (raise x) q = rw (write_csv, q) refl
          by_encoding (ok bs) q = rw (write_csv, q) refl
