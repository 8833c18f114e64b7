-- ===== src/Data/Csv/Tests.antt =====
-- An instance for src/data_processing/csv_processor.py.
use py2to3_example_project.Prelude.{ℕ, ◌≡◌, ite, true, none, List, [], ◌∷◌, take, map}
use Prim.Native.String.{String}
use py2to3_example_project.Prelude.Text.{codes, String_discrete}
use py2to3_example_project.Prelude.Str.{Str}
use py2to3_example_project.Prelude.Py.{
  bytes, text, Result, ok, raise, ◌>>=◌, other_error, os_error, type_error,
}
use py2to3_example_project.Core.Strings.Convert.{Codecs, raw, detect_encoding}
use py2to3_example_project.Data.Csv.Processor.{
  Processor, lines_of, read_csv, read_csv_string, write_csv, detect_file_encoding,
}
use py2to3_example_project.Data.Csv.Raises
use py2to3_example_project.Data.Csv.Raises.{blank_rows, empty_records}

abbrev codecs : Codecs
codecs = record {
  decode = λ encoding bs. ok bs;
  decode_replace = λ encoding bs. bs;
  encode = λ encoding s. ok s;
  encode_replace = λ encoding s. s;
}

abbrev processor : Processor Str
processor = record {
  field_mapper = none;
  default_encoding = "utf-8";
  processed_count = 0;
  error_count = 0;
}

abbrev same : Str → Str
same s = s

-- A file that starts with the mark of UTF-8.
abbrev marked : List ℕ
marked = 0xEF ∷ 0xBB ∷ 0xBF ∷ codes "a,b"

-- A reader that takes every line as one cell.
abbrev one_record : List Str → List (Result (List Str))
one_record lines = map (λ line. ok (line ∷ [])) lines

abbrev known : String → List ℕ → Result Str
known encoding bs = ok bs

abbrev ascii : Str → Result (List ℕ)
ascii s = ok s

csv_raises_example :
    (read_csv same same one_record known codecs processor (ok (0xEF ∷ marked)) none true
      ≡ (processor, raise other_error))
    × (read_csv same same one_record known codecs processor (ok []) none true ≡ (processor, ok []))
    × (read_csv same same one_record known codecs processor (raise os_error) none true
        ≡ (processor, raise os_error))
    × (read_csv_string same same one_record known processor (text (codes "a,b")) "utf-8" true ≡ (
      processor,
      (blank_rows (one_record (lines_of (codes "a,b"))) >>= λ n. ok (empty_records true n)),
    ))
    × (read_csv_string same same one_record known processor (bytes marked) "utf-8" true
        ≡ (processor, raise type_error))
    × (write_csv (ok tt) ascii (codes "a" ∷ []) (((codes "a", raw (text (codes "1"))) ∷ []) ∷ [])
        ≡ ([], raise type_error))
    × (detect_file_encoding codecs "utf-8" marked
        ≡ ite
            (String_discrete (detect_encoding codecs (bytes (take 8192 marked))) "ascii")
            "utf-8"
            (detect_encoding codecs (bytes (take 8192 marked))))
csv_raises_example =
    Raises.csv_raises same same one_record known codecs "utf-8" processor 0xEF marked (codes "a,b")
      none "utf-8" os_error true (ok tt) ascii (codes "a" ∷ [])
      (((codes "a", raw (text (codes "1"))) ∷ []) ∷ [])
