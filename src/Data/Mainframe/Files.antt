-- ===== src/Data/Mainframe/Files.antt =====
-- MainframeParser: the parse of a file, with its cache and summary. The file system's answers are
-- arguments; prints and times are left out.
use Prim.Native.String.{String}
use py2to3_example_project.Prelude.{
  ℕ, zero, suc, ◌+◌, Bool, Option, none, some, List, [], ◌∷◌, ◌++◌, ltb, if◌then◌else◌, length,
  take, drop, map,
}
use py2to3_example_project.Prelude.Text.{String_discrete}
use py2to3_example_project.Prelude.Dict.{lookup, insert}
use py2to3_example_project.Prelude.Py.{bytes, Result, ok, raise, os_error, other_error}
use py2to3_example_project.Core.Types.{LargeCounter, new_counter, increment}
use py2to3_example_project.Data.Mainframe.Layout.{CopybookLayout}
use py2to3_example_project.Data.Mainframe.Records.{
  MainframeRecord, Library, ParseProblem, has_errors, parse_record,
}

-- A file of the cache: pickled records, one that `_load_cache` gives up on, or one on which
-- `pickle.load` raises an exception that it does not catch.
pub data Cached (F : Type 0) : Type 0 where
  pickled : List (MainframeRecord F) → Cached F
  unreadable unknown : Cached F

-- What a write to the cache comes to: it succeeds, the file is not opened, or it stops half way.
pub data Save : Type 0 where
  complete unopened torn : Save

pub record Disk : Type 0 where
  pub content : String → Option (List ℕ)
  pub cache_key : String → String
  pub save_of : String → Save

pub record Parser (F : Type 0) : Type 0 where
  pub layout : CopybookLayout
  pub has_cache : Bool
  pub record_count : LargeCounter
  pub error_count : LargeCounter
  pub cache : List (String × Cached F)

-- What `_write_summary` writes, after the names of the source and the layout.
pub record Summary : Type 0 where
  pub parsed : ℕ
  pub total_errors : ℕ
  pub with_errors : ℕ
  pub messages : List (ℕ × ParseProblem)

-- The variables of the loop.
pub record Progress (F : Type 0) : Type 0 where
  pub records : List (MainframeRecord F)
  pub parsed_count : LargeCounter
  pub failed_count : LargeCounter

module _ {F : Type 0} where
  unfoldable pub new_parser : CopybookLayout → Bool → List (String × Cached F) → Parser F
  unfolding new_counter
  new_parser layout has_cache cache = record {
    layout = layout;
    has_cache = has_cache;
    record_count = new_counter 0;
    error_count = new_counter 0;
    cache = cache;
  }

  unfoldable pub failing : List (MainframeRecord F) → List (MainframeRecord F)
  unfolding has_errors
  failing [] = []
  failing (r ∷ rs) = let rest = failing rs in if has_errors r then r ∷ rest else rest

  -- One line for each error of a record.
  unfoldable pub lines_of : List (MainframeRecord F) → List (ℕ × ParseProblem)
  lines_of [] = []
  lines_of (r ∷ rs) = map (λ e. (r.record_number, e)) r.parse_errors ++ lines_of rs

  unfoldable pub write_summary : LargeCounter → List (MainframeRecord F) → Summary
  unfolding failing lines_of
  write_summary errors records =
      let error_records = failing records in
      record {
        parsed = length records;
        total_errors = errors.value;
        with_errors = length error_records;
        messages = lines_of (take 20 error_records);
      }

  unfoldable pub load_cache : Disk → Parser F → String → Result (Option (List (MainframeRecord F)))
  load_cache disk p path =
      if p.has_cache
      then elim (disk.content path) [
        | none ↦ raise os_error
        | some input ↦ elim (lookup String_discrete (disk.cache_key path) p.cache) [
          | none ↦ ok none
          | some (pickled records) ↦ ok (some records)
          | some unreadable ↦ ok none
          | some unknown ↦ raise other_error
        ]
      ]
      else ok none

  unfoldable pub save_cache : Disk → Parser F → String → List (MainframeRecord F) → Parser F
  save_cache disk p path records =
      if p.has_cache
      then elim (disk.save_of path) [
        | complete ↦ record p {
          cache = insert String_discrete (disk.cache_key path) (pickled records) p.cache;
        }
        | unopened ↦ p
        | torn ↦ record p {
          cache = insert String_discrete (disk.cache_key path) unreadable p.cache;
        }
      ]
      else p

module _ {F : Type 0} (lib : Library F) where
  -- A whole record is parsed and counted.
  unfoldable pub add_record : CopybookLayout → Progress F → ℕ → List ℕ → Progress F
  unfolding increment
  add_record layout s record_num raw =
      let (r, errors) = parse_record lib layout s.failed_count record_num (bytes raw) in
      record {
        records = s.records ++ r ∷ [];
        parsed_count = increment s.parsed_count 1;
        failed_count = errors;
      }

  -- The `while True` loop over the rest of the file. `none` means that the fuel ran out.
  unfoldable pub parse_loop :
      ℕ → CopybookLayout → Progress F → (record_num : ℕ) → List ℕ → Option (Progress F)
  unfolding add_record increment
  parse_loop zero layout s record_num input = none
  parse_loop (suc fuel) layout s record_num input =
      let raw = take layout.record_length input in
      let rest =
        parse_loop fuel layout (add_record layout s record_num raw) (record_num + 1)
          (drop layout.record_length input) in
      elim raw [
        | [] ↦ some s
        | b ∷ bs ↦
            if ltb (length (b ∷ bs)) layout.record_length
            then some (record s { failed_count = increment s.failed_count 1 })
            else rest
      ]

  -- Every round but the last takes a byte, so a round more than there are bytes is enough.
  unfoldable pub parse_data : Parser F → List ℕ → Option (Progress F)
  unfolding parse_loop
  parse_data p input =
      parse_loop (suc (length input)) p.layout
        (record { records = []; parsed_count = p.record_count; failed_count = p.error_count }) 0
        input

  -- The state of the parser after a parse, with the summary that was written.
  abbrev finish :
      Disk
      → Parser F
      → String
      → Progress F
      → Parser F × Result (List (MainframeRecord F)) × Option Summary
  finish disk p path s =
      let p' : Parser F = record p {
        record_count = s.parsed_count;
        error_count = s.failed_count;
      } in
      (
        save_cache disk p' path s.records,
        ok s.records,
        some (write_summary s.failed_count s.records),
      )

  -- The outer option is `none` when the fuel of the loop ran out.
  unfoldable pub parse_file :
      Disk
      → Parser F
      → String
      → Option (Parser F × Result (List (MainframeRecord F)) × Option Summary)
  unfolding load_cache save_cache write_summary parse_data
  parse_file disk p path = elim (load_cache disk p path) [
    | raise e ↦ some (p, raise e, none)
    | ok (some records) ↦ some (p, ok records, none)
    | ok none ↦ elim (disk.content path) [
      | none ↦ some (p, raise os_error, none)
      | some input ↦ elim (parse_data p input) [
        | none ↦ none
        | some s ↦ some (finish disk p path s)
      ]
    ]
  ]
