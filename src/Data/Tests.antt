-- ===== src/Data/Tests.antt =====
-- Tests and instances for src/data_processing.
use py2to3_example_project.Prelude.{
  ℕ, ◌≤◌, ◌<◌, ◌≡◌, refl, true, some, List, [], ◌∷◌, ◌++◌, ◌||◌, arith, length, if◌then◌else◌, ◌==◌,
}
use py2to3_example_project.Prelude.Int.{ℤ, pos, negsuc}
use py2to3_example_project.Prelude.Py.{bytes, text, ok}
use py2to3_example_project.Core.Types.{new_counter}
use py2to3_example_project.Data.Mainframe.Decimal
use py2to3_example_project.Data.Mainframe.Decimal.{
  decode_comp3, decode_zoned_decimal, is_negative_sign, negated, decimal, digits_of, packed, zoned,
}
use py2to3_example_project.Data.Mainframe.Layout
use py2to3_example_project.Data.Mainframe.Layout.{
  Field, CopybookLayout, new_layout, add_fields, get_field, last_named, or_raise,
}
use py2to3_example_project.Data.Mainframe.Records.{Library, parse_record}
use py2to3_example_project.Data.Mainframe.Records.Errors
use py2to3_example_project.Data.Mainframe.Records.Errors.{count_comp3}
use py2to3_example_project.Data.Mainframe.Files.{Disk, complete, Parser, Progress, parse_data}
use py2to3_example_project.Data.Mainframe.Blocks
use py2to3_example_project.Data.Mainframe.Blocks.{bytes_of, AllSized}

-- 12 34 5D: the number -12345.
minus_12345 : decode_comp3 (text (0x12 ∷ 0x34 ∷ 0x5D ∷ [])) ≡ ok (negsuc 12344)
unfolding decode_comp3
minus_12345 = refl

-- 01 23 45 3C, which decode_comp3 has as +12345 in its comment.
plus_123453 : decode_comp3 (text (0x01 ∷ 0x23 ∷ 0x45 ∷ 0x3C ∷ [])) ≡ ok (pos 123453)
unfolding decode_comp3
plus_123453 = refl

decode_comp3-packed_example :
    decode_comp3 (text (packed ((1, 2) ∷ (3, 4) ∷ []) 5 13))
    ≡ ok (
        if 13 == 13 || 13 == 11
        then negated (decimal 0 (digits_of ((1, 2) ∷ (3, 4) ∷ []) 5))
        else pos (decimal 0 (digits_of ((1, 2) ∷ (3, 4) ∷ []) 5)))
decode_comp3-packed_example =
    Decimal.decode_comp3-packed ((1, 2) ∷ (3, 4) ∷ []) 5 13
      (omega arith, omega arith, (omega arith, omega arith, tt)) (omega arith) (omega arith)

abbrev account : Field
account = record {
  name = "ACCOUNT-NO";
  offset = 0;
  size = 2;
  field_type = Layout.comp3;
  decimal_places = 0;
}

abbrev layout : CopybookLayout
layout = record {
  layout_name = "TRANS";
  record_length = 4;
  fields = account ∷ [];
  field_index = ("ACCOUNT-NO", account) ∷ [];
}

abbrev lib : Library ℤ
lib = record { decode_cp037 = λ cs. cs; is_space = λ c. c == 64; scale = λ n d. ok n }

parse_record-errors_example :
    count_comp3 (account ∷ [])
    ≤ length
        (parse_record lib layout
          (new_counter 0)
          0
          (bytes (0x12 ∷ 0x3C ∷ 64 ∷ 64 ∷ []))).0.parse_errors
parse_record-errors_example =
    Errors.parse_record-errors lib layout (new_counter 0) 0 (0x12 ∷ 0x3C ∷ 64 ∷ 64 ∷ [])

abbrev parser : Parser ℤ
parser = record {
  layout = layout;
  has_cache = true;
  record_count = record { value = 0 };
  error_count = record { value = 0 };
  cache = [];
}

-- Two records and a truncated one.
abbrev input : List ℕ
input = 1 ∷ 2 ∷ 3 ∷ 4 ∷ 5 ∷ 6 ∷ 7 ∷ 8 ∷ 9 ∷ []

parse_data_lem_example :
    (t : Progress ℤ) × (rest : List ℕ) × (parse_data lib parser input ≡ some t)
    × (bytes_of t.records ++ rest ≡ input)
    × (length rest < 4)
    × AllSized 4 t.records
parse_data_lem_example = Blocks.parse_data_lem lib layout parser input refl (omega arith)

abbrev disk : Disk
disk = record { content = λ p. some input; cache_key = λ p. p; save_of = λ p. complete }
