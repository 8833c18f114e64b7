-- ===== src/Data/Mainframe/Records.antt =====
-- MainframeRecord, and `_parse_record`.
pub mod Errors
use Prim.Native.String.{String}
use py2to3_example_project.Prelude.{
  ℕ, zero, suc, ◌+◌, ◌-◌, ◌%◌, ◌≤◌, ◌<◌, ◌≡◌, refl, ap, ◌∙◌, ◌⊎◌, inl, inr, Bool, true, false,
  Option, none, some, List, [], ◌∷◌, ◌++◌, arith, ltb, if◌then◌else◌, length, length-append,
  Bool-cases,
}
use py2to3_example_project.Prelude.Int.{ℤ, pos, negsuc}
use py2to3_example_project.Prelude.Text.{String_discrete}
use py2to3_example_project.Prelude.Dict.{lookup, insert}
use py2to3_example_project.Prelude.Py.{
  Exc, Raw, bytes, text, elements, ords, Result, ok, raise, ◌>>=◌, attribute_error,
}
use py2to3_example_project.Prelude.Struct.{slice, slice_raw}
use py2to3_example_project.Core.Types.{LargeCounter, increment}
use py2to3_example_project.Data.Mainframe.Decimal.{decode_comp3, decode_zoned_decimal}
use py2to3_example_project.Data.Mainframe.Binary.{decode_binary_field}
use py2to3_example_project.Data.Mainframe.Layout.{
  FieldType, char, comp3, binary, zoned, other, Field, CopybookLayout,
}

-- What the standard library gives: the codec, the test for white space, and the quotient of a
-- number by a power of ten as a float of type `F`, which can overflow.
pub record Library (F : Type 0) : Type 0 where
  pub decode_cp037 : List ℕ → List ℕ
  pub is_space : ℕ → Bool
  pub scale : ℤ → (decimals : ℕ) → Result F

pub data Value (F : Type 0) : Type 0 where
  chars : List ℕ → Value F
  whole : ℤ → Value F
  scaled : F → Value F
  plain : Raw → Value F

-- The messages in `_parse_errors`.
pub data ParseProblem : Type 0 where
  unknown_type : (ftype name : String) → ParseProblem
  failed_field : (name : String) → Exc → ParseProblem

pub record MainframeRecord (F : Type 0) : Type 0 where
  pub record_number : ℕ
  pub raw_bytes : Raw
  pub parsed_fields : List (String × Value F)
  pub parse_errors : List ParseProblem

-- `0xFFFFFFFF & n`, of two's complement for a negative number.
abbrev pub region_of : ℤ → ℕ
region_of (pos n) = n % 4294967296
region_of (negsuc n) = 4294967295 - n % 4294967296

module _ {F : Type 0} where
  unfoldable pub new_record : ℕ → Raw → MainframeRecord F
  new_record record_number raw_bytes = record {
    record_number = record_number;
    raw_bytes = raw_bytes;
    parsed_fields = [];
    parse_errors = [];
  }

  unfoldable pub get_value : MainframeRecord F → String → Option (Value F)
  get_value r field_name = lookup String_discrete field_name r.parsed_fields

  unfoldable pub set_field : MainframeRecord F → String → Value F → MainframeRecord F
  set_field r field_name v = record r {
    parsed_fields = insert String_discrete field_name v r.parsed_fields;
  }

  unfoldable pub add_error : MainframeRecord F → ParseProblem → MainframeRecord F
  add_error r message = record r { parse_errors = r.parse_errors ++ message ∷ [] }

  unfoldable pub has_errors : MainframeRecord F → Bool
  has_errors r = ltb 0 (length r.parse_errors)

module _ {F : Type 0} (lib : Library F) where
  -- `rstrip()`
  rstrip : List ℕ → List ℕ
  rstrip [] = []
  rstrip (c ∷ cs) = elim (rstrip cs) [
    | [] ↦ if lib.is_space c then [] else c ∷ []
    | d ∷ ds ↦ c ∷ d ∷ ds
  ]

  -- `float(n) / (10 ** decimals)` for a field with decimal places.
  abbrev number : (decimals : ℕ) → ℤ → Result (Value F)
  number decimals n =
      if ltb 0 decimals then (lib.scale n decimals >>= λ x. ok (scaled x)) else ok (whole n)

  -- The value of a field of one of the known types; `str` has no method `decode`.
  abbrev decode_char : Raw → Result (Value F)
  decode_char (bytes cs) = ok (chars (rstrip (lib.decode_cp037 cs)))
  decode_char (text cs) = raise attribute_error

  pub field_value : FieldType → (decimals : ℕ) → Raw → Result (Value F)
  unfolding rstrip decode_comp3 decode_binary_field decode_zoned_decimal
  field_value char decimals raw = decode_char raw
  field_value comp3 decimals raw = decode_comp3 raw >>= number decimals
  field_value binary decimals raw = decode_binary_field raw true >>= λ n. ok (whole n)
  field_value zoned decimals raw = decode_zoned_decimal raw >>= number decimals
  field_value (other ftype) decimals raw = ok (plain raw)

  -- The message for an unknown type, which stands before the value is set.
  abbrev pub note_type : Field → FieldType → MainframeRecord F → MainframeRecord F
  note_type f (other ftype) r = add_error r (unknown_type ftype f.name)
  note_type f char r = r
  note_type f comp3 r = r
  note_type f binary r = r
  note_type f zoned r = r

  -- The value is set, or the exception is noted and counted.
  pub keep_value :
      MainframeRecord F → LargeCounter → Field → Result (Value F) → MainframeRecord F × LargeCounter
  unfolding add_error set_field increment
  keep_value r errors f (ok v) = (set_field (note_type f f.field_type r) f.name v, errors)
  keep_value r errors f (raise e) = (add_error r (failed_field f.name e), increment errors 1)

  -- The body of the loop over the fields.
  unfoldable pub parse_field :
      MainframeRecord F × LargeCounter → Field → MainframeRecord F × LargeCounter
  unfolding keep_value field_value
  parse_field (r, errors) f = keep_value r errors f (
      field_value f.field_type f.decimal_places
        (slice_raw f.offset (f.offset + f.size) r.raw_bytes))

  unfoldable pub parse_fields :
      MainframeRecord F × LargeCounter → List Field → MainframeRecord F × LargeCounter
  unfolding parse_field
  parse_fields state [] = state
  parse_fields state (f ∷ fs) = parse_fields (parse_field state f) fs

  -- The region code of an account number that is an integer.
  unfoldable pub add_region : MainframeRecord F → MainframeRecord F
  unfolding get_value set_field
  add_region r = elim (get_value r "ACCOUNT-NO") [
    | some (whole n) ↦ set_field r "_REGION_CODE" (whole (pos (region_of n)))
    | _ ↦ r
  ]

  unfoldable pub parse_record :
      CopybookLayout → LargeCounter → ℕ → Raw → MainframeRecord F × LargeCounter
  unfolding parse_fields new_record add_region
  parse_record layout errors record_num raw =
      let (r, errors') = parse_fields (new_record record_num raw, errors) layout.fields in
      (add_region r, errors')
