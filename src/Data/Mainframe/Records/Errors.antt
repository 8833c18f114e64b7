-- ===== src/Data/Mainframe/Records/Errors.antt =====
-- The errors and the bytes of a parsed record.
use py2to3_example_project.Prelude.{
  ℕ, suc, ◌+◌, ◌≤◌, ◌≡◌, refl, ap, ◌∙◌, inl, inr, Bool, true, false, Option, none, some, List, [],
  ◌∷◌, arith, if◌then◌else◌, length, length-append, Bool-cases,
}
use py2to3_example_project.Prelude.Int.{ℤ}
use py2to3_example_project.Prelude.Py.{Exc, Raw, bytes, ords, Result, ok, raise}
use py2to3_example_project.Prelude.Struct.{slice, slice_raw}
use py2to3_example_project.Core.Types.{LargeCounter}
use py2to3_example_project.Data.Mainframe.Decimal.{decode_comp3}
use py2to3_example_project.Data.Mainframe.Layout.{
  FieldType, char, comp3, binary, zoned, other, Field, CopybookLayout,
}
use py2to3_example_project.Data.Mainframe.Records.{
  Library, Value, ParseProblem, MainframeRecord, new_record, get_value, set_field, add_error,
  field_value, note_type, keep_value, parse_field, parse_fields, add_region, parse_record, chars,
  whole, scaled, plain, unknown_type, failed_field,
}

-- How many fields are packed decimals.
abbrev pub is_comp3 : FieldType → Bool
is_comp3 comp3 = true
is_comp3 char = false
is_comp3 binary = false
is_comp3 zoned = false
is_comp3 (other ftype) = false

unfoldable pub count_comp3 : List Field → ℕ
count_comp3 [] = 0
count_comp3 (f ∷ fs) = let rest = count_comp3 fs in if is_comp3 f.field_type then suc rest else rest

count_comp3-cons :
    (f : Field) (fs : List Field) → count_comp3 (f ∷ fs) ≡ count_comp3 (f ∷ []) + count_comp3 fs
unfolding count_comp3
count_comp3-cons f fs = ground arith

is_comp3-eq : (t : FieldType) → is_comp3 t ≡ true → t ≡ comp3
is_comp3-eq comp3 e = refl
is_comp3-eq char e = absurd (ground arith)
is_comp3-eq binary e = absurd (ground arith)
is_comp3-eq zoned e = absurd (ground arith)
is_comp3-eq (other ftype) e = absurd (ground arith)

decode_comp3-bytes : (cs : List ℕ) (v : ℤ) → decode_comp3 (bytes cs) ≡ ok v → ⊥
unfolding decode_comp3 ords
decode_comp3-bytes [] v e = ground arith
decode_comp3-bytes (c ∷ cs) v e = ground arith

module _ {F : Type 0} (lib : Library F) where
  field_value-comp3 :
      (decimals : ℕ) (cs : List ℕ)
      → (e : Exc) × (field_value lib comp3 decimals (bytes cs) ≡ raise e)
  unfolding field_value
  field_value-comp3 decimals cs = by_result (decode_comp3 (bytes cs)) refl
    where
      by_result :
          (r : Result ℤ)
          → decode_comp3 (bytes cs) ≡ r
          → (e : Exc) × (field_value lib comp3 decimals (bytes cs) ≡ raise e)
      by_result (ok v) q = absurd (decode_comp3-bytes cs v q)
      by_result (raise e) q = (e, rw (q, field_value) refl)

  note_type-errors :
      (r : MainframeRecord F) (f : Field) (t : FieldType)
      → (length r.parse_errors ≤ length (note_type lib f t r).parse_errors)
        × ((note_type lib f t r).raw_bytes ≡ r.raw_bytes)
  unfolding add_error
  note_type-errors r f (other t) =
      (omega (arith, length-append {0} r.parse_errors (unknown_type t f.name ∷ [])), refl)
  note_type-errors r f char = (omega arith, refl)
  note_type-errors r f comp3 = (omega arith, refl)
  note_type-errors r f binary = (omega arith, refl)
  note_type-errors r f zoned = (omega arith, refl)

  keep_value-errors :
      (r : MainframeRecord F) (errors : LargeCounter) (f : Field) (v : Result (Value F))
      → (length r.parse_errors ≤ length (keep_value lib r errors f v).0.parse_errors)
        × ((keep_value lib r errors f v).0.raw_bytes ≡ r.raw_bytes)
  unfolding keep_value add_error set_field
  keep_value-errors r errors f (ok v) = note_type-errors r f f.field_type
  keep_value-errors r errors f (raise e) =
      (omega (arith, length-append {0} r.parse_errors (failed_field f.name e ∷ [])), refl)

  keep_value-raise :
      (r : MainframeRecord F) (errors : LargeCounter) (f : Field) (e : Exc)
      → length (keep_value lib r errors f (raise e)).0.parse_errors ≡ length r.parse_errors + 1
  unfolding keep_value add_error
  keep_value-raise r errors f e = length-append {0} r.parse_errors (failed_field f.name e ∷ [])

  -- Whatever the field, its value from the record's bytes.
  abbrev value_of : MainframeRecord F → Field → Result (Value F)
  value_of r f =
      field_value lib f.field_type f.decimal_places
        (slice_raw f.offset (f.offset + f.size) r.raw_bytes)

  parse_field-comp3 :
      (r : MainframeRecord F) (errors : LargeCounter) (f : Field) (cs : List ℕ)
      → r.raw_bytes ≡ bytes cs
      → f.field_type ≡ comp3
      → length (parse_field lib (r, errors) f).0.parse_errors ≡ length r.parse_errors + 1
  unfolding parse_field
  parse_field-comp3 r errors f cs e t =
      let (x, q) = field_value-comp3 f.decimal_places (slice f.offset (f.offset + f.size) cs) in
      let raised : value_of r f ≡ raise x =
        (λ i. field_value lib (t i) f.decimal_places (slice_raw f.offset (f.offset + f.size) (e i)))
        ∙ q in
      ap (λ v. length (keep_value lib r errors f v).0.parse_errors) raised
      ∙ keep_value-raise r errors f x

  -- A field keeps the bytes and the errors of a record, and a packed decimal adds an error.
  parse_field-errors :
      (r : MainframeRecord F) (errors : LargeCounter) (f : Field) (cs : List ℕ)
      → r.raw_bytes ≡ bytes cs
      → (length r.parse_errors + count_comp3 (f ∷ [])
          ≤ length (parse_field lib (r, errors) f).0.parse_errors)
        × ((parse_field lib (r, errors) f).0.raw_bytes ≡ bytes cs)
  unfolding count_comp3 parse_field
  parse_field-errors r errors f cs e =
      let kept = keep_value-errors r errors f (value_of r f) in
      elim (Bool-cases (is_comp3 f.field_type)) [
        | inl t ↦ (
          rw t (omega (arith, parse_field-comp3 r errors f cs e (is_comp3-eq f.field_type t))),
          kept.1 ∙ e,
        )
        | inr t ↦ (rw t (omega (arith, kept.0)), kept.1 ∙ e)
      ]

  parse_fields-errors :
      (fs : List Field) (r : MainframeRecord F) (errors : LargeCounter) (cs : List ℕ)
      → r.raw_bytes ≡ bytes cs
      → length r.parse_errors + count_comp3 fs
        ≤ length (parse_fields lib (r, errors) fs).0.parse_errors
  unfolding parse_fields count_comp3
  parse_fields-errors [] r errors cs e = omega arith
  parse_fields-errors (f ∷ fs) r errors cs e =
      let step = parse_field-errors r errors f cs e in
      let (r', errors') = parse_field lib (r, errors) f in
      omega (arith, step.0, parse_fields-errors fs r' errors' cs step.1, count_comp3-cons f fs)

  add_region-errors : (r : MainframeRecord F) → (add_region lib r).parse_errors ≡ r.parse_errors
  unfolding add_region set_field
  add_region-errors r = by_value (get_value r "ACCOUNT-NO") refl
    where
      by_value :
          (o : Option (Value F))
          → get_value r "ACCOUNT-NO" ≡ o
          → (add_region lib r).parse_errors ≡ r.parse_errors
      by_value none q = rw (q, add_region) refl
      by_value (some (whole n)) q = rw (q, add_region) refl
      by_value (some (chars cs)) q = rw (q, add_region) refl
      by_value (some (scaled x)) q = rw (q, add_region) refl
      by_value (some (plain raw)) q = rw (q, add_region) refl

  -- A record that was read as bytes has at least one error for every packed decimal of its layout.
  pub parse_record-errors :
      (layout : CopybookLayout) (errors : LargeCounter) (record_num : ℕ) (cs : List ℕ)
      → count_comp3 layout.fields
        ≤ length (parse_record lib layout errors record_num (bytes cs)).0.parse_errors
  unfolding parse_record new_record
  parse_record-errors layout errors record_num cs =
      let r : MainframeRecord F = new_record record_num (bytes cs) in
      let done = (parse_fields lib (r, errors) layout.fields).0 in
      omega (
        arith,
        parse_fields-errors layout.fields r errors cs refl,
        ap (λ (ms : List ParseProblem). length ms) (add_region-errors done),
      )

  parse_fields-raw_bytes :
      (fs : List Field) (r : MainframeRecord F) (errors : LargeCounter)
      → (parse_fields lib (r, errors) fs).0.raw_bytes ≡ r.raw_bytes
  unfolding parse_fields parse_field
  parse_fields-raw_bytes [] r errors = refl
  parse_fields-raw_bytes (f ∷ fs) r errors =
      let (r', errors') = parse_field lib (r, errors) f in
      parse_fields-raw_bytes fs r' errors' ∙ (keep_value-errors r errors f (value_of r f)).1

  add_region-raw_bytes : (r : MainframeRecord F) → (add_region lib r).raw_bytes ≡ r.raw_bytes
  unfolding add_region set_field
  add_region-raw_bytes r = by_value (get_value r "ACCOUNT-NO") refl
    where
      by_value :
          (o : Option (Value F))
          → get_value r "ACCOUNT-NO" ≡ o
          → (add_region lib r).raw_bytes ≡ r.raw_bytes
      by_value none q = rw (q, add_region) refl
      by_value (some (whole n)) q = rw (q, add_region) refl
      by_value (some (chars cs)) q = rw (q, add_region) refl
      by_value (some (scaled x)) q = rw (q, add_region) refl
      by_value (some (plain raw)) q = rw (q, add_region) refl

  pub parse_record-raw_bytes :
      (layout : CopybookLayout) (errors : LargeCounter) (record_num : ℕ) (raw : Raw)
      → (parse_record lib layout errors record_num raw).0.raw_bytes ≡ raw
  unfolding parse_record new_record
  parse_record-raw_bytes layout errors record_num raw =
      add_region-raw_bytes (parse_fields lib (new_record record_num raw, errors) layout.fields).0
      ∙ parse_fields-raw_bytes layout.fields (new_record record_num raw) errors
