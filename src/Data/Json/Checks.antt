-- ===== src/Data/Json/Checks.antt =====
-- What validate_records and transform_records of src/data_processing/json_handler.py return.
use Prim.Native.String.{String}
use py2to3_example_project.Prelude.{
  ℕ, ◌+◌, ◌≡◌, refl, ap, ◌∙◌, Bool, true, false, ◌&&◌, ite, Option, some, List, [], ◌∷◌, ◌++◌,
  arith, length, length-append, if◌then◌else◌, Bool-cases, inl, inr,
}
use py2to3_example_project.Prelude.Text.{String_discrete}
use py2to3_example_project.Prelude.Dict.{lookup, insert, has_key, lookup-insert}
use py2to3_example_project.Prelude.Py.{ok}
use py2to3_example_project.Data.Json.Value.{Value, obj, Fields, to_dict}
use py2to3_example_project.Data.Json.RecordSet.{JsonRecordSet}
use py2to3_example_project.Data.Json.Handler.{
  has_field, note_missing, validate_one, missing_fields, Invalid, missing, validate_loop,
  validate_records, renamed, Transforms, transform_value, transform_fields,
}

-- The records as dictionaries.
abbrev pub objects : List Fields → List Value
objects [] = []
objects (fs ∷ rest) = obj fs ∷ objects rest

-- All required names are keys of the dictionary.
abbrev pub has_all : List String → Fields → Bool
has_all [] fs = true
has_all (name ∷ names) fs = has_key String_discrete name (to_dict fs) && has_all names fs

abbrev pub complete : List String → List Fields → List Fields
complete required [] = []
complete required (fs ∷ rest) =
    let others = complete required rest in if has_all required fs then fs ∷ others else others

-- The names that are missing.
abbrev pub lacking : List String → Fields → List String
lacking [] fs = []
lacking (name ∷ names) fs =
    let rest = lacking names fs in
    if has_key String_discrete name (to_dict fs) then rest else name ∷ rest

missing_fields-lacking :
    (required : List String) (fs : Fields)
    → missing_fields required (obj fs) ≡ ok (lacking required fs)
unfolding missing_fields has_field
missing_fields-lacking [] fs = refl
missing_fields-lacking (name ∷ names) fs =
    ap (note_missing name (ok (has_key String_discrete name (to_dict fs))))
      (missing_fields-lacking names fs)
    ∙ noted_or_not (has_key String_discrete name (to_dict fs))
  where
    noted_or_not :
        (b : Bool)
        → note_missing name (ok b) (ok (lacking names fs))
          ≡ ok (if b then lacking names fs else name ∷ lacking names fs)
    noted_or_not true = refl
    noted_or_not false = refl

abbrev is_nil : List String → Bool
is_nil [] = true
is_nil (_ ∷ _) = false

has_all-lacking :
    (required : List String) (fs : Fields) → has_all required fs ≡ is_nil (lacking required fs)
has_all-lacking [] fs = refl
has_all-lacking (name ∷ names) fs = elim (Bool-cases (has_key String_discrete name (to_dict fs))) [
  | inl present ↦ rw present (has_all-lacking names fs)
  | inr absent ↦ rw absent
]

-- What an incomplete record notes.
abbrev pub noted : ℕ → List String → List Invalid
noted i [] = []
noted i (name ∷ names) = missing i (name ∷ names) ∷ []

abbrev pub all_noted : List String → ℕ → List Fields → List Invalid
all_noted required i [] = []
all_noted required i (fs ∷ rest) = noted i (lacking required fs) ++ all_noted required (i + 1) rest

validate_one_lem :
    (i : ℕ) (fs : Fields) (missing_names : List String) (b : Bool) (errors : List Invalid)
    (rest : List Fields)
    → b ≡ is_nil missing_names
    → validate_one i (obj fs) (ok missing_names) (errors, ok (objects rest))
      ≡ (noted i missing_names ++ errors, ok (objects (if b then fs ∷ rest else rest)))
validate_one_lem i fs [] b errors rest h = rw h refl
validate_one_lem i fs (name ∷ names) b errors rest h = rw h refl

validate_loop_lem :
    (required : List String) (i : ℕ) (rs : List Fields)
    → validate_loop required i (objects rs)
      ≡ (all_noted required i rs, ok (objects (complete required rs)))
unfolding validate_loop
validate_loop_lem required i [] = refl
validate_loop_lem required i (fs ∷ rest) =
    (λ k.
      validate_one i (obj fs) (missing_fields-lacking required fs k)
        (validate_loop_lem required (i + 1) rest k))
    ∙ validate_one_lem i fs (lacking required fs) (has_all required fs)
        (all_noted required (i + 1) rest) (complete required rest) (has_all-lacking required fs)

length-noted :
    (i : ℕ) (fs : Fields) (names : List String) (b : Bool) (rest : List Fields)
    → b ≡ is_nil names
    → length (noted i names) + length (if b then fs ∷ rest else rest) ≡ 1 + length rest
length-noted i fs [] b rest h = rw h (omega arith)
length-noted i fs (name ∷ names) b rest h = rw h (omega arith)

length-all_noted :
    (required : List String) (i : ℕ) (rs : List Fields)
    → length (all_noted required i rs) + length (complete required rs) ≡ length rs
length-all_noted required i [] = omega arith
length-all_noted required i (fs ∷ rest) = omega (
  arith,
  length-append (noted i (lacking required fs)) (all_noted required (i + 1) rest),
  length-noted i fs (lacking required fs) (has_all required fs) (complete required rest)
      (has_all-lacking required fs),
  length-all_noted required (i + 1) rest,
)

-- A validation of dictionaries returns, in order, exactly those that have every required name, and
-- notes each of the others under its index with the names that it lacks: every record is returned
-- or noted, and none is both.
pub validate_records_lem :
    (s : JsonRecordSet) (required : List String) (rs : List Fields)
    → s.records ≡ objects rs
    → (validate_records s required ≡ (all_noted required 0 rs, ok (objects (complete required rs))))
      × (length (all_noted required 0 rs) + length (complete required rs) ≡ length rs)
unfolding validate_records
validate_records_lem s required rs h = (
  ap (λ vs. validate_loop required 0 vs) h ∙ validate_loop_lem required 0 rs,
  length-all_noted required 0 rs,
)

-- What a transform makes of a value under its new name: a transform that raises leaves it.
abbrev pub transformed : Transforms → String → Value → Value
transformed transforms key v = (transform_value transforms key v).1

-- The value of a name in the new record: that of the last field which gets the name.
abbrev pub last_renamed :
    List (String × String)
    → Transforms
    → String
    → List (String × Value)
    → Option Value
    → Option Value
last_renamed field_map transforms q [] found = found
last_renamed field_map transforms q ((k, v) ∷ d) found = last_renamed field_map transforms q d (
    ite (String_discrete (renamed field_map k) q)
      (some (transformed transforms (renamed field_map k) v)) found)

-- In a transformed record a name has the transformed value of the last field that is renamed to it,
-- or of that name where it is not renamed; where there is none, the name is missing.
pub lookup-transform_fields :
    (field_map : List (String × String)) (transforms : Transforms) (q : String)
    (new d : List (String × Value))
    → lookup String_discrete q (transform_fields field_map transforms new d).1
      ≡ last_renamed field_map transforms q d (lookup String_discrete q new)
unfolding transform_fields
lookup-transform_fields field_map transforms q new [] = refl
lookup-transform_fields field_map transforms q new ((k, v) ∷ d) =
    lookup-transform_fields field_map transforms q
      (insert String_discrete (renamed field_map k) (transformed transforms (renamed field_map k) v)
        new)
      d
    ∙ ap (λ o. last_renamed field_map transforms q d o)
        (lookup-insert String_discrete (renamed field_map k) q
          (transformed transforms (renamed field_map k) v) new)
