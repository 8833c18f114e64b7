-- ===== src/Data/Json/Handler.antt =====
-- JsonHandler of src/data_processing/json_handler.py. json, pickle, the codecs and the file system
-- are arguments; a clock reading stands beside each call of the clock.
use Prim.Native.String.{String}
use py2to3_example_project.Prelude.{
  ℕ, ◌+◌, ◌*◌, Bool, true, false, Option, none, some, List, [], ◌∷◌, ◌++◌, ltb, if◌then◌else◌, ite,
}
use py2to3_example_project.Prelude.Text.{String_discrete, codes}
use py2to3_example_project.Prelude.Str.{Str, contains}
use py2to3_example_project.Prelude.Dict.{lookup, insert, has_key}
use py2to3_example_project.Prelude.Py.{
  Exc, Raw, bytes, text, Result, ok, raise, ◌>>=◌, type_error, value_error, unicode_error,
  attribute_error, os_error, data_error, parse_error,
}
use py2to3_example_project.Data.Json.Value.{Value, str, arr, obj, to_dict, from_dict, to_list}
use py2to3_example_project.Data.Json.RecordSet.{
  JsonRecordSet, new_set, build_record_set, set_to_dict,
}

-- What pickle.load returns.
pub data Pickled : Type 0 where
  record_set : JsonRecordSet → Pickled
  another : Pickled

-- json.loads on bytes, json.dumps with its options `indent` and `sort_keys`, the encoder of the
-- default encoding, and pickle.
pub record Json : Type 0 where
  pub loads : List ℕ → Result Value
  pub dumps : (indent sort_keys : Bool) → Value → Result Str
  pub encode : Str → Result (List ℕ)
  pub pickle_dump : JsonRecordSet → Result (List ℕ)
  pub pickle_load : List ℕ → Result Pickled

-- 50 MB
abbrev pub max_json_size : ℕ
max_json_size = 50 * 1024 * 1024

abbrev is_value_or_type_error : Exc → Bool
is_value_or_type_error value_error = true
is_value_or_type_error unicode_error = true
is_value_or_type_error type_error = true
is_value_or_type_error _ = false

-- `except (ValueError, TypeError)`
abbrev pub as_parse_error : Result Value → Result Value
as_parse_error (ok v) = ok v
as_parse_error (raise e) = raise (if is_value_or_type_error e then parse_error else e)

module _ (json : Json) where
  unfoldable pub load_bytes : (now : Value) → List ℕ → Option String → Result JsonRecordSet
  unfolding build_record_set
  load_bytes now raw source_id =
      as_parse_error (json.loads raw) >>= λ v. build_record_set now v source_id

  -- `size` is that of `os.stat`, none when it raises; `content` is none when `open` raises.
  unfoldable pub load_file :
      (now : Value)
      → (path : String) → (size : Option ℕ) → (content : Option (List ℕ)) → Result JsonRecordSet
  unfolding load_bytes
  load_file now path none content = raise os_error
  load_file now path (some size) content =
      if ltb max_json_size size
      then raise data_error
      else elim content [ none ↦ raise os_error | some raw ↦ load_bytes now raw (some path) ]

  -- The chunks that `stream.read` returns, to the first empty one; the buffer takes only bytes.
  unfoldable pub buffer_chunks : List ℕ → List Raw → Result (List ℕ)
  buffer_chunks buf [] = ok buf
  buffer_chunks buf (bytes [] ∷ chunks) = ok buf
  buffer_chunks buf (text [] ∷ chunks) = ok buf
  buffer_chunks buf (bytes (c ∷ cs) ∷ chunks) = buffer_chunks (buf ++ c ∷ cs) chunks
  buffer_chunks buf (text (c ∷ cs) ∷ chunks) = raise type_error

  unfoldable pub load_stream : (now : Value) → List Raw → Option String → Result JsonRecordSet
  unfolding buffer_chunks load_bytes
  load_stream now chunks source_id = buffer_chunks [] chunks >>= λ raw. load_bytes now raw source_id

  -- The new content of the file; `opens` says whether `open` succeeds.
  unfoldable pub dump_to_file : JsonRecordSet → (opens pretty : Bool) → Result (List ℕ)
  unfolding set_to_dict
  dump_to_file s opens pretty = json.dumps pretty pretty (set_to_dict s) >>= λ t.
      json.encode t >>= λ bs. if opens then ok bs else raise os_error

  -- The content of the buffer, read from its start.
  unfoldable pub dump_to_stream : JsonRecordSet → (pretty : Bool) → Result (List ℕ)
  unfolding set_to_dict
  dump_to_stream s pretty = json.dumps pretty false (set_to_dict s) >>= λ t. json.encode t

  unfoldable pub pickle_record_set : JsonRecordSet → (opens : Bool) → Result (List ℕ)
  pickle_record_set s opens = if opens then json.pickle_dump s else raise os_error

  unfoldable pub unpickle_record_set : (content : Option (List ℕ)) → Result JsonRecordSet
  unpickle_record_set none = raise os_error
  unpickle_record_set (some raw) = elim (json.pickle_load raw) [
    | raise e ↦ raise e
    | ok (record_set s) ↦ ok s
    | ok another ↦ raise data_error
  ]

abbrev has_item : String → List Value → Bool
has_item name [] = false
has_item name (str s ∷ vs) = ite (String_discrete s name) true (has_item name vs)
has_item name (_ ∷ vs) = has_item name vs

-- `name in record`
unfoldable pub has_field : String → Value → Result Bool
unfolding contains
has_field name (obj fields) = ok (has_key String_discrete name (to_dict fields))
has_field name (arr items) = ok (has_item name (to_list items))
has_field name (str s) = ok (contains (codes name) (codes s))
has_field name other = raise type_error

abbrev pub note_missing : String → Result Bool → Result (List String) → Result (List String)
note_missing name (raise e) rest = raise e
note_missing name (ok true) rest = rest
note_missing name (ok false) rest = rest >>= λ names. ok (name ∷ names)

-- The loop over the required fields.
unfoldable pub missing_fields : List String → Value → Result (List String)
unfolding has_field
missing_fields [] v = ok []
missing_fields (name ∷ names) v = note_missing name (has_field name v) (missing_fields names v)

-- A validation error, by what its message is formatted from.
pub data Invalid : Type 0 where
  missing : (index : ℕ) → (fields : List String) → Invalid
  transform : (field : String) → Exc → Invalid

-- A record with its missing fields, before what follows it.
abbrev pub validate_one :
    ℕ
    → Value
    → Result (List String)
    → List Invalid × Result (List Value)
    → List Invalid × Result (List Value)
validate_one i v (raise e) rest = ([], raise e)
validate_one i v (ok []) rest = (rest.0, (rest.1 >>= λ vs. ok (v ∷ vs)))
validate_one i v (ok (name ∷ names)) rest = (missing i (name ∷ names) ∷ rest.0, rest.1)

-- The loop of validate_records: the errors, and the valid records unless a test raises.
unfoldable pub validate_loop : List String → ℕ → List Value → List Invalid × Result (List Value)
unfolding missing_fields
validate_loop required i [] = ([], ok [])
validate_loop required i (v ∷ vs) =
    validate_one i v (missing_fields required v) (validate_loop required (i + 1) vs)

-- The handler's validation errors and what it returns.
unfoldable pub validate_records : JsonRecordSet → List String → List Invalid × Result (List Value)
unfolding validate_loop
validate_records s required = validate_loop required 0 s.records

-- `field_map.get(key, key)`
abbrev pub renamed : List (String × String) → String → String
renamed field_map key = elim (lookup String_discrete key field_map) [ none ↦ key | some k ↦ k ]

abbrev pub Transforms : Type 0
Transforms = List (String × (Value → Result Value))

-- The value under its new key, and the error of a transform that raises.
unfoldable pub transform_value : Transforms → String → Value → List Invalid × Value
transform_value transforms key v = elim (lookup String_discrete key transforms) [
  | none ↦ ([], v)
  | some f ↦ elim (f v) [ ok w ↦ ([], w) | raise e ↦ (transform key e ∷ [], v) ]
]

unfoldable pub transform_fields :
    List (String × String)
    → Transforms
    → List (String × Value)
    → List (String × Value)
    → List Invalid × List (String × Value)
unfolding transform_value
transform_fields field_map transforms new [] = ([], new)
transform_fields field_map transforms new ((k, v) ∷ d) =
    let key = renamed field_map k in
    let (errors, w) = transform_value transforms key v in
    let (more, result) =
      transform_fields field_map transforms (insert String_discrete key w new) d in
    (errors ++ more, result)

-- `record.items()` raises AttributeError on a record that is no object.
unfoldable pub transform_all :
    List (String × String) → Transforms → List Value → List Invalid × Result (List Value)
unfolding transform_fields
transform_all field_map transforms [] = ([], ok [])
transform_all field_map transforms (obj fields ∷ vs) =
    let (errors, new) = transform_fields field_map transforms [] (to_dict fields) in
    let (more, rest) = transform_all field_map transforms vs in
    (errors ++ more, (rest >>= λ ws. ok (obj (from_dict new) ∷ ws)))
transform_all field_map transforms (_ ∷ vs) = ([], raise attribute_error)

-- The handler's errors before and after, and the new record set.
unfoldable pub transform_records :
    (now : Value)
    → List Invalid
    → JsonRecordSet
    → List (String × String)
    → Transforms
    → List Invalid × Result JsonRecordSet
unfolding transform_all new_set
transform_records now errors s field_map transforms =
    let (more, records) = transform_all field_map transforms s.records in
    (
      errors ++ more,
      (records >>= λ rs.
          ok (record (new_set now s.source_id) { metadata = s.metadata; records = rs })),
    )
