-- ===== src/Data/Json/RecordSet.antt =====
-- JsonRecordSet of src/data_processing/json_handler.py, and the record sets that payloads make.
use Prim.Native.String.{String}
use py2to3_example_project.Prelude.{
  ℕ, ◌≡◌, refl, sym, ap, ◌∙◌, ite, if_pos, if_neg, Option, none, some, List, [], ◌∷◌, ◌++◌, arith,
  length, append_assoc, append-nil,
}
use py2to3_example_project.Prelude.Int.{pos}
use py2to3_example_project.Prelude.Text.{String_discrete}
use py2to3_example_project.Prelude.Dict.{lookup, insert, Fresh, Distinct, update}
use py2to3_example_project.Prelude.Py.{Result, ok, raise, parse_error}
use py2to3_example_project.Data.Json.Value.{
  Value, null, number, str, arr, obj, end, field, to_list, from_list, to_dict, from_dict,
}

pub record JsonRecordSet : Type 0 where
  pub source_id : Option String
  pub records : List Value
  pub received_at : Value
  pub metadata : List (String × Value)

-- `now` is what `time.time()` returns.
unfoldable pub new_set : (now : Value) → Option String → JsonRecordSet
new_set now source_id = record {
  source_id = source_id;
  records = [];
  received_at = now;
  metadata = [];
}

unfoldable pub add_record : JsonRecordSet → Value → JsonRecordSet
add_record s v = record s { records = s.records ++ v ∷ [] }

abbrev pub count : JsonRecordSet → ℕ
count s = length s.records

unfoldable pub get_metadata : JsonRecordSet → (key : String) → (default : Value) → Value
get_metadata s key default = elim (lookup String_discrete key s.metadata) [
  | none ↦ default
  | some v ↦ v
]

unfoldable pub set_metadata : JsonRecordSet → String → Value → JsonRecordSet
set_metadata s key v = record s { metadata = insert String_discrete key v s.metadata }

abbrev pub source_value : Option String → Value
source_value none = null
source_value (some s) = str s

unfoldable pub set_to_dict : JsonRecordSet → Value
set_to_dict s = obj (
    field "source_id" (source_value s.source_id) (
      field "received_at" s.received_at (
        field "count" (number (pos (count s))) (
          field "metadata" (obj (from_dict s.metadata))
            (field "records" (arr (from_list s.records)) end)))))

-- `for item in items: record_set.add_record(item)`
unfoldable pub add_all : JsonRecordSet → List Value → JsonRecordSet
unfolding add_record
add_all s [] = s
add_all s (v ∷ vs) = add_all (add_record s v) vs

-- The loop over the keys of the envelope.
unfoldable pub add_metadata : JsonRecordSet → List (String × Value) → JsonRecordSet
unfolding set_metadata
add_metadata s [] = s
add_metadata s ((k, v) ∷ d) =
    add_metadata (ite (String_discrete k "records") s (set_metadata s k v)) d

-- `data.get("records", [])` added, or the whole envelope if that is no list.
abbrev pub add_records : JsonRecordSet → Value → Option Value → JsonRecordSet
add_records s envelope none = s
add_records s envelope (some (arr items)) = add_all s (to_list items)
add_records s envelope (some other) = add_record s envelope

unfoldable pub build_record_set : (now : Value) → Value → Option String → Result JsonRecordSet
unfolding new_set add_all add_metadata add_record
build_record_set now (arr items) source_id = ok (add_all (new_set now source_id) (to_list items))
build_record_set now (obj fields) source_id = ok (
    add_records (add_metadata (new_set now source_id) (to_dict fields)) (obj fields)
      (lookup String_discrete "records" (to_dict fields)))
build_record_set now other source_id = raise parse_error

pub add_all_lem :
    (s : JsonRecordSet) (vs : List Value) → add_all s vs ≡ record s { records = s.records ++ vs }
unfolding add_all
add_all_lem s [] = ap (λ (rs : List Value). record s { records = rs }) (sym (append-nil s.records))
add_all_lem s (v ∷ vs) =
    add_all_lem (add_record s v) vs
    ∙ ap (λ (rs : List Value). record s { records = rs }) (append_assoc s.records (v ∷ []) vs)

-- The entries of an envelope beside its records.
abbrev pub others : List (String × Value) → List (String × Value)
others [] = []
others ((k, v) ∷ d) = ite (String_discrete k "records") (others d) ((k, v) ∷ others d)

pub add_metadata-update :
    (s : JsonRecordSet) (d : List (String × Value))
    → add_metadata s d ≡ record s { metadata = update String_discrete s.metadata (others d) }
unfolding add_metadata set_metadata update
add_metadata-update s [] = refl
add_metadata-update s ((k, v) ∷ d) = elim (String_discrete k "records") [
  | yes p ↦
      ap (λ t. add_metadata t d) (if_pos (String_discrete k "records") p s (set_metadata s k v))
      ∙ add_metadata-update s d
      ∙ ap (λ e. record s { metadata = update String_discrete s.metadata e })
          (sym (if_pos (String_discrete k "records") p (others d) ((k, v) ∷ others d)))
  | no p ↦
      ap (λ t. add_metadata t d) (if_neg (String_discrete k "records") p s (set_metadata s k v))
      ∙ add_metadata-update (set_metadata s k v) d
      ∙ ap (λ e. record s { metadata = update String_discrete s.metadata e })
          (sym (if_neg (String_discrete k "records") p (others d) ((k, v) ∷ others d)))
]

pub Fresh-others :
    (k : String) (d : List (String × Value))
    → Fresh String_discrete k d
    → Fresh String_discrete k (others d)
Fresh-others k [] h = tt
Fresh-others k ((j, v) ∷ d) h = elim (String_discrete j "records") [
  | yes p ↦
      rw (if_pos (String_discrete j "records") p (others d) ((j, v) ∷ others d))
        (Fresh-others k d h.1)
  | no p ↦
      rw (if_neg (String_discrete j "records") p (others d) ((j, v) ∷ others d))
        (h.0, Fresh-others k d h.1)
]

pub Distinct-others :
    (d : List (String × Value)) → Distinct String_discrete d → Distinct String_discrete (others d)
Distinct-others [] h = tt
Distinct-others ((j, v) ∷ d) h = elim (String_discrete j "records") [
  | yes p ↦
      rw (if_pos (String_discrete j "records") p (others d) ((j, v) ∷ others d))
        (Distinct-others d h.1)
  | no p ↦
      rw (if_neg (String_discrete j "records") p (others d) ((j, v) ∷ others d))
        (Fresh-others j d h.0, Distinct-others d h.1)
]

pub lookup-others :
    (k : String) (d : List (String × Value))
    → ¬ (k ≡ "records")
    → lookup String_discrete k (others d) ≡ lookup String_discrete k d
unfolding lookup
lookup-others k [] h = refl
lookup-others k ((j, v) ∷ d) h = ground (arith, lookup-others k d)

pub lookup-others_records :
    (d : List (String × Value)) → lookup String_discrete "records" (others d) ≡ none
unfolding lookup
lookup-others_records [] = refl
lookup-others_records ((j, v) ∷ d) = ground (arith, lookup-others_records d)
