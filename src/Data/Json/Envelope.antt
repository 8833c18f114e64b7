-- ===== src/Data/Json/Envelope.antt =====
-- What _build_record_set of src/data_processing/json_handler.py makes of a payload.
use Prim.Native.String.{String}
use py2to3_example_project.Prelude.{
  ◌≡◌, refl, ap, ◌∙◌, ite, if_pos, if_neg, Option, none, some, List, [], ◌∷◌, ◌++◌,
}
use py2to3_example_project.Prelude.Text.{String_discrete}
use py2to3_example_project.Prelude.Dict.{lookup, Distinct, or_else, lookup-update}
use py2to3_example_project.Prelude.Py.{ok, raise, parse_error}
use py2to3_example_project.Data.Json.Value.{
  Value, null, boolean, number, real, str, arr, obj, Items, Fields, to_list, to_dict,
}
use py2to3_example_project.Data.Json.RecordSet.{
  JsonRecordSet, new_set, add_all, add_record, add_metadata, add_records, build_record_set, others,
  add_all_lem, add_metadata-update, Distinct-others, lookup-others, lookup-others_records,
}

-- The records of an envelope: the items of its list, the envelope itself where the key holds
-- something else, none without the key.
abbrev pub envelope_records : Value → Option Value → List Value
envelope_records envelope none = []
envelope_records envelope (some (arr items)) = to_list items
envelope_records envelope (some other) = envelope ∷ []

add_records_lem :
    (s : JsonRecordSet) (envelope : Value) (o : Option Value)
    → s.records ≡ []
    → (((add_records s envelope o).records ≡ envelope_records envelope o)
        × ((add_records s envelope o).metadata ≡ s.metadata)
        × ((add_records s envelope o).source_id ≡ s.source_id))
unfolding add_record
add_records_lem s envelope none e = (e, refl, refl)
add_records_lem s envelope (some (arr items)) e =
    let all = add_all_lem s (to_list items) in
    (
      ap (λ t. t.records) all ∙ ap (λ rs. rs ++ to_list items) e,
      ap (λ t. t.metadata) all,
      ap (λ t. t.source_id) all,
    )
add_records_lem s envelope (some null) e = (ap (λ rs. rs ++ envelope ∷ []) e, refl, refl)
add_records_lem s envelope (some (boolean b)) e = (ap (λ rs. rs ++ envelope ∷ []) e, refl, refl)
add_records_lem s envelope (some (number n)) e = (ap (λ rs. rs ++ envelope ∷ []) e, refl, refl)
add_records_lem s envelope (some (real x)) e = (ap (λ rs. rs ++ envelope ∷ []) e, refl, refl)
add_records_lem s envelope (some (str t)) e = (ap (λ rs. rs ++ envelope ∷ []) e, refl, refl)
add_records_lem s envelope (some (obj fs)) e = (ap (λ rs. rs ++ envelope ∷ []) e, refl, refl)

lookup-others_at :
    (k : String) (d : List (String × Value))
    → or_else String_discrete (lookup String_discrete k (others d)) none
      ≡ ite (String_discrete k "records") none (lookup String_discrete k d)
lookup-others_at k d = elim (String_discrete k "records") [
  | yes p ↦ rw (if_pos (String_discrete k "records") p) (rw (p, lookup-others_records d) refl)
  | no p ↦
      rw (if_neg (String_discrete k "records") p)
        (rw (lookup-others k d p) (or_none (lookup String_discrete k d)))
]
  where
    or_none : (o : Option Value) → or_else String_discrete o none ≡ o
    or_none none = refl
    or_none (some v) = refl

abbrev pub IsScalar : Value → Type 0
IsScalar (arr items) = ⊥
IsScalar (obj fields) = ⊥
IsScalar other = Unit

build_record_set-scalar :
    (now : Value) (source : Option String) (v : Value)
    → IsScalar v
    → build_record_set now v source ≡ raise parse_error
unfolding build_record_set
build_record_set-scalar now source null h = refl
build_record_set-scalar now source (boolean b) h = refl
build_record_set-scalar now source (number n) h = refl
build_record_set-scalar now source (real x) h = refl
build_record_set-scalar now source (str t) h = refl
build_record_set-scalar now source (arr items) h = absurd h
build_record_set-scalar now source (obj fields) h = absurd h

-- A list gives a set with its items as records and no metadata. An object gives a set whose
-- metadata are its entries but for "records", and whose records are the items under that key, the
-- object itself if they are no list, and none without the key. Any other payload raises ParseError.
pub build_record_set_lem :
    (now : Value) (source : Option String) (items : Items) (fields : Fields) (other : Value)
    (k : String)
    → Distinct String_discrete (to_dict fields)
    → IsScalar other
    → ((s : JsonRecordSet) × (build_record_set now (arr items) source ≡ ok s)
        × (s.records ≡ to_list items)
        × (s.metadata ≡ []))
      × ((s : JsonRecordSet) × (build_record_set now (obj fields) source ≡ ok s)
          × (s.records
              ≡ envelope_records (obj fields) (lookup String_discrete "records" (to_dict fields)))
          × (lookup String_discrete k s.metadata
              ≡ ite (String_discrete k "records") none (lookup String_discrete k (to_dict fields)))
          × (s.source_id ≡ source))
      × (build_record_set now other source ≡ raise parse_error)
unfolding build_record_set lookup
build_record_set_lem now source items fields other k h o =
    let all = add_all_lem (new_set now source) (to_list items) in
    let d = to_dict fields in
    let meta = add_metadata-update (new_set now source) d in
    let t = add_metadata (new_set now source) d in
    let built =
      add_records_lem t (obj fields) (lookup String_discrete "records" d)
        (ap (λ r. r.records) meta) in
    (
      (
        add_all (new_set now source) (to_list items),
        refl,
        ap (λ r. r.records) all,
        ap (λ r. r.metadata) all,
      ),
      (
        add_records t (obj fields) (lookup String_discrete "records" d),
        refl,
        built.0,
        ap (λ m. lookup String_discrete k m) (built.1 ∙ ap (λ r. r.metadata) meta)
            ∙ lookup-update String_discrete k [] (others d) (Distinct-others d h)
            ∙ lookup-others_at k d,
        built.2 ∙ ap (λ r. r.source_id) meta,
      ),
      build_record_set-scalar now source other o,
    )
