-- ===== src/Data/Json/Tests.antt =====
-- Instances for src/data_processing/json_handler.py, with a json that knows one document.
use py2to3_example_project.Prelude.{◌+◌, ◌≡◌, refl, true, some, [], ◌∷◌, length}
use py2to3_example_project.Prelude.Int.{pos}
use py2to3_example_project.Prelude.Py.{ok, raise, value_error}
use py2to3_example_project.Data.Json.Value.{
  null, boolean, end, Fields, field, obj, number, from_dict,
}
use py2to3_example_project.Data.Json.RecordSet.{JsonRecordSet, set_to_dict}
use py2to3_example_project.Data.Json.Handler.{Json, load_bytes, dump_to_stream, validate_records}
use py2to3_example_project.Data.Json.Laws
use py2to3_example_project.Data.Json.Laws.{named_source}
use py2to3_example_project.Data.Json.Checks
use py2to3_example_project.Data.Json.Checks.{objects, complete, all_noted}

abbrev full : Fields
full = field "tag" (number (pos 1)) (field "value" (number (pos 2)) end)

abbrev partial : Fields
partial = field "tag" (number (pos 3)) end

abbrev batch : JsonRecordSet
batch = record {
  source_id = some "gateway";
  records = objects (full ∷ partial ∷ full ∷ []);
  received_at = number (pos 100);
  metadata = ("site", boolean true) ∷ [];
}

abbrev json : Json
json = record {
  loads = λ raw. ok (set_to_dict batch);
  dumps = λ indent sort_keys v. ok (123 ∷ 125 ∷ []);
  encode = λ s. ok s;
  pickle_dump = λ s. raise value_error;
  pickle_load = λ bs. raise value_error;
}

load_bytes-dump_to_stream_example :
    (dump_to_stream json batch true ≡ ok (123 ∷ 125 ∷ []))
    × ((t : JsonRecordSet) × (load_bytes json null (123 ∷ 125 ∷ []) (some "file") ≡ ok t)
        × (t.records ≡ objects (full ∷ partial ∷ full ∷ []))
        × (t.source_id ≡ some "file")
        × (t.received_at ≡ null)
        × (t.metadata
            ≡ ("source_id", named_source (some "gateway"))
              ∷ ("received_at", number (pos 100))
              ∷ ("count", number (pos 3))
              ∷ ("metadata", obj (from_dict (("site", boolean true) ∷ [])))
              ∷ []))
load_bytes-dump_to_stream_example =
    Laws.load_bytes-dump_to_stream json null batch true (some "file") (123 ∷ 125 ∷ [])
      (123 ∷ 125 ∷ []) refl refl refl

validate_records_lem_example :
    (validate_records batch ("tag" ∷ "value" ∷ []) ≡ (
      all_noted ("tag" ∷ "value" ∷ []) 0 (full ∷ partial ∷ full ∷ []),
      ok (objects (complete ("tag" ∷ "value" ∷ []) (full ∷ partial ∷ full ∷ []))),
    ))
    × (length (all_noted ("tag" ∷ "value" ∷ []) 0 (full ∷ partial ∷ full ∷ []))
          + length (complete ("tag" ∷ "value" ∷ []) (full ∷ partial ∷ full ∷ []))
        ≡ 3)
validate_records_lem_example =
    Checks.validate_records_lem batch ("tag" ∷ "value" ∷ []) (full ∷ partial ∷ full ∷ []) refl
