-- ===== src/Data/Json/Laws.antt =====
-- What JsonHandler of src/data_processing/json_handler.py does to record sets: dumped and loaded
-- again, read in chunks, validated, and transformed.
use Prim.Native.String.{String}
use py2to3_example_project.Prelude.{
  none, ℕ, ◌≡◌, refl, sym, ap, ◌∙◌, ◌≢◌, Bool, false, Option, some, List, [], ◌∷◌, ◌++◌, length,
  append_assoc, append-nil,
}
use py2to3_example_project.Prelude.Int.{pos}
use py2to3_example_project.Prelude.Text.{String_discrete}
use py2to3_example_project.Prelude.Str.{Str}
use py2to3_example_project.Prelude.Dict.{lookup, insert}
use py2to3_example_project.Prelude.Py.{Raw, bytes, text, ok, raise, ◌>>=◌, type_error}
use py2to3_example_project.Data.Json.Value.{
  null, str, Value, obj, number, to_list, from_list, from_dict, to_list-from_list,
}
use py2to3_example_project.Data.Json.RecordSet.{
  JsonRecordSet, new_set, set_to_dict, build_record_set, add_all_lem, source_value,
}
use py2to3_example_project.Data.Json.Handler.{
  Json, as_parse_error, load_bytes, load_stream, buffer_chunks, dump_to_stream,
}

-- The set that is built from a dumped one, before its records are added.
abbrev envelope_of : Value → Option String → JsonRecordSet → JsonRecordSet
envelope_of now source s = record (new_set now source) {
  metadata =
      ("source_id", source_value s.source_id)
      ∷ ("received_at", s.received_at)
      ∷ ("count", number (pos (length s.records)))
      ∷ ("metadata", obj (from_dict s.metadata))
      ∷ [];
}

build_record_set-set_to_dict :
    (now : Value) (source : Option String) (s : JsonRecordSet)
    → build_record_set now (set_to_dict s) source
      ≡ ok (record (envelope_of now source s) { records = s.records })
unfolding build_record_set set_to_dict lookup insert String_discrete
build_record_set-set_to_dict now source s = ap ok (
    add_all_lem (envelope_of now source s) (to_list (from_list s.records))
    ∙ ap (λ (rs : List Value). record (envelope_of now source s) { records = rs })
        (to_list-from_list s.records))

load_bytes_lem :
    (json : Json) (now : Value) (raw : List ℕ) (source : Option String) {v : Value}
    → json.loads raw ≡ ok v
    → load_bytes json now raw source ≡ build_record_set now v source
load_bytes_lem json now raw source {v} h =
    (unfold load_bytes in ap (λ r. as_parse_error r >>= λ w. build_record_set now w source) h)

dump_to_stream_lem :
    (json : Json) (s : JsonRecordSet) (pretty : Bool) {printed : Str} {raw : List ℕ}
    → json.dumps pretty false (set_to_dict s) ≡ ok printed
    → json.encode printed ≡ ok raw
    → dump_to_stream json s pretty ≡ ok raw
dump_to_stream_lem json s pretty hd he =
    (unfold dump_to_stream in ap (λ r. r >>= λ t. json.encode t) hd ∙ he)

-- What a source is written as.
abbrev pub named_source : Option String → Value
named_source none = null
named_source (some name) = str name

source_value-named_source : (o : Option String) → source_value o ≡ named_source o
source_value-named_source none = refl
source_value-named_source (some name) = refl

-- A record set that was dumped and is loaded again has the same records in the same order, where
-- json reads back what it printed. Its metadata are then exactly the names of the envelope but for
-- the records: the source, null if there was none, the time, the number of records, and one level
-- down what was set.
pub load_bytes-dump_to_stream :
    (json : Json) (now : Value) (s : JsonRecordSet) (pretty : Bool) (source : Option String)
    (printed : Str) (raw : List ℕ)
    → json.dumps pretty false (set_to_dict s) ≡ ok printed
    → json.encode printed ≡ ok raw
    → json.loads raw ≡ ok (set_to_dict s)
    → (dump_to_stream json s pretty ≡ ok raw)
      × ((t : JsonRecordSet) × (load_bytes json now raw source ≡ ok t)
          × (t.records ≡ s.records)
          × (t.source_id ≡ source)
          × (t.received_at ≡ now)
          × (t.metadata
              ≡ ("source_id", named_source s.source_id)
                ∷ ("received_at", s.received_at)
                ∷ ("count", number (pos (length s.records)))
                ∷ ("metadata", obj (from_dict s.metadata))
                ∷ []))
load_bytes-dump_to_stream json now s pretty source printed raw hd he hl = (
  dump_to_stream_lem json s pretty hd he,
  (
    record (envelope_of now source s) { records = s.records },
    load_bytes_lem json now raw source hl ∙ build_record_set-set_to_dict now source s,
    refl,
    (unfold new_set in refl),
    (unfold new_set in refl),
    ap
        (λ (v : Value).
          ("source_id", v)
          ∷ ("received_at", s.received_at)
          ∷ ("count", number (pos (length s.records)))
          ∷ ("metadata", obj (from_dict s.metadata))
          ∷ [])
        (source_value-named_source s.source_id),
  ),
)

-- Chunks of bytes that are not empty, up to the end of the stream.
abbrev pub Full : List (List ℕ) → Type 0
Full [] = Unit
Full (c ∷ cs) = (c ≢ []) × Full cs

abbrev pub joined : List (List ℕ) → List ℕ
joined [] = []
joined (c ∷ cs) = c ++ joined cs

abbrev pub chunks_of : List (List ℕ) → List Raw
chunks_of [] = bytes [] ∷ []
chunks_of (c ∷ cs) = bytes c ∷ chunks_of cs

buffer_chunks-joined :
    (json : Json) (buf : List ℕ) (cs : List (List ℕ))
    → Full cs
    → buffer_chunks json buf (chunks_of cs) ≡ ok (buf ++ joined cs)
unfolding buffer_chunks
buffer_chunks-joined json buf [] h = ap ok (sym (append-nil buf))
buffer_chunks-joined json buf ([] ∷ cs) h = absurd (h.0 refl)
buffer_chunks-joined json buf ((c ∷ d) ∷ cs) h =
    buffer_chunks-joined json (buf ++ c ∷ d) cs h.1 ∙ ap ok (append_assoc buf (c ∷ d) (joined cs))

-- However the bytes of a stream are cut into chunks that are not empty, loading the stream is
-- loading the bytes; a chunk of text that is not empty raises TypeError.
pub load_stream-joined :
    (json : Json) (now : Value) (cs : List (List ℕ)) (source : Option String) (c : ℕ) (t : List ℕ)
    (later : List Raw)
    → Full cs
    → (load_stream json now (chunks_of cs) source ≡ load_bytes json now (joined cs) source)
      × (load_stream json now (text (c ∷ t) ∷ later) source ≡ raise type_error)
unfolding load_stream
load_stream-joined json now cs source c t later h = (
  ap (λ r. r >>= λ raw. load_bytes json now raw source) (buffer_chunks-joined json [] cs h),
  (unfold buffer_chunks in refl),
)
