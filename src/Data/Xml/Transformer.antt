-- ===== src/Data/Xml/Transformer.antt =====
-- XmlTransformer of src/data_processing/xml_transformer.py on parsed documents: the fields of one
-- element, and the walk over its children. HTMLParser, `strip`, and normalise_sensor_label on the
-- values are arguments.
use py2to3_example_project.Prelude.{Option, none, some, List, [], ◌∷◌, ◌++◌, if◌then◌else◌}
use py2to3_example_project.Prelude.Text.{codes}
use py2to3_example_project.Prelude.Str.{Str, Str_discrete}
use py2to3_example_project.Prelude.Dict.{lookup, insert, has_key}
use py2to3_example_project.Prelude.Py.{Exc, Result, ok, raise, parse_error}
use py2to3_example_project.Data.Xml.Names.{
  Event, unescape_html_entities, detect_namespace, strip_namespace,
}
use py2to3_example_project.Data.Xml.Mapper.{
  Mapping, XmlNodeMapper, get_element_mapping, get_attribute_mapping, get_text_mapping,
}

-- An element of a parsed document.
mutual
  pub data Element : Type 0 where
    element : (tag : Str) → (attrib : List (Str × Str)) → (text : Option Str) → Elements → Element

  pub data Elements : Type 0 where
    nil : Elements
    cons : Element → Elements → Elements

abbrev pub tag_of : Element → Str
tag_of (element tag attrib text children) = tag

-- A message of `_transform_errors`, by what it is formatted from.
pub data Fault : Type 0 where
  attribute_fault : (path name : Str) → Exc → (raw : Str) → Fault
  text_fault : (path : Str) → Exc → (raw : Str) → Fault

-- `text_value` is a text as a value of a record.
pub record Host (V : Type 0) : Type 0 where
  pub feed : Str → List Event
  pub strip : Str → Str
  pub text_value : Str → V
  pub normalise : V → Result V

abbrev pub Record : Type 0 → Type 0
Record V = List (Str × V)

-- What an operation notes, and how it ends.
abbrev pub Outcome : Type 0 → Type 0
Outcome A = List Fault × Result A

-- The faults of both, and the end of the second unless the first raises.
abbrev pub and_then : {A B : Type 0} → Outcome A → (A → Outcome B) → Outcome B
and_then (faults, raise e) after = (faults, raise e)
and_then (faults, ok a) after = (faults ++ (after a).0, (after a).1)

abbrev pub listed {ℓ} : {A : Type ℓ} → Option A → List A
listed none = []
listed (some r) = r ∷ []

module _ {V : Type 0} (host : Host V) (m : XmlNodeMapper V) (namespace : Option Str) where
  abbrev pub mapped : (Exc → Fault) → Mapping V → Str → Record V → Outcome (Record V)
  mapped fault mapping value r = elim mapping.transform [
    | none ↦ ([], ok (insert Str_discrete mapping.name (host.text_value value) r))
    | some f ↦ elim (f value) [
      | ok w ↦ ([], ok (insert Str_discrete mapping.name w r))
      | raise e ↦ (fault e ∷ [], ok r)
    ]
  ]

  -- An attribute with no mapping is kept under its name if the record has a field already.
  abbrev pub unmapped : (name value : Str) → Record V → Outcome (Record V)
  unmapped [] value r = ([], ok r)
  unmapped (c ∷ name) value [] = ([], ok [])
  unmapped (c ∷ name) value (f ∷ r) =
      ([], ok (insert Str_discrete (c ∷ name) (host.text_value value) (f ∷ r)))

  unfoldable pub extract_attribute : (path name value : Str) → Record V → Outcome (Record V)
  unfolding get_attribute_mapping
  extract_attribute path name value r =
      let clean = strip_namespace name namespace in
      elim (get_attribute_mapping V m path clean) [
        | none ↦ unmapped clean value r
        | some mapping ↦ mapped (λ e. attribute_fault path clean e value) mapping value r
      ]

  unfoldable pub extract_attributes :
      (path : Str) → List (Str × Str) → Record V → Outcome (Record V)
  unfolding extract_attribute unescape_html_entities
  extract_attributes path [] r = ([], ok r)
  extract_attributes path ((name, raw) ∷ rest) r =
      and_then ([], unescape_html_entities host.feed raw)
        λ value.
          and_then (extract_attribute path name value r) λ r'. extract_attributes path rest r'

  unfoldable pub extract_text : (path : Str) → Option Str → Record V → Outcome (Record V)
  unfolding unescape_html_entities get_text_mapping
  extract_text path none r = ([], ok r)
  extract_text path (some raw) r =
      and_then ([], unescape_html_entities host.feed (host.strip raw))
        λ value. elim (get_text_mapping V m path) [
          | none ↦ ([], ok r)
          | some mapping ↦ mapped (λ e. text_fault path e value) mapping value r
        ]

  unfoldable pub normalise_description : Record V → Outcome (Record V)
  normalise_description r = elim (lookup Str_discrete (codes "description") r) [
    | none ↦ ([], ok r)
    | some v ↦ elim (host.normalise v) [
      | raise e ↦ ([], raise e)
      | ok w ↦ ([], ok (insert Str_discrete (codes "description") w r))
    ]
  ]

  -- An empty record, and one with the type only, is dropped.
  unfoldable pub kept : Record V → Option (Record V)
  kept [] = none
  kept (f ∷ []) = if has_key Str_discrete (codes "_type") (f ∷ []) then none else some (f ∷ [])
  kept (f ∷ g ∷ r) = some (f ∷ g ∷ r)

  unfoldable pub type_field : (path : Str) → Record V
  unfolding get_element_mapping
  type_field path = elim (get_element_mapping V m path) [
    | none ↦ []
    | some mapping ↦ (codes "_type", host.text_value mapping.name) ∷ []
  ]

  unfoldable pub extract_record : Element → (path : Str) → Outcome (Option (Record V))
  unfolding extract_attributes extract_text normalise_description kept type_field
  extract_record (element tag attrib text children) path =
      and_then (extract_attributes path attrib (type_field path)) λ r.
        and_then (extract_text path text r)
          λ r'. and_then (normalise_description r') λ r''. ([], ok (kept r''))

  -- `"%s/%s" % (parent_path, tag_name) if parent_path else tag_name`
  abbrev pub path_in : (parent_path tag : Str) → Str
  path_in [] tag = strip_namespace tag namespace
  path_in (c ∷ parent) tag = (c ∷ parent) ++ b'/' ∷ strip_namespace tag namespace

  unfoldable mutual
    pub transform_element : Element → (parent_path : Str) → Outcome (List (Record V))
    transform_element (element tag attrib text children) parent =
        and_then (extract_record (element tag attrib text children) (path_in parent tag)) λ r.
          and_then (transform_children children (path_in parent tag))
            λ rs. ([], ok (listed r ++ rs))

    pub transform_children : Elements → (parent_path : Str) → Outcome (List (Record V))
    transform_children nil parent = ([], ok [])
    transform_children (cons e es) parent =
        and_then (transform_element e parent)
          λ rs. and_then (transform_children es parent) λ rest. ([], ok (rs ++ rest))

module _ {V : Type 0} (host : Host V) (m : XmlNodeMapper V) where
  -- The errors that are noted, and the records. `parsed` is how the
  -- parser ends, `find` the
  -- element that `root.find` gives for a root that is asked for.
  unfoldable pub transform_file :
      (parsed : Result Element)
      → (root_element : Option Str) → (find : Element → Str → Option Element)
      → List Fault × Result (List (List (Str × V)))
  unfolding transform_element detect_namespace
  transform_file (raise e) root_element find = ([], raise e)
  transform_file (ok root) none find =
      transform_element host m (detect_namespace (tag_of root)) root []
  transform_file (ok root) (some name) find = elim (find root name) [
    | none ↦ ([], raise parse_error)
    | some e ↦ transform_element host m (detect_namespace (tag_of root)) e []
  ]

  unfoldable pub transform_string :
      (parsed : Result Element) → List Fault × Result (List (List (Str × V)))
  unfolding transform_element detect_namespace
  transform_string (raise e) = ([], raise e)
  transform_string (ok root) = transform_element host m (detect_namespace (tag_of root)) root []
