-- ===== src/Data/Mainframe/Layout.antt =====
-- CopybookLayout.
use Prim.Native.String.{String}
use py2to3_example_project.Prelude.{
  ℕ, ◌≡◌, refl, Option, none, some, List, [], ◌∷◌, ◌++◌, map, ite, ◌∙◌, ap,
}
use py2to3_example_project.Prelude.Text.{String_discrete}
use py2to3_example_project.Prelude.Dict.{lookup, insert, lookup-insert}
use py2to3_example_project.Prelude.Py.{Result, ok, raise, parse_error}

pub data FieldType : Type 0 where
  char comp3 binary zoned : FieldType
  other : String → FieldType

pub record Field : Type 0 where
  pub name : String
  pub offset : ℕ
  pub size : ℕ
  pub field_type : FieldType
  pub decimal_places : ℕ

pub record CopybookLayout : Type 0 where
  pub layout_name : String
  pub record_length : ℕ
  pub fields : List Field
  pub field_index : List (String × Field)

unfoldable pub new_layout : String → (record_length : ℕ) → CopybookLayout
new_layout layout_name record_length = record {
  layout_name = layout_name;
  record_length = record_length;
  fields = [];
  field_index = [];
}

unfoldable pub add_field : CopybookLayout → Field → CopybookLayout
add_field l f = record l {
  fields = l.fields ++ f ∷ [];
  field_index = insert String_discrete f.name f l.field_index;
}

unfoldable pub get_field : CopybookLayout → String → Result Field
get_field l name = elim (lookup String_discrete name l.field_index) [
  | none ↦ raise parse_error
  | some f ↦ ok f
]

unfoldable pub field_names : CopybookLayout → List String
field_names l = map (λ f. f.name) l.fields

-- Adding fields one after the other.
unfoldable pub add_fields : CopybookLayout → List Field → CopybookLayout
unfolding add_field
add_fields l [] = l
add_fields l (f ∷ fs) = add_fields (add_field l f) fs

-- The last field of a list with some name.
unfoldable pub last_named : String → Option Field → List Field → Option Field
last_named name found [] = found
last_named name found (f ∷ fs) =
    last_named name (ite (String_discrete f.name name) (some f) found) fs

abbrev pub or_raise : Option Field → Result Field
or_raise none = raise parse_error
or_raise (some f) = ok f

lookup-add_fields :
    (l : CopybookLayout) (name : String) (fs : List Field)
    → lookup String_discrete name (add_fields l fs).field_index
      ≡ last_named name (lookup String_discrete name l.field_index) fs
unfolding add_fields last_named add_field
lookup-add_fields l name [] = refl
lookup-add_fields l name (f ∷ fs) =
    lookup-add_fields (add_field l f) name fs
    ∙ ap (λ o. last_named name o fs) (lookup-insert String_discrete f.name name f l.field_index)

-- In a layout to which some fields were added, a name finds the last of them with that name, and
-- raises ParseError when there is none.
pub get_field-add_fields :
    (layout_name name : String) (record_length : ℕ) (fs : List Field)
    → get_field (add_fields (new_layout layout_name record_length) fs) name
      ≡ or_raise (last_named name none fs)
unfolding get_field new_layout lookup
get_field-add_fields layout_name name record_length fs =
    ap or_raise (lookup-add_fields (new_layout layout_name record_length) name fs)
