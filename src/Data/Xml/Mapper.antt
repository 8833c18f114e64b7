-- ===== src/Data/Xml/Mapper.antt =====
-- XmlNodeMapper of src/data_processing/xml_transformer.py. `V` are the values that transforms
-- return.
use py2to3_example_project.Prelude.{◌≡◌, refl, Option, some, List, [], ite}
use py2to3_example_project.Prelude.Str.{Str, Str_discrete, Key_discrete}
use py2to3_example_project.Prelude.Dict.{lookup, insert, lookup-insert}
use py2to3_example_project.Prelude.Py.{Result}

module _ (V : Type 0) where
  pub record Mapping : Type 0 where
    pub name : Str
    pub transform : Option (Str → Result V)

  pub record XmlNodeMapper : Type 0 where
    pub element_maps : List (Str × Mapping)
    pub attribute_maps : List ((Str × Str) × Mapping)
    pub text_maps : List (Str × Mapping)

  unfoldable pub new_mapper : XmlNodeMapper
  new_mapper = record { element_maps = []; attribute_maps = []; text_maps = [] }

  unfoldable pub map_element :
      XmlNodeMapper → (xpath internal_name : Str) → Option (Str → Result V) → XmlNodeMapper
  map_element m xpath internal_name transform_func = record m {
    element_maps =
        insert Str_discrete xpath (record { name = internal_name; transform = transform_func })
          m.element_maps;
  }

  unfoldable pub map_attribute :
      XmlNodeMapper
      → (element_path attr_name internal_name : Str) → Option (Str → Result V)
      → XmlNodeMapper
  map_attribute m element_path attr_name internal_name transform_func = record m {
    attribute_maps =
        insert Key_discrete (element_path, attr_name)
          (record { name = internal_name; transform = transform_func }) m.attribute_maps;
  }

  unfoldable pub map_text :
      XmlNodeMapper → (xpath internal_name : Str) → Option (Str → Result V) → XmlNodeMapper
  map_text m xpath internal_name transform_func = record m {
    text_maps =
        insert Str_discrete xpath (record { name = internal_name; transform = transform_func })
          m.text_maps;
  }

  unfoldable pub get_element_mapping : XmlNodeMapper → (xpath : Str) → Option Mapping
  get_element_mapping m xpath = lookup Str_discrete xpath m.element_maps

  unfoldable pub get_attribute_mapping :
      XmlNodeMapper → (element_path attr_name : Str) → Option Mapping
  get_attribute_mapping m element_path attr_name =
      lookup Key_discrete (element_path, attr_name) m.attribute_maps

  unfoldable pub get_text_mapping : XmlNodeMapper → (xpath : Str) → Option Mapping
  get_text_mapping m xpath = lookup Str_discrete xpath m.text_maps

  -- A mapping of an attribute is found under its path and name from then on, in place of an earlier
  -- one; the mappings of the other attributes, and those of elements and texts, are as before.
  pub get_attribute_mapping-map_attribute :
      (m : XmlNodeMapper) (path name internal q r : Str) (f : Option (Str → Result V))
      → (get_attribute_mapping (map_attribute m path name internal f) q r
          ≡ ite
              (Key_discrete (path, name) (q, r))
              (some (record { name = internal; transform = f }))
              (get_attribute_mapping m q r))
        × (get_element_mapping (map_attribute m path name internal f) q ≡ get_element_mapping m q)
        × (get_text_mapping (map_attribute m path name internal f) q ≡ get_text_mapping m q)
  unfolding map_attribute get_attribute_mapping get_element_mapping get_text_mapping
  get_attribute_mapping-map_attribute m path name internal q r f = (
    lookup-insert Key_discrete (path, name) (q, r) (record { name = internal; transform = f })
        m.attribute_maps,
    refl,
    refl,
  )
