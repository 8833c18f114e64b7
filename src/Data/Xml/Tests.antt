-- ===== src/Data/Xml/Tests.antt =====
-- An instance for src/data_processing/xml_transformer.py: a tag with a limit below a plant.
use py2to3_example_project.Prelude.{arith, refl, ◌≡◌, none, [], ◌∷◌}
use py2to3_example_project.Prelude.Text.{codes}
use py2to3_example_project.Prelude.Str.{Str, join}
use py2to3_example_project.Prelude.Py.{ok}
use py2to3_example_project.Data.Xml.Names.{strip_namespace}
use py2to3_example_project.Data.Xml.Mapper.{XmlNodeMapper, new_mapper, map_element, map_attribute}
use py2to3_example_project.Data.Xml.Transformer.{
  Host, Element, element, nil, cons, transform_element,
}
use py2to3_example_project.Data.Xml.Order
use py2to3_example_project.Data.Xml.Order.{gather, nodes}

abbrev host : Host Str
host = record { feed = λ s. []; strip = λ s. s; text_value = λ s. s; normalise = λ v. ok v }

abbrev tag : Element
tag = element (codes "tag") ((codes "limit", codes "9") ∷ []) none nil

abbrev plant : Element
plant = element (codes "plant") [] none (cons tag (cons tag nil))

mapper : XmlNodeMapper Str
mapper =
    map_attribute Str (map_element Str (new_mapper Str) (codes "plant/tag") (codes "Tag") none)
      (codes "plant/tag") (codes "limit") (codes "max") none

transform_element-gather_example :
    transform_element host mapper none plant []
    ≡ gather host mapper none (nodes host mapper none [] plant)
transform_element-gather_example =
    Order.transform_element-gather host mapper none plant
      (λ e. unfold strip_namespace in ground arith)

-- The elements of the plant, the tags under its name.
plant-nodes :
    nodes host mapper none [] plant
    ≡ (codes "plant", plant) ∷ (codes "plant/tag", tag) ∷ (codes "plant/tag", tag) ∷ []
unfolding nodes join strip_namespace
plant-nodes = refl
