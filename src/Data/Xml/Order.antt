-- ===== src/Data/Xml/Order.antt =====
-- The walk of XmlTransformer of src/data_processing/xml_transformer.py against the document order of
-- the elements.
use py2to3_example_project.Prelude.{
  arith, ◌≢◌, ◌≡◌, refl, sym, ap, ◌∙◌, Option, List, [], ◌∷◌, ◌++◌, append_assoc, append-nil,
}
use py2to3_example_project.Prelude.Str.{Str, join}
use py2to3_example_project.Prelude.Text.{codes}
use py2to3_example_project.Prelude.Py.{ok, raise}
use py2to3_example_project.Data.Xml.Names.{strip_namespace}
use py2to3_example_project.Data.Xml.Mapper.{XmlNodeMapper}
use py2to3_example_project.Data.Xml.Transformer.{
  Element, element, Elements, nil, cons, Fault, Host, Record, Outcome, and_then, listed,
  extract_record, path_in, transform_element, transform_children,
}

faults_raise : (f g h : List Fault) → f ++ (g ++ h) ≡ (f ++ (g ++ [])) ++ h
faults_raise f g h = simp (append_assoc, append-nil)

faults_ok : (f g h : List Fault) → f ++ ((g ++ (h ++ [])) ++ []) ≡ (f ++ (g ++ [])) ++ (h ++ [])
faults_ok f g h = simp (append_assoc, append-nil)

module _ {A : Type 0} where
  abbrev joined : Outcome (List A) → Outcome (List A) → Outcome (List A)
  joined x y = and_then x λ rs. and_then y λ ss. ([], ok (rs ++ ss))

  abbrev put_first : Outcome (Option A) → Outcome (List A) → Outcome (List A)
  put_first x y = and_then x λ r. and_then y λ rs. ([], ok (listed r ++ rs))

  joined_nil : (y : Outcome (List A)) → y ≡ joined ([], ok []) y
  joined_nil (faults, raise e) = refl
  joined_nil (faults, ok ss) = λ i. (sym (append-nil faults) i, ok ss)

  put_first-joined :
      (x : Outcome (Option A)) (y z : Outcome (List A))
      → put_first x (joined y z) ≡ joined (put_first x y) z
  put_first-joined (f, raise e) y z = refl
  put_first-joined (f, ok r) (g, raise e) z = refl
  put_first-joined (f, ok r) (g, ok rs) (h, raise e) = λ i. (faults_raise f g h i, raise e)
  put_first-joined (f, ok r) (g, ok rs) (h, ok ss) =
      λ i. (faults_ok f g h i, ok (sym (append_assoc (listed r) rs ss) i))

abbrev pub tag_of : Element → Str
tag_of (element tag attrib text children) = tag

snoc-ne-nil : (names : List Str) (s : Str) → names ++ s ∷ [] ≢ []
snoc-ne-nil [] s h = ground arith
snoc-ne-nil (n ∷ names) s h = ground arith

join-snoc :
    (n : Str) (names : List Str) (s : Str)
    → join (codes "/") (n ∷ names) ++ b'/' ∷ s ≡ join (codes "/") (n ∷ (names ++ s ∷ []))
unfolding join
join-snoc n [] s = refl
join-snoc n (k ∷ names) s =
    append_assoc n (b'/' ∷ join (codes "/") (k ∷ names)) (b'/' ∷ s)
    ∙ ap (λ (x : Str). n ++ b'/' ∷ x) (join-snoc k names s)

module _ {V : Type 0} (host : Host V) (m : XmlNodeMapper V) (namespace : Option Str) where
  -- The elements of a document in its order, each under the names of those that lead to it and its
  -- own, joined by `/`.
  unfoldable mutual
    pub nodes : (above : List Str) → Element → List (Str × Element)
    nodes above (element tag attrib text children) =
        (
          join (codes "/") (above ++ strip_namespace tag namespace ∷ []),
          element tag attrib text children,
        )
        ∷ nodes_of (above ++ strip_namespace tag namespace ∷ []) children

    pub nodes_of : (above : List Str) → Elements → List (Str × Element)
    nodes_of above nil = []
    nodes_of above (cons e es) = nodes above e ++ nodes_of above es

  -- The fields of the elements, taken one after the other.
  abbrev pub gather : List (Str × Element) → Outcome (List (Record V))
  gather [] = ([], ok [])
  gather ((path, e) ∷ rest) =
      and_then (extract_record host m namespace e path)
        λ r. and_then (gather rest) λ rs. ([], ok (listed r ++ rs))

  gather-append :
      (xs ys : List (Str × Element)) → gather (xs ++ ys) ≡ joined (gather xs) (gather ys)
  gather-append [] ys = joined_nil (gather ys)
  gather-append ((path, e) ∷ xs) ys =
      ap (λ o. put_first (extract_record host m namespace e path) o) (gather-append xs ys)
      ∙ put_first-joined (extract_record host m namespace e path) (gather xs) (gather ys)

  -- The names that lead to an element, the outermost of which is not empty.
  abbrev IsPath : List Str → Type 0
  IsPath [] = Unit
  IsPath ([] ∷ names) = ⊥
  IsPath ((c ∷ s) ∷ names) = Unit

  IsPath-snoc :
      (names : List Str) (s : Str) → (names ≡ [] → s ≢ []) → IsPath names → IsPath (names ++ s ∷ [])
  IsPath-snoc [] [] h k = absurd (h refl refl)
  IsPath-snoc [] (c ∷ s) h k = tt
  IsPath-snoc ([] ∷ names) s h k = absurd k
  IsPath-snoc ((c ∷ d) ∷ names) s h k = tt

  path_in-join :
      (names : List Str) (tag : Str)
      → IsPath names
      → path_in host m namespace (join (codes "/") names) tag
        ≡ join (codes "/") (names ++ strip_namespace tag namespace ∷ [])
  unfolding join
  path_in-join [] tag k = refl
  path_in-join ([] ∷ names) tag k = absurd k
  path_in-join ((c ∷ d) ∷ []) tag k = refl
  path_in-join ((c ∷ d) ∷ n ∷ names) tag k =
      append_assoc (c ∷ d) (b'/' ∷ join (codes "/") (n ∷ names))
        (b'/' ∷ strip_namespace tag namespace)
      ∙ ap (λ (x : Str). (c ∷ d) ++ b'/' ∷ x) (join-snoc n names (strip_namespace tag namespace))

  mutual
    unfolding transform_element nodes

    element-gather :
        (e : Element) (above : List Str)
        → IsPath above
        → (above ≡ [] → strip_namespace (tag_of e) namespace ≢ [])
        → transform_element host m namespace e (join (codes "/") above) ≡ gather (nodes above e)
    element-gather (element tag attrib text children) above p named =
        let inner = above ++ strip_namespace tag namespace ∷ [] in
        ap
          (λ path.
            put_first (extract_record host m namespace (element tag attrib text children) path)
              (transform_children host m namespace children path))
          (path_in-join above tag p)
        ∙ ap
            (λ o.
              put_first
                (extract_record host m namespace (element tag attrib text children)
                  (join (codes "/") inner))
                o)
            (children-gather children inner
              (IsPath-snoc above (strip_namespace tag namespace) named p)
              (snoc-ne-nil above (strip_namespace tag namespace)))

    children-gather :
        (es : Elements) (above : List Str)
        → IsPath above
        → above ≢ []
        → transform_children host m namespace es (join (codes "/") above)
          ≡ gather (nodes_of above es)
    children-gather nil above p inside = refl
    children-gather (cons e es) above p inside =
        (λ i.
          joined (element-gather e above p (λ q. absurd (inside q)) i)
            (children-gather es above p inside i))
        ∙ sym (gather-append (nodes above e) (nodes_of above es))

  -- A transform takes the elements of the document in its order, each under the names, without
  -- their namespace, of the elements that lead to it and its own, joined by slashes, if the name of
  -- the root is not empty: it gives the records of those elements in that order, notes their faults
  -- in that order, and ends at the first element that raises, with the faults so far.
  pub transform_element-gather :
      (e : Element)
      → strip_namespace (tag_of e) namespace ≢ []
      → transform_element host m namespace e [] ≡ gather (nodes [] e)
  transform_element-gather e named =
      ap (λ path. transform_element host m namespace e path) empty
      ∙ element-gather e [] tt (λ q. named)
    where
      empty : ◌≡◌ {A = Str} [] (join (codes "/") [])
      empty = unfold join in refl
