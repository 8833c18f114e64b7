-- ===== src/Core/Utils/Dicts.antt =====
-- get_nested and merge_dicts.
use Prim.Native.String.{String}
use py2to3_example_project.Prelude.{
  ◌≡◌, refl, ap, ◌∙◌, inl, inr, Option, none, some, List, [], ◌∷◌, ◌++◌, if◌then◌else◌, Bool-cases,
  ite,
}
use py2to3_example_project.Prelude.Text.{String_discrete}
use py2to3_example_project.Prelude.Dict.{lookup, has_key, update, or_else, Distinct, lookup-update}

-- A value, or a dictionary from names to such values.
mutual
  pub data Nested (V : Type 0) : Type 0 where
    leaf : V → Nested V
    dict : Entries V → Nested V

  pub data Entries (V : Type 0) : Type 0 where
    nil : Entries V
    entry : String → Nested V → Entries V → Entries V

module _ {V : Type 0} where
  unfoldable pub find : String → Entries V → Option (Nested V)
  find key nil = none
  find key (entry k v rest) = ite (String_discrete k key) (some v) (find key rest)

  abbrev pub child : Nested V → String → Option (Nested V)
  child (leaf v) key = none
  child (dict entries) key = find key entries

  unfoldable pub get_nested : Nested V → List String → Option (Nested V)
  unfolding find
  get_nested current [] = some current
  get_nested current (key ∷ keys) = elim (child current key) [
    | none ↦ none
    | some next ↦ get_nested next keys
  ]

  abbrev pub nested_from : Option (Nested V) → List String → Option (Nested V)
  nested_from none keys = none
  nested_from (some m) keys = get_nested m keys

  -- A path can be followed in two steps, and fails when one of them fails.
  pub get_nested-append :
      (m : Nested V) (ks ls : List String)
      → get_nested m (ks ++ ls) ≡ nested_from (get_nested m ks) ls
  unfolding get_nested
  get_nested-append m [] ls = refl
  get_nested-append m (k ∷ ks) ls = by_child (child m k) refl (λ n. get_nested-append n ks ls)
    where
      by_child :
          (o : Option (Nested V))
          → child m k ≡ o
          → ((n : Nested V) → get_nested n (ks ++ ls) ≡ nested_from (get_nested n ks) ls)
          → get_nested m (k ∷ (ks ++ ls)) ≡ nested_from (get_nested m (k ∷ ks)) ls
      by_child none e ih = rw (e, get_nested) refl
      by_child (some next) e ih = rw (e, get_nested) (ih next)

  -- The loop of `merge_dicts`; a dictionary with the key `__override__` forgets those before it.
  unfoldable pub merge_loop : List (String × V) → List (List (String × V)) → List (String × V)
  merge_loop result [] = result
  merge_loop result (d ∷ ds) =
      merge_loop
        (update String_discrete (if has_key String_discrete "__override__" d then [] else result) d)
        ds

  unfoldable pub merge_dicts : List (List (String × V)) → List (String × V)
  unfolding merge_loop
  merge_dicts ds = merge_loop [] ds

  -- What a name stands for after some dictionaries: the last one that has it decides, back to the
  -- last one that overrides.
  unfoldable pub merged_value : String → Option V → List (List (String × V)) → Option V
  merged_value key found [] = found
  merged_value key found (d ∷ ds) =
      merged_value key
        (or_else String_discrete (lookup String_discrete key d)
          (if has_key String_discrete "__override__" d then none else found))
        ds

  abbrev pub AllDistinct : List (List (String × V)) → Type 0
  AllDistinct [] = Unit
  AllDistinct (d ∷ ds) = Distinct String_discrete d × AllDistinct ds

  lookup-merge_loop :
      (key : String) (result : List (String × V)) (ds : List (List (String × V)))
      → AllDistinct ds
      → lookup String_discrete key (merge_loop result ds)
        ≡ merged_value key (lookup String_discrete key result) ds
  unfolding merge_loop merged_value
  lookup-merge_loop key result [] v = refl
  lookup-merge_loop key result (d ∷ ds) v =
      let before = if has_key String_discrete "__override__" d then [] else result in
      let start : lookup String_discrete key before ≡ (
          if has_key String_discrete "__override__" d
          then none
          else lookup String_discrete key result) =
        elim (Bool-cases (has_key String_discrete "__override__" d)) [
          | inl over ↦ rw over (unfold lookup in refl)
          | inr keep ↦ rw keep refl
        ] in
      lookup-merge_loop key (update String_discrete before d) ds v.1
      ∙ ap (λ o. merged_value key o ds)
          (lookup-update String_discrete key before d v.0
            ∙ ap (λ o. or_else String_discrete (lookup String_discrete key d) o) start)

  -- After a merge of dictionaries with distinct keys, a name has the value that the last
  -- dictionary with the name gives it, none before the last overriding dictionary counting.
  pub lookup-merge_dicts :
      (key : String) (ds : List (List (String × V)))
      → AllDistinct ds
      → lookup String_discrete key (merge_dicts ds) ≡ merged_value key none ds
  unfolding merge_dicts
  lookup-merge_dicts key ds v =
      lookup-merge_loop key [] ds v ∙ ap (λ o. merged_value key o ds) (unfold lookup in refl)
