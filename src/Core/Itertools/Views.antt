-- ===== src/Core/Itertools/Views.antt =====
-- Set operations on the views of two configuration dictionaries. The order of a set is not
-- specified: a set is a list here, and the theorems speak of membership and of lookups only.
use py2to3_example_project.Prelude.{
  ◌≡◌, refl, ap, Bool, true, false, ◌&&◌, ◌||◌, not, Option, none, some, List, [], ◌∷◌, ◌++◌, arith,
  if◌then◌else◌, ite, if_pos, if_neg,
}
use py2to3_example_project.Prelude.Dict.{
  lookup, insert, has_key, Fresh, Distinct, lookup-insert_self, lookup-insert_ne,
}

module _ {K : Type 0} (dec : Discrete K) where
  -- `k in keys`
  unfoldable pub elem : K → List K → Bool
  elem q [] = false
  elem q (k ∷ ks) = ite (dec k q) true (elem q ks)

module _ {K V : Type 0} (dec : Discrete K) where
  -- `config_a.keys() & config_b.keys()`
  unfoldable pub common_tags : List (K × V) → List (K × V) → List K
  common_tags [] b = []
  common_tags ((k, v) ∷ a) b = if has_key dec k b then k ∷ common_tags a b else common_tags a b

  -- `new.keys() - old.keys()`
  unfoldable pub added_keys : List (K × V) → List (K × V) → List K
  added_keys old [] = []
  added_keys old ((k, v) ∷ new) =
      if has_key dec k old then added_keys old new else k ∷ added_keys old new

  -- A tag is common exactly when both dictionaries have it.
  pub elem-common_tags :
      (q : K) (a b : List (K × V))
      → elem dec q (common_tags a b) ≡ (has_key dec q a && has_key dec q b)
  unfolding elem common_tags lookup
  elem-common_tags q [] b = refl
  elem-common_tags q ((k, v) ∷ a) b = elim (dec k q) [
    | yes p ↦ ground (arith, elem-common_tags q a b, ap (λ x. lookup dec x b) p)
    | no p ↦ ground (arith, elem-common_tags q a b)
  ]

  -- A key is added exactly when the new dictionary has it and the old one does not.
  pub elem-added_keys :
      (q : K) (old new : List (K × V))
      → elem dec q (added_keys old new) ≡ (has_key dec q new && not (has_key dec q old))
  unfolding elem added_keys lookup
  elem-added_keys q old [] = refl
  elem-added_keys q old ((k, v) ∷ new) = elim (dec k q) [
    | yes p ↦ ground (arith, elem-added_keys q old new, ap (λ x. lookup dec x old) p)
    | no p ↦ ground (arith, elem-added_keys q old new)
  ]

  module _ (same : Discrete V) where
    -- `(k, v) in d.items()`
    abbrev item_in : K → V → List (K × V) → Bool
    item_in k v d = elim (lookup dec k d) [ none ↦ false | some w ↦ ite (same v w) true false ]

    -- The items of `a` that `b` lacks.
    item_sub : List (K × V) → List (K × V) → List (K × V)
    item_sub [] b = []
    item_sub ((k, v) ∷ a) b = if item_in k v b then item_sub a b else (k, v) ∷ item_sub a b

    -- `a.items() ^ b.items()`
    item_xor : List (K × V) → List (K × V) → List (K × V)
    unfolding item_sub
    item_xor a b = item_sub a b ++ item_sub b a

    -- The generator given to `dict`, and the dictionary that it builds.
    collect :
        List (K × V)
        → List (K × V)
        → List (K × V)
        → List (K × (Option V × Option V))
        → List (K × (Option V × Option V))
    collect old new [] acc = acc
    collect old new ((k, v) ∷ items) acc = collect old new items (
        if has_key dec k old && has_key dec k new
        then insert dec k (lookup dec k old, lookup dec k new) acc
        else acc)

    unfoldable pub changed_values : List (K × V) → List (K × V) → List (K × (Option V × Option V))
    unfolding item_xor collect
    changed_values old new = collect old new (item_xor old new) []

    -- The entry for a key whose two values are known: the values, if they differ.
    abbrev pub change_of : Option V → Option V → Option (Option V × Option V)
    change_of none new = none
    change_of (some v) none = none
    change_of (some v) (some w) = ite (same v w) none (some (some v, some w))

    abbrev keys_of : List (K × V) → List K
    keys_of [] = []
    keys_of ((k, v) ∷ d) = k ∷ keys_of d

    lookup-collect :
        (q : K) (old new items : List (K × V)) (acc : List (K × (Option V × Option V)))
        → lookup dec q (collect old new items acc) ≡ (
            if elem dec q (keys_of items) && (has_key dec q old && has_key dec q new)
            then some (lookup dec q old, lookup dec q new)
            else lookup dec q acc)
    unfolding collect elem
    lookup-collect q old new [] acc = refl
    lookup-collect q old new ((k, v) ∷ items) acc =
        let pair : Option V × Option V = (lookup dec k old, lookup dec k new) in
        elim (dec k q) [
          | yes p ↦ rw (if_pos _ p) (
              ground (
                arith,
                lookup-collect q old new items (insert dec k pair acc),
                lookup-collect q old new items acc,
                lookup-insert_self dec k pair acc,
                p,
              ))
          | no p ↦ rw (if_neg _ p) (
              ground (
                arith,
                lookup-collect q old new items (insert dec k pair acc),
                lookup-collect q old new items acc,
                lookup-insert_ne dec k q pair acc p,
              ))
        ]

    elem-append :
        (q : K) (xs ys : List (K × V))
        → elem dec q (keys_of (xs ++ ys)) ≡ (elem dec q (keys_of xs) || elem dec q (keys_of ys))
    unfolding elem
    elem-append q [] ys = refl
    elem-append q ((k, v) ∷ xs) ys = ground (arith, elem-append q xs ys)

    elem-item_sub-Fresh :
        (q : K) (a b : List (K × V)) → Fresh dec q a → elem dec q (keys_of (item_sub a b)) ≡ false
    unfolding elem item_sub
    elem-item_sub-Fresh q [] b h = refl
    elem-item_sub-Fresh q ((k, v) ∷ a) b h = ground (arith, elem-item_sub-Fresh q a b)

    -- Does `d` hold another value, or none, under the key of a value?
    abbrev differs : Option V → Option V → Bool
    differs none w = false
    differs (some v) none = true
    differs (some v) (some w) = ite (same v w) false true

    elem-item_sub :
        (q : K) (a b : List (K × V))
        → Distinct dec a
        → elem dec q (keys_of (item_sub a b)) ≡ differs (lookup dec q a) (lookup dec q b)
    unfolding elem item_sub lookup
    elem-item_sub q [] b h = refl
    elem-item_sub q ((k, v) ∷ a) b h = elim (dec k q) [
      | yes p ↦
          rw (if_pos _ p)
            (ground (arith, elem-item_sub-Fresh q a b (rw p at (h.0)), ap (λ x. lookup dec x b) p))
      | no p ↦ rw (if_neg _ p) (ground (arith, elem-item_sub q a b h.1))
    ]

    -- For two dictionaries with distinct keys the result has exactly the keys that both have with
    -- different values, each with the old and the new value.
    pub lookup-changed_values :
        (q : K) (old new : List (K × V))
        → Distinct dec old
        → Distinct dec new
        → lookup dec q (changed_values old new) ≡ change_of (lookup dec q old) (lookup dec q new)
    unfolding changed_values lookup
    lookup-changed_values q old new h k = ground (
      arith,
      lookup-collect q old new (item_sub old new ++ item_sub new old) [],
      elem-append q (item_sub old new) (item_sub new old),
      elem-item_sub q old new h,
      elem-item_sub q new old k,
    )
