-- ===== src/Core/Itertools/Groups.antt =====
-- Grouping by a key, and the set operations on dictionary views. A set of keys is a list of them.

use py2to3_example_project.Prelude.{
  ◌≡◌, refl, inl, inr, Option, none, some, List, [], ◌∷◌, ◌++◌, arith, if◌then◌else◌, Option-cases,
  ite, if_pos, if_neg, append-nil, append_assoc,
}
use py2to3_example_project.Prelude.Dict.{
  lookup, insert, has_key, lookup-insert_self, lookup-insert_ne,
}

module _ {ℓ} {A K : Type ℓ} (dec : Discrete K) (key_func : A → K) where
  -- The body of the loop: a fresh key gets an empty list, and the item joins its key's list.
  abbrev add_item : List (K × List A) → A → List (K × List A)
  add_item groups item =
      let key = key_func item in
      let ready = if has_key dec key groups then groups else insert dec key [] groups in
      elim (lookup dec key ready) [
        | none ↦ ready
        | some members ↦ insert dec key (members ++ (item ∷ [])) ready
      ]

  group_loop : List (K × List A) → List A → List (K × List A)
  group_loop groups [] = groups
  group_loop groups (item ∷ items) = group_loop (add_item groups item) items

  unfoldable pub group_by_key : List A → List (K × List A)
  unfolding group_loop
  group_by_key items = group_loop [] items

  -- The items with key `q`, in order.
  unfoldable pub select : K → List A → List A
  select q [] = []
  select q (x ∷ xs) = ite (dec (key_func x) q) (x ∷ select q xs) (select q xs)

  abbrev pub nonempty : List A → Option (List A)
  nonempty [] = none
  nonempty (x ∷ xs) = some (x ∷ xs)

  abbrev joined : Option (List A) → List A → Option (List A)
  joined none xs = nonempty xs
  joined (some ys) xs = some (ys ++ xs)

  abbrev members_of : Option (List A) → List A
  members_of none = []
  members_of (some ys) = ys

  lookup-add_item_self :
      (groups : List (K × List A)) (x : A)
      → lookup dec (key_func x) (add_item groups x)
        ≡ some (members_of (lookup dec (key_func x) groups) ++ (x ∷ []))
  lookup-add_item_self groups x =
      let k = key_func x in
      ground (
        arith,
        lookup-insert_self {V = List A} dec k [] groups,
        lookup-insert_self dec k ([] ++ (x ∷ [])) (insert dec k [] groups),
        lookup-insert_self dec k (members_of (lookup dec k groups) ++ (x ∷ [])) groups,
      )

  lookup-add_item_ne :
      (groups : List (K × List A)) (x : A) (q : K)
      → ¬ (key_func x ≡ q)
      → lookup dec q (add_item groups x) ≡ lookup dec q groups
  lookup-add_item_ne groups x q h =
      let k = key_func x in
      ground (
        arith,
        lookup-insert_self {V = List A} dec k [] groups,
        lookup-insert_ne dec k q [] groups h,
        lookup-insert_ne dec k q ([] ++ (x ∷ [])) (insert dec k [] groups) h,
        lookup-insert_ne dec k q (members_of (lookup dec k groups) ++ (x ∷ [])) groups h,
      )

  lookup-group_loop :
      (q : K) (items : List A) (groups : List (K × List A))
      → lookup dec q (group_loop groups items) ≡ joined (lookup dec q groups) (select q items)
  unfolding group_loop select
  lookup-group_loop q [] groups = elim (Option-cases (lookup dec q groups)) [
    | inl e ↦ rw e
    | inr (l, e) ↦ rw (e, append-nil)
  ]
  lookup-group_loop q (x ∷ xs) groups = elim (dec (key_func x) q) [
    | yes p ↦
        rw (if_pos _ p, lookup-group_loop q xs (add_item groups x), ← p, lookup-add_item_self)
          (rw p (finish (lookup dec q groups)))
    | no p ↦
        rw (if_neg _ p, lookup-group_loop q xs (add_item groups x), lookup-add_item_ne groups x q p)
  ]
    where
      finish :
          (o : Option (List A))
          → joined (some (members_of o ++ (x ∷ []))) (select q xs) ≡ joined o (x ∷ select q xs)
      finish none = refl
      finish (some l) = rw append_assoc

  -- Under each key stand exactly the items with that key, in their order; a key that no item has
  -- is not in the dictionary.
  pub lookup-group_by_key :
      (q : K) (items : List A) → lookup dec q (group_by_key items) ≡ nonempty (select q items)
  unfolding group_by_key lookup
  lookup-group_by_key q items = lookup-group_loop q items []
