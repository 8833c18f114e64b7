-- ===== src/Prelude/Dict.antt =====
-- Python's dict as an association list in insertion order: a write to a present key keeps its
-- place, a write to a new key goes to the end.

use py2to3_example_project.Prelude.{
  ◌+◌, ◌≤◌, ◌≡◌, refl, sym, ap, ◌∙◌, ite, if_pos, if_neg, Bool, true, false, Option, none, some,
  List, [], ◌∷◌, arith, length,
}

module _ {ℓ} {K V : Type ℓ} (dec : Discrete K) where
  -- `d.get(k)`, with `none` for a missing key.
  unfoldable pub lookup : K → List (K × V) → Option V
  lookup k [] = none
  lookup k ((j, v) ∷ d) = ite (dec j k) (some v) (lookup k d)

  -- `d[k] = v`
  unfoldable pub insert : K → V → List (K × V) → List (K × V)
  insert k v [] = (k, v) ∷ []
  insert k v ((j, w) ∷ d) = ite (dec j k) ((j, v) ∷ d) ((j, w) ∷ insert k v d)

  -- `del d[k]`, on a present key.
  unfoldable pub erase : K → List (K × V) → List (K × V)
  erase k [] = []
  erase k ((j, w) ∷ d) = ite (dec j k) d ((j, w) ∷ erase k d)

  -- `k in d`
  abbrev pub has_key : K → List (K × V) → Bool
  has_key k d = elim (lookup k d) [ none ↦ false | some v ↦ true ]

  -- No key twice: what every dict satisfies.
  abbrev pub Fresh : K → List (K × V) → Type ℓ
  Fresh k [] = Unit
  Fresh k ((j, w) ∷ d) = (¬ (j ≡ k)) × Fresh k d

  abbrev pub Distinct : List (K × V) → Type ℓ
  Distinct [] = Unit
  Distinct ((j, w) ∷ d) = Fresh j d × Distinct d

  pub lookup-insert :
      (k q : K) (v : V) (d : List (K × V))
      → lookup q (insert k v d) ≡ ite (dec k q) (some v) (lookup q d)
  unfolding lookup insert
  lookup-insert k q v [] = refl
  lookup-insert k q v ((j, w) ∷ d) = ground (arith, lookup-insert k q v d)

  pub lookup-insert_self : (k : K) (v : V) (d : List (K × V)) → lookup k (insert k v d) ≡ some v
  unfolding lookup insert
  lookup-insert_self k v [] = if_pos (dec k k) refl _ _
  lookup-insert_self k v ((j, w) ∷ d) = ground (arith, lookup-insert_self k v d)

  pub lookup-insert_ne :
      (k q : K) (v : V) (d : List (K × V)) → ¬ (k ≡ q) → lookup q (insert k v d) ≡ lookup q d
  unfolding lookup insert
  lookup-insert_ne k q v [] h = if_neg (dec k q) h _ _
  lookup-insert_ne k q v ((j, w) ∷ d) h = ground (arith, lookup-insert_ne k q v d)

  pub lookup-Fresh : (k : K) (d : List (K × V)) → Fresh k d → lookup k d ≡ none
  unfolding lookup
  lookup-Fresh k [] h = refl
  lookup-Fresh k ((j, w) ∷ d) h = ground (arith, lookup-Fresh k d)

  pub Fresh-lookup : (k : K) (d : List (K × V)) → lookup k d ≡ none → Fresh k d
  unfolding lookup
  Fresh-lookup k [] h = tt
  Fresh-lookup k ((j, w) ∷ d) h = ground (arith, Fresh-lookup k d)

  pub lookup-erase_ne : (k q : K) (d : List (K × V)) → ¬ (k ≡ q) → lookup q (erase k d) ≡ lookup q d
  unfolding lookup erase
  lookup-erase_ne k q [] h = refl
  lookup-erase_ne k q ((j, w) ∷ d) h = ground (arith, lookup-erase_ne k q d)

  pub lookup-erase_self : (k : K) (d : List (K × V)) → Distinct d → lookup k (erase k d) ≡ none
  unfolding lookup erase
  lookup-erase_self k [] h = refl
  lookup-erase_self k ((j, w) ∷ d) h = elim (dec j k) [
    | yes p ↦ rw (if_pos _ p) (lookup-Fresh k d (rw p at (h.0)))
    | no p ↦ ground (arith, lookup-erase_self k d)
  ]

  pub Fresh-insert :
      (q k : K) (v : V) (d : List (K × V)) → ¬ (k ≡ q) → Fresh q d → Fresh q (insert k v d)
  unfolding insert
  Fresh-insert q k v [] h f = (h, tt)
  Fresh-insert q k v ((j, w) ∷ d) h f = ground (arith, Fresh-insert q k v d)

  pub Distinct-insert : (k : K) (v : V) (d : List (K × V)) → Distinct d → Distinct (insert k v d)
  unfolding insert
  Distinct-insert k v [] h = (tt, tt)
  Distinct-insert k v ((j, w) ∷ d) h = elim (dec j k) [
    | yes p ↦ rw (if_pos _ p) h
    | no p ↦ rw (if_neg _ p) (Fresh-insert j k v d (λ e. p (sym e)) h.0, Distinct-insert k v d h.1)
  ]

  pub Fresh-erase : (q k : K) (d : List (K × V)) → Fresh q d → Fresh q (erase k d)
  unfolding erase
  Fresh-erase q k [] f = tt
  Fresh-erase q k ((j, w) ∷ d) f = ground (arith, Fresh-erase q k d)

  pub Distinct-erase : (k : K) (d : List (K × V)) → Distinct d → Distinct (erase k d)
  unfolding erase
  Distinct-erase k [] h = tt
  Distinct-erase k ((j, w) ∷ d) h = ground (arith, Distinct-erase k d, Fresh-erase j k d)

  pub length-insert_new :
      (k : K) (v : V) (d : List (K × V)) → lookup k d ≡ none → length (insert k v d) ≡ length d + 1
  unfolding lookup insert
  length-insert_new k v [] h = refl
  length-insert_new k v ((j, w) ∷ d) h = ground (arith, length-insert_new k v d)

  pub length-insert_old :
      (k : K) (v w : V) (d : List (K × V)) → lookup k d ≡ some w → length (insert k v d) ≡ length d
  unfolding lookup insert
  length-insert_old k v w [] h = cc
  length-insert_old k v w ((j, u) ∷ d) h = ground (arith, length-insert_old k v w d)

  pub length-insert-le : (k : K) (v : V) (d : List (K × V)) → length (insert k v d) ≤ length d + 1
  unfolding insert
  length-insert-le k v [] = omega arith
  length-insert-le k v ((j, w) ∷ d) = ground (arith, length-insert-le k v d)

  pub length-erase :
      (k : K) (w : V) (d : List (K × V)) → lookup k d ≡ some w → length (erase k d) + 1 ≡ length d
  unfolding lookup erase
  length-erase k w [] h = cc
  length-erase k w ((j, u) ∷ d) h = ground (arith, length-erase k w d)

  pub length-erase-le : (k : K) (d : List (K × V)) → length (erase k d) ≤ length d
  unfolding erase
  length-erase-le k [] = omega arith
  length-erase-le k ((j, u) ∷ d) = ground (arith, length-erase-le k d)

  -- `d.update(more)`
  unfoldable pub update : List (K × V) → List (K × V) → List (K × V)
  unfolding insert
  update d [] = d
  update d ((k, v) ∷ more) = update (insert k v d) more

  abbrev pub or_else : Option V → Option V → Option V
  or_else none o = o
  or_else (some v) o = some v

  pub lookup-update :
      (k : K) (d more : List (K × V))
      → Distinct more
      → lookup k (update d more) ≡ or_else (lookup k more) (lookup k d)
  unfolding update lookup
  lookup-update k d [] h = refl
  lookup-update k d ((j, v) ∷ more) h = elim (dec j k) [
    | yes p ↦
        let gone : lookup k more ≡ none = lookup-Fresh k more (rw p at (h.0)) in
        lookup-update k (insert j v d) more h.1
        ∙ (λ i. or_else (gone i) (lookup-insert j k v d i))
        ∙ if_pos (dec j k) p _ _
        ∙ ap (λ o. or_else o (lookup k d)) (sym (if_pos (dec j k) p (some v) (lookup k more)))
    | no p ↦
        lookup-update k (insert j v d) more h.1
        ∙ ap (λ o. or_else (lookup k more) o) (lookup-insert_ne j k v d p)
        ∙ ap (λ o. or_else o (lookup k d)) (sym (if_neg (dec j k) p (some v) (lookup k more)))
  ]
