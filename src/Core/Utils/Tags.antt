-- ===== src/Core/Utils/Tags.antt =====
-- unique_tags.
use Prim.Native.String.{String}
use py2to3_example_project.Prelude.{
  ◌≡◌, refl, inl, inr, Bool, true, false, ◌||◌, List, [], ◌∷◌, ◌++◌, arith, if◌then◌else◌,
  Bool-cases, ite,
}
use py2to3_example_project.Prelude.Text.{String_discrete}

-- The loop of `unique_tags`; the set `seen` has the tags of the result.
unfoldable pub contains : String → List String → Bool
contains tag [] = false
contains tag (t ∷ ts) = ite (String_discrete t tag) true (contains tag ts)

unique_loop : List String → List String → List String
unfolding contains
unique_loop result [] = result
unique_loop result (tag ∷ tags) =
    unique_loop (if contains tag result then result else result ++ tag ∷ []) tags

unfoldable pub unique_tags : List String → List String
unfolding unique_loop
unique_tags tag_sequence = unique_loop [] tag_sequence

abbrev pub AllDifferent : List String → Type 0
AllDifferent [] = Unit
AllDifferent (t ∷ ts) = (contains t ts ≡ false) × AllDifferent ts

contains-append :
    (tag : String) (xs ys : List String)
    → contains tag (xs ++ ys) ≡ contains tag xs || contains tag ys
unfolding contains
contains-append tag [] ys = refl
contains-append tag (x ∷ xs) ys = ground (arith, contains-append tag xs ys)

AllDifferent-snoc :
    (tag : String) (xs : List String)
    → contains tag xs ≡ false
    → AllDifferent xs
    → AllDifferent (xs ++ tag ∷ [])
unfolding contains
AllDifferent-snoc tag [] c a = (refl, tt)
AllDifferent-snoc tag (x ∷ xs) c a =
    (ground (arith, contains-append x xs (tag ∷ [])), AllDifferent-snoc tag xs (ground arith) a.1)

unique_loop_lem :
    (result tags : List String)
    → AllDifferent result
    → AllDifferent (unique_loop result tags)
      × ((t : String) → contains t (unique_loop result tags) ≡ contains t result || contains t tags)
unfolding unique_loop contains
unique_loop_lem result [] a = (a, λ t. ground arith)
unique_loop_lem result (tag ∷ tags) a = elim (Bool-cases (contains tag result)) [
  | inl seen ↦
      let (different, same) = unique_loop_lem result tags a in
      (
        rw seen different,
        λ t. rw seen (elim (String_discrete tag t) [
          | yes p ↦ let there : contains t result ≡ true = rw p at seen in ground (arith, same t)
          | no p ↦ ground (arith, same t)
        ]),
      )
  | inr fresh ↦
      let (different, same) =
        unique_loop_lem (result ++ tag ∷ []) tags (AllDifferent-snoc tag result fresh a) in
      (
        rw fresh different,
        λ t. rw fresh (ground (arith, same t, contains-append t result (tag ∷ []))),
      )
]

-- The result has the tags of the input, each once.
pub unique_tags_lem :
    (tags : List String)
    → AllDifferent (unique_tags tags)
      × ((t : String) → contains t (unique_tags tags) ≡ contains t tags)
unfolding unique_tags contains
unique_tags_lem tags = unique_loop_lem [] tags tt
