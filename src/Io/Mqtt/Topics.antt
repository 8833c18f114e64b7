-- ===== src/Io/Mqtt/Topics.antt =====
-- MqttSubscription.matches. A topic is the list of its levels, as `split("/")` gives them: at least
-- one, each a text.
use Prim.Native.String.{String}
use py2to3_example_project.Prelude.{
  ◌≡◌, refl, inl, inr, Bool, true, false, ◌&&◌, not, List, [], ◌∷◌, arith, if◌then◌else◌,
  Bool-cases,
}
use py2to3_example_project.Prelude.Text.{String_discrete}

-- `a == b`
abbrev pub same : String → String → Bool
same a b = elim (String_discrete a b) [ yes p ↦ true | no p ↦ false ]

-- The loop over the levels of the filter, with the levels of the topic that are left.
unfoldable pub matches : (filter topic : List String) → Bool
matches [] [] = true
matches [] (t ∷ ts) = false
matches (f ∷ fs) [] = same f "#"
matches (f ∷ fs) (t ∷ ts) =
    let rest = matches fs ts in
    if same f "#" then true else if not (same f "+") && not (same f t) then false else rest

-- What a filter means: a level names itself, `+` any one level, and `#` all levels from there on.
pub data Accepts : List String → List String → Type 0 where
  nothing_left : Accepts [] []
  everything : {fs ts : List String} → Accepts ("#" ∷ fs) ts
  any_level : {fs ts : List String} {t : String} → Accepts fs ts → Accepts ("+" ∷ fs) (t ∷ ts)
  this_level : {fs ts : List String} {t : String} → Accepts fs ts → Accepts (t ∷ fs) (t ∷ ts)

same-eq : (a b : String) → same a b ≡ true → a ≡ b
same-eq a b e =
    elim (String_discrete a b) as (λ d. elim d [ yes p ↦ true | no p ↦ false ] ≡ true → a ≡ b) [
      | yes p ↦ λ q. p
      | no p ↦ λ q. absurd (ground arith)
    ]
      e

eq-same : (a b : String) → a ≡ b → same a b ≡ true
eq-same a b e = ground arith

-- A filter that accepts a topic matches it.
matches-Accepts : {filter topic : List String} → Accepts filter topic → matches filter topic ≡ true
unfolding matches
matches-Accepts nothing_left = refl
matches-Accepts (everything {fs} {ts = []}) = eq-same "#" "#" refl
matches-Accepts (everything {fs} {ts = t ∷ ts}) = rw (eq-same "#" "#" refl) refl
matches-Accepts (any_level {fs} {ts} {t} a) =
    ground (arith, matches-Accepts a, eq-same "+" "+" refl)
matches-Accepts (this_level {fs} {ts} {t} a) = ground (arith, matches-Accepts a, eq-same t t refl)

Accepts-matches : (filter topic : List String) → matches filter topic ≡ true → Accepts filter topic
unfolding matches
Accepts-matches [] [] e = nothing_left
Accepts-matches [] (t ∷ ts) e = absurd (ground arith)
Accepts-matches (f ∷ fs) [] e = rw (same-eq f "#" e) everything
Accepts-matches (f ∷ fs) (t ∷ ts) e = elim (Bool-cases (same f "#")) [
  | inl hash ↦ rw (same-eq f "#" hash) everything
  | inr other ↦ elim (Bool-cases (same f "+")) [
    | inl plus ↦ rw (same-eq f "+" plus) (any_level (Accepts-matches fs ts (ground arith)))
    | inr name ↦ elim (Bool-cases (same f t)) [
      | inl equal ↦ rw (same-eq f t equal) (this_level (Accepts-matches fs ts (ground arith)))
      | inr different ↦ absurd (ground arith)
    ]
  ]
]

-- `matches` holds exactly for the topics that the filter means: level by level the same name, `+`
-- for any one level, `#` for all levels from there on, also none.
pub matches_iff :
    (filter topic : List String)
    → (matches filter topic ≡ true → Accepts filter topic)
      × (Accepts filter topic → matches filter topic ≡ true)
matches_iff filter topic = (Accepts-matches filter topic, matches-Accepts)
