-- ===== src/Data/Xml/Names.antt =====
-- Names with a namespace, and HTML entities, in src/data_processing/xml_transformer.py.
use py2to3_example_project.Prelude.{
  ℕ, suc, ◌+◌, ◌≡◌, refl, ap, ◌∙◌, Bool, true, false, Option, none, some, List, [], ◌∷◌, ◌++◌,
  arith, ◌==◌, not, if◌then◌else◌, length, drop, Bool-cases, inl, inr,
}
use py2to3_example_project.Prelude.Str.{Str, starts_with, before, all}
use py2to3_example_project.Prelude.Py.{Result, ok, raise, ◌>>=◌, attribute_error}

-- What HTMLParser calls its handlers with.
pub data Event : Type 0 where
  character_data entityref charref : Str → Event
  markup : Event

-- `get_text` after the events. `unescape` is no method of HTMLParser any more.
unfoldable pub text_of : List Event → Result Str
text_of [] = ok []
text_of (character_data s ∷ rest) = text_of rest >>= λ t. ok (s ++ t)
text_of (entityref name ∷ rest) = raise attribute_error
text_of (charref name ∷ rest) = raise attribute_error
text_of (markup ∷ rest) = text_of rest

unfoldable pub unescape_html_entities : (feed : Str → List Event) → Str → Result Str
unfolding text_of
unescape_html_entities feed s = text_of (feed s)

abbrev pub is_open : ℕ → Bool
is_open c = c == b'{'

abbrev pub is_close : ℕ → Bool
is_close c = c == b'}'

-- A tag that starts with a brace has a namespace if a closing brace follows.
unfoldable pub detect_namespace : (tag : Str) → Option Str
unfolding before all
detect_namespace [] = none
detect_namespace (c ∷ tag) =
    if is_open c
    then if all (λ d. not (is_close d)) tag then none else some (before is_close tag)
    else none

abbrev braced : Str → Str
braced name = b'{' ∷ (name ++ b'}' ∷ [])

-- No namespace, or the empty one, leaves the tag as it is.
unfoldable pub strip_namespace : (tag : Str) → Option Str → Str
unfolding starts_with
strip_namespace tag none = tag
strip_namespace tag (some []) = tag
strip_namespace tag (some (c ∷ name)) =
    if starts_with (braced (c ∷ name)) tag then drop (length (c ∷ name) + 2) tag else tag

before-append :
    (name rest : Str)
    → all (λ d. not (is_close d)) name ≡ true
    → before is_close (name ++ b'}' ∷ rest) ≡ name
unfolding before all
before-append [] rest h = refl
before-append (c ∷ name) rest h =
    let tail = before-append name rest (ground arith) in
    elim (Bool-cases (is_close c)) [ inl e ↦ absurd (ground arith) | inr e ↦ rw (e, tail) ]

not-all-append : (name rest : Str) → all (λ d. not (is_close d)) (name ++ b'}' ∷ rest) ≡ false
unfolding all
not-all-append [] rest = refl
not-all-append (c ∷ name) rest = ground (arith, not-all-append name rest)

starts_with-append : (name s : Str) → starts_with (name ++ b'}' ∷ []) (name ++ b'}' ∷ s) ≡ true
unfolding starts_with
starts_with-append [] s = refl
starts_with-append (c ∷ name) s = ground (arith, starts_with-append name s)

drop-append : (name s : Str) → drop (length name + 1) (name ++ b'}' ∷ s) ≡ s
drop-append [] s = refl
drop-append (c ∷ name) s =
    let next : length (c ∷ name) + 1 ≡ suc (length name + 1) = omega arith in
    rw next (drop-append name s)

-- A tag in a namespace.
abbrev pub qualified : (name tag : Str) → Str
qualified name tag = b'{' ∷ (name ++ b'}' ∷ tag)

detect_namespace-qualified :
    (name tag : Str)
    → all (λ e. not (is_close e)) name ≡ true
    → detect_namespace (qualified name tag) ≡ some name
unfolding detect_namespace
detect_namespace-qualified name tag h =
    rw (not-all-append name tag) (ap some (before-append name tag h))

strip_namespace-qualified :
    (c : ℕ) (name tag : Str) → strip_namespace (qualified (c ∷ name) tag) (some (c ∷ name)) ≡ tag
unfolding strip_namespace
strip_namespace-qualified c name tag =
    ground (arith, starts_with-append name tag, drop_two (c ∷ name))
  where
    drop_two : (n : Str) → drop (length n + 2) (qualified n tag) ≡ tag
    drop_two n =
        let next : length n + 2 ≡ suc (length n + 1) = omega arith in rw next (drop-append n tag)

plain_lem :
    (d : ℕ) (tag : Str) (name : Option Str)
    → is_open d ≡ false
    → (detect_namespace (d ∷ tag) ≡ none) × (strip_namespace (d ∷ tag) name ≡ d ∷ tag)
unfolding detect_namespace strip_namespace starts_with
plain_lem d tag none p = (rw p refl, refl)
plain_lem d tag (some []) p = (rw p refl, refl)
plain_lem d tag (some (c ∷ name)) p = (rw p refl, ground arith)

-- The namespace of a tag with a namespace that is not empty and holds no closing brace is found,
-- and is taken off every tag of the namespace; a tag that does not start with a brace has none and
-- is left as it is.
pub strip_namespace-detect_namespace :
    (c : ℕ) (name root other : Str) (d : ℕ) (tag : Str)
    → all (λ e. not (is_close e)) (c ∷ name) ≡ true
    → is_open d ≡ false
    → (detect_namespace (qualified (c ∷ name) root) ≡ some (c ∷ name))
      × (strip_namespace (qualified (c ∷ name) other) (detect_namespace (qualified (c ∷ name) root))
          ≡ other)
      × (detect_namespace (d ∷ tag) ≡ none)
      × (strip_namespace (d ∷ tag) (some (c ∷ name)) ≡ d ∷ tag)
strip_namespace-detect_namespace c name root other d tag h p =
    let found = detect_namespace-qualified (c ∷ name) root h in
    (
      found,
      ap (λ o. strip_namespace (qualified (c ∷ name) other) o) found
          ∙ strip_namespace-qualified c name other,
      (plain_lem d tag none p).0,
      (plain_lem d tag (some (c ∷ name)) p).1,
    )
