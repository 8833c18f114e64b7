-- ===== src/Data/Analyzer/Keywords.antt =====
-- TextAnalyzer.extract_keywords of src/data_processing/text_analyzer.py: counts and their ranking.
use mathlib.Core.List.{Perm}
use mathlib.Core.List.Perm
use py2to3_example_project.Prelude.{
  ℕ, ◌+◌, ◌≡◌, refl, ap, ◌∙◌, inl, inr, ite, if_pos, if_neg, Bool, true, false, ◌&&◌, Option, none,
  some, List, [], ◌∷◌, arith, ltb, ◌==◌, if◌then◌else◌, Bool-cases, take,
}
use py2to3_example_project.Prelude.Str.{Str, Str_discrete}
use py2to3_example_project.Prelude.Dict.{lookup, insert, Distinct, Distinct-insert, lookup-insert}
use py2to3_example_project.Data.Analyzer.Tokens.{Python, keyword_tokens}

-- `freq[token] += 1`, or 1 for a new token.
abbrev pub next_count : Option ℕ → ℕ
next_count none = 1
next_count (some n) = n + 1

unfoldable pub count_tokens : List (Str × ℕ) → List Str → List (Str × ℕ)
count_tokens freq [] = freq
count_tokens freq (t ∷ ts) =
    count_tokens (insert Str_discrete t (next_count (lookup Str_discrete t freq)) freq) ts

-- `s <= t` of texts.
unfoldable pub le_str : Str → Str → Bool
le_str [] t = true
le_str (c ∷ s) [] = false
le_str (c ∷ s) (d ∷ t) = if ltb c d then true else c == d && le_str s t

-- `(-a[1], a[0]) <= (-b[1], b[0])`
unfoldable pub ranks_before : Str × ℕ → Str × ℕ → Bool
unfolding le_str
ranks_before (s, m) (t, n) = if ltb n m then true else m == n && le_str s t

unfoldable pub insert_ranked : Str × ℕ → List (Str × ℕ) → List (Str × ℕ)
unfolding ranks_before
insert_ranked x [] = x ∷ []
insert_ranked x (y ∷ ys) = if ranks_before x y then x ∷ y ∷ ys else y ∷ insert_ranked x ys

unfoldable pub ranked : List (Str × ℕ) → List (Str × ℕ)
unfolding insert_ranked
ranked [] = []
ranked (x ∷ xs) = insert_ranked x (ranked xs)

abbrev pub default_top_keywords : ℕ
default_top_keywords = 20

unfoldable pub extract_keywords : Python → Str → (top_n : Option ℕ) → List (Str × ℕ)
unfolding keyword_tokens count_tokens ranked
extract_keywords py s top_n =
    let n : ℕ = elim top_n [ none ↦ default_top_keywords | some k ↦ k ] in
    take n (ranked (count_tokens [] (keyword_tokens py s)))

le_str_total : (s t : Str) → le_str s t ≡ false → le_str t s ≡ true
unfolding le_str
le_str_total [] t h = cc
le_str_total (c ∷ s) [] h = refl
le_str_total (c ∷ s) (d ∷ t) h = ground (arith, le_str_total s t)

le_str_trans : (s t u : Str) → le_str s t ≡ true → le_str t u ≡ true → le_str s u ≡ true
unfolding le_str
le_str_trans [] t u h k = refl
le_str_trans (c ∷ s) [] u h k = cc
le_str_trans (c ∷ s) (d ∷ t) [] h k = cc
le_str_trans (c ∷ s) (d ∷ t) (e ∷ u) h k = ground (arith, le_str_trans s t u)

ranks_before_total : (x y : Str × ℕ) → ranks_before x y ≡ false → ranks_before y x ≡ true
unfolding ranks_before
ranks_before_total (s, m) (t, n) h = ground (arith, le_str_total s t)

ranks_before_trans :
    (x y z : Str × ℕ) → ranks_before x y ≡ true → ranks_before y z ≡ true → ranks_before x z ≡ true
unfolding ranks_before
ranks_before_trans (s, m) (t, n) (u, k) h g = ground (arith, le_str_trans s t u)

-- The head ranks before all others, at every place.
abbrev pub AllAfter : Str × ℕ → List (Str × ℕ) → Type 0
AllAfter x [] = Unit
AllAfter x (y ∷ ys) = (ranks_before x y ≡ true) × AllAfter x ys

abbrev pub IsRanked : List (Str × ℕ) → Type 0
IsRanked [] = Unit
IsRanked (x ∷ xs) = AllAfter x xs × IsRanked xs

AllAfter-trans :
    (x y : Str × ℕ) (zs : List (Str × ℕ)) → ranks_before x y ≡ true → AllAfter y zs → AllAfter x zs
AllAfter-trans x y [] h a = tt
AllAfter-trans x y (z ∷ zs) h a = (ranks_before_trans x y z h a.0, AllAfter-trans x y zs h a.1)

AllAfter-insert_ranked :
    (x y : Str × ℕ) (ys : List (Str × ℕ))
    → ranks_before x y ≡ true
    → AllAfter x ys
    → AllAfter x (insert_ranked y ys)
unfolding insert_ranked
AllAfter-insert_ranked x y [] h a = (h, tt)
AllAfter-insert_ranked x y (z ∷ zs) h a = elim (Bool-cases (ranks_before y z)) [
  | inl e ↦ rw e (h, a)
  | inr e ↦ rw e (a.0, AllAfter-insert_ranked x y zs h a.1)
]

insert_ranked-IsRanked :
    (x : Str × ℕ) (ys : List (Str × ℕ)) → IsRanked ys → IsRanked (insert_ranked x ys)
unfolding insert_ranked
insert_ranked-IsRanked x [] r = (tt, tt)
insert_ranked-IsRanked x (y ∷ ys) r = elim (Bool-cases (ranks_before x y)) [
  | inl e ↦ rw e ((e, AllAfter-trans x y ys e r.0), r)
  | inr e ↦ rw e (
    AllAfter-insert_ranked y x ys (ranks_before_total x y e) r.0,
    insert_ranked-IsRanked x ys r.1,
  )
]

ranked-IsRanked : (xs : List (Str × ℕ)) → IsRanked (ranked xs)
unfolding ranked
ranked-IsRanked [] = tt
ranked-IsRanked (x ∷ xs) = insert_ranked-IsRanked x (ranked xs) (ranked-IsRanked xs)

insert_ranked-perm : (x : Str × ℕ) (ys : List (Str × ℕ)) → Perm (insert_ranked x ys) (x ∷ ys)
unfolding insert_ranked
insert_ranked-perm x [] = Perm.refl (x ∷ [])
insert_ranked-perm x (y ∷ ys) = elim (Bool-cases (ranks_before x y)) [
  | inl e ↦ rw e (Perm.refl (x ∷ y ∷ ys))
  | inr e ↦ rw e (Perm.trans (Perm.cons y (insert_ranked-perm x ys)) (Perm.swap x y ys))
]

ranked-perm : (xs : List (Str × ℕ)) → Perm (ranked xs) xs
unfolding ranked
ranked-perm [] = Perm.refl []
ranked-perm (x ∷ xs) = Perm.trans (insert_ranked-perm x (ranked xs)) (Perm.cons x (ranked-perm xs))

-- How often a token stands in a list.
abbrev pub occurrences : Str → List Str → ℕ
occurrences t [] = 0
occurrences t (u ∷ us) = ite (Str_discrete u t) 1 0 + occurrences t us

abbrev pub count_or_zero : Option ℕ → ℕ
count_or_zero none = 0
count_or_zero (some n) = n

next_count_lem : (o : Option ℕ) → next_count o ≡ count_or_zero o + 1
next_count_lem none = omega arith
next_count_lem (some n) = refl

lookup-count_tokens :
    (t : Str) (freq : List (Str × ℕ)) (ts : List Str)
    → count_or_zero (lookup Str_discrete t (count_tokens freq ts))
      ≡ count_or_zero (lookup Str_discrete t freq) + occurrences t ts
unfolding count_tokens
lookup-count_tokens t freq [] = omega arith
lookup-count_tokens t freq (u ∷ ts) =
    let n = next_count (lookup Str_discrete u freq) in
    let ih = lookup-count_tokens t (insert Str_discrete u n freq) ts in
    let found = lookup-insert Str_discrete u t n freq in
    elim (Str_discrete u t) [
      | yes p ↦
          let more : count_or_zero (lookup Str_discrete t (insert Str_discrete u n freq))
              ≡ count_or_zero (lookup Str_discrete t freq) + 1 =
            ap count_or_zero (
              found
              ∙ if_pos (Str_discrete u t) p (some n) (lookup Str_discrete t freq)
              ∙ (λ i. some (next_count (lookup Str_discrete (p i) freq))))
            ∙ next_count_lem (lookup Str_discrete t freq) in
          let one : ite {C = ℕ} (Str_discrete u t) 1 0 ≡ 1 = if_pos (Str_discrete u t) p 1 0 in
          omega (arith, ih, more, one)
      | no p ↦
          let same : count_or_zero (lookup Str_discrete t (insert Str_discrete u n freq))
              ≡ count_or_zero (lookup Str_discrete t freq) =
            ap count_or_zero
              (found ∙ if_neg (Str_discrete u t) p (some n) (lookup Str_discrete t freq)) in
          let zero_more : ite {C = ℕ} (Str_discrete u t) 1 0 ≡ 0 =
            if_neg (Str_discrete u t) p 1 0 in
          omega (arith, ih, same, zero_more)
    ]

count_tokens-Distinct :
    (freq : List (Str × ℕ)) (ts : List Str)
    → Distinct Str_discrete freq
    → Distinct Str_discrete (count_tokens freq ts)
unfolding count_tokens
count_tokens-Distinct freq [] h = h
count_tokens-Distinct freq (t ∷ ts) h =
    count_tokens-Distinct (insert Str_discrete t (next_count (lookup Str_discrete t freq)) freq) ts
      (Distinct-insert Str_discrete t (next_count (lookup Str_discrete t freq)) freq h)

-- The keywords of a text are the first top_n, 20 by default, of a ranking: a rearrangement of the
-- counts of its keyword tokens, in which every token stands once with the number of its
-- occurrences, the higher count first and, among equal counts, the smaller text.
pub extract_keywords_lem :
    (py : Python) (s t : Str) (top_n : ℕ)
    → (freq : List (Str × ℕ)) × (all : List (Str × ℕ)) × (extract_keywords py s (some top_n)
        ≡ take top_n all)
      × (extract_keywords py s none ≡ take 20 all)
      × IsRanked all
      × Perm all freq
      × Distinct Str_discrete freq
      × (count_or_zero (lookup Str_discrete t freq) ≡ occurrences t (keyword_tokens py s))
unfolding extract_keywords
extract_keywords_lem py s t top_n =
    let freq = count_tokens [] (keyword_tokens py s) in
    (
      freq,
      ranked freq,
      refl,
      refl,
      ranked-IsRanked freq,
      ranked-perm freq,
      count_tokens-Distinct [] (keyword_tokens py s) tt,
      (lookup-count_tokens t [] (keyword_tokens py s) ∙ (unfold lookup in omega arith)),
    )
