-- ===== src/Data/Analyzer/Faults.antt =====
-- TextAnalyzer.classify_fault of src/data_processing/text_analyzer.py: the best match in a library
-- of reference texts.
use py2to3_example_project.Prelude.{
  ℕ, ◌*◌, ◌≤◌, ◌<◌, ◌≡◌, refl, sym, ◌∙◌, ◌⊎◌, inl, inr, Option, none, some, List, [], ◌∷◌, arith,
  if◌then◌else◌, Bool-cases,
}
use mathlib.Core.Path.{subst}
use py2to3_example_project.Prelude.Str.{Str}
use py2to3_example_project.Data.Analyzer.Tokens.{Python}
use py2to3_example_project.Data.Analyzer.Sets.{
  Score, above, compute_similarity, compute_similarity_lem, IsFraction,
}

abbrev pub Library : Type 0
Library = List (Str × List Str)

-- The best label and its score.
abbrev pub Best : Type 0
Best = Option Str × Score

abbrev pub nothing_yet : Best
nothing_yet = (none, record { numerator = 0; denominator = 1 })

abbrev pub better : Str → Score → Best → Best
better label score best = if above score best.1 then (some label, score) else best

-- An order is kept by a factor, and by taking away a factor that is not 0.
scaled_le : (m n k : ℕ) → m ≤ n → m * k ≤ n * k
scaled_le m n k h = grind arith

unscaled_le : (m n k : ℕ) → 0 < k → m * k ≤ n * k → m ≤ n
unscaled_le m n k p h = grind arith

module _ (py : Python) (text : Str) where
  unfoldable pub best_of_label : Best → Str → List Str → Best
  unfolding compute_similarity
  best_of_label best label [] = best
  best_of_label best label (ref ∷ refs) =
      best_of_label (better label (compute_similarity py text ref) best) label refs

  unfoldable pub best_of : Best → Library → Best
  unfolding best_of_label
  best_of best [] = best
  best_of best ((label, refs) ∷ rest) = best_of (best_of_label best label refs) rest

  -- `reference_library or self._reference_library`
  unfoldable pub classify_fault : (loaded : Library) → (given : Option Library) → Best
  unfolding best_of
  classify_fault loaded none = best_of nothing_yet loaded
  classify_fault loaded (some []) = best_of nothing_yet loaded
  classify_fault loaded (some (entry ∷ entries)) = best_of nothing_yet (entry ∷ entries)

  -- No fraction of the first is above the second.
  abbrev pub AtLeast : Score → Score → Type 0
  AtLeast a b = b.numerator * a.denominator ≤ a.numerator * b.denominator

  abbrev pub Beats : Score → List Str → Type 0
  Beats best [] = Unit
  Beats best (ref ∷ refs) = AtLeast best (compute_similarity py text ref) × Beats best refs

  abbrev pub BeatsAll : Score → Library → Type 0
  BeatsAll best [] = Unit
  BeatsAll best ((label, refs) ∷ rest) = Beats best refs × BeatsAll best rest

  AtLeast-trans : (a b c : Score) → 0 < b.denominator → AtLeast a b → AtLeast b c → AtLeast a c
  AtLeast-trans a b c p h k =
      let one =
        scaled_le (b.numerator * a.denominator) (a.numerator * b.denominator) c.denominator h in
      let two =
        scaled_le (c.numerator * b.denominator) (b.numerator * c.denominator) a.denominator k in
      unscaled_le (c.numerator * a.denominator) (a.numerator * c.denominator) b.denominator p
        (grind arith)

  better-AtLeast :
      (label : Str) (score : Score) (best : Best)
      → AtLeast (better label score best).1 score × AtLeast (better label score best).1 best.1
  better-AtLeast label score best = ground arith

  AtLeast-refl : (a : Score) → AtLeast a a
  AtLeast-refl a = omega arith

  better-IsFraction :
      (label : Str) (score : Score) (best : Best)
      → IsFraction score
      → IsFraction best.1
      → IsFraction (better label score best).1
  better-IsFraction label score best h k = ground arith

  -- The best so far only rises, and the score of every reference text is not above the end.
  best_of_label-Beats :
      (best : Best) (label : Str) (refs : List Str)
      → IsFraction best.1
      → IsFraction (best_of_label best label refs).1
        × AtLeast (best_of_label best label refs).1 best.1
        × Beats (best_of_label best label refs).1 refs
  unfolding best_of_label
  best_of_label-Beats best label [] h = (h, AtLeast-refl best.1, tt)
  best_of_label-Beats best label (ref ∷ refs) h =
      let score = compute_similarity py text ref in
      let next = better label score best in
      let up = better-AtLeast label score best in
      let ok_next = better-IsFraction label score best (compute_similarity_lem py text ref).0 h in
      let rest = best_of_label-Beats next label refs ok_next in
      let end = (best_of_label next label refs).1 in
      (
        rest.0,
        AtLeast-trans end next.1 best.1 ok_next.1 rest.1 up.1,
        (AtLeast-trans end next.1 score ok_next.1 rest.1 up.0, rest.2),
      )

  Beats-trans :
      (a b : Score) (refs : List Str)
      → 0 < b.denominator
      → AtLeast a b
      → Beats b refs
      → Beats a refs
  Beats-trans a b [] p h k = tt
  Beats-trans a b (ref ∷ refs) p h k =
      (AtLeast-trans a b (compute_similarity py text ref) p h k.0, Beats-trans a b refs p h k.1)

  best_of-BeatsAll :
      (best : Best) (library : Library)
      → IsFraction best.1
      → AtLeast (best_of best library).1 best.1 × BeatsAll (best_of best library).1 library
  unfolding best_of
  best_of-BeatsAll best [] h = (AtLeast-refl best.1, tt)
  best_of-BeatsAll best ((label, refs) ∷ rest) h =
      let here = best_of_label-Beats best label refs h in
      let next = best_of_label best label refs in
      let later = best_of-BeatsAll next rest here.0 in
      (
        AtLeast-trans (best_of next rest).1 next.1 best.1 here.0.1 later.0 here.1,
        (Beats-trans (best_of next rest).1 next.1 refs here.0.1 later.0 here.2, later.1),
      )

  -- The answer is a label of the library with the score of one of its texts.
  abbrev pub IsScoreOf : Best → Str → List Str → Type 0
  IsScoreOf best label [] = ⊥
  IsScoreOf best label (ref ∷ refs) =
      (best ≡ (some label, compute_similarity py text ref)) ⊎ IsScoreOf best label refs

  abbrev pub Occurs : Best → Library → Type 0
  Occurs best [] = ⊥
  Occurs best ((label, refs) ∷ rest) = IsScoreOf best label refs ⊎ Occurs best rest

  best_of_label-IsScoreOf :
      (best : Best) (label : Str) (refs : List Str)
      → (best_of_label best label refs ≡ best)
        ⊎ IsScoreOf (best_of_label best label refs) label refs
  unfolding best_of_label
  best_of_label-IsScoreOf best label [] = inl refl
  best_of_label-IsScoreOf best label (ref ∷ refs) =
      let score = compute_similarity py text ref in
      elim (best_of_label-IsScoreOf (better label score best) label refs) [
        | inr later ↦ inr (inr later)
        | inl same ↦ elim (Bool-cases (above score best.1)) [
          | inl up ↦ inr (inl (same ∙ rw up refl))
          | inr down ↦ inl (same ∙ rw down refl)
        ]
      ]

  best_of-Occurs :
      (best : Best) (library : Library)
      → (best_of best library ≡ best) ⊎ Occurs (best_of best library) library
  unfolding best_of
  best_of-Occurs best [] = inl refl
  best_of-Occurs best ((label, refs) ∷ rest) =
      elim (best_of-Occurs (best_of_label best label refs) rest) [
        | inr later ↦ inr (inr later)
        | inl same ↦ elim (best_of_label-IsScoreOf best label refs) [
          | inl still ↦ inl (same ∙ still)
          | inr here ↦ inr (inl (subst (λ b. IsScoreOf b label refs) (sym same) here))
        ]
      ]

  -- A classification gives a label of the library with the score of one of its reference texts, or
  -- no label and the score 0; and the score of no reference text is above it. The library is the
  -- given one, whatever is loaded, and the loaded one where none is given or the given one is empty.
  pub classify_fault_lem :
      (loaded : Library) (entry : Str × List Str) (entries : Library)
      → ((classify_fault loaded (some (entry ∷ entries)) ≡ nothing_yet)
          ⊎ Occurs (classify_fault loaded (some (entry ∷ entries))) (entry ∷ entries))
        × BeatsAll (classify_fault loaded (some (entry ∷ entries))).1 (entry ∷ entries)
        × ((classify_fault loaded none ≡ nothing_yet) ⊎ Occurs (classify_fault loaded none) loaded)
        × BeatsAll (classify_fault loaded none).1 loaded
        × (classify_fault loaded (some []) ≡ classify_fault loaded none)
  unfolding classify_fault
  classify_fault_lem loaded entry entries =
      let fraction : IsFraction nothing_yet.1 = omega arith in
      (
        best_of-Occurs nothing_yet (entry ∷ entries),
        (best_of-BeatsAll nothing_yet (entry ∷ entries) fraction).1,
        best_of-Occurs nothing_yet loaded,
        (best_of-BeatsAll nothing_yet loaded fraction).1,
        refl,
      )
