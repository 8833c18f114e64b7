-- ===== src/Data/Analyzer/Sets.antt =====
-- The similarity of texts in src/data_processing/text_analyzer.py. A set of keywords is a list with
-- no keyword twice; a score is the fraction that the float stands for.
use py2to3_example_project.Prelude.{
  ℕ, ◌+◌, ◌*◌, ◌≤◌, ◌<◌, ◌≡◌, refl, sym, ap, ◌∙◌, Bool, true, false, some, List, [], ◌∷◌, ◌++◌, map,
  arith, ltb, if◌then◌else◌, length, Bool-cases, inl, inr,
}
use py2to3_example_project.Prelude.Str.{Str, same_str, same_str_refl, same_str_eq}
use py2to3_example_project.Data.Analyzer.Tokens.{Python, member}
use py2to3_example_project.Data.Analyzer.Keywords.{extract_keywords}

-- `set([kw for kw, _ in …])`
unfoldable pub set_of : List (Str × ℕ) → List Str
unfolding member
set_of [] = []
set_of ((w, n) ∷ rest) = let others = set_of rest in if member w others then others else w ∷ others

-- `len(a & b)`
unfoldable pub shared : List Str → List Str → ℕ
unfolding member
shared [] b = 0
shared (w ∷ a) b = (if member w b then 1 else 0) + shared a b

-- `len(a | b)`
unfoldable pub joint : List Str → List Str → ℕ
unfolding member
joint [] b = length b
joint (w ∷ a) b = (if member w b then 0 else 1) + joint a b

-- numerator / denominator
pub record Score : Type 0 where
  pub numerator : ℕ
  pub denominator : ℕ

-- `a > b`
abbrev pub above : Score → Score → Bool
above a b = ltb (b.numerator * a.denominator) (a.numerator * b.denominator)

unfoldable pub set_similarity : List Str → List Str → Score
unfolding shared joint
set_similarity [] [] = record { numerator = 1; denominator = 1 }
set_similarity [] (w ∷ b) = record { numerator = 0; denominator = 1 }
set_similarity (w ∷ a) [] = record { numerator = 0; denominator = 1 }
set_similarity (w ∷ a) (v ∷ b) = record {
  numerator = shared (w ∷ a) (v ∷ b);
  denominator = joint (w ∷ a) (v ∷ b);
}

unfoldable pub keyword_set : Python → Str → List Str
unfolding set_of extract_keywords
keyword_set py s = set_of (extract_keywords py s (some 50))

unfoldable pub compute_similarity : Python → Str → Str → Score
unfolding set_similarity keyword_set
compute_similarity py s t = set_similarity (keyword_set py s) (keyword_set py t)

-- The inner loop of batch_similarity: a pair with a keyword on either side.
unfoldable pub pairs_with : ℕ → List Str → ℕ → List (List Str) → List (ℕ × ℕ × Score)
unfolding shared joint
pairs_with i a j [] = []
pairs_with i [] j ([] ∷ sets) = pairs_with i [] (j + 1) sets
pairs_with i [] j ((v ∷ b) ∷ sets) =
    (i, j, record { numerator = shared [] (v ∷ b); denominator = joint [] (v ∷ b) })
    ∷ pairs_with i [] (j + 1) sets
pairs_with i (w ∷ a) j (b ∷ sets) =
    (i, j, record { numerator = shared (w ∷ a) b; denominator = joint (w ∷ a) b })
    ∷ pairs_with i (w ∷ a) (j + 1) sets

unfoldable pub pairs_from : ℕ → List (List Str) → List (ℕ × ℕ × Score)
unfolding pairs_with
pairs_from i [] = []
pairs_from i (a ∷ sets) = pairs_with i a (i + 1) sets ++ pairs_from (i + 1) sets

-- The pairs of batch_similarity.
unfoldable pub similar_pairs : Python → List Str → List (ℕ × ℕ × Score)
unfolding keyword_set pairs_from
similar_pairs py texts = pairs_from 0 (map (keyword_set py) texts)

abbrev pub IsSetList : List Str → Type 0
IsSetList [] = Unit
IsSetList (w ∷ a) = (member w a ≡ false) × IsSetList a

set_of-IsSetList : (ks : List (Str × ℕ)) → IsSetList (set_of ks)
unfolding set_of
set_of-IsSetList [] = tt
set_of-IsSetList ((w, n) ∷ rest) = elim (Bool-cases (member w (set_of rest))) [
  | inl old ↦ rw old (set_of-IsSetList rest)
  | inr new ↦ rw new (new, set_of-IsSetList rest)
]

keyword_set-IsSetList : (py : Python) (s : Str) → IsSetList (keyword_set py s)
unfolding keyword_set
keyword_set-IsSetList py s = set_of-IsSetList (extract_keywords py s (some 50))

same_str_sym : (s t : Str) → same_str s t ≡ same_str t s
unfolding same_str
same_str_sym [] [] = refl
same_str_sym [] (d ∷ t) = refl
same_str_sym (c ∷ s) [] = refl
same_str_sym (c ∷ s) (d ∷ t) = ground (arith, same_str_sym s t)

abbrev one_if : Bool → ℕ
one_if b = if b then 1 else 0

shared_nil : (b : List Str) → shared b [] ≡ 0
unfolding shared member
shared_nil [] = refl
shared_nil (w ∷ b) = ground (arith, shared_nil b)

-- A keyword more on the right is shared once, if it is on the left.
shared-cons :
    (b : List Str) (w : Str) (a : List Str)
    → IsSetList b
    → member w a ≡ false
    → shared b (w ∷ a) ≡ one_if (member w b) + shared b a
unfolding shared member
shared-cons [] w a h n = refl
shared-cons (v ∷ b) w a h n =
    let ih = shared-cons b w a h.1 n in
    let flip = same_str_sym v w in
    elim (Bool-cases (same_str v w)) [
      | inl e ↦
          let same = same_str_eq v w e in
          let not_in_b : member w b ≡ false = ap (λ x. member x b) (sym same) ∙ h.0 in
          let not_in_a : member v a ≡ false = ap (λ x. member x a) same ∙ n in
          ground (arith, ih, flip, not_in_b, not_in_a)
      | inr e ↦ ground (arith, ih, flip)
    ]

shared_comm : (a b : List Str) → IsSetList a → IsSetList b → shared a b ≡ shared b a
unfolding shared
shared_comm [] b h k = sym (shared_nil b)
shared_comm (w ∷ a) b h k = omega (arith, shared_comm a b h.1 k, shared-cons b w a k h.0)

-- The union holds each side's keywords, the shared ones once.
joint-shared : (a b : List Str) → joint a b + shared a b ≡ length a + length b
unfolding joint shared
joint-shared [] b = omega arith
joint-shared (w ∷ a) b = ground (arith, joint-shared a b)

shared-le : (a b : List Str) → shared a b ≤ length a
unfolding shared
shared-le [] b = omega arith
shared-le (w ∷ a) b = ground (arith, shared-le a b)

member_head : (w : Str) (a : List Str) → member w (w ∷ a) ≡ true
unfolding member
member_head w a = rw (same_str_refl w)

-- All keywords of `a` stand in `b`.
abbrev AllIn : List Str → List Str → Type 0
AllIn [] b = Unit
AllIn (w ∷ a) b = (member w b ≡ true) × AllIn a b

AllIn-cons : (v : Str) (a b : List Str) → AllIn a b → AllIn a (v ∷ b)
AllIn-cons v [] b h = tt
AllIn-cons v (w ∷ a) b h = (later h.0, AllIn-cons v a b h.1)
  where
    later : member w b ≡ true → member w (v ∷ b) ≡ true
    later e = unfold member in ground arith

AllIn-refl : (a : List Str) → AllIn a a
AllIn-refl [] = tt
AllIn-refl (w ∷ a) = (member_head w a, AllIn-cons w a a (AllIn-refl a))

shared-AllIn : (a b : List Str) → AllIn a b → shared a b ≡ length a
unfolding shared
shared-AllIn [] b h = refl
shared-AllIn (w ∷ a) b h = rw h.0 (omega (arith, shared-AllIn a b h.1))

-- The score lies between 0 and 1, and its denominator is not 0.
abbrev pub IsFraction : Score → Type 0
IsFraction s = (s.numerator ≤ s.denominator) × (0 < s.denominator)

set_similarity-IsFraction :
    (a b : List Str) → IsSetList a → IsSetList b → IsFraction (set_similarity a b)
unfolding set_similarity
set_similarity-IsFraction [] [] h k = omega arith
set_similarity-IsFraction [] (v ∷ b) h k = omega arith
set_similarity-IsFraction (w ∷ a) [] h k = omega arith
set_similarity-IsFraction (w ∷ a) (v ∷ b) h k =
    let total = joint-shared (w ∷ a) (v ∷ b) in
    let left = shared-le (w ∷ a) (v ∷ b) in
    let right = shared-le (v ∷ b) (w ∷ a) in
    let flip = shared_comm (w ∷ a) (v ∷ b) h k in (omega arith, omega arith)

set_similarity_comm :
    (a b : List Str) → IsSetList a → IsSetList b → set_similarity a b ≡ set_similarity b a
unfolding set_similarity
set_similarity_comm [] [] h k = refl
set_similarity_comm [] (v ∷ b) h k = refl
set_similarity_comm (w ∷ a) [] h k = refl
set_similarity_comm (w ∷ a) (v ∷ b) h k =
    let flip = shared_comm (w ∷ a) (v ∷ b) h k in
    let left = joint-shared (w ∷ a) (v ∷ b) in
    let right = joint-shared (v ∷ b) (w ∷ a) in
    let unions : joint (w ∷ a) (v ∷ b) ≡ joint (v ∷ b) (w ∷ a) = omega arith in
    λ i. record { numerator = flip i; denominator = unions i }

set_similarity_self :
    (a : List Str) → (set_similarity a a).numerator ≡ (set_similarity a a).denominator
unfolding set_similarity
set_similarity_self [] = refl
set_similarity_self (w ∷ a) =
    let all = shared-AllIn (w ∷ a) (w ∷ a) (AllIn-refl (w ∷ a)) in
    let total = joint-shared (w ∷ a) (w ∷ a) in omega arith

-- The similarity of two texts is a fraction between 0 and 1, the same in both orders, and 1 for a
-- text with itself.
pub compute_similarity_lem :
    (py : Python) (s t : Str)
    → IsFraction (compute_similarity py s t)
      × (compute_similarity py s t ≡ compute_similarity py t s)
      × ((compute_similarity py s s).numerator ≡ (compute_similarity py s s).denominator)
unfolding compute_similarity
compute_similarity_lem py s t =
    let left = keyword_set-IsSetList py s in
    let right = keyword_set-IsSetList py t in
    (
      set_similarity-IsFraction (keyword_set py s) (keyword_set py t) left right,
      set_similarity_comm (keyword_set py s) (keyword_set py t) left right,
      set_similarity_self (keyword_set py s),
    )
