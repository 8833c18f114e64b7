-- ===== src/Prelude/Str.antt =====
-- Texts as lists of code points, where the program looks inside them.
use py2to3_example_project.Prelude.{
  ℕ, zero, suc, ◌+◌, ◌/◌, ◌%◌, ltb, ◌-◌, ◌≡◌, refl, ap, Bool, true, false, ◌&&◌, ◌||◌, List, [],
  ◌∷◌, ◌++◌, arith, ◌==◌, if◌then◌else◌, length, take, length-append,
}

abbrev pub Str : Type 0
Str = List ℕ

-- `s == t`
unfoldable pub same_str : Str → Str → Bool
same_str [] [] = true
same_str [] (d ∷ t) = false
same_str (c ∷ s) [] = false
same_str (c ∷ s) (d ∷ t) = c == d && same_str s t

pub same_str_eq : (s t : Str) → same_str s t ≡ true → s ≡ t
unfolding same_str
same_str_eq [] [] h = refl
same_str_eq [] (d ∷ t) h = cc
same_str_eq (c ∷ s) [] h = cc
same_str_eq (c ∷ s) (d ∷ t) h = ground (arith, same_str_eq s t)

pub same_str_refl : (s : Str) → same_str s s ≡ true
unfolding same_str
same_str_refl [] = refl
same_str_refl (c ∷ s) = ground (arith, same_str_refl s)

dec_of_test : (s t : Str) (b : Bool) → same_str s t ≡ b → Dec (s ≡ t)
dec_of_test s t true h = yes (same_str_eq s t h)
dec_of_test s t false h = no (λ e. let same : same_str s t ≡ true = rw e (same_str_refl t) in cc)

unfoldable pub Str_discrete : Discrete Str
unfolding dec_of_test same_str
Str_discrete s t = dec_of_test s t (same_str s t) (λ i. same_str s t)

-- `s.startswith(p)`
unfoldable pub starts_with : (p s : Str) → Bool
starts_with [] s = true
starts_with (c ∷ p) [] = false
starts_with (c ∷ p) (d ∷ s) = c == d && starts_with p s

-- `p in s`
unfoldable pub contains : (p s : Str) → Bool
unfolding starts_with
contains p [] = starts_with p []
contains p (c ∷ s) = starts_with p (c ∷ s) || contains p s

-- What stands before the first item that meets the test: `s.split(sep)[0]`.
unfoldable pub before {ℓ} : {A : Type ℓ} → (A → Bool) → List A → List A
before test [] = []
before test (c ∷ s) = if test c then [] else c ∷ before test s

-- `s.rstrip(…)`: the trailing items that meet the test are removed.
unfoldable pub rstrip {ℓ} : {A : Type ℓ} → (A → Bool) → List A → List A
rstrip test [] = []
rstrip test (c ∷ s) = elim (rstrip test s) [
  | [] ↦ if test c then [] else c ∷ []
  | d ∷ t ↦ c ∷ d ∷ t
]

-- Every item meets the test.
unfoldable pub all {ℓ} : {A : Type ℓ} → (A → Bool) → List A → Bool
all test [] = true
all test (c ∷ s) = test c && all test s

pub take_all : (s t : Str) → take (length s) (s ++ t) ≡ s
take_all [] t = refl
take_all (c ∷ s) t = ap (λ q. c ∷ q) (take_all s t)

pub take_prefix : (s t : Str) → take (length (s ++ t) - length t) (s ++ t) ≡ s
take_prefix s t =
    let size : length (s ++ t) - length t ≡ length s = omega (arith, length-append s t) in
    rw size (take_all s t)

pub take_whole : (s : Str) → take (length s - 0) s ≡ s
take_whole s = let size : length s - 0 ≡ length s = omega arith in rw size (all_of s)
  where
    all_of : (r : Str) → take (length r) r ≡ r
    all_of [] = refl
    all_of (c ∷ r) = ap (λ q. c ∷ q) (all_of r)

-- Equality of pairs of texts.
pair_of : (a b c d : Str) → Dec (a ≡ c) → Dec (b ≡ d) → Dec (◌≡◌ {A = Str × Str} (a, b) (c, d))
pair_of a b c d (yes p) (yes q) = yes (λ i. (p i, q i))
pair_of a b c d (no p) other = no (λ e. p (ap (λ x. x.0) e))
pair_of a b c d (yes p) (no q) = no (λ e. q (ap (λ x. x.1) e))

unfoldable pub Key_discrete : Discrete (Str × Str)
unfolding pair_of Str_discrete
Key_discrete (a, b) (c, d) = pair_of a b c d (Str_discrete a c) (Str_discrete b d)

-- `str(n)`: its decimal digits, at most as many as the fuel.
unfoldable pub digits : (fuel : ℕ) → ℕ → Str
digits zero n = []
digits (suc fuel) n =
    let front = digits fuel (n / 10) in
    if ltb n 10 then (b'0' + n) ∷ [] else front ++ (b'0' + n % 10) ∷ []

-- `sep.join(parts)`
unfoldable pub join : (sep : Str) → List Str → Str
join sep [] = []
join sep (p ∷ ps) = elim ps [ [] ↦ p | q ∷ qs ↦ p ++ (sep ++ join sep ps) ]
