-- ===== src/Core/Types.antt =====
-- src/core/types.py: the counter, data points and their order, and the decoders of sensor readings.
-- A timestamp is a number of clock ticks.
use Prim.Native.String.{String}
use mathlib.Core.List.{Perm}
use mathlib.Core.Bool.{not}
use py2to3_example_project.Prelude.{
  ℕ, ◌+◌, ◌%◌, ◌≤◌, ◌≡◌, refl, Bool, true, false, ◌&&◌, Option, none, some, List, [], ◌∷◌, arith,
  ltb, leb, ◌==◌, if◌then◌else◌,
}
use py2to3_example_project.Prelude.Text.{codes}
use py2to3_example_project.Prelude.Sorting.{
  sorted_by, IsSorted, sorted_by-IsSorted, sorted_by-perm, with_key, sorted_by-with_key,
}

abbrev pub max_value : ℕ
max_value = 18446744073709551615

pub record LargeCounter : Type 0 where
  pub value : ℕ

unfoldable pub new_counter : ℕ → LargeCounter
new_counter initial = record { value = initial }

-- `increment`, for an amount that is not negative.
unfoldable pub increment : LargeCounter → ℕ → LargeCounter
increment c amount = record { value = (c.value + amount) % (max_value + 1) }

unfoldable pub increment_all : LargeCounter → List ℕ → LargeCounter
unfolding increment
increment_all c [] = c
increment_all c (n ∷ ns) = increment_all (increment c n) ns

abbrev pub total : List ℕ → ℕ
total [] = 0
total (n ∷ ns) = n + total ns

increment_all-mod :
    (c : LargeCounter) (ns : List ℕ)
    → (increment_all c ns).value % (max_value + 1) ≡ (c.value + total ns) % (max_value + 1)
unfolding increment_all increment
increment_all-mod c [] = omega arith
increment_all-mod c (n ∷ ns) =
    omega (arith, increment_all-mod (record { value = (c.value + n) % (max_value + 1) }) ns)

increment_all-le :
    (c : LargeCounter) (ns : List ℕ) → c.value ≤ max_value → (increment_all c ns).value ≤ max_value
unfolding increment_all increment
increment_all-le c [] h = h
increment_all-le c (n ∷ ns) h =
    increment_all-le (record { value = (c.value + n) % (max_value + 1) }) ns (omega arith)

-- A counter that started in range holds the initial value plus all increments, modulo 2 ^ 64.
pub increment_all_lem :
    (initial : ℕ) (ns : List ℕ)
    → initial ≤ max_value
    → (increment_all (new_counter initial) ns).value ≡ (initial + total ns) % 18446744073709551616
unfolding new_counter
increment_all_lem initial ns h = omega (
  arith,
  increment_all-mod (record { value = initial }) ns,
  increment_all-le (record { value = initial }) ns h,
)

pub record DataPoint (V : Type 0) : Type 0 where
  pub tag : String
  pub value : V
  pub timestamp : ℕ
  pub quality : ℕ

-- `timestamp or time.time()`
unfoldable pub new_point : {V : Type 0} → String → V → Option ℕ → (quality clock : ℕ) → DataPoint V
new_point tag v timestamp quality clock = record {
  tag = tag;
  value = v;
  timestamp = elim timestamp [ none ↦ clock | some t ↦ if t == 0 then clock else t ];
  quality = quality;
}

-- `<` and `==` on the code points of two texts.
codes_lt : List ℕ → List ℕ → Bool
codes_lt xs [] = false
codes_lt [] (y ∷ ys) = true
codes_lt (x ∷ xs) (y ∷ ys) =
    let rest = codes_lt xs ys in if ltb x y then true else if x == y then rest else false

codes_eq : List ℕ → List ℕ → Bool
codes_eq [] [] = true
codes_eq [] (y ∷ ys) = false
codes_eq (x ∷ xs) [] = false
codes_eq (x ∷ xs) (y ∷ ys) = x == y && codes_eq xs ys

unfoldable pub point_lt : {V : Type 0} → DataPoint V → DataPoint V → Bool
unfolding codes_lt
point_lt a b =
    if not (a.timestamp == b.timestamp)
    then ltb a.timestamp b.timestamp
    else codes_lt (codes a.tag) (codes b.tag)

unfoldable pub point_eq : {V : Type 0} → DataPoint V → DataPoint V → Bool
unfolding codes_eq
point_eq a b = a.timestamp == b.timestamp && codes_eq (codes a.tag) (codes b.tag)

-- `__bool__`
unfoldable pub is_good : {V : Type 0} → DataPoint V → Bool
is_good p = leb 192 p.quality

unfoldable pub sort_data_points : {V : Type 0} → List (DataPoint V) → List (DataPoint V)
sort_data_points points = sorted_by (λ p. p.timestamp) points

codes_lt_eq : (xs ys : List ℕ) → codes_lt xs ys ≡ true → codes_eq xs ys ≡ false
unfolding codes_lt codes_eq
codes_lt_eq xs [] h = absurd (ground arith)
codes_lt_eq [] (y ∷ ys) h = refl
codes_lt_eq (x ∷ xs) (y ∷ ys) h = ground (arith, codes_lt_eq xs ys)

codes_lt_asym : (xs ys : List ℕ) → codes_lt xs ys ≡ true → codes_lt ys xs ≡ false
unfolding codes_lt
codes_lt_asym xs [] h = absurd (ground arith)
codes_lt_asym [] (y ∷ ys) h = refl
codes_lt_asym (x ∷ xs) (y ∷ ys) h = ground (arith, codes_lt_asym xs ys)

codes_total :
    (xs ys : List ℕ) → codes_lt xs ys ≡ false → codes_eq xs ys ≡ false → codes_lt ys xs ≡ true
unfolding codes_lt codes_eq
codes_total [] [] h k = absurd (ground arith)
codes_total (x ∷ xs) [] h k = refl
codes_total [] (y ∷ ys) h k = absurd (ground arith)
codes_total (x ∷ xs) (y ∷ ys) h k = ground (arith, codes_total xs ys)

codes_trans :
    (xs ys zs : List ℕ) → codes_lt xs ys ≡ true → codes_lt ys zs ≡ true → codes_lt xs zs ≡ true
unfolding codes_lt
codes_trans xs [] zs h k = absurd (ground arith)
codes_trans xs (y ∷ ys) [] h k = absurd (ground arith)
codes_trans [] (y ∷ ys) (z ∷ zs) h k = refl
codes_trans (x ∷ xs) (y ∷ ys) (z ∷ zs) h k = ground (arith, codes_trans xs ys zs)

-- `<` on data points is a strict total order for `==`: of two points exactly one of `a < b`,
-- `a == b` and `b < a` holds, and `<` is transitive.
pub point_lt-IsStrictOrder :
    {V : Type 0} (a b c : DataPoint V)
    → (point_lt a b ≡ true → (point_eq a b ≡ false) × (point_lt b a ≡ false))
      × (point_lt a b ≡ false → point_eq a b ≡ false → point_lt b a ≡ true)
      × (point_lt a b ≡ true → point_lt b c ≡ true → point_lt a c ≡ true)
unfolding point_lt point_eq
point_lt-IsStrictOrder a b c = (
  (λ h. (
    ground (arith, codes_lt_eq (codes a.tag) (codes b.tag)),
    ground (arith, codes_lt_asym (codes a.tag) (codes b.tag)),
  )),
  (λ h k. ground (arith, codes_total (codes a.tag) (codes b.tag))),
  λ h k. ground (arith, codes_trans (codes a.tag) (codes b.tag) (codes c.tag)),
)

-- Sorting puts the points in the order of their times, loses and adds none, and keeps the order of
-- points with the same time.
pub sort_data_points_lem :
    {V : Type 0} (points : List (DataPoint V))
    → IsSorted (λ p. p.timestamp) (sort_data_points points)
      × Perm (sort_data_points points) points
      × ((t : ℕ)
          → with_key (λ p. p.timestamp) t (sort_data_points points)
            ≡ with_key (λ p. p.timestamp) t points)
unfolding sort_data_points
sort_data_points_lem points = (
  sorted_by-IsSorted (λ p. p.timestamp) points,
  sorted_by-perm (λ p. p.timestamp) points,
  λ t. sorted_by-with_key (λ p. p.timestamp) t points,
)
