-- ===== src/Core/Utils/Chunks.antt =====
-- chunked_range and aggregate_values.
use Prim.Native.Nat.{min}
use py2to3_example_project.Prelude.{
  ℕ, zero, suc, ◌+◌, ◌-◌, ◌≤◌, ◌<◌, ◌≡◌, refl, inl, inr, false, Option, none, some, List, [], ◌∷◌,
  arith, ltb, leb, if◌then◌else◌, Bool-cases,
}
use py2to3_example_project.Prelude.Py.{Result, ok, raise, value_error, type_error}

-- `range(offset, total, chunk_size)`, a round for each chunk; `none` means that the fuel ran out.
chunk_loop : ℕ → (offset total chunk_size : ℕ) → Option (List (ℕ × ℕ))
chunk_loop zero offset total chunk_size = none
chunk_loop (suc fuel) offset total chunk_size =
    let rest = chunk_loop fuel (offset + chunk_size) total chunk_size in
    if ltb offset total
    then elim rest [
      | none ↦ none
      | some chunks ↦ some ((offset, min (offset + chunk_size) total) ∷ chunks)
    ]
    else some []

-- A step of 0 is refused; with another, a round more than the total is enough.
unfoldable pub chunked_range : (total chunk_size : ℕ) → Option (Result (List (ℕ × ℕ)))
unfolding chunk_loop
chunked_range total chunk_size =
    if leb chunk_size 0
    then some (raise value_error)
    else elim (chunk_loop (suc total) 0 total chunk_size) [
      | none ↦ none
      | some chunks ↦ some (ok chunks)
    ]

-- The chunks follow each other without a gap from one number to another; none is empty or longer
-- than the size.
abbrev pub Partition : (from to size : ℕ) → List (ℕ × ℕ) → Type 0
Partition from to size [] = from ≡ to
Partition from to size ((a, b) ∷ chunks) =
    (a ≡ from) × (a < b) × (b ≤ a + size) × Partition b to size chunks

chunk_loop_lem :
    (fuel offset total size : ℕ)
    → 0 < size
    → total - offset < fuel
    → (chunks : List (ℕ × ℕ)) × (chunk_loop fuel offset total size ≡ some chunks)
      × (offset ≤ total → Partition offset total size chunks)
      × (total ≤ offset → chunks ≡ [])
unfolding chunk_loop
chunk_loop_lem zero offset total size p f = absurd (omega arith)
chunk_loop_lem (suc fuel) offset total size p f = elim (Bool-cases (ltb offset total)) [
  | inr done ↦ ([], (rw done refl), (λ h. ground arith), λ h. refl)
  | inl more ↦
      let (chunks, found, parts, empty) =
        chunk_loop_lem fuel (offset + size) total size p (ground arith) in
      let next = min (offset + size) total in
      (
        (offset, next) ∷ chunks,
        (rw (more, found) refl),
        (λ h. (
          refl,
          ground arith,
          omega arith,
          elim (Bool-cases (leb (offset + size) total)) [
            | inl inside ↦
                let here : next ≡ offset + size = ground arith in rw here (parts (ground arith))
            | inr outside ↦
                let here : next ≡ total = ground arith in rw (here, empty (ground arith)) refl
          ],
        )),
        λ h. absurd (ground arith),
      )
]

-- For a chunk size above 0 the chunks cut the range from 0 to the total into pieces that follow
-- each other without a gap, each with at least one and at most as many numbers as the chunk size.
pub chunked_range_lem :
    (total chunk_size : ℕ)
    → 0 < chunk_size
    → (chunks : List (ℕ × ℕ)) × (chunked_range total chunk_size ≡ some (ok chunks))
      × Partition 0 total chunk_size chunks
unfolding chunked_range
chunked_range_lem total chunk_size p =
    let (chunks, found, parts, empty) =
      chunk_loop_lem (suc total) 0 total chunk_size p (omega arith) in
    let positive : leb chunk_size 0 ≡ false = ground arith in
    (chunks, (rw (positive, found) refl), parts (omega arith))

-- `aggregate_values`: a fold, whose start is the first value when no initial one is given.
unfoldable pub fold {ℓ} : {A : Type ℓ} → (A → A → A) → A → List A → A
fold func acc [] = acc
fold func acc (x ∷ xs) = fold func (func acc x) xs

unfoldable pub aggregate_values {ℓ} : {A : Type ℓ} → (A → A → A) → List A → Option A → Result A
unfolding fold
aggregate_values func sequence initial = elim initial [
  | some a ↦ ok (fold func a sequence)
  | none ↦ elim sequence [ [] ↦ raise type_error | x ∷ xs ↦ ok (fold func x xs) ]
]
