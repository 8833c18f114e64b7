-- ===== src/Core/Itertools/Batches.antt =====
-- Fixed-size batches, and the helpers that consume an iterator item by item.
use mathlib.Core.List.{flatten}
use mathlib.Core.Option
use py2to3_example_project.Prelude.{
  ℕ, zero, suc, ◌+◌, ◌-◌, ◌≤◌, ◌<◌, ◌≡◌, refl, ap, ◌∙◌, inl, inr, Option, none, some, List, [], ◌∷◌,
  ◌++◌, arith, length, take, drop, take-append-drop, length-take, length-drop, if◌then◌else◌, leb,
  Bool-cases, ℕ-cases, append-nil, append_assoc,
}
use py2to3_example_project.Prelude.Py.{Result, ok, raise, stop_iteration}

module _ {ℓ} {A : Type ℓ} where
  -- The `while True` loop: `islice` takes at most `size` items, an empty chunk ends it. `none`
  -- means that the fuel ran out.
  batch_loop : ℕ → ℕ → List A → Option (List (List A))
  batch_loop zero size items = none
  batch_loop (suc fuel) size items = elim (take size items) [
    | [] ↦ some []
    | x ∷ chunk ↦ Option.map (λ rest. (x ∷ chunk) ∷ rest) (batch_loop fuel size (drop size items))
  ]

  -- Every round but the last takes an item, so a round more than there are items is enough.
  unfoldable pub batch_readings : List A → ℕ → Option (List (List A))
  unfolding batch_loop
  batch_readings items batch_size = batch_loop (suc (length items)) batch_size items

  -- `zip(itertools.count(), batches)`
  unfoldable pub number_from : ℕ → List (List A) → List (ℕ × List A)
  number_from n [] = []
  number_from n (b ∷ bs) = (n, b) ∷ number_from (n + 1) bs

  unfoldable pub batch_with_index : List A → ℕ → Option (List (ℕ × List A))
  unfolding batch_readings number_from
  batch_with_index items batch_size = Option.map (number_from 0) (batch_readings items batch_size)

  -- Every batch has an item and at most `size`, and only the last has fewer than `size`.
  abbrev pub AreBatches : ℕ → List (List A) → Type 0
  AreBatches size [] = Unit
  AreBatches size (b ∷ []) = (0 < length b) × (length b ≤ size)
  AreBatches size (b ∷ c ∷ bs) = (length b ≡ size) × AreBatches size (c ∷ bs)

  flatten-cons : (b : List A) (bs : List (List A)) → flatten (b ∷ bs) ≡ b ++ flatten bs
  unfolding flatten
  flatten-cons b bs = refl

  flatten-nil : ◌≡◌ {A = List A} (flatten []) []
  unfolding flatten
  flatten-nil = refl

  drop_short : (n : ℕ) (xs : List A) → length xs ≤ n → drop n xs ≡ []
  drop_short zero [] h = refl
  drop_short zero (x ∷ xs) h = absurd (omega arith)
  drop_short (suc n) [] h = refl
  drop_short (suc n) (x ∷ xs) h = drop_short n xs (omega arith)

  batch_loop-nil : (fuel size : ℕ) → batch_loop (suc fuel) size [] ≡ some []
  unfolding batch_loop
  batch_loop-nil fuel zero = refl
  batch_loop-nil fuel (suc size) = refl

  AreBatches-cons :
      (size : ℕ) (b : List A) (bs : List (List A)) (rest : List A)
      → 0 < length b
      → length b ≤ size
      → (length rest ≡ 0 → bs ≡ [])
      → (0 < length rest → length b ≡ size)
      → flatten bs ≡ rest
      → AreBatches size bs
      → AreBatches size (b ∷ bs)
  AreBatches-cons size b [] rest p q e f g h = (p, q)
  AreBatches-cons size b (c ∷ bs) [] p q e f g h = absurd (ground (arith, e refl))
  AreBatches-cons size b (c ∷ bs) (x ∷ rest) p q e f g h = (f (omega arith), h)

  batch_loop_lem :
      (fuel size : ℕ) (items : List A)
      → length items < fuel
      → 0 < size
      → (bs : List (List A)) × (batch_loop fuel size items ≡ some bs)
        × (flatten bs ≡ items)
        × AreBatches size bs
        × (length items ≡ 0 → bs ≡ [])
  unfolding batch_loop
  batch_loop_lem zero size items h p = absurd (omega arith)
  batch_loop_lem (suc fuel) size [] h p = ([], batch_loop-nil fuel size, flatten-nil, tt, λ _. refl)
  batch_loop_lem (suc fuel) zero (x ∷ items) h p = absurd (omega arith)
  batch_loop_lem (suc fuel) (suc size) (x ∷ items) h p =
      let (bs, run, flat, good, empty) =
        batch_loop_lem fuel (suc size) (drop size items) (omega (arith, length-drop size items))
          p in
      let b = x ∷ take size items in
      (
        b ∷ bs,
        rw run,
        flatten-cons b bs ∙ rw flat (ap (◌∷◌ x) (take-append-drop size items)),
        AreBatches-cons (suc size) b bs (drop size items) (omega arith)
            (omega (arith, length-take size items)) empty
            (λ more. omega (arith, length-take size items, length-drop size items)) flat good,
        λ e. absurd (omega arith),
      )

  -- For a positive batch size the generator ends, and what it yields are batches in order: their
  -- concatenation is the input, each has an item and at most `batch_size`, and only the last may
  -- have fewer.
  pub batch_readings_lem :
      (items : List A) (batch_size : ℕ)
      → 0 < batch_size
      → (bs : List (List A)) × (batch_readings items batch_size ≡ some bs)
        × (flatten bs ≡ items)
        × AreBatches batch_size bs
  unfolding batch_readings
  batch_readings_lem items batch_size p =
      let (bs, run, flat, good, _) =
        batch_loop_lem (suc (length items)) batch_size items (omega arith) p in
      (bs, run, flat, good)

  -- `next(iterator)`: the item, and what is left.
  unfoldable pub take_next : List A → Result (A × List A)
  take_next [] = raise stop_iteration
  take_next (x ∷ xs) = ok (x, xs)

  -- The value, and `itertools.chain([value], iterator)`.
  unfoldable pub peek : List A → Result (A × List A)
  unfolding take_next
  peek [] = raise stop_iteration
  peek (x ∷ xs) = ok (x, (x ∷ []) ++ xs)

  -- The loop of `drain`, with the result so far, the count, and what is left.
  drain_loop : Option ℕ → ℕ → List A → List A → List A × List A
  drain_loop limit count result [] = (result, [])
  drain_loop none count result (x ∷ xs) = drain_loop none (count + 1) (result ++ (x ∷ [])) xs
  drain_loop (some n) count result (x ∷ xs) =
      let rest = drain_loop (some n) (count + 1) (result ++ (x ∷ [])) xs in
      if leb n (count + 1) then (result ++ (x ∷ []), xs) else rest

  -- The items drained, and what the iterator has left.
  unfoldable pub drain : List A → Option ℕ → List A × List A
  unfolding drain_loop
  drain items limit = drain_loop limit 0 [] items

  drain_loop-none :
      (count : ℕ) (result items : List A)
      → drain_loop none count result items ≡ (result ++ items, [])
  unfolding drain_loop
  drain_loop-none count result [] = rw append-nil
  drain_loop-none count result (x ∷ xs) =
      rw (drain_loop-none (count + 1) (result ++ (x ∷ [])) xs, append_assoc)

  drain_loop-some :
      (n count : ℕ) (result items : List A)
      → count < n
      → drain_loop (some n) count result items
        ≡ (result ++ take (n - count) items, drop (n - count) items)
  unfolding drain_loop
  drain_loop-some n count result [] h = elim (ℕ-cases (n - count)) [
    | inl e ↦ rw (e, append-nil)
    | inr (k, e) ↦ rw (e, append-nil)
  ]
  drain_loop-some n count result (x ∷ xs) h =
      let e : n - count ≡ suc (n - (count + 1)) = omega arith in
      elim (Bool-cases (leb n (count + 1))) [
        | inl done ↦ let last : n - (count + 1) ≡ 0 = ground arith in rw (done, e, last)
        | inr more ↦
            rw (more, e, drain_loop-some n (count + 1) (result ++ (x ∷ [])) xs (ground arith))
              (rw append_assoc)
      ]

  drain-some :
      (n : ℕ) (items : List A) → 0 < n → drain items (some n) ≡ (take n items, drop n items)
  unfolding drain
  drain-some n items h = let e : n - 0 ≡ n = omega arith in rw e at (drain_loop-some n 0 [] items h)

  -- Without a limit `drain` returns every item and leaves none; with a positive limit it returns
  -- the first `limit` items and leaves the others; with limit 0 it still takes the first item.
  pub drain_lem :
      (items : List A)
      → (drain items none ≡ (items, []))
        × ((n : ℕ) → 0 < n → drain items (some n) ≡ (take n items, drop n items))
        × (drain items (some 0) ≡ (take 1 items, drop 1 items))
  unfolding drain drain_loop
  drain_lem [] = (refl, (λ n h. drain-some n [] h), refl)
  drain_lem (x ∷ xs) = (drain_loop-none 0 [] (x ∷ xs), (λ n h. drain-some n (x ∷ xs) h), refl)
