-- ===== src/Core/Itertools/Windows.antt =====
-- Sliding windows over a bounded deque, and the element-wise helpers.
use py2to3_example_project.Prelude.{
  ℕ, zero, suc, ◌+◌, ◌-◌, ◌≤◌, ◌<◌, ◌≡◌, refl, ap, ◌∙◌, some, List, [], ◌∷◌, ◌++◌, arith, length,
  take, drop, get_elem?, length-take, length-drop, length-append, append-nil, append_assoc,
}
use py2to3_example_project.Prelude.Py.{Result, ok, raise, runtime_error, ◌>>=◌}

module _ {ℓ} {A : Type ℓ} where
  -- `window.append(x)` on a deque with `maxlen`: what is too much goes at the left.
  unfoldable pub push : ℕ → List A → A → List A
  push maxlen window x = let longer = window ++ (x ∷ []) in drop (length longer - maxlen) longer

  -- `for _ in range(n): window.append(next(iterator))`. The StopIteration of `next` inside a
  -- generator becomes a RuntimeError.
  unfoldable pub fill : ℕ → ℕ → List A → List A → Result (List A × List A)
  unfolding push
  fill maxlen zero window items = ok (window, items)
  fill maxlen (suc n) window [] = raise runtime_error
  fill maxlen (suc n) window (x ∷ items) = fill maxlen n (push maxlen window x) items

  unfoldable pub slide : ℕ → List A → List A → List (List A)
  unfolding push
  slide maxlen window [] = []
  slide maxlen window (x ∷ items) = push maxlen window x ∷ slide maxlen (push maxlen window x) items

  unfoldable pub sliding_window : List A → ℕ → Result (List (List A))
  unfolding fill slide
  sliding_window items window_size = do
    (window, rest) ← fill window_size window_size [] items
    ok (window ∷ slide window_size window rest)

  push_full :
      (n : ℕ) (window : List A) (x : A) (rest : List A)
      → length window ≡ n
      → push n window x ++ rest ≡ drop 1 (window ++ (x ∷ rest))
  unfolding push
  push_full n window x rest h =
      let e : length (window ++ (x ∷ [])) - n ≡ 1 =
        omega (arith, length-append {ℓ} window (x ∷ [])) in
      rw e (go window)
    where
      go : (w : List A) → drop 1 (w ++ (x ∷ [])) ++ rest ≡ drop 1 (w ++ (x ∷ rest))
      go [] = refl
      go (a ∷ w) = append_assoc w (x ∷ []) rest

  length-push_full :
      (n : ℕ) (window : List A) (x : A) → length window ≡ n → length (push n window x) ≡ n
  unfolding push
  length-push_full n window x h = omega (
    arith,
    length-append {ℓ} window (x ∷ []),
    length-drop (length (window ++ (x ∷ [])) - n) (window ++ (x ∷ [])),
  )

  push_room :
      (n : ℕ) (window : List A) (x : A) → length window < n → push n window x ≡ window ++ (x ∷ [])
  unfolding push
  push_room n window x h =
      let e : length (window ++ (x ∷ [])) - n ≡ 0 =
        omega (arith, length-append {ℓ} window (x ∷ [])) in
      rw e

  fill_lem :
      (n k : ℕ) (window items : List A)
      → length window + k ≡ n
      → k ≤ length items
      → fill n k window items ≡ ok (window ++ take k items, drop k items)
  unfolding fill
  fill_lem n zero window items e h = rw append-nil
  fill_lem n (suc k) window [] e h = absurd (omega arith)
  fill_lem n (suc k) window (x ∷ items) e h = rw (push_room n window x (omega arith)) (
      rw
        (fill_lem n k (window ++ (x ∷ [])) items (omega (arith, length-append {ℓ} window (x ∷ [])))
          (omega arith))
        (rw append_assoc))

  fill_short :
      (n k : ℕ) (window items : List A)
      → length items < k
      → fill n k window items ≡ raise runtime_error
  unfolding fill
  fill_short n zero window items h = absurd (omega arith)
  fill_short n (suc k) window [] h = refl
  fill_short n (suc k) window (x ∷ items) h = fill_short n k (push n window x) items (omega arith)

  take_exact : (n : ℕ) (xs ys : List A) → length xs ≡ n → take n (xs ++ ys) ≡ xs
  take_exact zero [] ys h = refl
  take_exact zero (x ∷ xs) ys h = absurd (omega arith)
  take_exact (suc n) [] ys h = absurd (omega arith)
  take_exact (suc n) (x ∷ xs) ys h = ap (◌∷◌ x) (take_exact n xs ys (omega arith))

  drop-drop_one : (i : ℕ) (xs : List A) → drop i (drop 1 xs) ≡ drop (suc i) xs
  drop-drop_one zero [] = refl
  drop-drop_one (suc i) [] = refl
  drop-drop_one i (x ∷ xs) = refl

  length-slide : (n : ℕ) (window rest : List A) → length (slide n window rest) ≡ length rest
  unfolding slide
  length-slide n window [] = refl
  length-slide n window (x ∷ rest) = ap suc (length-slide n (push n window x) rest)

  get_elem?-slide :
      (n i : ℕ) (window rest : List A)
      → length window ≡ n
      → i ≤ length rest
      → get_elem? (window ∷ slide n window rest) i ≡ some (take n (drop i (window ++ rest)))
  unfolding slide
  get_elem?-slide n zero window rest e h = rw (take_exact n window rest e)
  get_elem?-slide n (suc i) window [] e h = absurd (omega arith)
  get_elem?-slide n (suc i) window (x ∷ rest) e h =
      get_elem?-slide n i (push n window x) rest (length-push_full n window x e) (omega arith)
      ∙ rw (push_full n window x rest e) (rw drop-drop_one)

  -- With at least `window_size` items the generator yields one window for each position, and the
  -- window at position `i` is the `window_size` consecutive items that start there.
  pub sliding_window_lem :
      (items : List A) (window_size : ℕ)
      → window_size ≤ length items
      → (ws : List (List A)) × (sliding_window items window_size ≡ ok ws)
        × (length ws ≡ length items - window_size + 1)
        × ((i : ℕ)
            → i + window_size ≤ length items
            → get_elem? ws i ≡ some (take window_size (drop i items)))
  unfolding sliding_window
  sliding_window_lem items n h =
      let w = take n items in
      let r = drop n items in
      let e : length w ≡ n = omega (arith, length-take n items) in
      (
        w ∷ slide n w r,
        rw (fill_lem n n [] items (omega arith) h),
        omega (arith, length-slide n w r, length-drop n items),
        λ i b.
            get_elem?-slide n i w r e (omega (arith, length-drop n items)) ∙ rw (take_drop n items),
      )
    where
      take_drop : (k : ℕ) (xs : List A) → take k xs ++ drop k xs ≡ xs
      take_drop zero xs = refl
      take_drop (suc k) [] = refl
      take_drop (suc k) (x ∷ xs) = ap (◌∷◌ x) (take_drop k xs)

  -- With fewer items than `window_size` nothing is yielded: the generator ends in a RuntimeError.
  pub sliding_window_short :
      (items : List A) (window_size : ℕ)
      → length items < window_size
      → sliding_window items window_size ≡ raise runtime_error
  unfolding sliding_window
  sliding_window_short items n h = rw (fill_short n n [] items h)
