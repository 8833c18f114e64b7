-- ===== src/Prelude/Queue.antt =====
-- `queue.Queue` without blocking: the list of its items.
use py2to3_example_project.Prelude.{
  ℕ, zero, suc, ◌+◌, ◌-◌, ◌≤◌, ◌<◌, ◌≡◌, refl, sym, ap, ◌∙◌, inl, inr, Bool, ◌&&◌, List, [], ◌∷◌,
  ◌++◌, arith, ltb, leb, if◌then◌else◌, length, drop, length-append, length-drop, append_assoc,
  append-nil, Bool-cases,
}

-- `maxsize` 0 means that there is no bound.
abbrev pub is_full {ℓ} : {A : Type ℓ} → ℕ → List A → Bool
is_full maxsize q = ltb 0 maxsize && leb maxsize (length q)

module _ {ℓ} {A : Type ℓ} where
  -- `put_nowait`, and on a full queue `get_nowait` before it.
  unfoldable pub put_dropping : ℕ → List A → A → List A
  put_dropping maxsize q x = if is_full maxsize q then drop 1 q ++ x ∷ [] else q ++ x ∷ []

  unfoldable pub put_each : ℕ → List A → List A → List A
  unfolding put_dropping
  put_each maxsize q [] = q
  put_each maxsize q (x ∷ xs) = put_each maxsize (put_dropping maxsize q x) xs

  -- The last `n` items.
  abbrev pub last_items : ℕ → List A → List A
  last_items n xs = drop (length xs - n) xs

  drop_nil : (n : ℕ) → drop {A = A} n [] ≡ []
  drop_nil zero = refl
  drop_nil (suc n) = refl

  pub last_items_nil : (n : ℕ) → last_items n [] ≡ []
  last_items_nil n = drop_nil (0 - n)

  drop-drop : (i : ℕ) (xs : List A) → drop 1 (drop i xs) ≡ drop (i + 1) xs
  drop-drop zero xs = refl
  drop-drop (suc i) [] = ground arith
  drop-drop (suc i) (x ∷ xs) =
      let next : suc i + 1 ≡ suc (i + 1) = omega arith in rw next (drop-drop i xs)

  pub drop-append : (i : ℕ) (xs ys : List A) → i ≤ length xs → drop i (xs ++ ys) ≡ drop i xs ++ ys
  drop-append zero xs ys h = refl
  drop-append (suc i) [] ys h = absurd (omega arith)
  drop-append (suc i) (x ∷ xs) ys h = drop-append i xs ys (omega arith)

  put_dropping-last_items :
      (n : ℕ) (xs : List A) (x : A)
      → 0 < n
      → put_dropping n (last_items n xs) x ≡ last_items n (xs ++ x ∷ [])
  unfolding put_dropping
  put_dropping-last_items n xs x p =
      let size = length-append xs (x ∷ []) in
      let left = length-drop (length xs - n) xs in
      elim (Bool-cases (is_full n (last_items n xs))) [
        | inl full ↦
            let next : length xs - n + 1 ≡ length (xs ++ x ∷ []) - n = ground (arith, size, left) in
            rw full (
              ap (λ ys. ys ++ x ∷ []) (drop-drop (length xs - n) xs)
              ∙ sym (drop-append (length xs - n + 1) xs (x ∷ []) (ground (arith, left)))
              ∙ ap (λ (k : ℕ). drop k (xs ++ x ∷ [])) next)
        | inr free ↦
            let all : length xs - n ≡ 0 = ground (arith, left) in
            let all' : length (xs ++ x ∷ []) - n ≡ 0 = ground (arith, size, left) in
            rw (free, all, all') refl
      ]

  -- A bounded queue into which items were put one after the other holds the last of them.
  pub put_each-last_items :
      (n : ℕ) (before xs : List A)
      → 0 < n
      → put_each n (last_items n before) xs ≡ last_items n (before ++ xs)
  unfolding put_each
  put_each-last_items n before [] p = ap (λ ys. last_items n ys) (sym (append-nil before))
  put_each-last_items n before (x ∷ xs) p =
      ap (λ q. put_each n q xs) (put_dropping-last_items n before x p)
      ∙ put_each-last_items n (before ++ x ∷ []) xs p
      ∙ ap (λ ys. last_items n ys) (append_assoc before (x ∷ []) xs)
