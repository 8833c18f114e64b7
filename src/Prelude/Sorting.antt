-- ===== src/Prelude/Sorting.antt =====
-- Python's `sorted` with a key: an insertion sort. It is stable.
use mathlib.Core.List.{Perm}
use mathlib.Core.List.Perm
use py2to3_example_project.Prelude.{
  ℕ, ◌≤◌, ◌≡◌, refl, List, [], ◌∷◌, arith, leb, ◌==◌, if◌then◌else◌, Bool-cases, inl, inr, ◌∙◌,
}

module _ {ℓ} {A : Type ℓ} (key : A → ℕ) where
  unfoldable pub insert_by : A → List A → List A
  insert_by x [] = x ∷ []
  insert_by x (y ∷ ys) = if leb (key x) (key y) then x ∷ y ∷ ys else y ∷ insert_by x ys

  unfoldable pub sorted_by : List A → List A
  unfolding insert_by
  sorted_by [] = []
  sorted_by (x ∷ xs) = insert_by x (sorted_by xs)

  abbrev pub LowerBound : ℕ → List A → Type 0
  LowerBound n [] = Unit
  LowerBound n (x ∷ xs) = (n ≤ key x) × LowerBound n xs

  abbrev pub IsSorted : List A → Type 0
  IsSorted [] = Unit
  IsSorted (x ∷ xs) = LowerBound (key x) xs × IsSorted xs

  LowerBound-le : (m n : ℕ) (xs : List A) → m ≤ n → LowerBound n xs → LowerBound m xs
  LowerBound-le m n [] h b = tt
  LowerBound-le m n (x ∷ xs) h b = (omega arith, LowerBound-le m n xs h b.1)

  LowerBound-insert_by :
      (n : ℕ) (x : A) (xs : List A) → n ≤ key x → LowerBound n xs → LowerBound n (insert_by x xs)
  unfolding insert_by
  LowerBound-insert_by n x [] h b = (h, tt)
  LowerBound-insert_by n x (y ∷ ys) h b = elim (Bool-cases (leb (key x) (key y))) [
    | inl le ↦ rw le (h, b)
    | inr gt ↦ rw gt (b.0, LowerBound-insert_by n x ys h b.1)
  ]

  insert_by-IsSorted : (x : A) (xs : List A) → IsSorted xs → IsSorted (insert_by x xs)
  unfolding insert_by
  insert_by-IsSorted x [] s = (tt, tt)
  insert_by-IsSorted x (y ∷ ys) s = elim (Bool-cases (leb (key x) (key y))) [
    | inl le ↦ rw le ((ground arith, LowerBound-le (key x) (key y) ys (ground arith) s.0), s)
    | inr gt ↦
        rw gt (LowerBound-insert_by (key y) x ys (ground arith) s.0, insert_by-IsSorted x ys s.1)
  ]

  pub sorted_by-IsSorted : (xs : List A) → IsSorted (sorted_by xs)
  unfolding sorted_by
  sorted_by-IsSorted [] = tt
  sorted_by-IsSorted (x ∷ xs) = insert_by-IsSorted x (sorted_by xs) (sorted_by-IsSorted xs)

  insert_by-perm : (x : A) (xs : List A) → Perm (insert_by x xs) (x ∷ xs)
  unfolding insert_by
  insert_by-perm x [] = Perm.refl (x ∷ [])
  insert_by-perm x (y ∷ ys) = elim (Bool-cases (leb (key x) (key y))) [
    | inl le ↦ rw le (Perm.refl (x ∷ y ∷ ys))
    | inr gt ↦ rw gt (Perm.trans (Perm.cons y (insert_by-perm x ys)) (Perm.swap x y ys))
  ]

  pub sorted_by-perm : (xs : List A) → Perm (sorted_by xs) xs
  unfolding sorted_by
  sorted_by-perm [] = Perm.refl []
  sorted_by-perm (x ∷ xs) =
      Perm.trans (insert_by-perm x (sorted_by xs)) (Perm.cons x (sorted_by-perm xs))

  -- The items with one key, in their order.
  unfoldable pub with_key : ℕ → List A → List A
  with_key k [] = []
  with_key k (x ∷ xs) = let rest = with_key k xs in if key x == k then x ∷ rest else rest

  insert_by-with_key :
      (k : ℕ) (x : A) (xs : List A) → with_key k (insert_by x xs) ≡ with_key k (x ∷ xs)
  unfolding insert_by with_key
  insert_by-with_key k x [] = refl
  insert_by-with_key k x (y ∷ ys) = ground (arith, insert_by-with_key k x ys)

  pub sorted_by-with_key : (k : ℕ) (xs : List A) → with_key k (sorted_by xs) ≡ with_key k xs
  unfolding sorted_by with_key
  sorted_by-with_key k [] = refl
  sorted_by-with_key k (x ∷ xs) =
      insert_by-with_key k x (sorted_by xs) ∙ rw (sorted_by-with_key k xs)
