-- ===== src/Reporting/History.antt =====
-- What the alarm history of src/reporting/web_dashboard.py holds, and what the pages show of it.
use py2to3_example_project.Prelude.{
  ℕ, zero, suc, ◌+◌, ◌-◌, ◌≤◌, ◌<◌, ◌≡◌, refl, sym, ap, ◌∙◌, ◌⊎◌, true, false, some, List, [], ◌∷◌,
  ◌++◌, arith, ltb, length, take, drop, length-append, length-drop, append_assoc, append-nil, inl,
  inr, Bool-cases,
}
use mathlib.Core.Path.{subst}
use py2to3_example_project.Prelude.Queue.{last_items, drop-append}
use py2to3_example_project.Reporting.Alarms.{
  max_alarms, kept_alarms, Server, new_server, start, add_alarm, add_all,
}

ltb-le : (n m : ℕ) → ltb n m ≡ false → m ≤ n
ltb-le n m h = ground arith

module _ {A : Type 0} where
  take-append : (n : ℕ) (xs ys : List A) → n ≤ length xs → take n (xs ++ ys) ≡ take n xs
  take-append zero xs ys h = refl
  take-append (suc n) [] ys h = absurd (omega arith)
  take-append (suc n) (x ∷ xs) ys h = ap (λ zs. x ∷ zs) (take-append n xs ys (omega arith))

  take_over : (n : ℕ) (xs : List A) → length xs ≤ n → take n xs ≡ xs
  take_over zero [] h = refl
  take_over zero (x ∷ xs) h = absurd (omega arith)
  take_over (suc n) [] h = refl
  take_over (suc n) (x ∷ xs) h = ap (λ ys. x ∷ ys) (take_over n xs (omega arith))

  last_items_all : (xs : List A) → last_items (length xs) xs ≡ xs
  last_items_all xs = let none_left : length xs - length xs ≡ 0 = omega arith in rw none_left refl

  drop_nil : (n : ℕ) → drop {A = A} n [] ≡ []
  drop_nil zero = refl
  drop_nil (suc n) = refl

  drop-drop : (i j : ℕ) (xs : List A) → drop j (drop i xs) ≡ drop (i + j) xs
  drop-drop zero j xs = ap (λ (k : ℕ). drop k xs) (omega arith)
  drop-drop (suc i) j [] = drop_nil j ∙ sym (drop_nil (suc i + j))
  drop-drop (suc i) j (x ∷ xs) =
      let next : suc i + j ≡ suc (i + j) = omega arith in rw next (drop-drop i j xs)

  -- One more item after the last ones, and the last of the last.
  last_items-append :
      (n : ℕ) (xs : List A) (x : A)
      → n ≤ length xs
      → last_items n xs ++ x ∷ [] ≡ last_items (n + 1) (xs ++ x ∷ [])
  last_items-append n xs x h =
      sym (drop-append (length xs - n) xs (x ∷ []) (omega arith))
      ∙ ap (λ (k : ℕ). drop k (xs ++ x ∷ [])) (omega (arith, length-append xs (x ∷ [])))

  last_items-last_items :
      (n m : ℕ) (xs : List A)
      → n ≤ m
      → m ≤ length xs
      → last_items n (last_items m xs) ≡ last_items n xs
  last_items-last_items n m xs h k =
      drop-drop (length xs - m) (length (last_items m xs) - n) xs
      ∙ ap (λ (k : ℕ). drop k xs) (omega (arith, length-drop (length xs - m) xs))

module _ {A D : Type 0} where
  -- Until the history is cut the pages show it, and then for good what it was before the cut.
  record Shared (s : Server A D) (alarms : List A) : Type 0 where
    is_shared : s.shared ≡ true
    all_kept : s.alarm_history ≡ alarms
    all_shown : s.shown_alarms ≡ some alarms
    few : length alarms ≤ max_alarms

  record Cut (s : Server A D) (alarms : List A) : Type 0 where
    is_alone : s.shared ≡ false
    last_kept : s.alarm_history ≡ last_items (length s.alarm_history) alarms
    first_shown : s.shown_alarms ≡ some (take (max_alarms + 1) alarms)
    many : max_alarms < length alarms
    bounded : length s.alarm_history ≤ max_alarms
    enough : kept_alarms ≤ length s.alarm_history

  add_alarm-Shared :
      (s : Server A D) (xs : List A) (a : A)
      → Shared s xs
      → Shared (add_alarm s a) (xs ++ a ∷ []) ⊎ Cut (add_alarm s a) (xs ++ a ∷ [])
  unfolding add_alarm
  add_alarm-Shared s xs a i =
      let ys = xs ++ a ∷ [] in
      let size = length-append xs (a ∷ []) in
      let left = length-drop (length ys - kept_alarms) ys in
      elim (Bool-cases (ltb max_alarms (length (xs ++ a ∷ [])))) [
        | inl long ↦
            let full : max_alarms < length ys = ground arith in
            inr (
              rw (i.all_kept, i.is_shared, long)
                (record {
                  is_alone = refl;
                  last_kept = ap (λ (k : ℕ). last_items k ys) (omega (arith, size, left));
                  first_shown =
                      ap some (sym (take_over (max_alarms + 1) ys (omega (arith, size, i.few))));
                  many = full;
                  bounded = omega (arith, left);
                  enough = omega (arith, size, left, i.few, full);
                }))
        | inr short ↦ inl (
            rw (i.all_kept, i.is_shared, short)
              (record {
                is_shared = refl;
                all_kept = refl;
                all_shown = refl;
                few = ltb-le max_alarms (length ys) short;
              }))
      ]

  add_alarm-Cut :
      (s : Server A D) (xs : List A) (a : A) → Cut s xs → Cut (add_alarm s a) (xs ++ a ∷ [])
  unfolding add_alarm
  add_alarm-Cut s xs a i =
      let ys = xs ++ a ∷ [] in
      let longer = s.alarm_history ++ a ∷ [] in
      let size = length-append xs (a ∷ []) in
      let more = length-append s.alarm_history (a ∷ []) in
      let left = length-drop (length longer - kept_alarms) longer in
      let grown : longer ≡ last_items (length s.alarm_history + 1) ys =
        ap (λ q. q ++ a ∷ []) i.last_kept
        ∙ last_items-append (length s.alarm_history) xs a (omega (arith, i.bounded, i.many)) in
      let shown : s.shown_alarms ≡ some (take (max_alarms + 1) ys) =
        i.first_shown
        ∙ ap some (sym (take-append (max_alarms + 1) xs (a ∷ []) (omega (arith, i.many)))) in
      elim (Bool-cases (ltb max_alarms (length longer))) [
        | inl long ↦
            rw (i.is_alone, long)
              (record {
                is_alone = refl;
                last_kept =
                    ap (λ q. last_items kept_alarms q) grown
                    ∙ last_items-last_items kept_alarms (length s.alarm_history + 1) ys
                        (omega (arith, i.enough)) (omega (arith, size, i.bounded, i.many))
                    ∙ ap (λ (k : ℕ). last_items k ys) (omega (arith, left, more, i.enough));
                first_shown = shown;
                many = omega (arith, size, i.many);
                bounded = omega (arith, left);
                enough = omega (arith, left, more, i.enough);
              })
        | inr short ↦
            rw (i.is_alone, short)
              (record {
                is_alone = refl;
                last_kept = grown ∙ ap (λ (k : ℕ). last_items k ys) (omega (arith, more));
                first_shown = shown;
                many = omega (arith, size, i.many);
                bounded = ltb-le max_alarms (length longer) short;
                enough = omega (arith, more, i.enough);
              })
      ]

  add_all-Cut : (s : Server A D) (xs more : List A) → Cut s xs → Cut (add_all s more) (xs ++ more)
  unfolding add_all
  add_all-Cut s xs [] i = rw (append-nil xs) i
  add_all-Cut s xs (a ∷ more) i =
      subst (λ ys. Cut (add_all (add_alarm s a) more) ys) (append_assoc xs (a ∷ []) more)
        (add_all-Cut (add_alarm s a) (xs ++ a ∷ []) more (add_alarm-Cut s xs a i))

  add_all-Shared :
      (s : Server A D) (xs more : List A)
      → Shared s xs
      → Shared (add_all s more) (xs ++ more) ⊎ Cut (add_all s more) (xs ++ more)
  unfolding add_all
  add_all-Shared s xs [] i = rw (append-nil xs) (inl i)
  add_all-Shared s xs (a ∷ more) i =
      subst (λ ys. Shared (add_all (add_alarm s a) more) ys ⊎ Cut (add_all (add_alarm s a) more) ys)
        (append_assoc xs (a ∷ []) more)
        (elim (add_alarm-Shared s xs a i) [
          | inl still ↦ add_all-Shared (add_alarm s a) (xs ++ a ∷ []) more still
          | inr cut ↦ inr (add_all-Cut (add_alarm s a) (xs ++ a ∷ []) more cut)
        ])

  -- After alarms to a server that was started without any, its history holds at most 1000, the last
  -- ones in order, and not less than 500 unless it holds all. The pages show only the first 1001
  -- alarms: once the history has been cut, no later alarm appears on them.
  pub add_all-start :
      (empty : D) (alarms : List A)
      → (length (add_all (start (new_server empty)) alarms).alarm_history ≤ max_alarms)
        × ((add_all (start (new_server empty)) alarms).alarm_history
            ≡ last_items (length (add_all (start (new_server empty)) alarms).alarm_history) alarms)
        × (((add_all (start (new_server empty)) alarms).alarm_history ≡ alarms)
            ⊎ (kept_alarms ≤ length (add_all (start (new_server empty)) alarms).alarm_history))
        × ((add_all (start (new_server empty)) alarms).shown_alarms
            ≡ some (take (max_alarms + 1) alarms))
  unfolding start new_server
  add_all-start empty alarms =
      elim (add_all-Shared (start (new_server empty)) [] alarms
        (record { is_shared = refl; all_kept = refl; all_shown = refl; few = omega arith })) [
          | inr cut ↦ (cut.bounded, cut.last_kept, inr cut.enough, cut.first_shown)
          | inl still ↦
              rw (still.all_kept, still.all_shown)
                (
                  still.few,
                  sym (last_items_all alarms),
                  inl refl,
                  ap some (sym (take_over (max_alarms + 1) alarms (omega (arith, still.few)))),
                )
        ]
