-- ===== src/Automation/Scheduler/Dispatch.antt =====
-- What a dispatch puts on the queue, what a worker does with it, and what a cancellation changes.
use mathlib.Core.List.{Perm}
use py2to3_example_project.Prelude.{
  ℕ, zero, suc, ◌-◌, ◌≤◌, ◌<◌, ◌≡◌, refl, sym, ap, ◌∙◌, inl, inr, Option, some, List, [], ◌∷◌, ◌++◌,
  arith, length, length-append, take, map, length-take, if◌then◌else◌, Bool-cases, append-nil,
  append_assoc,
}
use py2to3_example_project.Automation.Scheduler.Task.{Task, LocalTime}
use py2to3_example_project.Prelude.Queue.{is_full}
use py2to3_example_project.Prelude.Sorting.{
  sorted_by, sorted_by-IsSorted, sorted_by-perm, IsSorted, with_key, sorted_by-with_key,
}
use py2to3_example_project.Automation.Scheduler.Ops.{
  Scheduler, tasks_of, due_tasks, dispatch_one, dispatch_all, check_and_dispatch,
}

-- How many of `n` tasks a queue with a bound still takes.
abbrev pub room {ℓ} : {A : Type ℓ} → (maxsize : ℕ) → List A → (n : ℕ) → ℕ
room zero q n = n
room (suc m) q n = suc m - length q

-- The queue entries of some tasks.
abbrev pub entries : {C : Type 0} → List (Task C) → List (Option ℕ)
entries = map (λ t. some t.task_id)

take_nil : (n : ℕ) → take {A = Option ℕ} n [] ≡ []
take_nil zero = refl
take_nil (suc n) = refl

room_bounded :
    (maxsize : ℕ) (q : List (Option ℕ)) (n : ℕ)
    → 0 < maxsize
    → room maxsize q n ≡ maxsize - length q
room_bounded zero q n p = absurd (omega arith)
room_bounded (suc m) q n p = refl

-- Offering one entry and then `n` more.
offer_step :
    (maxsize : ℕ) (q : List (Option ℕ)) (x : Option ℕ) (xs : List (Option ℕ)) (n : ℕ)
    → (if is_full maxsize q then q else q ++ x ∷ [])
        ++ take (room maxsize (if is_full maxsize q then q else q ++ x ∷ []) n) xs
      ≡ q ++ take (room maxsize q (suc n)) (x ∷ xs)
offer_step zero q x xs n = append_assoc q (x ∷ []) (take n xs)
offer_step (suc m) q x xs n = elim (Bool-cases (is_full (suc m) q)) [
  | inl full ↦ let none_left : suc m - length q ≡ 0 = ground arith in rw (full, none_left) refl
  | inr free ↦
      let more : suc m - length q ≡ suc (suc m - length (q ++ x ∷ [])) =
        ground (arith, length-append {0} q (x ∷ [])) in
      rw (free, more) (append_assoc q (x ∷ []) (take (suc m - length (q ++ x ∷ [])) xs))
]

module _ {C V : Type 0} where
  dispatch_one-max_queue_size :
      (now clock : ℕ) (s : Scheduler C V) (t : Task C)
      → (dispatch_one now clock s t).max_queue_size ≡ s.max_queue_size
  unfolding dispatch_one
  dispatch_one-max_queue_size now clock s t = ground arith

  dispatch_one-queue :
      (now clock : ℕ) (s : Scheduler C V) (t : Task C)
      → (dispatch_one now clock s t).queue
        ≡ (if is_full s.max_queue_size s.queue then s.queue else s.queue ++ some t.task_id ∷ [])
  unfolding dispatch_one
  dispatch_one-queue now clock s t = ground arith

  -- The queue after the loop: as many of the tasks as there is room for, in order.
  dispatch_all-queue :
      (now clock : ℕ) (ts : List (Task C)) (s : Scheduler C V)
      → (dispatch_all now clock s ts).queue
        ≡ s.queue ++ take (room s.max_queue_size s.queue (length ts)) (entries ts)
  unfolding dispatch_all
  dispatch_all-queue now clock [] s =
      rw (take_nil (room s.max_queue_size s.queue 0)) (sym (append-nil s.queue))
  dispatch_all-queue now clock (t ∷ ts) s =
      dispatch_all-queue now clock ts (dispatch_one now clock s t)
      ∙ rw (dispatch_one-max_queue_size now clock s t, dispatch_one-queue now clock s t)
          (offer_step s.max_queue_size s.queue (some t.task_id) (entries ts) (length ts))

  dispatch_all-same :
      (now clock : ℕ) (ts : List (Task C)) (s : Scheduler C V)
      → ((dispatch_all now clock s ts).registered ≡ s.registered)
        × ((dispatch_all now clock s ts).results ≡ s.results)
        × ((dispatch_all now clock s ts).max_queue_size ≡ s.max_queue_size)
  unfolding dispatch_all
  dispatch_all-same now clock [] s = (refl, refl, refl)
  dispatch_all-same now clock (t ∷ ts) s =
      unfold dispatch_one in
      ground (arith, dispatch_all-same now clock ts (dispatch_one now clock s t))

  -- A dispatch puts the due tasks on the queue, the most urgent first and ties in the order of
  -- registration, as many as there is room for; it registers nothing and completes nothing.
  pub check_and_dispatch_lem :
      (localtime : ℕ → LocalTime) (s : Scheduler C V) (now clock : ℕ)
      → (sorted : List (Task C)) × IsSorted (λ t. t.priority) sorted
        × Perm sorted (due_tasks localtime now (tasks_of s.heap s.registered))
        × ((p : ℕ)
            → with_key (λ t. t.priority) p sorted
              ≡ with_key
                  (λ t. t.priority)
                  p
                  (due_tasks localtime now (tasks_of s.heap s.registered)))
        × ((check_and_dispatch localtime s now clock).queue
            ≡ s.queue ++ take (room s.max_queue_size s.queue (length sorted)) (entries sorted))
        × ((check_and_dispatch localtime s now clock).registered ≡ s.registered)
        × ((check_and_dispatch localtime s now clock).results ≡ s.results)
  unfolding check_and_dispatch
  check_and_dispatch_lem localtime s now clock =
      let due = due_tasks localtime now (tasks_of s.heap s.registered) in
      let sorted = sorted_by (λ (t : Task C). t.priority) due in
      let same = dispatch_all-same now clock sorted s in
      (
        sorted,
        sorted_by-IsSorted (λ t. t.priority) due,
        sorted_by-perm (λ t. t.priority) due,
        (λ p. sorted_by-with_key (λ t. t.priority) p due),
        dispatch_all-queue now clock sorted s,
        same.0,
        same.1,
      )

  -- A queue with a bound keeps it through a dispatch, if it kept it before.
  pub check_and_dispatch-bounded :
      (localtime : ℕ → LocalTime) (s : Scheduler C V) (now clock : ℕ)
      → 0 < s.max_queue_size
      → length s.queue ≤ s.max_queue_size
      → length (check_and_dispatch localtime s now clock).queue ≤ s.max_queue_size
  check_and_dispatch-bounded localtime s now clock p b =
      let (sorted, _, _, _, queue, _, _) = check_and_dispatch_lem localtime s now clock in
      let n = room s.max_queue_size s.queue (length sorted) in
      let size : n ≡ s.max_queue_size - length s.queue =
        room_bounded s.max_queue_size s.queue (length sorted) p in
      omega (
        arith,
        ap (λ (q : List (Option ℕ)). length q) queue,
        length-append {0} s.queue (take n (entries sorted)),
        length-take n (entries sorted),
        size,
      )
