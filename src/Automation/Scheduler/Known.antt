-- ===== src/Automation/Scheduler/Known.antt =====
-- Facts about the heap of tasks: which ids exist, and that a task stands under its own id.
use mathlib.Core.Path.{subst}
use py2to3_example_project.Prelude.{
  ℕ, ◌≤◌, ◌≡◌, refl, sym, ap, ◌∙◌, inl, inr, ◌≢◌, Option, none, some, List, [], ◌∷◌, ◌++◌, arith,
  leb, Bool-cases, ℕ_discrete, if_pos, if_neg,
}
use py2to3_example_project.Prelude.Dict.{lookup, insert, lookup-insert_self, lookup-insert_ne}
use py2to3_example_project.Automation.Scheduler.Task.{Task, LocalTime, is_due}
use py2to3_example_project.Prelude.Sorting.{insert_by, sorted_by}
use py2to3_example_project.Automation.Scheduler.Ops.{tasks_of, due_tasks}

abbrev pub Heap : Type 0 → Type 0
Heap C = List (ℕ × Task C)

module _ {C : Type 0} where
  -- The task exists.
  abbrev pub Known : Heap C → ℕ → Type 0
  Known heap id = lookup ℕ_discrete id heap ≢ none

  abbrev pub AllKnown : Heap C → List ℕ → Type 0
  AllKnown heap [] = Unit
  AllKnown heap (id ∷ ids) = Known heap id × AllKnown heap ids

  -- Every entry is a stop signal or an existing task.
  abbrev pub AllQueued : Heap C → List (Option ℕ) → Type 0
  AllQueued heap [] = Unit
  AllQueued heap (none ∷ q) = AllQueued heap q
  AllQueued heap (some id ∷ q) = Known heap id × AllQueued heap q

  -- A task stands under its own id, and ids are given in order.
  abbrev pub IsNumbered : ℕ → Heap C → Type 0
  IsNumbered made [] = Unit
  IsNumbered made ((id, t) ∷ heap) = (t.task_id ≡ id) × (id ≤ made) × IsNumbered made heap

  -- Every task of a list exists.
  abbrev pub AllTasks : Heap C → List (Task C) → Type 0
  AllTasks heap [] = Unit
  AllTasks heap (t ∷ ts) = Known heap t.task_id × AllTasks heap ts

  pub Known-insert :
      (heap : Heap C) (k : ℕ) (t : Task C) (id : ℕ)
      → Known heap id
      → Known (insert ℕ_discrete k t heap) id
  Known-insert heap k t id h = elim (ℕ_discrete k id) [
    | yes p ↦ λ e. ground (
      arith,
      lookup-insert_self ℕ_discrete k t heap,
      ap (λ (x : ℕ). lookup ℕ_discrete x (insert ℕ_discrete k t heap)) p,
    )
    | no p ↦ λ e. h (sym (lookup-insert_ne ℕ_discrete k id t heap p) ∙ e)
  ]

  pub Known-insert_self :
      (heap : Heap C) (k : ℕ) (t : Task C) → Known (insert ℕ_discrete k t heap) k
  Known-insert_self heap k t = λ e. ground (arith, lookup-insert_self ℕ_discrete k t heap)

  pub AllKnown-insert :
      (heap : Heap C) (k : ℕ) (t : Task C) (ids : List ℕ)
      → AllKnown heap ids
      → AllKnown (insert ℕ_discrete k t heap) ids
  AllKnown-insert heap k t [] h = tt
  AllKnown-insert heap k t (id ∷ ids) h =
      (Known-insert heap k t id h.0, AllKnown-insert heap k t ids h.1)

  pub AllQueued-insert :
      (heap : Heap C) (k : ℕ) (t : Task C) (q : List (Option ℕ))
      → AllQueued heap q
      → AllQueued (insert ℕ_discrete k t heap) q
  AllQueued-insert heap k t [] h = tt
  AllQueued-insert heap k t (none ∷ q) h = AllQueued-insert heap k t q h
  AllQueued-insert heap k t (some id ∷ q) h =
      (Known-insert heap k t id h.0, AllQueued-insert heap k t q h.1)

  pub AllKnown-snoc :
      (heap : Heap C) (ids : List ℕ) (id : ℕ)
      → AllKnown heap ids
      → Known heap id
      → AllKnown heap (ids ++ id ∷ [])
  AllKnown-snoc heap [] id h k = (k, tt)
  AllKnown-snoc heap (x ∷ ids) id h k = (h.0, AllKnown-snoc heap ids id h.1 k)

  pub AllQueued-snoc :
      (heap : Heap C) (q : List (Option ℕ)) (id : ℕ)
      → AllQueued heap q
      → Known heap id
      → AllQueued heap (q ++ some id ∷ [])
  AllQueued-snoc heap [] id h k = (k, tt)
  AllQueued-snoc heap (none ∷ q) id h k = AllQueued-snoc heap q id h k
  AllQueued-snoc heap (some x ∷ q) id h k = (h.0, AllQueued-snoc heap q id h.1 k)

  pub AllQueued-stop :
      (heap : Heap C) (q : List (Option ℕ)) → AllQueued heap q → AllQueued heap (q ++ none ∷ [])
  AllQueued-stop heap [] h = tt
  AllQueued-stop heap (none ∷ q) h = AllQueued-stop heap q h
  AllQueued-stop heap (some x ∷ q) h = (h.0, AllQueued-stop heap q h.1)

  pub IsNumbered-insert :
      (made made' : ℕ) (heap : Heap C) (t : Task C)
      → made ≤ made'
      → t.task_id ≤ made'
      → IsNumbered made heap
      → IsNumbered made' (insert ℕ_discrete t.task_id t heap)
  unfolding insert
  IsNumbered-insert made made' [] t le lt h = (refl, lt, tt)
  IsNumbered-insert made made' ((k, u) ∷ heap) t le lt h = elim (ℕ_discrete k t.task_id) [
    | yes p ↦ rw (if_pos _ p) (sym p, omega arith, IsNumbered-le made made' heap le h.2)
    | no p ↦ rw (if_neg _ p) (h.0, omega arith, IsNumbered-insert made made' heap t le lt h.2)
  ]
    where
      IsNumbered-le : (a b : ℕ) (l : Heap C) → a ≤ b → IsNumbered a l → IsNumbered b l
      IsNumbered-le a b [] le h = tt
      IsNumbered-le a b ((k, u) ∷ l) le h = (h.0, omega arith, IsNumbered-le a b l le h.2)

  pub lookup-task_id :
      (made : ℕ) (heap : Heap C) (id : ℕ) (t : Task C)
      → IsNumbered made heap
      → lookup ℕ_discrete id heap ≡ some t
      → (t.task_id ≡ id) × (id ≤ made)
  unfolding lookup
  lookup-task_id made [] id t h e = cc
  lookup-task_id made ((k, u) ∷ heap) id t h e = elim (ℕ_discrete k id) [
    | yes p ↦ ground arith
    | no p ↦ lookup-task_id made heap id t h.2 (ground arith)
  ]

  pub AllTasks-found :
      (heap : Heap C) (o : Option (Task C)) (rest : List (Task C))
      → ((t : Task C) → o ≡ some t → Known heap t.task_id)
      → AllTasks heap rest
      → AllTasks heap (elim o [ none ↦ rest | some t ↦ t ∷ rest ])
  AllTasks-found heap none rest k a = a
  AllTasks-found heap (some t) rest k a = (k t refl, a)

  pub tasks_of-AllTasks :
      (heap : Heap C) (made : ℕ) (ids : List ℕ)
      → IsNumbered made heap
      → AllTasks heap (tasks_of heap ids)
  unfolding tasks_of
  tasks_of-AllTasks heap made [] h = tt
  tasks_of-AllTasks heap made (id ∷ ids) h =
      AllTasks-found heap (lookup ℕ_discrete id heap) (tasks_of heap ids)
        (λ t e. subst (Known heap) (sym (lookup-task_id made heap id t h e).0) (λ n. ground arith))
        (tasks_of-AllTasks heap made ids h)

  pub AllTasks-due :
      (heap : Heap C) (localtime : ℕ → LocalTime) (now : ℕ) (ts : List (Task C))
      → AllTasks heap ts
      → AllTasks heap (due_tasks localtime now ts)
  unfolding due_tasks
  AllTasks-due heap localtime now [] a = tt
  AllTasks-due heap localtime now (t ∷ ts) a = elim (Bool-cases (is_due localtime t now)) [
    | inl due ↦ rw due (a.0, AllTasks-due heap localtime now ts a.1)
    | inr not_due ↦ rw not_due (AllTasks-due heap localtime now ts a.1)
  ]

  pub AllTasks-insert_by :
      (heap : Heap C) (key : Task C → ℕ) (t : Task C) (ts : List (Task C))
      → Known heap t.task_id
      → AllTasks heap ts
      → AllTasks heap (insert_by key t ts)
  unfolding insert_by
  AllTasks-insert_by heap key t [] k a = (k, tt)
  AllTasks-insert_by heap key t (u ∷ ts) k a = elim (Bool-cases (leb (key t) (key u))) [
    | inl le ↦ rw le (k, a)
    | inr gt ↦ rw gt (a.0, AllTasks-insert_by heap key t ts k a.1)
  ]

  pub AllTasks-sorted_by :
      (heap : Heap C) (key : Task C → ℕ) (ts : List (Task C))
      → AllTasks heap ts
      → AllTasks heap (sorted_by key ts)
  unfolding sorted_by
  AllTasks-sorted_by heap key [] a = tt
  AllTasks-sorted_by heap key (t ∷ ts) a =
      AllTasks-insert_by heap key t (sorted_by key ts) a.0 (AllTasks-sorted_by heap key ts a.1)

  pub AllTasks-insert :
      (heap : Heap C) (k : ℕ) (u : Task C) (ts : List (Task C))
      → AllTasks heap ts
      → AllTasks (insert ℕ_discrete k u heap) ts
  AllTasks-insert heap k u [] a = tt
  AllTasks-insert heap k u (t ∷ ts) a =
      (Known-insert heap k u t.task_id a.0, AllTasks-insert heap k u ts a.1)
