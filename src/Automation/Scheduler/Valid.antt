-- ===== src/Automation/Scheduler/Valid.antt =====
-- The invariant of the scheduler, and that each operation keeps it.
use mathlib.Core.Path.{subst}
use py2to3_example_project.Prelude.{
  ℕ, ◌+◌, ◌≤◌, ◌<◌, ◌≡◌, ◌∙◌, inl, inr, Option, none, some, List, [], ◌∷◌, ◌++◌, arith, length,
  length-append, Bool-cases, Option-cases, ℕ_discrete,
}
use py2to3_example_project.Prelude.Dict.{lookup, insert}
use py2to3_example_project.Automation.Scheduler.Task.{Task, LocalTime, compute_next_run}
use py2to3_example_project.Prelude.Queue.{is_full}
use py2to3_example_project.Prelude.Sorting.{sorted_by}
use py2to3_example_project.Automation.Scheduler.Ops.{
  Scheduler, update_task, register, tasks_of, due_tasks, dispatch_one, dispatch_all,
  check_and_dispatch,
}
use py2to3_example_project.Automation.Scheduler.Known.{
  Known, AllKnown, AllQueued, IsNumbered, AllTasks, Known-insert, Known-insert_self,
  AllKnown-insert, AllQueued-insert, AllKnown-snoc, AllQueued-snoc, IsNumbered-insert,
  lookup-task_id, tasks_of-AllTasks, AllTasks-due, AllTasks-sorted_by,
}

module _ {C V : Type 0} where
  -- Every registered or queued task exists, stands under its own id, and the queue keeps its bound.
  pub record IsValid (s : Scheduler C V) : Type 0 where
    pub bounded : 0 < s.max_queue_size → length s.queue ≤ s.max_queue_size
    pub known : AllKnown s.heap s.registered
    pub queued : AllQueued s.heap s.queue
    pub numbered : IsNumbered s.made s.heap

  -- Writing a task object that stands under its own id keeps the scheduler valid.
  pub write-IsValid :
      (s : Scheduler C V) (t : Task C)
      → t.task_id ≤ s.made
      → IsValid s
      → IsValid (record s { heap = insert ℕ_discrete t.task_id t s.heap })
  write-IsValid s t le v = record {
    bounded = v.bounded;
    known = AllKnown-insert s.heap t.task_id t s.registered v.known;
    queued = AllQueued-insert s.heap t.task_id t s.queue v.queued;
    numbered = IsNumbered-insert s.made s.made s.heap t (omega arith) le v.numbered;
  }

  pub register-IsValid :
      (s : Scheduler C V) (t : Task C) → t.task_id ≡ s.made + 1 → IsValid s → IsValid (register s t)
  unfolding register
  register-IsValid s t e v =
      let heap = insert ℕ_discrete t.task_id t s.heap in
      record {
        bounded = v.bounded;
        known =
            AllKnown-snoc heap s.registered t.task_id
              (AllKnown-insert s.heap t.task_id t s.registered v.known)
              (Known-insert_self s.heap t.task_id t);
        queued = AllQueued-insert s.heap t.task_id t s.queue v.queued;
        numbered =
            IsNumbered-insert s.made (s.made + 1) s.heap t (omega arith) (omega arith) v.numbered;
      }

  -- A method that keeps the id is applied to a task object.
  pub update_task-IsValid :
      (s : Scheduler C V) (id : ℕ) (f : Task C → Task C)
      → ((t : Task C) → (f t).task_id ≡ t.task_id)
      → IsValid s
      → IsValid (record s { heap = update_task id f s.heap })
  unfolding update_task
  update_task-IsValid s id f same v = elim (Option-cases (lookup ℕ_discrete id s.heap)) [
    | inl e ↦ rw (e, update_task) v
    | inr (t, e) ↦
        let at = lookup-task_id s.made s.heap id t v.numbered e in
        rw (e, update_task)
          (subst (λ k. IsValid (record s { heap = insert ℕ_discrete k (f t) s.heap }))
            (same t ∙ at.0) (write-IsValid s (f t) (omega (arith, same t, at.0, at.1)) v))
  ]

  pub dispatch_one-IsValid :
      (now clock : ℕ) (s : Scheduler C V) (t : Task C)
      → Known s.heap t.task_id
      → IsValid s
      → IsValid (dispatch_one now clock s t)
  unfolding dispatch_one
  dispatch_one-IsValid now clock s t k v = elim (Bool-cases (is_full s.max_queue_size s.queue)) [
    | inl full ↦ rw full v
    | inr free ↦ rw free (
        update_task-IsValid (record s { queue = s.queue ++ some t.task_id ∷ [] }) t.task_id
          (λ u. compute_next_run u (some now) clock) (λ u. unfold compute_next_run in ground arith)
          (record {
            bounded = λ p. ground (arith, length-append {0} s.queue (some t.task_id ∷ []));
            known = v.known;
            queued = AllQueued-snoc s.heap s.queue t.task_id v.queued k;
            numbered = v.numbered;
          }))
  ]

  pub dispatch_one-Known :
      (now clock : ℕ) (s : Scheduler C V) (t : Task C) (id : ℕ)
      → Known s.heap id
      → Known (dispatch_one now clock s t).heap id
  unfolding dispatch_one update_task
  dispatch_one-Known now clock s t id k = elim (Bool-cases (is_full s.max_queue_size s.queue)) [
    | inl full ↦ rw full k
    | inr free ↦ rw free (written (lookup ℕ_discrete t.task_id s.heap))
  ]
    where
      written :
          (o : Option (Task C))
          → Known
              (elim o [
                | none ↦ s.heap
                | some u ↦ insert ℕ_discrete t.task_id (compute_next_run u (some now) clock) s.heap
              ])
              id
      written none = k
      written (some u) = Known-insert s.heap t.task_id (compute_next_run u (some now) clock) id k

  pub dispatch_one-AllTasks :
      (now clock : ℕ) (s : Scheduler C V) (t : Task C) (ts : List (Task C))
      → AllTasks s.heap ts
      → AllTasks (dispatch_one now clock s t).heap ts
  dispatch_one-AllTasks now clock s t [] a = tt
  dispatch_one-AllTasks now clock s t (u ∷ ts) a =
      (dispatch_one-Known now clock s t u.task_id a.0, dispatch_one-AllTasks now clock s t ts a.1)

  pub dispatch_all-IsValid :
      (now clock : ℕ) (ts : List (Task C)) (s : Scheduler C V)
      → AllTasks s.heap ts
      → IsValid s
      → IsValid (dispatch_all now clock s ts)
  unfolding dispatch_all
  dispatch_all-IsValid now clock [] s a v = v
  dispatch_all-IsValid now clock (t ∷ ts) s a v =
      dispatch_all-IsValid now clock ts (dispatch_one now clock s t)
        (dispatch_one-AllTasks now clock s t ts a.1) (dispatch_one-IsValid now clock s t a.0 v)

  pub check_and_dispatch-IsValid :
      (localtime : ℕ → LocalTime) (s : Scheduler C V) (now clock : ℕ)
      → IsValid s
      → IsValid (check_and_dispatch localtime s now clock)
  unfolding check_and_dispatch
  check_and_dispatch-IsValid localtime s now clock v =
      let ts = tasks_of s.heap s.registered in
      dispatch_all-IsValid now clock
        (sorted_by (λ (t : Task C). t.priority) (due_tasks localtime now ts)) s
        (AllTasks-sorted_by s.heap (λ t. t.priority) (due_tasks localtime now ts)
          (AllTasks-due s.heap localtime now ts
            (tasks_of-AllTasks s.heap s.made s.registered v.numbered)))
        v
