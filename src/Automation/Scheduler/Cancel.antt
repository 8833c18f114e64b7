-- ===== src/Automation/Scheduler/Cancel.antt =====
-- What a worker does with a cancelled task.
use mathlib.Core.Path.{subst}
use py2to3_example_project.Prelude.{
  ℕ, ◌+◌, ◌≡◌, refl, true, Option, some, List, ◌∷◌, arith, length, length-append, ℕ_discrete,
}
use py2to3_example_project.Prelude.Dict.{lookup-insert_self}
use py2to3_example_project.Automation.Scheduler.Task.{Task, done, failed, cancelled}
use py2to3_example_project.Automation.Scheduler.Ops.{
  Scheduler, Outcome, returned, raised, task_at, execute_task, work,
}

module _ {C V : Type 0} where
  work_step :
      (run : C → Outcome V) (s : Scheduler C V) (id : ℕ) (t : Task C) (q : List (Option ℕ))
      (t0 finished t1 : ℕ)
      → s.queue ≡ some id ∷ q
      → task_at id s ≡ some t
      → work run s t0 finished t1
        ≡ (execute_task run (record s { queue = q }) t t0 finished t1, true)
  unfolding work
  work_step run s id t q t0 finished t1 queue found = ground arith

  -- What `_execute_task` leaves in the heap under the task's id.
  abbrev pub Ran : Outcome V → Task C → (finished : ℕ) → Task C → Type 0
  Ran (returned v) t finished u =
      (u.status ≡ done)
      × (u.run_count ≡ t.run_count + 1)
      × (u.error_count ≡ t.error_count)
      × (u.last_run ≡ some finished)
      × (u.next_run ≡ t.next_run)
  Ran (raised name message) t finished u =
      (u.status ≡ failed)
      × (u.run_count ≡ t.run_count)
      × (u.error_count ≡ t.error_count + 1)
      × (u.last_run ≡ t.last_run)
      × (u.next_run ≡ t.next_run)

  execute_task-heap :
      (run : C → Outcome V) (s : Scheduler C V) (t : Task C) (t0 finished t1 : ℕ)
      → (u : Task C) × (task_at t.task_id (execute_task run s t t0 finished t1) ≡ some u)
        × Ran (run t.call) t finished u
        × (length (execute_task run s t t0 finished t1).results ≡ length s.results + 1)
        × ((execute_task run s t t0 finished t1).queue ≡ s.queue)
  unfolding execute_task
  execute_task-heap run s t t0 finished t1 = by_outcome (run t.call) refl
    where
      by_outcome :
          (o : Outcome V)
          → run t.call ≡ o
          → (u : Task C) × (task_at t.task_id (execute_task run s t t0 finished t1) ≡ some u)
            × Ran (run t.call) t finished u
            × (length (execute_task run s t t0 finished t1).results ≡ length s.results + 1)
            × ((execute_task run s t t0 finished t1).queue ≡ s.queue)
      by_outcome (returned v) e =
          rw (e, execute_task)
            (
              _,
              lookup-insert_self ℕ_discrete t.task_id _ s.heap,
              (refl, refl, refl, refl, refl),
              length-append {0} s.results _,
              refl,
            )
      by_outcome (raised name message) e =
          rw (e, execute_task)
            (
              _,
              lookup-insert_self ℕ_discrete t.task_id _ s.heap,
              (refl, refl, refl, refl, refl),
              length-append {0} s.results _,
              refl,
            )

  -- A task at the head of the queue is run also if it was cancelled while it waited, and the
  -- cancellation is forgotten: a call that returns leaves it done, with one run more and the time of
  -- its end, a call that raises leaves it failed, with one error more, and the other counter stays.
  -- Its next run stays, and one result is added.
  pub work_forgets_cancel :
      (run : C → Outcome V) (s : Scheduler C V) (id : ℕ) (t : Task C) (q : List (Option ℕ))
      (t0 finished t1 : ℕ)
      → s.queue ≡ some id ∷ q
      → task_at id s ≡ some t
      → t.task_id ≡ id
      → t.status ≡ cancelled
      → (u : Task C) × (task_at id (work run s t0 finished t1).0 ≡ some u)
        × Ran (run t.call) t finished u
        × ((work run s t0 finished t1).0.queue ≡ q)
        × (length (work run s t0 finished t1).0.results ≡ length s.results + 1)
  work_forgets_cancel run s id t q t0 finished t1 queue found named c =
      let (u, at, ran, more, left) =
        execute_task-heap run (record s { queue = q }) t t0 finished t1 in
      rw (work_step run s id t q t0 finished t1 queue found) (
        u,
        subst (λ i. task_at i (execute_task run (record s { queue = q }) t t0 finished t1) ≡ some u)
            named at,
        ran,
        left,
        more,
      )
