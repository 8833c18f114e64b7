-- ===== src/Automation/Scheduler/Ops.antt =====
-- TaskWorker and TaskScheduler. An operation that blocks on the full queue returns `none`. Other
-- threads do not run inside an operation.
use Prim.Native.String.{String, ◌++◌ as concat}
use py2to3_example_project.Prelude.{
  ℕ, zero, suc, ◌+◌, Bool, true, false, Option, none, some, List, [], ◌∷◌, ◌++◌, if◌then◌else◌,
  take, drop, ℕ_discrete,
}
use py2to3_example_project.Prelude.Int.{ℤ, sub_ℕ}
use py2to3_example_project.Prelude.Dict.{lookup, insert}
use py2to3_example_project.Automation.Scheduler.Task.{
  Task, done, failed, LocalTime, new_task, is_due, contains, compute_next_run, cancel,
  priority_high, priority_normal,
}
use py2to3_example_project.Prelude.Queue.{is_full}
use py2to3_example_project.Prelude.Sorting.{sorted_by}

-- What a callable does: it returns, or raises an exception with a name and a message.
pub data Outcome (V : Type 0) : Type 0 where
  returned : V → Outcome V
  raised : (name message : String) → Outcome V

pub data Answer (V : Type 0) : Type 0 where
  value : V → Answer V
  error : String → Answer V

pub record Completed (V : Type 0) : Type 0 where
  pub task_id : ℕ
  pub success : Bool
  pub answer : Answer V
  pub elapsed : ℤ

pub record Scheduler (C V : Type 0) : Type 0 where
  pub heap : List (ℕ × Task C)
  pub made : ℕ
  pub registered : List ℕ
  pub queue : List (Option ℕ)
  pub max_queue_size : ℕ
  pub results : List (Completed V)
  pub workers : List ℕ
  pub num_workers : ℕ
  pub active : Bool

-- A method call that changes the task object `id`.
unfoldable pub update_task :
    {C : Type 0} → ℕ → (Task C → Task C) → List (ℕ × Task C) → List (ℕ × Task C)
update_task id f heap = elim (lookup ℕ_discrete id heap) [
  | none ↦ heap
  | some t ↦ insert ℕ_discrete id (f t) heap
]

-- The tasks behind some ids, in order.
unfoldable pub tasks_of : {C : Type 0} → List (ℕ × Task C) → List ℕ → List (Task C)
tasks_of heap [] = []
tasks_of heap (id ∷ ids) =
    let rest = tasks_of heap ids in
    elim (lookup ℕ_discrete id heap) [ none ↦ rest | some t ↦ t ∷ rest ]

unfoldable pub due_tasks : {C : Type 0} → (ℕ → LocalTime) → ℕ → List (Task C) → List (Task C)
due_tasks localtime now [] = []
due_tasks localtime now (t ∷ ts) =
    if is_due localtime t now then t ∷ due_tasks localtime now ts else due_tasks localtime now ts

-- Worker numbers `from`, `from + 1`, …
unfoldable pub count_up : (n from : ℕ) → List ℕ
count_up zero from = []
count_up (suc n) from = from ∷ count_up n (from + 1)

-- One None for each worker.
unfoldable pub put_stops : ℕ → List ℕ → List (Option ℕ) → Option (List (Option ℕ))
put_stops maxsize [] q = some q
put_stops maxsize (w ∷ ws) q =
    let rest = put_stops maxsize ws (q ++ none ∷ []) in if is_full maxsize q then none else rest

module _ {C V : Type 0} where
  unfoldable pub init : (num_workers max_queue_size made : ℕ) → List (ℕ × Task C) → Scheduler C V
  init num_workers max_queue_size made heap = record {
    heap = heap;
    made = made;
    registered = [];
    queue = [];
    max_queue_size = max_queue_size;
    results = [];
    workers = [];
    num_workers = num_workers;
    active = false;
  }

  abbrev pub task_at : ℕ → Scheduler C V → Option (Task C)
  task_at id s = lookup ℕ_discrete id s.heap

  -- `registered_tasks[task_id] = task`, for a task that has just been made.
  unfoldable pub register : Scheduler C V → Task C → Scheduler C V
  register s t = record s {
    heap = insert ℕ_discrete t.task_id t s.heap;
    made = s.made + 1;
    registered = s.registered ++ t.task_id ∷ [];
  }

  unfoldable pub schedule_collection :
      Scheduler C V → String → C → (interval priority clock : ℕ) → Scheduler C V × ℕ
  unfolding register compute_next_run new_task
  schedule_collection s name call interval priority clock =
      let t = new_task s.made name call (some interval) none 0 none priority in
      (register s (compute_next_run t none clock), s.made + 1)

  unfoldable pub schedule_batch_job :
      Scheduler C V → String → C → (hour minute : ℕ) → Option (List ℕ) → Scheduler C V × ℕ
  unfolding register new_task
  schedule_batch_job s name call hour minute days =
      let t = new_task s.made name call none (some hour) minute days priority_normal in
      (register s t, s.made + 1)

  unfoldable pub schedule_report :
      Scheduler C V → String → C → (hour : ℕ) → Option (List ℕ) → Scheduler C V × ℕ
  unfolding schedule_batch_job
  schedule_report s name call hour days = schedule_batch_job s name call hour 0 days

  unfoldable pub submit_immediate : Scheduler C V → String → C → Option (Scheduler C V × ℕ)
  unfolding new_task
  submit_immediate s name call =
      let t = new_task s.made name call none none 0 none priority_high in
      if is_full s.max_queue_size s.queue
      then none
      else some (
        record s {
          heap = insert ℕ_discrete t.task_id t s.heap;
          made = s.made + 1;
          queue = s.queue ++ some t.task_id ∷ [];
        },
        t.task_id,
      )

  unfoldable pub cancel_task : Scheduler C V → ℕ → Scheduler C V × Bool
  unfolding update_task cancel
  cancel_task s id =
      if contains id s.registered
      then (record s { heap = update_task id cancel s.heap }, true)
      else (s, false)

  -- The body of the dispatch loop: the task joins the queue and gets its next run, or is deferred.
  unfoldable pub dispatch_one : (now clock : ℕ) → Scheduler C V → Task C → Scheduler C V
  unfolding update_task compute_next_run
  dispatch_one now clock s t = if is_full s.max_queue_size s.queue then s else record s {
    queue = s.queue ++ some t.task_id ∷ [];
    heap = update_task t.task_id (λ u. compute_next_run u (some now) clock) s.heap;
  }

  unfoldable pub dispatch_all : (now clock : ℕ) → Scheduler C V → List (Task C) → Scheduler C V
  unfolding dispatch_one
  dispatch_all now clock s [] = s
  dispatch_all now clock s (t ∷ ts) = dispatch_all now clock (dispatch_one now clock s t) ts

  unfoldable pub check_and_dispatch :
      (ℕ → LocalTime) → Scheduler C V → (now clock : ℕ) → Scheduler C V
  unfolding dispatch_all tasks_of due_tasks
  check_and_dispatch localtime s now clock =
      dispatch_all now clock s
        (sorted_by (λ t. t.priority) (due_tasks localtime now (tasks_of s.heap s.registered)))

  -- `_execute_task`; the clock is read at the start, after a success, and at the end.
  unfoldable pub execute_task :
      (C → Outcome V) → Scheduler C V → Task C → (t0 finished t1 : ℕ) → Scheduler C V
  execute_task run s t t0 finished t1 = elim (run t.call) [
    | returned v ↦ record s {
      heap =
          insert ℕ_discrete t.task_id
            (record t { status = done; last_run = some finished; run_count = t.run_count + 1 })
            s.heap;
      results =
          s.results
          ++ record { task_id = t.task_id; success = true; answer = value v; elapsed = sub_ℕ t1 t0 }
            ∷ [];
    }
    | raised name message ↦
        let text = concat name (concat ": " message) in
        record s {
          heap =
              insert ℕ_discrete t.task_id
                (record t {
                  status = failed;
                  error_count = t.error_count + 1;
                  last_error = some text;
                })
                s.heap;
          results =
              s.results
              ++ record {
                task_id = t.task_id;
                success = false;
                answer = error text;
                elapsed = sub_ℕ t1 t0;
              }
                ∷ [];
        }
  ]

  -- A worker's round on a queue: it stops at None, and runs the task that an id names.
  unfoldable pub work_head :
      (C → Outcome V)
      → Scheduler C V
      → List (Option ℕ)
      → (t0 finished t1 : ℕ) → Scheduler C V × Bool
  work_head run s [] t0 finished t1 = (s, true)
  work_head run s (none ∷ q) t0 finished t1 = (record s { queue = q }, false)
  work_head run s (some id ∷ q) t0 finished t1 = elim (lookup ℕ_discrete id s.heap) [
    | none ↦ (record s { queue = q }, true)
    | some t ↦ (execute_task run (record s { queue = q }) t t0 finished t1, true)
  ]

  -- One round of a worker's loop: the new state, and whether the worker goes on.
  unfoldable pub work :
      (C → Outcome V) → Scheduler C V → (t0 finished t1 : ℕ) → Scheduler C V × Bool
  unfolding work_head
  work run s t0 finished t1 = work_head run s s.queue t0 finished t1

  unfoldable pub collect_results : Scheduler C V → (limit : ℕ) → Scheduler C V × List (Completed V)
  collect_results s limit = (record s { results = drop limit s.results }, take limit s.results)

  unfoldable pub start : Scheduler C V → Scheduler C V
  unfolding count_up
  start s = record s { active = true; workers = s.workers ++ count_up s.num_workers 0 }

  unfoldable pub stop : Scheduler C V → Option (Scheduler C V)
  unfolding put_stops
  stop s = elim (put_stops s.max_queue_size s.workers s.queue) [
    | none ↦ none
    | some q ↦ some (record s { active = false; queue = q; workers = [] })
  ]
