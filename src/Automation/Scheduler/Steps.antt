-- ===== src/Automation/Scheduler/Steps.antt =====
-- Every sequence of calls and worker rounds keeps the scheduler well formed.
use Prim.Native.String.{String}
use mathlib.Core.Path.{subst}
use py2to3_example_project.Prelude.{
  ℕ, ◌≤◌, ◌<◌, ◌≡◌, refl, inl, inr, false, Option, none, some, List, [], ◌∷◌, ◌++◌, arith, length,
  length-append, Bool-cases,
}
use py2to3_example_project.Automation.Scheduler.Task.{LocalTime, cancel, contains}
use py2to3_example_project.Prelude.Queue.{is_full}
use py2to3_example_project.Automation.Scheduler.Ops.{
  Scheduler, Outcome, schedule_collection, schedule_batch_job, submit_immediate, cancel_task,
  check_and_dispatch, work, collect_results, start, stop, put_stops,
}
use py2to3_example_project.Automation.Scheduler.Known.{Heap, AllQueued, AllQueued-stop}
use py2to3_example_project.Automation.Scheduler.Valid.{
  IsValid, register-IsValid, update_task-IsValid, check_and_dispatch-IsValid,
}
use py2to3_example_project.Automation.Scheduler.Running.{work-IsValid, submit_immediate-IsValid}

put_stops-bounded :
    (maxsize : ℕ) (ws : List ℕ) (q : List (Option ℕ)) {q' : List (Option ℕ)}
    → put_stops maxsize ws q ≡ some q'
    → (0 < maxsize → length q ≤ maxsize)
    → 0 < maxsize
    → length q' ≤ maxsize
unfolding put_stops
put_stops-bounded maxsize [] q e b p = ground (arith, b p)
put_stops-bounded maxsize (w ∷ ws) q e b p = elim (Bool-cases (is_full maxsize q)) [
  | inl full ↦ absurd (ground arith)
  | inr free ↦
      put_stops-bounded maxsize ws (q ++ none ∷ []) (ground arith)
        (λ p. ground (arith, length-append {0} q (none ∷ []))) p
]

put_stops-AllQueued :
    {C : Type 0} (heap : Heap C) (maxsize : ℕ) (ws : List ℕ) (q : List (Option ℕ))
    {q' : List (Option ℕ)}
    → put_stops maxsize ws q ≡ some q'
    → AllQueued heap q
    → AllQueued heap q'
unfolding put_stops
put_stops-AllQueued heap maxsize [] q {q'} e a =
    subst (AllQueued heap) {x = q} {y = q'} (ground arith) a
put_stops-AllQueued heap maxsize (w ∷ ws) q {q'} e a = elim (Bool-cases (is_full maxsize q)) [
  | inl full ↦ absurd (ground arith)
  | inr free ↦
      put_stops-AllQueued heap maxsize ws (q ++ none ∷ []) {q' = q'} (ground arith)
        (AllQueued-stop heap q a)
]

module _ {C V : Type 0} (run : C → Outcome V) (localtime : ℕ → LocalTime) where
  -- A call of the scheduler's interface, or a round of a worker.
  pub data Step (s : Scheduler C V) : Scheduler C V → Type 0 where
    collect_every :
        (name : String) (call : C) (interval priority clock : ℕ)
        → Step s (schedule_collection s name call interval priority clock).0
    batch :
        (name : String) (call : C) (hour minute : ℕ) (days : Option (List ℕ))
        → Step s (schedule_batch_job s name call hour minute days).0
    submit :
        (name : String) (call : C) (id : ℕ) {t : Scheduler C V}
        → submit_immediate s name call ≡ some (t, id)
        → Step s t
    cancel_one : (id : ℕ) → Step s (cancel_task s id).0
    dispatch : (now clock : ℕ) → Step s (check_and_dispatch localtime s now clock)
    round : (t0 finished t1 : ℕ) → Step s (work run s t0 finished t1).0
    results : (limit : ℕ) → Step s (collect_results s limit).0
    begin : Step s (start s)
    end : {t : Scheduler C V} → stop s ≡ some t → Step s t

  pub data Reach (s : Scheduler C V) : Scheduler C V → Type 0 where
    here : Reach s s
    next : {t u : Scheduler C V} → Reach s t → Step t u → Reach s u

  stop-IsValid : (s : Scheduler C V) {t : Scheduler C V} → stop s ≡ some t → IsValid s → IsValid t
  unfolding stop
  stop-IsValid s {t} e v = by_queue (put_stops s.max_queue_size s.workers s.queue) refl
    where
      by_queue :
          (o : Option (List (Option ℕ)))
          → put_stops s.max_queue_size s.workers s.queue ≡ o
          → IsValid t
      by_queue none q = absurd (ground arith)
      by_queue (some stops) q =
          let u : Scheduler C V = record s { active = false; queue = stops; workers = [] } in
          subst IsValid {x = u} (ground arith) (record {
            bounded = put_stops-bounded s.max_queue_size s.workers s.queue q v.bounded;
            known = v.known;
            queued = put_stops-AllQueued s.heap s.max_queue_size s.workers s.queue q v.queued;
            numbered = v.numbered;
          })

  pub Step-IsValid : {s t : Scheduler C V} → Step s t → IsValid s → IsValid t
  Step-IsValid {s} (collect_every name call interval priority clock) v =
      unfold schedule_collection in register-IsValid s _ refl v
  Step-IsValid {s} (batch name call hour minute days) v =
      unfold schedule_batch_job in register-IsValid s _ refl v
  Step-IsValid {s} (submit name call id e) v = submit_immediate-IsValid s name call e v
  Step-IsValid {s} (cancel_one id) v =
      unfold cancel_task in
      elim (Bool-cases (contains id s.registered)) [
        | inl there ↦ rw there (update_task-IsValid s id cancel (λ t. unfold cancel in refl) v)
        | inr absent ↦ rw absent v
      ]
  Step-IsValid {s} (dispatch now clock) v = check_and_dispatch-IsValid localtime s now clock v
  Step-IsValid {s} (round t0 finished t1) v = work-IsValid run s t0 finished t1 v
  Step-IsValid {s} (results limit) v =
      unfold collect_results in
      record { bounded = v.bounded; known = v.known; queued = v.queued; numbered = v.numbered }
  Step-IsValid {s} begin v =
      unfold start in
      record { bounded = v.bounded; known = v.known; queued = v.queued; numbered = v.numbered }
  Step-IsValid {s} (end e) v = stop-IsValid s e v

  -- Whatever is called, and however the workers' rounds come between the calls: from a valid
  -- scheduler on, every registered or queued task exists, every task stands under its own id, no
  -- id is above the counter, and the queue keeps its bound.
  pub Reach-IsValid : {s t : Scheduler C V} → IsValid s → Reach s t → IsValid t
  Reach-IsValid v here = v
  Reach-IsValid v (next r step) = Step-IsValid step (Reach-IsValid v r)
