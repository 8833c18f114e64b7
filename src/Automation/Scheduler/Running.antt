-- ===== src/Automation/Scheduler/Running.antt =====
-- The invariant of the scheduler through the runs of tasks.
use Prim.Native.String.{String, ◌++◌ as concat}
use mathlib.Core.Path.{subst}
use py2to3_example_project.Prelude.{
  ℕ, ◌+◌, ◌≤◌, ◌≡◌, refl, ap, inl, inr, Option, none, some, List, [], ◌∷◌, ◌++◌, arith, length,
  length-append, Bool-cases, ℕ_discrete,
}
use py2to3_example_project.Prelude.Dict.{lookup, insert}
use py2to3_example_project.Automation.Scheduler.Task.{Task, new_task, done, failed, priority_high}
use py2to3_example_project.Prelude.Queue.{is_full}
use py2to3_example_project.Automation.Scheduler.Ops.{
  Scheduler, Outcome, returned, raised, submit_immediate, execute_task, work, work_head,
}
use py2to3_example_project.Automation.Scheduler.Known.{
  AllQueued, Known-insert_self, AllKnown-insert, AllQueued-insert, AllQueued-snoc,
  IsNumbered-insert, lookup-task_id,
}
use py2to3_example_project.Automation.Scheduler.Valid.{IsValid, write-IsValid}

module _ {C V : Type 0} where
  pub execute_task-IsValid :
      (run : C → Outcome V) (s : Scheduler C V) (t : Task C) (t0 finished t1 : ℕ)
      → t.task_id ≤ s.made
      → IsValid s
      → IsValid (execute_task run s t t0 finished t1)
  unfolding execute_task
  execute_task-IsValid run s t t0 finished t1 le v = by_outcome (run t.call) refl
    where
      by_outcome : (o : Outcome V) → run t.call ≡ o → IsValid (execute_task run s t t0 finished t1)
      by_outcome (returned x) e =
          let u : Task C = record t {
            status = done;
            last_run = some finished;
            run_count = t.run_count + 1;
          } in
          let w = write-IsValid s u le v in
          rw (e, execute_task)
            (record {
              bounded = w.bounded;
              known = w.known;
              queued = w.queued;
              numbered = w.numbered;
            })
      by_outcome (raised name message) e =
          let u : Task C = record t {
            status = failed;
            error_count = t.error_count + 1;
            last_error = some (concat name (concat ": " message));
          } in
          let w = write-IsValid s u le v in
          rw (e, execute_task)
            (record {
              bounded = w.bounded;
              known = w.known;
              queued = w.queued;
              numbered = w.numbered;
            })

  pub work_head-IsValid :
      (run : C → Outcome V) (s : Scheduler C V) (q : List (Option ℕ)) (t0 finished t1 : ℕ)
      → s.queue ≡ q
      → IsValid s
      → IsValid (work_head run s q t0 finished t1).0
  unfolding work_head
  work_head-IsValid run s [] t0 finished t1 e v = v
  work_head-IsValid run s (none ∷ q) t0 finished t1 e v = record {
    bounded = λ p. omega (arith, v.bounded p, ap (λ (x : List (Option ℕ)). length x) e);
    known = v.known;
    queued = subst (AllQueued s.heap) e v.queued;
    numbered = v.numbered;
  }
  work_head-IsValid run s (some id ∷ q) t0 finished t1 e v =
      by_lookup (lookup ℕ_discrete id s.heap) refl
    where
      shorter : IsValid (record s { queue = q })
      shorter = record {
        bounded = λ p. omega (arith, v.bounded p, ap (λ (x : List (Option ℕ)). length x) e);
        known = v.known;
        queued = (subst (AllQueued s.heap) e v.queued).1;
        numbered = v.numbered;
      }

      by_lookup :
          (o : Option (Task C))
          → lookup ℕ_discrete id s.heap ≡ o
          → IsValid (work_head run s (some id ∷ q) t0 finished t1).0
      by_lookup none f = rw (f, work_head) shorter
      by_lookup (some t) f =
          let at = lookup-task_id s.made s.heap id t v.numbered f in
          rw (f, work_head)
            (execute_task-IsValid run (record s { queue = q }) t t0 finished t1
              (omega (arith, at.0, at.1)) shorter)

  pub work-IsValid :
      (run : C → Outcome V) (s : Scheduler C V) (t0 finished t1 : ℕ)
      → IsValid s
      → IsValid (work run s t0 finished t1).0
  unfolding work
  work-IsValid run s t0 finished t1 v = work_head-IsValid run s s.queue t0 finished t1 refl v

  pub submit_immediate-IsValid :
      (s : Scheduler C V) (name : String) (call : C) {r : Scheduler C V} {id : ℕ}
      → submit_immediate s name call ≡ some (r, id)
      → IsValid s
      → IsValid r
  unfolding submit_immediate
  submit_immediate-IsValid s name call {r} e v =
      elim (Bool-cases (is_full s.max_queue_size s.queue)) [
        | inl full ↦ absurd (ground arith)
        | inr free ↦ subst IsValid {x = valid} (ground arith) (record {
          bounded = λ p. ground (arith, length-append {0} s.queue (some (s.made + 1) ∷ []));
          known = AllKnown-insert s.heap (s.made + 1) t s.registered v.known;
          queued =
              AllQueued-snoc (insert ℕ_discrete (s.made + 1) t s.heap) s.queue (s.made + 1)
                (AllQueued-insert s.heap (s.made + 1) t s.queue v.queued)
                (Known-insert_self s.heap (s.made + 1) t);
          numbered =
              IsNumbered-insert s.made (s.made + 1) s.heap t (omega arith) (omega arith) v.numbered;
        })
      ]
    where
      t : Task C
      t = new_task s.made name call none none 0 none priority_high

      valid : Scheduler C V
      valid = record s {
        heap = insert ℕ_discrete (s.made + 1) t s.heap;
        made = s.made + 1;
        queue = s.queue ++ some (s.made + 1) ∷ [];
      }
