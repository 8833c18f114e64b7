-- ===== src/Automation/Scheduler/Due.antt =====
-- When a task is due, and how running, dispatching and cancelling change that.
use py2to3_example_project.Prelude.{
  ℕ, zero, suc, ◌+◌, ◌≤◌, ◌<◌, ◌≡◌, refl, true, false, Option, none, some, arith, ◌≢◌,
}
use py2to3_example_project.Automation.Scheduler.Task.{
  Task, cancelled, LocalTime, is_due, compute_next_run, cancel,
}

module _ {C : Type 0} (localtime : ℕ → LocalTime) (t : Task C) where
  -- A cancelled task is never due.
  pub is_due-cancel : (now : ℕ) → is_due localtime (cancel t) now ≡ false
  unfolding is_due cancel
  is_due-cancel now = refl

  -- A periodic task with no time of day, that is not cancelled, is due exactly from the interval
  -- after the time from which its next run was computed, when that time is not 0.
  pub is_due-compute_next_run :
      (from clock interval now : ℕ)
      → 0 < from
      → t.interval_seconds ≡ some interval
      → t.run_at_hour ≡ none
      → t.status ≢ cancelled
      → (now < from + interval
          → is_due localtime (compute_next_run t (some from) clock) now ≡ false)
        × (from + interval ≤ now
            → is_due localtime (compute_next_run t (some from) clock) now ≡ true)
  unfolding is_due compute_next_run
  is_due-compute_next_run (suc from) clock interval now p i h s =
      ((λ q. ground arith), λ q. ground arith)
  is_due-compute_next_run zero clock interval now p i h s = absurd (omega arith)

  -- A batch job that ran in this minute is not due again in it.
  pub is_due_once :
      (last now : ℕ)
      → t.next_run ≡ none
      → t.last_run ≡ some last
      → (localtime last).hour ≡ (localtime now).hour
      → (localtime last).minute ≡ (localtime now).minute
      → (localtime last).month_day ≡ (localtime now).month_day
      → is_due localtime t now ≡ false
  unfolding is_due
  is_due_once last now n l h m d = ground arith

  -- For a task with no interval, computing the next run leaves it as due as it was: a batch job
  -- that was dispatched is due again in the same minute, until a worker has run it.
  pub is_due_again :
      (from : Option ℕ) (clock now : ℕ)
      → t.interval_seconds ≡ none
      → is_due localtime (compute_next_run t from clock) now ≡ is_due localtime t now
  unfolding compute_next_run
  is_due_again from clock now i = ground arith
