-- ===== src/Automation/Tests.antt =====
-- Tests and instances for src/automation: a scheduler whose calls are numbers.
use mathlib.Core.List.{Perm}
use py2to3_example_project.Prelude.{
  ℕ, ◌+◌, ◌*◌, ◌/◌, ◌%◌, ◌≡◌, refl, true, none, some, List, [], ◌∷◌, ◌++◌, arith, length, take,
  ℕ_discrete,
}
use py2to3_example_project.Prelude.Dict.{lookup, insert}
use py2to3_example_project.Automation.Scheduler.Task.{
  Task, pending, LocalTime, is_due, compute_next_run, cancel,
}
use py2to3_example_project.Prelude.Sorting.{IsSorted, sorted_by, with_key}
use py2to3_example_project.Automation.Scheduler.Ops.{
  Scheduler, Outcome, returned, check_and_dispatch, work, tasks_of, due_tasks, task_at, cancel_task,
}
use py2to3_example_project.Automation.Scheduler.Dispatch
use py2to3_example_project.Automation.Scheduler.Cancel
use py2to3_example_project.Automation.Scheduler.Cancel.{Ran}
use py2to3_example_project.Automation.Scheduler.Dispatch.{room, entries}
use py2to3_example_project.Automation.Scheduler.Valid.{IsValid}
use py2to3_example_project.Automation.Scheduler.Steps
use py2to3_example_project.Prelude.Py.{ok, raise, value_error}
use py2to3_example_project.Automation.Plugins.Registry as PluginRegistry
use py2to3_example_project.Automation.Plugins.Loader as PluginLoader
use py2to3_example_project.Automation.Plugins.Loader.{
  PluginClass, Instance, Loader, Execution, Config, settings,
}

-- A tick is a minute, and the first day is a Monday.
abbrev localtime : ℕ → LocalTime
localtime t = record {
  hour = t / 60 % 24;
  minute = t % 60;
  weekday = t / 1440 % 7;
  month_day = t / 1440 % 31;
}

abbrev hourly : Task ℕ
hourly = record {
  task_id = 1;
  name = "poll";
  call = 10;
  interval_seconds = some 60;
  run_at_hour = none;
  run_at_minute = 0;
  days_of_week = none;
  priority = 5;
  status = pending;
  last_run = none;
  next_run = some 100;
  run_count = 0;
  error_count = 0;
  last_error = none;
}

-- A batch job at three, which last ran at 180.
abbrev nightly : Task ℕ
nightly = record hourly {
  task_id = 2;
  interval_seconds = none;
  run_at_hour = some 3;
  next_run = none;
  last_run = some 180;
  priority = 0;
}

abbrev scheduler : Scheduler ℕ ℕ
scheduler = record {
  heap = (1, hourly) ∷ (2, nightly) ∷ [];
  made = 2;
  registered = 1 ∷ 2 ∷ [];
  queue = [];
  max_queue_size = 1;
  results = [];
  workers = [];
  num_workers = 2;
  active = true;
}

scheduler-IsValid : IsValid scheduler
unfolding lookup ℕ_discrete
scheduler-IsValid = record {
  bounded = λ p. omega arith;
  known = ((λ e. ground arith), ((λ e. ground arith), tt));
  queued = tt;
  numbered = (refl, omega arith, (refl, omega arith, tt));
}

-- At 1620, three o'clock of the second day, both are due; the batch job is more urgent.
dispatches_urgent : (check_and_dispatch localtime scheduler 1620 1620).queue ≡ some 2 ∷ []
unfolding check_and_dispatch lookup ℕ_discrete insert is_due compute_next_run sorted_by
dispatches_urgent = refl

check_and_dispatch_lem_example :
    (sorted : List (Task ℕ)) × IsSorted (λ t. t.priority) sorted
    × Perm sorted (due_tasks localtime 1620 (tasks_of scheduler.heap (1 ∷ 2 ∷ [])))
    × ((p : ℕ)
        → with_key (λ t. t.priority) p sorted
          ≡ with_key
              (λ t. t.priority)
              p
              (due_tasks localtime 1620 (tasks_of scheduler.heap (1 ∷ 2 ∷ []))))
    × ((check_and_dispatch localtime scheduler 1620 1620).queue
        ≡ [] ++ take (room 1 scheduler.queue (length sorted)) (entries sorted))
    × ((check_and_dispatch localtime scheduler 1620 1620).registered ≡ 1 ∷ 2 ∷ [])
    × ((check_and_dispatch localtime scheduler 1620 1620).results ≡ [])
check_and_dispatch_lem_example = Dispatch.check_and_dispatch_lem localtime scheduler 1620 1620

abbrev double : ℕ → Outcome ℕ
double n = returned (n * 2)

abbrev waiting : Scheduler ℕ ℕ
waiting = record scheduler { heap = (1, cancel hourly) ∷ (2, nightly) ∷ []; queue = some 1 ∷ [] }

work_forgets_cancel_example :
    (u : Task ℕ) × (task_at 1 (work double waiting 200 201 202).0 ≡ some u)
    × Ran {V = ℕ} (returned 20) (cancel hourly) 201 u
    × ((work double waiting 200 201 202).0.queue ≡ [])
    × (length (work double waiting 200 201 202).0.results ≡ 0 + 1)
unfolding lookup ℕ_discrete cancel
work_forgets_cancel_example =
    Cancel.work_forgets_cancel double waiting 1 (cancel hourly) [] 200 201 202 refl refl refl refl

-- A dispatch, a worker's round and a cancellation.
abbrev after : Scheduler ℕ ℕ
after =
    (cancel_task (work double (check_and_dispatch localtime scheduler 1620 1620) 1620 1621 1622).0
      1).0

after-Reach : Steps.Reach double localtime scheduler after
after-Reach =
    Steps.next
      (Steps.next (Steps.next Steps.here (Steps.dispatch 1620 1620)) (Steps.round 1620 1621 1622))
      (Steps.cancel_one 1)

Reach-IsValid_example : IsValid after
Reach-IsValid_example = Steps.Reach-IsValid double localtime scheduler-IsValid after-Reach

abbrev halving : PluginClass ℕ ℕ
halving = record {
  process_hook = PluginLoader.function;
  init_error = λ c. none;
  activate_error = λ c. none;
  process = λ c n. ok (n / 2);
}

abbrev failing_class : PluginClass ℕ ℕ
failing_class = record halving { process = λ c n. raise value_error }

abbrev configured : Instance ℕ ℕ
configured = record {
  plugin_class = halving;
  config = settings (("unit", "kPa") ∷ []);
  active = true;
  activated_at = some 5;
}

abbrev loader : Loader ℕ ℕ
loader = record {
  registry = record { plugins = ("half", halving) ∷ []; load_order = "half" ∷ [] };
  defaults = settings [];
  loaded_modules = "half" ∷ [];
  instances = ("half", configured) ∷ [];
  load_errors = [];
}

abbrev new_code : Execution ℕ ℕ
new_code = record { registers = ("half", failing_class) ∷ []; failure = none }

abbrev broken_code : Execution ℕ ℕ
broken_code = record { registers = []; failure = some "syntax" }

abbrev registry : PluginRegistry.Registry ℕ
registry = record { plugins = ("old", 0) ∷ []; load_order = "old" ∷ [] }

abbrev registered : PluginRegistry.Registry ℕ
registered =
    PluginRegistry.register_all (PluginRegistry.clear registry)
      (("a", 1) ∷ ("b", 2) ∷ ("a", 3) ∷ [])
