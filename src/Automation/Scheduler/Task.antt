-- ===== src/Automation/Scheduler/Task.antt =====
-- ScheduledTask.
use Prim.Native.String.{String}
use py2to3_example_project.Prelude.{
  ℕ, zero, suc, ◌+◌, Bool, true, false, ◌&&◌, ◌||◌, not, Option, none, some, List, [], ◌∷◌, leb,
  ◌==◌, if◌then◌else◌,
}

abbrev pub priority_high : ℕ
priority_high = 0

abbrev pub priority_normal : ℕ
priority_normal = 5

pub data Status : Type 0 where
  pending running done failed cancelled : Status

-- What the scheduler reads of `time.localtime`.
pub record LocalTime : Type 0 where
  pub hour : ℕ
  pub minute : ℕ
  pub weekday : ℕ
  pub month_day : ℕ

-- `C` is the type of a call: the callable with its arguments.
pub record Task (C : Type 0) : Type 0 where
  pub task_id : ℕ
  pub name : String
  pub call : C
  pub interval_seconds : Option ℕ
  pub run_at_hour : Option ℕ
  pub run_at_minute : ℕ
  pub days_of_week : Option (List ℕ)
  pub priority : ℕ
  pub status : Status
  pub last_run : Option ℕ
  pub next_run : Option ℕ
  pub run_count : ℕ
  pub error_count : ℕ
  pub last_error : Option String

-- `x in xs`
abbrev pub contains : ℕ → List ℕ → Bool
contains x [] = false
contains x (y ∷ ys) = x == y || contains x ys

abbrev pub is_cancelled : Status → Bool
is_cancelled cancelled = true
is_cancelled _ = false

-- `self.next_run is not None and now >= self.next_run`
abbrev pub interval_due : Option ℕ → ℕ → Bool
interval_due none now = false
interval_due (some next) now = leb next now

abbrev pub day_matches : Option (List ℕ) → ℕ → Bool
day_matches none weekday = true
day_matches (some days) weekday = contains weekday days

-- The last run was in this minute of this day of the month.
abbrev pub ran_now : (ℕ → LocalTime) → Option ℕ → LocalTime → Bool
ran_now localtime none lt = false
ran_now localtime (some last) lt =
    let prev = localtime last in
    prev.hour == lt.hour && prev.minute == lt.minute && prev.month_day == lt.month_day

-- `from_time or time.time()`: no time, or time 0, stands for the clock.
abbrev pub time_or : Option ℕ → ℕ → ℕ
time_or none clock = clock
time_or (some zero) clock = clock
time_or (some (suc t)) clock = suc t

module _ {C : Type 0} where
  -- The constructor, with the number of tasks made before.
  unfoldable pub new_task :
      (made : ℕ)
      → String
      → C
      → (interval : Option ℕ) → (hour : Option ℕ) → (minute : ℕ) → (days : Option (List ℕ))
      → (priority : ℕ) → Task C
  new_task made name call interval hour minute days priority = record {
    task_id = made + 1;
    name = name;
    call = call;
    interval_seconds = interval;
    run_at_hour = hour;
    run_at_minute = minute;
    days_of_week = days;
    priority = priority;
    status = pending;
    last_run = none;
    next_run = none;
    run_count = 0;
    error_count = 0;
    last_error = none;
  }

  abbrev pub clock_due : (ℕ → LocalTime) → Task C → (hour : Option ℕ) → LocalTime → Bool
  clock_due localtime t none lt = false
  clock_due localtime t (some hour) lt =
      if not (lt.hour == hour) || not (lt.minute == t.run_at_minute)
      then false
      else if day_matches t.days_of_week lt.weekday
      then not (ran_now localtime t.last_run lt)
      else false

  unfoldable pub is_due : (ℕ → LocalTime) → Task C → ℕ → Bool
  is_due localtime t now =
      if is_cancelled t.status
      then false
      else if interval_due t.next_run now
      then true
      else clock_due localtime t t.run_at_hour (localtime now)

  unfoldable pub compute_next_run : Task C → Option ℕ → (clock : ℕ) → Task C
  compute_next_run t from_time clock = elim t.interval_seconds [
    | none ↦ t
    | some interval ↦ record t { next_run = some (time_or from_time clock + interval) }
  ]

  unfoldable pub cancel : Task C → Task C
  cancel t = record t { status = cancelled }
