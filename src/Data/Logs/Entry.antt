-- ===== src/Data/Logs/Entry.antt =====
-- LogEntry and LogFilter of src/data_processing/log_parser.py. Epochs are whole seconds.
use py2to3_example_project.Prelude.{
  ℕ, ◌≤◌, ◌≡◌, refl, ◌↔◌, Bool, true, false, Option, none, some, arith, leb, not, if◌then◌else◌,
}
use py2to3_example_project.Prelude.Int.{ℤ, pos, ltb_ℤ, ◌≤ℤ◌}
use py2to3_example_project.Prelude.Text.{codes}
use py2to3_example_project.Prelude.Str.{Str, same_str, same_str_eq, same_str_refl}

pub data Format : Type 0 where
  syslog applog scada_event : Format
  other : Str → Format

pub record LogEntry : Type 0 where
  pub timestamp_raw : Str
  pub timestamp_epoch : ℤ
  pub hostname : Str
  pub process : Str
  pub pid : Option ℕ
  pub level : Str
  pub module_name : Str
  pub message : Str
  pub source_format : Option Format
  pub line_number : ℕ

abbrev pub severity_critical : Str
severity_critical = codes "CRITICAL"

abbrev pub severity_error : Str
severity_error = codes "ERROR"

abbrev pub severity_warning : Str
severity_warning = codes "WARNING"

abbrev pub severity_info : Str
severity_info = codes "INFO"

abbrev pub severity_debug : Str
severity_debug = codes "DEBUG"

unfoldable pub new_entry : LogEntry
new_entry = record {
  timestamp_raw = codes "";
  timestamp_epoch = pos 0;
  hostname = codes "";
  process = codes "";
  pid = none;
  level = severity_info;
  module_name = codes "";
  message = codes "";
  source_format = none;
  line_number = 0;
}

-- `_SEVERITY_RANK.get(level, 0)`
unfoldable pub rank : Str → ℕ
unfolding same_str
rank level =
    if same_str level severity_critical
    then 5
    else if same_str level severity_error
    then 4
    else if same_str level severity_warning
    then 3
    else if same_str level severity_info
    then 2
    else if same_str level severity_debug
    then 1
    else 0

unfoldable pub severity_rank : LogEntry → ℕ
unfolding rank
severity_rank e = rank e.level

unfoldable pub matches_level : LogEntry → (min_level : Str) → Bool
unfolding severity_rank rank
matches_level e min_level = leb (rank min_level) (severity_rank e)

-- `message_pattern` is the search of a compiled pattern.
pub record LogFilter : Type 0 where
  pub min_level : Option Str
  pub hostname : Option Str
  pub process : Option Str
  pub message_pattern : Option (Str → Bool)
  pub time_start : Option ℤ
  pub time_end : Option ℤ

unfoldable pub new_filter : LogFilter
new_filter = record {
  min_level = none;
  hostname = none;
  process = none;
  message_pattern = none;
  time_start = none;
  time_end = none;
}

unfoldable pub set_min_level : LogFilter → Str → LogFilter
set_min_level f level = record f { min_level = some level }

unfoldable pub set_hostname : LogFilter → Str → LogFilter
set_hostname f hostname = record f { hostname = some hostname }

unfoldable pub set_process : LogFilter → Str → LogFilter
set_process f process = record f { process = some process }

-- `compile` is `re.compile` with the flag IGNORECASE.
unfoldable pub set_message_pattern : (compile : Str → Str → Bool) → LogFilter → Str → LogFilter
set_message_pattern compile f pattern = record f { message_pattern = some (compile pattern) }

unfoldable pub set_time_range : LogFilter → (start_epoch end_epoch : Option ℤ) → LogFilter
set_time_range f start_epoch end_epoch = record f { time_start = start_epoch; time_end = end_epoch }

-- A criterion that is not set lets everything pass.
abbrev passes {ℓ} : {A : Type ℓ} → Option A → (A → Bool) → Bool
passes none test = true
passes (some a) test = test a

-- `matches`: the criteria in their order, with a return at the first that fails.
unfoldable pub matches : LogFilter → LogEntry → Bool
unfolding matches_level same_str
matches f e =
    if not (passes f.min_level (λ level. matches_level e level))
    then false
    else if not (passes f.hostname (λ h. same_str e.hostname h))
    then false
    else if not (passes f.process (λ p. same_str e.process p))
    then false
    else if not (passes f.message_pattern (λ search. search e.message))
    then false
    else if not (passes f.time_start (λ t. not (ltb_ℤ e.timestamp_epoch t)))
    then false
    else if not (passes f.time_end (λ t. not (ltb_ℤ t e.timestamp_epoch)))
    then false
    else true

-- What the criteria ask of an entry.
abbrev pub Asked {ℓ} : {A : Type ℓ} → Option A → (A → Type 0) → Type 0
Asked none P = Unit
Asked (some a) P = P a

pub record Accepts (f : LogFilter) (e : LogEntry) : Type 0 where
  pub severe : Asked f.min_level (λ level. rank level ≤ rank e.level)
  pub from_host : Asked f.hostname (λ h. e.hostname ≡ h)
  pub from_process : Asked f.process (λ p. e.process ≡ p)
  pub says : Asked f.message_pattern (λ search. search e.message ≡ true)
  pub not_before : Asked f.time_start (λ t. t ≤ℤ e.timestamp_epoch)
  pub not_after : Asked f.time_end (λ t. e.timestamp_epoch ≤ℤ t)

passes_iff {ℓ} :
    {A : Type ℓ} (o : Option A) (test : A → Bool) (P : A → Type 0)
    → ((a : A) → (test a ≡ true) ↔ P a)
    → (passes o test ≡ true) ↔ Asked o P
passes_iff none test P h = (λ _. tt, λ _. refl)
passes_iff (some a) test P h = h a

same_str_iff : (s t : Str) → (same_str s t ≡ true) ↔ (s ≡ t)
same_str_iff s t = (same_str_eq s t, λ e. rw e (same_str_refl t))

not_before_iff : (a b : ℤ) → (not (ltb_ℤ a b) ≡ true) ↔ (b ≤ℤ a)
not_before_iff a b = ground arith

level_iff :
    (e : LogEntry) (level : Str) → (matches_level e level ≡ true) ↔ (rank level ≤ rank e.level)
unfolding matches_level severity_rank
level_iff e level = ground arith

all_of_six :
    (a b c d e f : Bool)
    → ((if not a
          then false
          else if not b
          then false
          else if not c
          then false
          else if not d
          then false
          else if not e
          then false
          else if not f
          then false
          else true)
        ≡ true)
      ↔ ((a ≡ true) × (b ≡ true) × (c ≡ true) × (d ≡ true) × (e ≡ true) × (f ≡ true))
all_of_six a b c d e f = ground arith

-- The filter lets exactly those entries pass that meet every criterion that is set: at least the
-- severity, the host, the process, the pattern found in the message, and a time within the range,
-- both ends included.
pub matches_iff_Accepts : (f : LogFilter) (e : LogEntry) → (matches f e ≡ true) ↔ Accepts f e
unfolding matches
matches_iff_Accepts f e =
    let severity = passes_iff f.min_level _ _ (level_iff e) in
    let host = passes_iff f.hostname _ _ (same_str_iff e.hostname) in
    let process = passes_iff f.process _ _ (same_str_iff e.process) in
    let message =
      passes_iff f.message_pattern (λ search. search e.message) (λ search. search e.message ≡ true)
        (λ search. (λ h. h, λ h. h)) in
    let start = passes_iff f.time_start _ _ (not_before_iff e.timestamp_epoch) in
    let stop = passes_iff f.time_end _ _ (λ t. not_before_iff t e.timestamp_epoch) in
    let six = all_of_six _ _ _ _ _ _ in
    (
      λ h.
          let p = six.0 h in
          record {
            severe = severity.0 p.0;
            from_host = host.0 p.1;
            from_process = process.0 p.2;
            says = message.0 p.3;
            not_before = start.0 p.4;
            not_after = stop.0 p.5;
          },
      λ h. six.1 (
        severity.1 h.severe,
        host.1 h.from_host,
        process.1 h.from_process,
        message.1 h.says,
        start.1 h.not_before,
        stop.1 h.not_after,
      ),
    )
