-- ===== src/Data/Logs/Parser.antt =====
-- LogParser of src/data_processing/log_parser.py: the detection of the format, the three kinds of
-- lines, and the loops over a file's and a pipe's lines. The character classes, the changes of case
-- and the readers of times and numbers are Python's.
use py2to3_example_project.Prelude.{
  ℕ, ◌+◌, Bool, true, ◌||◌, Option, none, some, List, [], ◌∷◌, ◌++◌, ◌==◌, if◌then◌else◌, take,
}
use py2to3_example_project.Prelude.Int.{ℤ, pos}
use py2to3_example_project.Prelude.Text.{codes}
use py2to3_example_project.Prelude.Str.{Str, contains, before, rstrip, all}
use py2to3_example_project.Prelude.Py.{
  Exc, Result, ok, raise, ◌>>=◌, value_error, parse_error, data_error, os_error,
}
use py2to3_example_project.Data.Logs.Regex.{
  Classes, Groups, match, syslog_pattern, applog_pattern, scada_event_pattern,
}
use py2to3_example_project.Data.Logs.Entry.{
  Format, syslog, applog, scada_event, other, LogEntry, new_entry, LogFilter, matches,
  severity_error, severity_warning, severity_critical, severity_debug, severity_info,
}

-- `int` of a text of digits, `strptime` with `mktime` for both forms of a time, and the year.
pub record Python : Type 0 where
  pub classes : Classes
  pub lower : Str → Str
  pub upper : Str → Str
  pub int : Str → Option ℕ
  pub syslog_time : (year : ℕ) → Str → Option ℤ
  pub applog_time : Str → Option ℤ
  pub year : ℕ

-- A message of `_parse_errors`, by what it is formatted from.
pub data Fault : Type 0 where
  file_fault : (line_num : ℕ) → Exc → (content : Str) → Fault
  piped_fault : (line_num : ℕ) → Exc → Fault

pub record LogParser : Type 0 where
  pub log_filter : Option LogFilter
  pub faults : List Fault
  pub processed : ℕ

-- What a loop keeps: the parser, the line's number, the format and the entries.
pub record Progress : Type 0 where
  pub parser : LogParser
  pub line_num : ℕ
  pub detected : Option Format
  pub entries : List LogEntry

unfoldable pub new_parser : Option LogFilter → LogParser
new_parser log_filter = record { log_filter = log_filter; faults = []; processed = 0 }

abbrev pub or_zero : Option ℤ → ℤ
or_zero none = pos 0
or_zero (some t) = t

-- `line.rstrip("\n\r")`
abbrev pub clean : Str → Str
clean line = rstrip (λ c. c == 10 || c == 13) line

abbrev pub wanted : Option LogFilter → LogEntry → Bool
wanted none e = true
wanted (some f) e = matches f e

-- What an iteration does with the outcome of `_parse_line`.
abbrev pub take_entry : (Exc → Fault) → Progress → Result (Option LogEntry) → Progress
take_entry fault s (raise e) = record s {
  parser = record s.parser { faults = s.parser.faults ++ fault e ∷ [] };
}
take_entry fault s (ok none) = s
take_entry fault s (ok (some e)) =
    if wanted s.parser.log_filter e then record s { entries = s.entries ++ e ∷ [] } else s

abbrev pub started : LogParser → Option Format → Progress
started p assumed = record { parser = p; line_num = 0; detected = assumed; entries = [] }

abbrev pub in_file : ℕ → Str → Exc → Fault
in_file n line e = file_fault n e (take 100 line)

abbrev pub in_pipe : ℕ → Str → Exc → Fault
in_pipe n line e = piped_fault n e

module _ (py : Python) where
  unfoldable pub detect_format : Str → Option Format
  unfolding syslog_pattern applog_pattern scada_event_pattern
  detect_format line = elim (match (syslog_pattern py.classes) line) [
    | some g ↦ some syslog
    | none ↦ elim (match (applog_pattern py.classes) line) [
      | some g ↦ some applog
      | none ↦ elim (match scada_event_pattern line) [ some g ↦ some scada_event | none ↦ none ]
    ]
  ]

  unfoldable pub parse_syslog_timestamp : Str → ℤ
  parse_syslog_timestamp ts = or_zero (py.syslog_time py.year ts)

  unfoldable pub parse_applog_timestamp : Str → ℤ
  unfolding before
  parse_applog_timestamp ts = or_zero (py.applog_time (before (λ c. c == b'.') ts))

  unfoldable pub infer_syslog_level : Str → Str
  unfolding contains
  infer_syslog_level message =
      let has = λ (word : Str). contains word (py.lower message) in
      if has (codes "error") || has (codes "fail") || has (codes "fatal")
      then severity_error
      else if has (codes "warn")
      then severity_warning
      else if has (codes "crit") || has (codes "emerg") || has (codes "alert")
      then severity_critical
      else if has (codes "debug")
      then severity_debug
      else severity_info

  -- `int(match.group(4)) if match.group(4) else None`
  abbrev pid_of : Option Str → Result (Option ℕ)
  pid_of none = ok none
  pid_of (some digits) = elim (py.int digits) [ none ↦ raise value_error | some n ↦ ok (some n) ]

  abbrev syslog_entry : ℕ → Groups → Result (Option LogEntry)
  syslog_entry line_num (some ts ∷ some host ∷ some process ∷ pid ∷ some message ∷ []) =
      pid_of pid >>= λ n. ok (
        some (record new_entry {
          line_number = line_num;
          source_format = some syslog;
          timestamp_raw = ts;
          hostname = host;
          process = process;
          pid = n;
          message = message;
          level = infer_syslog_level message;
          timestamp_epoch = parse_syslog_timestamp ts;
        }))
  syslog_entry line_num _ = ok none

  unfoldable pub parse_syslog : Str → ℕ → Result (Option LogEntry)
  unfolding syslog_pattern infer_syslog_level parse_syslog_timestamp new_entry
  parse_syslog line line_num = elim (match (syslog_pattern py.classes) line) [
    | none ↦ ok none
    | some groups ↦ syslog_entry line_num groups
  ]

  abbrev applog_entry : ℕ → Groups → Option LogEntry
  applog_entry line_num (some ts ∷ some level ∷ some name ∷ some message ∷ []) =
      some (record new_entry {
        line_number = line_num;
        source_format = some applog;
        timestamp_raw = ts;
        level = py.upper level;
        module_name = name;
        message = message;
        timestamp_epoch = parse_applog_timestamp ts;
      })
  applog_entry line_num _ = none

  unfoldable pub parse_applog : Str → ℕ → Option LogEntry
  unfolding applog_pattern parse_applog_timestamp new_entry
  parse_applog line line_num = elim (match (applog_pattern py.classes) line) [
    | none ↦ none
    | some groups ↦ applog_entry line_num groups
  ]

  abbrev pub scada_entry : ℕ → Groups → Option LogEntry
  scada_entry line_num (some ts ∷ some level ∷ some area ∷ some point ∷ some message ∷ []) =
      some (record new_entry {
        line_number = line_num;
        source_format = some scada_event;
        timestamp_raw = ts;
        level = py.upper level;
        module_name = area;
        process = point;
        message = message;
        timestamp_epoch = parse_applog_timestamp ts;
      })
  scada_entry line_num _ = none

  unfoldable pub parse_scada_event : Str → ℕ → Option LogEntry
  unfolding scada_event_pattern parse_applog_timestamp new_entry
  parse_scada_event line line_num = elim (match scada_event_pattern line) [
    | none ↦ none
    | some groups ↦ scada_entry line_num groups
  ]

  unfoldable pub parse_line : Str → ℕ → Format → Result (Option LogEntry)
  unfolding parse_syslog parse_applog parse_scada_event
  parse_line line line_num syslog = parse_syslog line line_num
  parse_line line line_num applog = ok (parse_applog line line_num)
  parse_line line line_num scada_event = ok (parse_scada_event line line_num)
  parse_line line line_num (other name) = raise parse_error

  -- `not line.strip()`
  abbrev pub is_blank : Str → Bool
  is_blank line = all py.classes.is_space line

  -- One iteration, the same in both loops but for the message of a fault.
  unfoldable pub step : (ℕ → Str → Exc → Fault) → Progress → Str → Progress
  unfolding detect_format parse_line rstrip all matches
  step fault s raw =
      let line = clean raw in
      let n = s.line_num + 1 in
      let s' : Progress = record s {
        parser = record s.parser { processed = s.parser.processed + 1 };
        line_num = n;
      } in
      if is_blank line then s' else elim s.detected [
        | some format ↦ take_entry (fault n line) s' (parse_line line n format)
        | none ↦ elim (detect_format line) [
          | none ↦ s'
          | some format ↦
              take_entry (fault n line) (record s' { detected = some format })
                (parse_line line n format)
        ]
      ]

  unfoldable pub each_line : (ℕ → Str → Exc → Fault) → Progress → List Str → Progress
  unfolding step
  each_line fault s [] = s
  each_line fault s (line ∷ lines) = each_line fault (step fault s line) lines

  -- `open` gives the lines of the file, or none when it raises.
  unfoldable pub parse_file :
      LogParser → Option (List Str) → Option Format → LogParser × Result (List LogEntry)
  unfolding each_line
  parse_file p none assumed = (p, raise os_error)
  parse_file p (some lines) assumed =
      let s = each_line in_file (started p assumed) lines in (s.parser, ok s.entries)

  unfoldable pub parse_piped : LogParser → List Str → LogParser × List LogEntry
  unfolding each_line
  parse_piped p lines = let s = each_line in_pipe (started p none) lines in (s.parser, s.entries)

  -- `status` is what rsync returns, `local_file` the file at the local path after it.
  unfoldable pub collect_and_parse :
      LogParser
      → (status : ℕ) → (local_file : Option (List Str)) → LogParser × Result (List LogEntry)
  unfolding parse_file
  collect_and_parse p status local_file =
      if status == 0 then parse_file p local_file none else (p, raise data_error)
