-- ===== src/Data/Logs/Tests.antt =====
-- Tests and instances for src/data_processing/log_parser.py, with clocks and cases that are simple.
use py2to3_example_project.Prelude.{
  ◌+◌, ◌≡◌, refl, true, none, some, List, [], ◌∷◌, ◌++◌, ◌&&◌, ◌↔◌, length, leb, ◌==◌,
}
use py2to3_example_project.Prelude.Int.{pos}
use py2to3_example_project.Prelude.Text.{codes}
use py2to3_example_project.Prelude.Str.{Str, all}
use py2to3_example_project.Prelude.Py.{ok}
use py2to3_example_project.Data.Logs.Entry
use py2to3_example_project.Data.Logs.Entry.{
  scada_event, LogEntry, new_entry, LogFilter, new_filter, set_min_level, set_time_range, matches,
  Accepts,
}
use py2to3_example_project.Data.Logs.Parser.{
  Python, parse_file, parse_scada_event, parse_applog_timestamp, new_parser, in_file,
}
use py2to3_example_project.Data.Logs.Rows.{rows}
use py2to3_example_project.Data.Logs.Loop.{kept_after, failures_after}
use py2to3_example_project.Data.Logs.Files
use py2to3_example_project.Data.Logs.Files.{with_format}
use py2to3_example_project.Data.Logs.Scada
use py2to3_example_project.Data.Logs.Scada.{Field, IsBare, scada_line}

abbrev python : Python
python = record {
  classes = record {
    is_word = λ c. leb 97 c && leb c 122;
    is_space = λ c. c == 32;
    is_digit = λ c. leb 48 c && leb c 57;
  };
  lower = λ s. s;
  upper = λ s. s;
  int = λ s. some 7;
  syslog_time = λ year s. some (pos year);
  applog_time = λ s. some (pos (length s));
  year = 2024;
}

abbrev event_line : Str
event_line = codes "EVENT|12:00|ERROR|boiler|pump|pressure is low"

-- A blank line, an event, a line of no known format.
abbrev lines : List Str
lines = [] ∷ event_line ∷ codes "garbage" ∷ []

only_errors : LogFilter
only_errors = set_min_level new_filter (codes "ERROR")

one_entry :
    (entry : LogEntry) × ((parse_file python (new_parser none) (some lines) none).1
      ≡ ok (entry ∷ []))
unfolding parse_file parse_scada_event new_parser
one_entry = (_, refl)

parse_file_lem_example :
    ((parse_file python (new_parser none) (some lines) none).1
      ≡ ok (
          kept_after python
            (new_parser none).log_filter
            (with_format python none (rows python 0 lines))))
    × ((parse_file python (new_parser none) (some lines) none).0.faults
        ≡ (new_parser none).faults
          ++ failures_after python in_file (with_format python none (rows python 0 lines)))
    × ((parse_file python (new_parser none) (some lines) none).0.processed
        ≡ (new_parser none).processed + 3)
    × ((parse_file python (new_parser none) (some lines) none).0.log_filter
        ≡ (new_parser none).log_filter)
parse_file_lem_example = Files.parse_file_lem python (new_parser none) lines none

abbrev alarm : LogEntry
alarm = record new_entry { level = codes "CRITICAL"; timestamp_epoch = pos 50 }

abbrev strict : LogFilter
strict = record {
  min_level = some (codes "ERROR");
  hostname = none;
  process = none;
  message_pattern = none;
  time_start = some (pos 50);
  time_end = some (pos 60);
}

strict-alarm : matches strict alarm ≡ true
unfolding matches
strict-alarm = refl

matches_iff_Accepts_example : (matches strict alarm ≡ true) ↔ Accepts strict alarm
matches_iff_Accepts_example = Entry.matches_iff_Accepts strict alarm

abbrev field : Str → Field
field [] = (0, [])
field (c ∷ s) = (c, s)

parse_scada_event-scada_line_example :
    parse_scada_event python
      (scada_line
        (field (codes "12:00"))
        (field (codes "ERROR"))
        (field (codes "boiler"))
        (field (codes "pump"))
        (codes "pressure is low"))
      3
    ≡ some (record new_entry {
      line_number = 3;
      source_format = some scada_event;
      timestamp_raw = codes "12:00";
      level = codes "ERROR";
      module_name = codes "boiler";
      process = codes "pump";
      message = codes "pressure is low";
      timestamp_epoch = parse_applog_timestamp python (codes "12:00");
    })
parse_scada_event-scada_line_example =
    Scada.parse_scada_event-scada_line python 3 (field (codes "12:00")) (field (codes "ERROR"))
      (field (codes "boiler")) (field (codes "pump")) (codes "pressure is low")
      (refl, (unfold all in refl)) (refl, (unfold all in refl)) (refl, (unfold all in refl))
      (refl, (unfold all in refl)) (unfold all in refl)
