-- ===== src/Data/Logs/Files.antt =====
-- What parse_file, parse_piped and collect_and_parse of src/data_processing/log_parser.py return.
use py2to3_example_project.Prelude.{
  ℕ, ◌+◌, ◌≡◌, refl, sym, ap, ◌∙◌, arith, Option, none, some, List, ◌++◌, length,
}
use py2to3_example_project.Prelude.Str.{Str}
use py2to3_example_project.Prelude.Py.{ok, raise, data_error}
use py2to3_example_project.Data.Logs.Entry.{Format}
use py2to3_example_project.Data.Logs.Parser.{
  Python, LogParser, started, in_file, in_pipe, parse_file, parse_piped, collect_and_parse,
}
use py2to3_example_project.Data.Logs.Rows.{rows, first_known}
use py2to3_example_project.Data.Logs.Loop.{
  kept_after, failures_after, each_line-known, each_line-unknown,
}

-- The rows with the format to parse them in: the one that is assumed for all, or from the first row
-- with a known format on that row's.
abbrev pub with_format : Python → Option Format → List (ℕ × Str) → Option (Format × List (ℕ × Str))
with_format py none rs = first_known py rs
with_format py (some format) rs = some (format, rs)

module _ (py : Python) where
  -- A parse of a file returns, in order, the entries that the filter accepts among the rows parsed
  -- in one format, notes a fault for every such row whose parse raises, counts every line, and
  -- keeps the filter. The format is the assumed one, or that of the first row whose format is
  -- known, and then the rows before it are passed over.
  pub parse_file_lem :
      (p : LogParser) (lines : List Str) (assumed : Option Format)
      → ((parse_file py p (some lines) assumed).1
          ≡ ok (kept_after py p.log_filter (with_format py assumed (rows py 0 lines))))
        × ((parse_file py p (some lines) assumed).0.faults
            ≡ p.faults ++ failures_after py in_file (with_format py assumed (rows py 0 lines)))
        × ((parse_file py p (some lines) assumed).0.processed ≡ p.processed + length lines)
        × ((parse_file py p (some lines) assumed).0.log_filter ≡ p.log_filter)
  unfolding parse_file
  parse_file_lem p lines none =
      let g = each_line-unknown py in_file (started p none) lines refl in
      (ap ok g.found_entries, g.noted, g.counted, g.kept_filter)
  parse_file_lem p lines (some format) =
      let g = each_line-known py in_file format (started p (some format)) lines refl in
      (ap ok g.found_entries, g.noted, g.counted, g.kept_filter)

  -- The lines of a pipe give the same entries and the same count as a file with those lines and no
  -- assumed format; and a log that rsync does not fetch, with a status other than 0, raises
  -- DataError and changes nothing, a fetched one is parsed as a file.
  pub parse_piped-parse_file :
      (p : LogParser) (lines : List Str) (status : ℕ) (local_file : Option (List Str))
      → (ok (parse_piped py p lines).1 ≡ (parse_file py p (some lines) none).1)
        × ((parse_piped py p lines).0.processed ≡ (parse_file py p (some lines) none).0.processed)
        × ((parse_piped py p lines).0.faults
            ≡ p.faults ++ failures_after py in_pipe (first_known py (rows py 0 lines)))
        × (collect_and_parse py p 0 local_file ≡ parse_file py p local_file none)
        × (collect_and_parse py p (status + 1) local_file ≡ (p, raise data_error))
  unfolding parse_file parse_piped collect_and_parse
  parse_piped-parse_file p lines status local_file =
      let g = each_line-unknown py in_pipe (started p none) lines refl in
      let h = each_line-unknown py in_file (started p none) lines refl in
      (
        ap ok (g.found_entries ∙ sym h.found_entries),
        g.counted ∙ sym h.counted,
        g.noted,
        refl,
        ground arith,
      )
