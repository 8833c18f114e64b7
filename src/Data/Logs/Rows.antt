-- ===== src/Data/Logs/Rows.antt =====
-- What the loops of LogParser (src/data_processing/log_parser.py) are to make of the lines, row by
-- row, and what a loop does to its state.
use py2to3_example_project.Prelude.{
  ℕ, ◌+◌, ◌≡◌, refl, sym, ap, ◌∙◌, Option, none, some, List, [], ◌∷◌, ◌++◌, arith, if◌then◌else◌,
  append-nil, append_assoc, Bool-cases, inl, inr,
}
use py2to3_example_project.Prelude.Str.{Str}
use py2to3_example_project.Prelude.Py.{Exc, Result, ok, raise}
use py2to3_example_project.Data.Logs.Entry.{Format, LogEntry, LogFilter}
use py2to3_example_project.Data.Logs.Parser.{
  Python, Fault, Progress, detect_format, parse_line, clean, is_blank, wanted, take_entry,
}

-- The lines that are not blank, without their ends, under their numbers.
abbrev pub rows : Python → ℕ → List Str → List (ℕ × Str)
rows py n [] = []
rows py n (raw ∷ lines) =
    let rest = rows py (n + 1) lines in
    if is_blank py (clean raw) then rest else (n + 1, clean raw) ∷ rest

abbrev pub found : Option LogFilter → Result (Option LogEntry) → List LogEntry
found f (raise e) = []
found f (ok none) = []
found f (ok (some e)) = if wanted f e then e ∷ [] else []

abbrev pub failed : (Exc → Fault) → Result (Option LogEntry) → List Fault
failed fault (raise e) = fault e ∷ []
failed fault (ok o) = []

module _ (py : Python) where
  -- The entries that the rows hold in a format.
  abbrev pub kept : Option LogFilter → Format → List (ℕ × Str) → List LogEntry
  kept f format [] = []
  kept f format ((n, line) ∷ rest) = found f (parse_line py line n format) ++ kept f format rest

  abbrev pub failures : (ℕ → Str → Exc → Fault) → Format → List (ℕ × Str) → List Fault
  failures fault format [] = []
  failures fault format ((n, line) ∷ rest) =
      failed (fault n line) (parse_line py line n format) ++ failures fault format rest

  -- The first row whose format is known, with the rows from there on.
  abbrev pub first_known : List (ℕ × Str) → Option (Format × List (ℕ × Str))
  first_known [] = none
  first_known ((n, line) ∷ rest) = elim (detect_format py line) [
    | none ↦ first_known rest
    | some format ↦ some (format, (n, line) ∷ rest)
  ]

-- What a loop does to its state.
pub record Gains (s t : Progress) (more : List LogEntry) (bad : List Fault) (read : ℕ)
    : Type 0 where
  pub found_entries : t.entries ≡ s.entries ++ more
  pub kept_filter : t.parser.log_filter ≡ s.parser.log_filter
  pub noted : t.parser.faults ≡ s.parser.faults ++ bad
  pub counted : t.parser.processed ≡ s.parser.processed + read
  pub numbered : t.line_num ≡ s.line_num + read

pub Gains-trans :
    (s t u : Progress) (xs ys : List LogEntry) (bs cs : List Fault) (m n k : ℕ)
    → k ≡ m + n
    → Gains s t xs bs m
    → Gains t u ys cs n
    → Gains s u (xs ++ ys) (bs ++ cs) k
Gains-trans s t u xs ys bs cs m n k e g h = record {
  found_entries =
      h.found_entries ∙ ap (λ l. l ++ ys) g.found_entries ∙ append_assoc s.entries xs ys;
  kept_filter = h.kept_filter ∙ g.kept_filter;
  noted = h.noted ∙ ap (λ l. l ++ cs) g.noted ∙ append_assoc s.parser.faults bs cs;
  counted = ground (arith, g.counted, h.counted);
  numbered = ground (arith, g.numbered, h.numbered);
}

pub take_entry-Gains :
    (fault : Exc → Fault) (s : Progress) (r : Result (Option LogEntry))
    → Gains s (take_entry fault s r) (found s.parser.log_filter r) (failed fault r) 0
take_entry-Gains fault s (raise e) = record {
  found_entries = sym (append-nil s.entries);
  kept_filter = refl;
  noted = refl;
  counted = omega arith;
  numbered = omega arith;
}
take_entry-Gains fault s (ok none) = record {
  found_entries = sym (append-nil s.entries);
  kept_filter = refl;
  noted = sym (append-nil s.parser.faults);
  counted = omega arith;
  numbered = omega arith;
}
take_entry-Gains fault s (ok (some e)) = elim (Bool-cases (wanted s.parser.log_filter e)) [
  | inl good ↦ rw good (record {
    found_entries = refl;
    kept_filter = refl;
    noted = sym (append-nil s.parser.faults);
    counted = omega arith;
    numbered = omega arith;
  })
  | inr bad ↦ rw bad (record {
    found_entries = sym (append-nil s.entries);
    kept_filter = refl;
    noted = sym (append-nil s.parser.faults);
    counted = omega arith;
    numbered = omega arith;
  })
]

pub take_entry-detected :
    (fault : Exc → Fault) (s : Progress) (r : Result (Option LogEntry))
    → (take_entry fault s r).detected ≡ s.detected
take_entry-detected fault s (raise e) = refl
take_entry-detected fault s (ok none) = refl
take_entry-detected fault s (ok (some e)) = ground arith

-- The state after the counters of an iteration.
abbrev pub counted_line : Progress → Progress
counted_line s = record s {
  parser = record s.parser { processed = s.parser.processed + 1 };
  line_num = s.line_num + 1;
}

pub counted_line-Gains : (s : Progress) → Gains s (counted_line s) [] [] 1
counted_line-Gains s = record {
  found_entries = sym (append-nil s.entries);
  kept_filter = refl;
  noted = sym (append-nil s.parser.faults);
  counted = refl;
  numbered = refl;
}
