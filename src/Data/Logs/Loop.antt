-- ===== src/Data/Logs/Loop.antt =====
-- What LogParser's loops make of the lines: the loops of parse_file and parse_piped against a
-- description by rows.
use py2to3_example_project.Prelude.{
  ℕ, suc, ◌+◌, ◌≡◌, refl, sym, ap, ◌∙◌, true, false, Option, none, some, List, [], ◌∷◌, ◌++◌, arith,
  length, append-nil, Bool-cases, Option-cases, inl, inr,
}
use py2to3_example_project.Prelude.Str.{Str}
use py2to3_example_project.Prelude.Py.{Exc}
use py2to3_example_project.Data.Logs.Entry.{Format, LogEntry, LogFilter}
use py2to3_example_project.Data.Logs.Parser.{
  Python, Fault, Progress, detect_format, parse_line, clean, is_blank, take_entry, step, each_line,
}
use py2to3_example_project.Data.Logs.Rows.{
  rows, found, failed, Gains, Gains-trans, take_entry-Gains, take_entry-detected, counted_line,
  counted_line-Gains, kept, failures, first_known,
}

module _ (py : Python) where
  step_blank :
      (fault : ℕ → Str → Exc → Fault) (s : Progress) (raw : Str)
      → is_blank py (clean raw) ≡ true
      → step py fault s raw ≡ counted_line s
  unfolding step
  step_blank fault s raw h = rw h

  step_known :
      (fault : ℕ → Str → Exc → Fault) (s : Progress) (raw : Str) (format : Format)
      → is_blank py (clean raw) ≡ false
      → s.detected ≡ some format
      → step py fault s raw
        ≡ take_entry
            (fault (s.line_num + 1) (clean raw))
            (counted_line s)
            (parse_line py (clean raw) (s.line_num + 1) format)
  unfolding step
  step_known fault s raw format h e = simp (h, e)

  step_unknown :
      (fault : ℕ → Str → Exc → Fault) (s : Progress) (raw : Str)
      → is_blank py (clean raw) ≡ false
      → s.detected ≡ none
      → detect_format py (clean raw) ≡ none
      → step py fault s raw ≡ counted_line s
  unfolding step
  step_unknown fault s raw h e d = simp (h, e, d)

  step_detects :
      (fault : ℕ → Str → Exc → Fault) (s : Progress) (raw : Str) (format : Format)
      → is_blank py (clean raw) ≡ false
      → s.detected ≡ none
      → detect_format py (clean raw) ≡ some format
      → step py fault s raw ≡ step py fault (record s { detected = some format }) raw
  unfolding step
  step_detects fault s raw format h e d = rw (h, e, d) refl

  -- The description depends on the filter and the line's number of the state.
  at_line :
      (fault : ℕ → Str → Exc → Fault) (format : Format) (t u : Progress) (lines : List Str)
      (f : Option LogFilter) (n m : ℕ)
      → t.parser.log_filter ≡ f
      → t.line_num ≡ n
      → Gains t u
          (kept py t.parser.log_filter format (rows py t.line_num lines))
          (failures py fault format (rows py t.line_num lines))
          m
      → Gains t u
          (kept py f format (rows py n lines))
          (failures py fault format (rows py n lines))
          m
  at_line fault format t u lines f n m p q g = record {
    found_entries =
        g.found_entries ∙ (λ i. t.entries ++ kept py (p i) format (rows py (q i) lines));
    kept_filter = g.kept_filter;
    noted = g.noted ∙ (λ i. t.parser.faults ++ failures py fault format (rows py (q i) lines));
    counted = g.counted;
    numbered = g.numbered;
  }

  each_line_nil : (fault : ℕ → Str → Exc → Fault) (s : Progress) → each_line py fault s [] ≡ s
  unfolding each_line
  each_line_nil fault s = refl

  each_line_cons :
      (fault : ℕ → Str → Exc → Fault) (s : Progress) (raw : Str) (lines : List Str)
      → each_line py fault s (raw ∷ lines) ≡ each_line py fault (step py fault s raw) lines
  unfolding each_line
  each_line_cons fault s raw lines = refl

  pub each_line-known :
      (fault : ℕ → Str → Exc → Fault) (format : Format) (s : Progress) (lines : List Str)
      → s.detected ≡ some format
      → Gains s
          (each_line py fault s lines)
          (kept py s.parser.log_filter format (rows py s.line_num lines))
          (failures py fault format (rows py s.line_num lines))
          (length lines)
  each_line-known fault format s [] e = rw each_line_nil (record {
    found_entries = sym (append-nil s.entries);
    kept_filter = refl;
    noted = sym (append-nil s.parser.faults);
    counted = omega arith;
    numbered = omega arith;
  })
  each_line-known fault format s (raw ∷ lines) e = elim (Bool-cases (is_blank py (clean raw))) [
    | inl blank ↦
        let rest = each_line-known fault format (counted_line s) lines e in
        rw (blank, each_line_cons, step_blank fault s raw blank)
          (Gains-trans s (counted_line s) (each_line py fault (counted_line s) lines) [] _ [] _ 1
            (length lines) (suc (length lines)) (omega arith) (counted_line-Gains s) rest)
    | inr full ↦
        let outcome = parse_line py (clean raw) (s.line_num + 1) format in
        let fault' = fault (s.line_num + 1) (clean raw) in
        let t = take_entry fault' (counted_line s) outcome in
        let taken = take_entry-Gains fault' (counted_line s) outcome in
        let here =
          Gains-trans s (counted_line s) t [] _ [] _ 1 0 1 (omega arith) (counted_line-Gains s)
            taken in
        let rest =
          each_line-known fault format t lines
            (take_entry-detected fault' (counted_line s) outcome ∙ e) in
        rw (full, each_line_cons, step_known fault s raw format full e)
          (Gains-trans s t (each_line py fault t lines) _ _ _ _ 1 (length lines)
            (suc (length lines)) (omega arith) here
            (at_line fault format t (each_line py fault t lines) lines s.parser.log_filter
              (s.line_num + 1) (length lines) taken.kept_filter (omega (arith, taken.numbered))
              rest))
  ]

  -- Until a row's format is known, the rows before it give nothing.
  abbrev pub kept_after : Option LogFilter → Option (Format × List (ℕ × Str)) → List LogEntry
  kept_after f none = []
  kept_after f (some (format, rest)) = kept py f format rest

  abbrev pub failures_after :
      (ℕ → Str → Exc → Fault) → Option (Format × List (ℕ × Str)) → List Fault
  failures_after fault none = []
  failures_after fault (some (format, rest)) = failures py fault format rest

  pub each_line-unknown :
      (fault : ℕ → Str → Exc → Fault) (s : Progress) (lines : List Str)
      → s.detected ≡ none
      → Gains s
          (each_line py fault s lines)
          (kept_after s.parser.log_filter (first_known py (rows py s.line_num lines)))
          (failures_after fault (first_known py (rows py s.line_num lines)))
          (length lines)
  each_line-unknown fault s [] e = rw each_line_nil (record {
    found_entries = sym (append-nil s.entries);
    kept_filter = refl;
    noted = sym (append-nil s.parser.faults);
    counted = omega arith;
    numbered = omega arith;
  })
  each_line-unknown fault s (raw ∷ lines) e = elim (Bool-cases (is_blank py (clean raw))) [
    | inl blank ↦
        let rest = each_line-unknown fault (counted_line s) lines e in
        rw (blank, each_line_cons, step_blank fault s raw blank)
          (Gains-trans s (counted_line s) (each_line py fault (counted_line s) lines) [] _ [] _ 1
            (length lines) (suc (length lines)) (omega arith) (counted_line-Gains s) rest)
    | inr full ↦ elim (Option-cases (detect_format py (clean raw))) [
      | inl unknown ↦
          let rest = each_line-unknown fault (counted_line s) lines e in
          rw (full, unknown, first_known, each_line_cons, step_unknown fault s raw full e unknown)
            (Gains-trans s (counted_line s) (each_line py fault (counted_line s) lines) [] _ [] _ 1
              (length lines) (suc (length lines)) (omega arith) (counted_line-Gains s) rest)
      | inr (format, known) ↦
          let s' : Progress = record s { detected = some format } in
          let all : Gains s' (each_line py fault s' (raw ∷ lines))
              (found s.parser.log_filter (parse_line py (clean raw) (s.line_num + 1) format)
                ++ kept py s.parser.log_filter format (rows py (s.line_num + 1) lines))
              (failed (fault (s.line_num + 1) (clean raw))
                  (parse_line py (clean raw) (s.line_num + 1) format)
                ++ failures py fault format (rows py (s.line_num + 1) lines))
              (suc (length lines)) =
            rw full at (each_line-known fault format s' (raw ∷ lines) refl) in
          let same : each_line py fault s (raw ∷ lines) ≡ each_line py fault s' (raw ∷ lines) =
            each_line_cons fault s raw lines
            ∙ ap (λ t. each_line py fault t lines) (step_detects fault s raw format full e known)
            ∙ sym (each_line_cons fault s' raw lines) in
          rw (full, known, first_known, same)
            (record {
              found_entries = all.found_entries;
              kept_filter = all.kept_filter;
              noted = all.noted;
              counted = all.counted;
              numbered = all.numbered;
            })
    ]
  ]
