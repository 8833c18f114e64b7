-- ===== src/Core/Strings/Split.antt =====
-- What build_csv_line of src/core/string_helpers.py writes is read back by the rules of CSV.
use mathlib.Core.Path.{subst}
use py2to3_example_project.Prelude.{
  ℕ, ◌≢◌, ◌≡◌, refl, sym, ap, ◌∙◌, Bool, true, false, not, Option, none, some, List, [], ◌∷◌, ◌++◌,
  ◌==◌, arith, Bool-cases, inl, inr, append_assoc, append-nil, ==_iff,
}
use py2to3_example_project.Prelude.Str.{Str, contains, all, starts_with}
use py2to3_example_project.Core.Strings.Lines.{
  quote, is_newline, after_newline, with_field, read_record, doubled, needs_quotes, csv_field,
  build_csv_line, at_start, plain, quoted, read_fields,
}

-- The text holds no such character.
abbrev pub lacks : ℕ → Str → Bool
lacks c s = all (λ d. not (d == c)) s

lacks-contains : (c : ℕ) (s : Str) → contains (c ∷ []) s ≡ false → lacks c s ≡ true
unfolding contains all starts_with
lacks-contains c [] h = refl
lacks-contains c (d ∷ s) h = ground (arith, lacks-contains c s)

-- No field holds a CR.
abbrev pub AllOneLine : List Str → Type 0
AllOneLine [] = Unit
AllOneLine (f ∷ fs) = (lacks 13 f ≡ true) × AllOneLine fs

-- What follows a field: nothing, the end of the line with the next lines, or a separator with the
-- other fields.
data Follow : Type 0 where
  nothing : Follow
  line_end more_fields : Str → Follow

after_newline_lem : (t : Str) → after_newline 10 t ≡ t
after_newline_lem [] = refl
after_newline_lem (d ∷ t) = refl

module _ (sep : ℕ) (other : (quote == sep) ≡ false) (inline : is_newline sep ≡ false) where
  abbrev rest_text : Follow → Str
  rest_text nothing = []
  rest_text (line_end t) = 10 ∷ t
  rest_text (more_fields r) = sep ∷ r

  abbrev rest_fields : Follow → List Str × Option Str
  rest_fields nothing = ([], none)
  rest_fields (line_end t) = ([], some t)
  rest_fields (more_fields r) = read_fields sep at_start [] r

  -- The separator is itself, and not the quote.
  itself : (sep == sep) ≡ true
  itself = (==_iff sep sep).1 refl

  no_quote : (sep == quote) ≡ false
  no_quote = ground arith

  ended :
      (field t : Str)
      → ◌≡◌ {A = List Str × Option Str}
          (field ∷ [], some (after_newline 10 t))
          ((field ++ []) ∷ [], some t)
  ended field t = λ i. (sym (append-nil field) i ∷ [], some (after_newline_lem t i))

  grown :
      (field : Str) (c : ℕ) (f : Str) (o : Follow)
      → with_field ((field ++ c ∷ []) ++ f) (rest_fields o)
        ≡ with_field (field ++ c ∷ f) (rest_fields o)
  grown field c f o = ap (λ x. with_field x (rest_fields o)) (append_assoc field (c ∷ []) f)

  plain-read :
      (field f : Str) (o : Follow)
      → lacks sep f ≡ true
      → lacks 10 f ≡ true
      → lacks 13 f ≡ true
      → read_fields sep plain field (f ++ rest_text o) ≡ with_field (field ++ f) (rest_fields o)
  unfolding read_fields all
  plain-read field [] nothing h l r = ap (λ x. (x ∷ [], none)) (sym (append-nil field))
  plain-read field [] (line_end t) h l r = ended field t
  plain-read field [] (more_fields t) h l r =
      rw (inline, itself)
        (ap (λ x. with_field x (read_fields sep at_start [] t)) (sym (append-nil field)))
  plain-read field (c ∷ f) o h l r =
      let differs : (c == sep) ≡ false = ground arith in
      let stays : is_newline c ≡ false = ground arith in
      rw (stays, differs)
        (plain-read (field ++ c ∷ []) f o (ground arith) (ground arith) (ground arith)
          ∙ grown field c f o)

  quoted-read :
      (field f : Str) (o : Follow)
      → read_fields sep quoted field (doubled f ++ quote ∷ rest_text o)
        ≡ with_field (field ++ f) (rest_fields o)
  unfolding read_fields doubled
  quoted-read field [] nothing = ap (λ x. (x ∷ [], none)) (sym (append-nil field))
  quoted-read field [] (line_end t) =
      let later : (10 == sep) ≡ false = ground arith in rw later (ended field t)
  quoted-read field [] (more_fields t) =
      rw (no_quote, itself)
        (ap (λ x. with_field x (read_fields sep at_start [] t)) (sym (append-nil field)))
  quoted-read field (c ∷ f) o = elim (Bool-cases (c == quote)) [
    | inl e ↦ rw e (
        quoted-read (field ++ quote ∷ []) f o
        ∙ grown field quote f o
        ∙ ap (λ d. with_field (field ++ d ∷ f) (rest_fields o)) (sym ((==_iff c quote).0 e)))
    | inr e ↦ rw (e, e) (quoted-read (field ++ c ∷ []) f o ∙ grown field c f o)
  ]

  -- A field without quotes, separators or ends of lines, at the start.
  bare-read :
      (f : Str) (o : Follow)
      → lacks sep f ≡ true
      → lacks quote f ≡ true
      → lacks 10 f ≡ true
      → lacks 13 f ≡ true
      → read_fields sep at_start [] (f ++ rest_text o) ≡ with_field f (rest_fields o)
  unfolding read_fields all
  bare-read [] nothing h k l r = refl
  bare-read [] (line_end t) h k l r = ended [] t
  bare-read [] (more_fields t) h k l r = rw (inline, no_quote, itself) refl
  bare-read (c ∷ f) o h k l r =
      let stays : is_newline c ≡ false = ground arith in
      let unquoted : (c == quote) ≡ false = ground arith in
      let differs : (c == sep) ≡ false = ground arith in
      rw (stays, unquoted, differs)
        (plain-read (c ∷ []) f o (ground arith) (ground arith) (ground arith))

  -- Whether a field is written in quotes.
  quoted_field :
      (f : Str)
      → needs_quotes (sep ∷ []) f ≡ true
      → csv_field (sep ∷ []) f ≡ quote ∷ (doubled f ++ quote ∷ [])
  unfolding csv_field
  quoted_field f e = rw e refl

  bare_field : (f : Str) → needs_quotes (sep ∷ []) f ≡ false → csv_field (sep ∷ []) f ≡ f
  unfolding csv_field
  bare_field f e = rw e refl

  bare-lacks :
      (f : Str)
      → needs_quotes (sep ∷ []) f ≡ false
      → (lacks sep f ≡ true) × (lacks quote f ≡ true) × (lacks 10 f ≡ true)
  bare-lacks f e =
      let no_sep : contains (sep ∷ []) f ≡ false = ground arith in
      let no_quotes : contains (quote ∷ []) f ≡ false = ground arith in
      let no_line : contains (10 ∷ []) f ≡ false = ground arith in
      (lacks-contains sep f no_sep, lacks-contains quote f no_quotes, lacks-contains 10 f no_line)

  csv_field-read :
      (f : Str) (o : Follow)
      → lacks 13 f ≡ true
      → read_fields sep at_start [] (csv_field (sep ∷ []) f ++ rest_text o)
        ≡ with_field f (rest_fields o)
  csv_field-read f o r = elim (Bool-cases (needs_quotes (sep ∷ []) f)) [
    | inl yes_quotes ↦
        ap (λ x. read_fields sep at_start [] (x ++ rest_text o)) (quoted_field f yes_quotes)
        ∙ ap (λ x. read_fields sep at_start [] (quote ∷ x))
            (append_assoc (doubled f) (quote ∷ []) (rest_text o))
        ∙ opened (doubled f ++ quote ∷ rest_text o)
        ∙ quoted-read [] f o
    | inr bare ↦
        let (no_sep, no_quotes, no_line) = bare-lacks f bare in
        ap (λ x. read_fields sep at_start [] (x ++ rest_text o)) (bare_field f bare)
        ∙ bare-read f o no_sep no_quotes no_line r
  ]
    where
      opened : (x : Str) → read_fields sep at_start [] (quote ∷ x) ≡ read_fields sep quoted [] x
      opened x = unfold read_fields in refl

  -- What follows the last field: the end of the text, or of the line.
  last : Option Str → Follow
  last none = nothing
  last (some t) = line_end t

  fields-read :
      (f : Str) (fs : List Str) (o : Option Str)
      → AllOneLine (f ∷ fs)
      → read_fields sep at_start [] (build_csv_line (sep ∷ []) (f ∷ fs) ++ rest_text (last o))
        ≡ (f ∷ fs, o)
  unfolding build_csv_line last
  fields-read f [] none h = csv_field-read f nothing h.0
  fields-read f [] (some t) h = csv_field-read f (line_end t) h.0
  fields-read f (g ∷ fs) o h =
      ap (λ x. read_fields sep at_start [] x)
        (append_assoc (csv_field (sep ∷ []) f) (sep ∷ build_csv_line (sep ∷ []) (g ∷ fs))
          (rest_text (last o)))
      ∙ csv_field-read f (more_fields (build_csv_line (sep ∷ []) (g ∷ fs) ++ rest_text (last o)))
          h.0
      ∙ ap (λ x. with_field f x) (fields-read g fs o h.1)

  -- The text starts, and not with the end of a line.
  abbrev Starts : Str → Type 0
  Starts [] = ⊥
  Starts (c ∷ s) = is_newline c ≡ false

  Starts-append : (s t : Str) → Starts s → Starts (s ++ t)
  Starts-append [] t h = absurd h
  Starts-append (c ∷ s) t h = h

  csv_field-Starts :
      (c : ℕ) (f : Str) → lacks 13 (c ∷ f) ≡ true → Starts (csv_field (sep ∷ []) (c ∷ f))
  unfolding all
  csv_field-Starts c f r = elim (Bool-cases (needs_quotes (sep ∷ []) (c ∷ f))) [
    | inl yes_quotes ↦ rw (quoted_field (c ∷ f) yes_quotes) refl
    | inr bare ↦
        let (no_sep, no_quotes, no_line) = bare-lacks (c ∷ f) bare in
        rw (bare_field (c ∷ f) bare) (ground arith)
  ]

  empty_field : csv_field (sep ∷ []) [] ≡ []
  unfolding csv_field contains starts_with
  empty_field = refl

  line-Starts :
      (f : Str) (fs : List Str)
      → AllOneLine (f ∷ fs)
      → f ∷ fs ≢ [] ∷ []
      → Starts (build_csv_line (sep ∷ []) (f ∷ fs))
  unfolding build_csv_line
  line-Starts [] [] h k = absurd (k refl)
  line-Starts (c ∷ f) [] h k = csv_field-Starts c f h.0
  line-Starts [] (g ∷ fs) h k =
      subst (λ x. Starts (x ++ sep ∷ build_csv_line (sep ∷ []) (g ∷ fs))) (sym empty_field) inline
  line-Starts (c ∷ f) (g ∷ fs) h k =
      Starts-append (csv_field (sep ∷ []) (c ∷ f)) (sep ∷ build_csv_line (sep ∷ []) (g ∷ fs))
        (csv_field-Starts c f h.0)

  read_record-Starts : (s : Str) → Starts s → read_record sep s ≡ read_fields sep at_start [] s
  unfolding read_record
  read_record-Starts [] h = absurd h
  read_record-Starts (c ∷ s) h = rw h refl

  -- Reading by the rules of CSV a text that starts with a line built from some fields gives back
  -- those fields, and then what comes after the LF that ends the line, or nothing where the text
  -- ends with the line. The separator is one character other than the quote, LF and CR, no field
  -- holds a CR, and the line is not the blank one of a single empty field.
  pub read_record-build_csv_line :
      (f : Str) (fs : List Str) (later : Str)
      → AllOneLine (f ∷ fs)
      → f ∷ fs ≢ [] ∷ []
      → (read_record sep (build_csv_line (sep ∷ []) (f ∷ fs)) ≡ (f ∷ fs, none))
        × (read_record sep (build_csv_line (sep ∷ []) (f ∷ fs) ++ 10 ∷ later)
            ≡ (f ∷ fs, some later))
  read_record-build_csv_line f fs later h k =
      let line = build_csv_line (sep ∷ []) (f ∷ fs) in
      let start : Starts line = line-Starts f fs h k in
      (
        read_record-Starts line start
            ∙ ap (λ x. read_fields sep at_start [] x) (sym (append-nil line))
            ∙ (unfold last in fields-read f fs none h),
        read_record-Starts (line ++ 10 ∷ later) (Starts-append line (10 ∷ later) start)
            ∙ (unfold last in fields-read f fs (some later) h),
      )
