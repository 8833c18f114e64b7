-- ===== src/Core/Strings/Lines.antt =====
-- build_csv_line of src/core/string_helpers.py, and the rules of CSV by which a line is read.
use py2to3_example_project.Prelude.{
  ℕ, Bool, ◌||◌, ◌&&◌, Option, none, some, List, [], ◌∷◌, ◌++◌, ◌==◌, if◌then◌else◌,
}
use py2to3_example_project.Prelude.Str.{Str, contains}

-- `"`
abbrev pub quote : ℕ
quote = 34

-- `text.replace('"', '""')`
unfoldable pub doubled : Str → Str
doubled [] = []
doubled (c ∷ s) = let rest = doubled s in if c == quote then quote ∷ quote ∷ rest else c ∷ rest

abbrev pub needs_quotes : (separator : Str) → Str → Bool
needs_quotes separator s = contains separator s || contains (quote ∷ []) s || contains (10 ∷ []) s

unfoldable pub csv_field : (separator : Str) → Str → Str
unfolding doubled contains
csv_field separator s = if needs_quotes separator s then quote ∷ (doubled s ++ quote ∷ []) else s

-- `separator.join(…)` of the fields, which are texts already.
unfoldable pub build_csv_line : (separator : Str) → (fields : List Str) → Str
unfolding csv_field
build_csv_line separator [] = []
build_csv_line separator (f ∷ []) = csv_field separator f
build_csv_line separator (f ∷ g ∷ fs) =
    csv_field separator f ++ (separator ++ build_csv_line separator (g ∷ fs))

-- Where a reader of CSV stands in a record, as csv.reader of Python has it.
pub data Mode : Type 0 where
  at_start plain quoted quote_seen : Mode

-- LF or CR.
abbrev pub is_newline : ℕ → Bool
is_newline c = c == 10 || c == 13

-- What comes after the end of a line that starts with this character: CR LF is one end.
abbrev pub after_newline : (c : ℕ) → Str → Str
after_newline c [] = []
after_newline c (d ∷ s) = if c == 13 && d == 10 then s else d ∷ s

abbrev pub with_field : (field : Str) → List Str × Option Str → List Str × Option Str
with_field field (fields, rest) = (field ∷ fields, rest)

-- The fields of the first record, and the text after the end of its line; `field` is what has been
-- read of the present one. Within quotes an end of a line is a part of the field.
unfoldable pub read_fields : (separator : ℕ) → Mode → (field : Str) → Str → List Str × Option Str
read_fields sep m field [] = (field ∷ [], none)
read_fields sep at_start field (c ∷ s) =
    let open_quotes = read_fields sep quoted field s in
    let next = with_field field (read_fields sep at_start [] s) in
    let more = read_fields sep plain (field ++ c ∷ []) s in
    if is_newline c
    then (field ∷ [], some (after_newline c s))
    else if c == quote
    then open_quotes
    else if c == sep
    then next
    else more
read_fields sep plain field (c ∷ s) =
    let next = with_field field (read_fields sep at_start [] s) in
    let more = read_fields sep plain (field ++ c ∷ []) s in
    if is_newline c then (field ∷ [], some (after_newline c s)) else if c == sep then next else more
read_fields sep quoted field (c ∷ s) =
    let closing = read_fields sep quote_seen field s in
    let more = read_fields sep quoted (field ++ c ∷ []) s in if c == quote then closing else more
read_fields sep quote_seen field (c ∷ s) =
    let again = read_fields sep quoted (field ++ quote ∷ []) s in
    let next = with_field field (read_fields sep at_start [] s) in
    let more = read_fields sep plain (field ++ c ∷ []) s in
    if c == quote
    then again
    else if c == sep
    then next
    else if is_newline c
    then (field ∷ [], some (after_newline c s))
    else more

-- The first record of a text: a blank line is a record without fields.
unfoldable pub read_record : (separator : ℕ) → Str → List Str × Option Str
unfolding read_fields
read_record sep [] = ([], none)
read_record sep (c ∷ s) =
    let fields = read_fields sep at_start [] (c ∷ s) in
    if is_newline c then ([], some (after_newline c s)) else fields
