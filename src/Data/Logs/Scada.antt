-- ===== src/Data/Logs/Scada.antt =====
-- The SCADA event pattern of src/data_processing/log_parser.py against the lines that it is for.
use py2to3_example_project.Prelude.{
  ℕ, ◌≡◌, refl, ap, ◌∙◌, Bool, true, false, Option, none, some, [], ◌∷◌, ◌++◌, arith,
}
use py2to3_example_project.Prelude.Text.{codes}
use py2to3_example_project.Prelude.Str.{Str, all, take_prefix, take_whole}
use py2to3_example_project.Data.Logs.Entry.{new_entry, scada_event}
use py2to3_example_project.Data.Logs.Parser.{
  Python, scada_entry, parse_scada_event, parse_applog_timestamp,
}
use py2to3_example_project.Data.Logs.Regex.{
  Groups, Rest, plus, star, literal, first, group, at_end, match, any, not_bar, bar_field,
  scada_event_pattern, one, ◌then_match◌,
}

-- A greedy run takes a text whose items pass, up to an item that does not.
plus-append :
    (test : ℕ → Bool) (rest : Rest) (c d : ℕ) (f s : Str) (g r : Groups)
    → test c ≡ true
    → all test f ≡ true
    → test d ≡ false
    → rest (d ∷ s) g ≡ some r
    → plus test rest ((c ∷ f) ++ d ∷ s) g ≡ some r
unfolding plus all
plus-append test rest c d [] s g r h a b e = rw (h, b, e)
plus-append test rest c d (c' ∷ f) s g r h a b e =
    let ih = plus-append test rest c' d f s g r (ground arith) (ground arith) b e in rw (h, ih)

-- To the end of the text.
plus_end :
    (test : ℕ → Bool) (rest : Rest) (c : ℕ) (f : Str) (g r : Groups)
    → test c ≡ true
    → all test f ≡ true
    → rest [] g ≡ some r
    → plus test rest (c ∷ f) g ≡ some r
unfolding plus all
plus_end test rest c [] g r h a e = rw (h, e)
plus_end test rest c (c' ∷ f) g r h a e =
    let ih = plus_end test rest c' f g r (ground arith) (ground arith) e in rw (h, ih)

star-first :
    (test : ℕ → Bool) (rest : Rest) (f : Str) (g : Groups)
    → star test rest f g ≡ first (plus test rest f g) (rest f g)
unfolding star
star-first test rest f g = refl

star_nil : (test : ℕ → Bool) (rest : Rest) (g : Groups) → star test rest [] g ≡ rest [] g
unfolding star
star_nil test rest g = refl

star_end :
    (test : ℕ → Bool) (rest : Rest) (f : Str) (g r : Groups)
    → all test f ≡ true
    → rest [] g ≡ some r
    → star test rest f g ≡ some r
unfolding all
star_end test rest [] g r a e = star_nil test rest g ∙ e
star_end test rest (c ∷ f) g r a e =
    let run = plus_end test rest c f g r (ground arith) (ground arith) e in
    star-first test rest (c ∷ f) g ∙ ap (λ o. first o (rest (c ∷ f) g)) run

bar_field_lem :
    (rest : Rest) (c : ℕ) (f s : Str) (g r : Groups)
    → not_bar c ≡ true
    → all not_bar f ≡ true
    → rest s (g ++ some (c ∷ f) ∷ []) ≡ some r
    → bar_field rest ((c ∷ f) ++ b'|' ∷ s) g ≡ some r
unfolding group literal one
bar_field_lem rest c f s g r h a e =
    plus-append not_bar _ c b'|' f s g r h a refl (rw (take_prefix (c ∷ f) (b'|' ∷ s)) e)

message_field :
    (f : Str) (g : Groups)
    → all any f ≡ true
    → (group (star any) then_match at_end) (λ s' h. some h) f g ≡ some (g ++ some f ∷ [])
unfolding group at_end
message_field f g a =
    star_end any _ f g _ a (ap (λ (m : Str). some (g ++ some m ∷ [])) (take_whole f))

-- A line of the SCADA system. A field is given by its first item and the others.
abbrev pub Field : Type 0
Field = ℕ × Str

abbrev pub field_text : Field → Str
field_text f = f.0 ∷ f.1

-- The field holds no bar.
abbrev pub IsBare : Field → Type 0
IsBare f = (not_bar f.0 ≡ true) × (all not_bar f.1 ≡ true)

abbrev pub scada_line : (timestamp severity area point : Field) → (description : Str) → Str
scada_line timestamp severity area point description =
    codes "EVENT|"
    ++ (field_text timestamp
        ++ b'|'
          ∷ (field_text severity
              ++ b'|' ∷ (field_text area ++ b'|' ∷ (field_text point ++ b'|' ∷ description))))

match-scada_line :
    (t v a p : Field) (description : Str)
    → IsBare t
    → IsBare v
    → IsBare a
    → IsBare p
    → all any description ≡ true
    → match scada_event_pattern (scada_line t v a p description)
      ≡ some (
          some (field_text t)
          ∷ some (field_text v)
          ∷ some (field_text a)
          ∷ some (field_text p)
          ∷ some description
          ∷ [])
unfolding scada_event_pattern
match-scada_line t v a p description ht hv ha hp hd = bar_field_lem _ t.0 t.1 _ [] _ ht.0 ht.1 (
    bar_field_lem _ v.0 v.1 _ _ _ hv.0 hv.1 (
      bar_field_lem _ a.0 a.1 _ _ _ ha.0 ha.1
        (bar_field_lem _ p.0 p.1 _ _ _ hp.0 hp.1 (message_field description _ hd))))

-- A line of an event whose four fields are not empty and hold no bar, with a description on one
-- line, is parsed to the entry of these fields, its level in capitals and its time read from the
-- first field.
pub parse_scada_event-scada_line :
    (py : Python) (n : ℕ) (t v a p : Field) (description : Str)
    → IsBare t
    → IsBare v
    → IsBare a
    → IsBare p
    → all any description ≡ true
    → parse_scada_event py (scada_line t v a p description) n
      ≡ some (record new_entry {
        line_number = n;
        source_format = some scada_event;
        timestamp_raw = field_text t;
        level = py.upper (field_text v);
        module_name = field_text a;
        process = field_text p;
        message = description;
        timestamp_epoch = parse_applog_timestamp py (field_text t);
      })
unfolding parse_scada_event
parse_scada_event-scada_line py n t v a p description ht hv ha hp hd =
    ap (λ (o : Option Groups). elim o [ none ↦ none | some groups ↦ scada_entry py n groups ])
      (match-scada_line t v a p description ht hv ha hp hd)
