-- ===== src/Core/Strings/Tests.antt =====
-- Tests and an instance for src/core/string_helpers.py.
use py2to3_example_project.Prelude.{arith, ◌≡◌, refl, ◌++◌, none, some, [], ◌∷◌}
use py2to3_example_project.Prelude.Str.{all}
use py2to3_example_project.Prelude.Text.{codes}
use py2to3_example_project.Core.Strings.Lines.{build_csv_line, read_record}
use py2to3_example_project.Core.Strings.Split

quoted_line :
    build_csv_line (codes ",") (codes "a,b" ∷ codes "say \"no\"" ∷ codes "c" ∷ [])
    ≡ codes "\"a,b\",\"say \"\"no\"\"\",c"
unfolding build_csv_line
quoted_line = refl

read_record-build_csv_line_example :
    (read_record b',' (build_csv_line (b',' ∷ []) (codes "a,b" ∷ (110 ∷ 10 ∷ 111 ∷ []) ∷ [] ∷ []))
      ≡ (codes "a,b" ∷ (110 ∷ 10 ∷ 111 ∷ []) ∷ [] ∷ [], none))
    × (read_record b',' (
          build_csv_line (b',' ∷ []) (codes "a,b" ∷ (110 ∷ 10 ∷ 111 ∷ []) ∷ [] ∷ [])
          ++ 10 ∷ codes "c,d")
        ≡ (codes "a,b" ∷ (110 ∷ 10 ∷ 111 ∷ []) ∷ [] ∷ [], some (codes "c,d")))
unfolding all
read_record-build_csv_line_example =
    Split.read_record-build_csv_line b',' refl refl (codes "a,b") ((110 ∷ 10 ∷ 111 ∷ []) ∷ [] ∷ [])
      (codes "c,d") (refl, (refl, (refl, tt))) (λ e. ground arith)

-- A field with a CR is written without quotes, and its line ends there.
cr_ends :
    read_record b',' (build_csv_line (b',' ∷ []) ((110 ∷ 13 ∷ 111 ∷ []) ∷ codes "x" ∷ []))
    ≡ ((110 ∷ []) ∷ [], some (codes "o,x"))
unfolding read_record build_csv_line
cr_ends = refl
