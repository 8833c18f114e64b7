-- ===== src/Data/Analyzer/Tests.antt =====
-- Instances for src/data_processing/text_analyzer.py, where md5 leaves its input as it is.
use mathlib.Core.List.{Perm}
use py2to3_example_project.Prelude.{ℕ, ◌≡◌, ◌⊎◌, none, some, List, [], ◌∷◌, ◌&&◌, leb, ◌==◌, take}
use py2to3_example_project.Prelude.Text.{codes}
use py2to3_example_project.Prelude.Str.{Str, Str_discrete}
use py2to3_example_project.Prelude.Dict.{lookup, Distinct}
use py2to3_example_project.Data.Analyzer.Tokens.{Python, keyword_tokens}
use py2to3_example_project.Data.Analyzer.Keywords
use py2to3_example_project.Data.Analyzer.Keywords.{
  extract_keywords, IsRanked, occurrences, count_or_zero,
}
use py2to3_example_project.Data.Analyzer.Faults
use py2to3_example_project.Data.Analyzer.Faults.{
  Library, classify_fault, nothing_yet, Occurs, BeatsAll,
}
use py2to3_example_project.Data.Analyzer.Duplicates
use py2to3_example_project.Data.Analyzer.Duplicates.{deduplicate, AllFresh, AllCovered}

abbrev python : Python
python = record {
  is_word = λ c. leb 97 c && leb c 122;
  is_space = λ c. c == 32;
  lower = λ s. s;
  encode = λ s. s;
  md5 = λ bs. bs;
}

abbrev report : Str
report = codes "pump leaks and the pump vibrates"

abbrev note : Str
note = codes "pump leaks"

extract_keywords_lem_example :
    (freq : List (Str × ℕ)) × (all : List (Str × ℕ)) × (extract_keywords python report (some 2)
      ≡ take 2 all)
    × (extract_keywords python report none ≡ take 20 all)
    × IsRanked all
    × Perm all freq
    × Distinct Str_discrete freq
    × (count_or_zero (lookup Str_discrete (codes "pump") freq)
        ≡ occurrences (codes "pump") (keyword_tokens python report))
extract_keywords_lem_example = Keywords.extract_keywords_lem python report (codes "pump") 2

abbrev library : Library
library = (codes "leak", note ∷ []) ∷ (codes "noise", codes "bearing rattles" ∷ []) ∷ []

abbrev noise : Str × List Str
noise = (codes "noise", codes "bearing rattles" ∷ [])

abbrev given : Library
given = noise ∷ library

classify_fault_lem_example :
    ((classify_fault python report library (some given) ≡ nothing_yet)
      ⊎ Occurs python report (classify_fault python report library (some given)) given)
    × BeatsAll python report (classify_fault python report library (some given)).1 given
    × ((classify_fault python report library none ≡ nothing_yet)
        ⊎ Occurs python report (classify_fault python report library none) library)
    × BeatsAll python report (classify_fault python report library none).1 library
    × (classify_fault python report library (some []) ≡ classify_fault python report library none)
classify_fault_lem_example = Faults.classify_fault_lem python report library noise library

deduplicate_lem_example :
    AllFresh python [] (deduplicate python (note ∷ report ∷ note ∷ []))
    × AllCovered python []
        (deduplicate python (note ∷ report ∷ note ∷ []))
        (note ∷ report ∷ note ∷ [])
    × (deduplicate python (deduplicate python (note ∷ report ∷ note ∷ []))
        ≡ deduplicate python (note ∷ report ∷ note ∷ []))
deduplicate_lem_example = Duplicates.deduplicate_lem python (note ∷ report ∷ note ∷ [])
