-- ===== src/Core/Tests.antt =====
-- Tests and instances for src/core.
use mathlib.Core.List.{flatten}
use py2to3_example_project.Prelude.{
  true, ℕ, ◌+◌, ◌-◌, ◌≤◌, ◌≡◌, refl, none, some, List, [], ◌∷◌, arith, length, take, drop,
  get_elem?, ℕ_discrete,
}
use py2to3_example_project.Prelude.Dict
use py2to3_example_project.Prelude.Dict.{lookup, has_key, Distinct}
use py2to3_example_project.Prelude.Py.{ok, raise}
use py2to3_example_project.Core.Itertools.{
  batch_readings, AreBatches, batch_readings_lem, sliding_window, sliding_window_lem,
  changed_values,
}
use Prim.Native.String.{String}
use py2to3_example_project.Core.Types.{DataPoint}
use py2to3_example_project.Prelude.Int.{pos}
use py2to3_example_project.Prelude.Py.{Result, os_error}
use py2to3_example_project.Core.Utils.Dicts.{Nested, leaf, dict, nil, entry}
use py2to3_example_project.Core.Config.{Platform, PlatformConfig, parsed}

abbrev readings : List ℕ
readings = 3 ∷ 1 ∷ 4 ∷ 1 ∷ 5 ∷ []

batches_of_two : batch_readings readings 2 ≡ some ((3 ∷ 1 ∷ []) ∷ (4 ∷ 1 ∷ []) ∷ (5 ∷ []) ∷ [])
unfolding batch_readings
batches_of_two = refl

batch_readings_lem_example :
    (bs : List (List ℕ)) × (batch_readings readings 2 ≡ some bs)
    × (flatten bs ≡ readings)
    × AreBatches 2 bs
batch_readings_lem_example = batch_readings_lem readings 2 (omega arith)

windows_of_three :
    sliding_window readings 3 ≡ ok ((3 ∷ 1 ∷ 4 ∷ []) ∷ (1 ∷ 4 ∷ 1 ∷ []) ∷ (4 ∷ 1 ∷ 5 ∷ []) ∷ [])
unfolding sliding_window
windows_of_three = refl

sliding_window_lem_example :
    (ws : List (List ℕ)) × (sliding_window readings 3 ≡ ok ws)
    × (length ws ≡ length readings - 3 + 1)
    × ((i : ℕ) → i + 3 ≤ length readings → get_elem? ws i ≡ some (take 3 (drop i readings)))
sliding_window_lem_example = sliding_window_lem readings 3 (omega arith)

abbrev old_config : List (ℕ × ℕ)
old_config = (1, 10) ∷ (2, 20) ∷ []

abbrev new_config : List (ℕ × ℕ)
new_config = (2, 21) ∷ (3, 30) ∷ []

changed_once :
    changed_values ℕ_discrete ℕ_discrete old_config new_config ≡ (2, (some 20, some 21)) ∷ []
unfolding changed_values ℕ_discrete lookup Dict.insert
changed_once = refl

abbrev point : String → (timestamp : ℕ) → DataPoint ℕ
point tag t = record { tag = tag; value = 1; timestamp = t; quality = 192 }

abbrev failed_call : Result ℕ
failed_call = raise os_error

abbrev nested : Nested ℕ
nested = dict (entry "plant" (dict (entry "port" (leaf 502) nil)) nil)

abbrev sources : List (List (String × ℕ))
sources = (("a", 1) ∷ []) ∷ (("__override__", 0) ∷ []) ∷ []

abbrev platform : Platform
platform = record {
  file = λ p. none;
  interpolate = λ v. v;
  parse_int = λ v. some (pos 70000);
  lowered = λ v. v;
  items_of = λ v s. v ∷ [];
}

abbrev config : PlatformConfig
config = record {
  sections = parsed (("modbus", ("port", "70000") ∷ []) ∷ []);
  path = none;
  loaded = true;
}
