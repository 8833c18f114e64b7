-- ===== src/Prelude/Text.antt =====
-- Texts as native strings, compared whole (keys, names, tags), and as lists of code points.
use Prim.Native.Char.{code}
use Prim.Native.String.{String}
use text.Mathlib.Text.{◌==◌ as str_eq}
use text.Mathlib.TextEquality.{eq_iff}
use py2to3_example_project.Prelude.{ℕ, ◌≡◌, Bool, true, false, List, [], ◌∷◌, arith}

abbrev pub codes : String → List ℕ
codes String.[] = []
codes (String.◌∷◌ c s) = code c ∷ codes s

dec_of_test : (a b : String) (t : Bool) → str_eq a b ≡ t → Dec (a ≡ b)
dec_of_test a b true h = yes ((eq_iff a b).0 h)
dec_of_test a b false h = no (λ e. ground (arith, eq_iff a b))

unfoldable pub String_discrete : Discrete String
unfolding dec_of_test
String_discrete a b = dec_of_test a b (str_eq a b) (λ i. str_eq a b)
