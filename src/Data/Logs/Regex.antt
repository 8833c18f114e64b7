-- ===== src/Data/Logs/Regex.antt =====
-- The patterns of src/data_processing/log_parser.py as backtracking matchers. A matcher gets what
-- follows it, the text, and the groups so far; it tries its ways in the order of `re`.
use py2to3_example_project.Prelude.{
  ℕ, zero, suc, ◌-◌, Bool, Option, none, some, List, [], ◌∷◌, ◌++◌, ◌==◌, if◌then◌else◌, length,
  take, not,
}
use py2to3_example_project.Prelude.Text.{codes}
use py2to3_example_project.Prelude.Str.{Str}

-- The groups of a match; none for a group that took no part.
abbrev pub Groups : Type 0
Groups = List (Option Str)

abbrev pub Rest : Type 0
Rest = Str → Groups → Option Groups

abbrev pub Matcher : Type 0
Matcher = Rest → Rest

abbrev pub first : Option Groups → Option Groups → Option Groups
first none other = other
first (some g) other = some g

-- `[…]`
unfoldable pub one : (ℕ → Bool) → Matcher
one test rest [] g = none
one test rest (c ∷ s) g = if test c then rest s g else none

-- `[…]+`: as many as there are, then fewer.
unfoldable pub plus : (ℕ → Bool) → Matcher
plus test rest [] g = none
plus test rest (c ∷ s) g = if test c then first (plus test rest s g) (rest s g) else none

-- `[…]+?`: one, then more.
unfoldable pub plus_lazy : (ℕ → Bool) → Matcher
plus_lazy test rest [] g = none
plus_lazy test rest (c ∷ s) g = if test c then first (rest s g) (plus_lazy test rest s g) else none

-- `[…]*`
unfoldable pub star : (ℕ → Bool) → Matcher
unfolding plus
star test rest s g = first (plus test rest s g) (rest s g)

infixr 40 ◌then_match◌
abbrev pub ◌then_match◌ : Matcher → Matcher → Matcher
(m then_match n) rest = m (n rest)

abbrev pub either : Matcher → Matcher → Matcher
either m n rest s g = first (m rest s g) (n rest s g)

unfoldable pub times : ℕ → (ℕ → Bool) → Matcher
unfolding one
times zero test rest = rest
times (suc n) test rest = one test (times n test rest)

unfoldable pub literal : Str → Matcher
unfolding one
literal [] rest = rest
literal (c ∷ cs) rest = one (λ d. d == c) (literal cs rest)

-- `(…)`
unfoldable pub group : Matcher → Matcher
group m rest s g = m (λ s' g'. rest s' (g' ++ some (take (length s - length s') s) ∷ [])) s g

-- `(?:…)?` around one group.
unfoldable pub optional : Matcher → Matcher
optional m rest s g = first (m rest s g) (rest s (g ++ none ∷ []))

-- `$`
unfoldable pub at_end : Matcher
at_end rest [] g = rest [] g
at_end rest (c ∷ []) g = if c == 10 then rest (c ∷ []) g else none
at_end rest (c ∷ d ∷ s) g = none

-- `.`
abbrev pub any : ℕ → Bool
any c = not (c == 10)

abbrev pub match : Matcher → Str → Option Groups
match m s = m (λ s' g. some g) s []

-- The classes `\w`, `\s` and `\d`.
pub record Classes : Type 0 where
  pub is_word : ℕ → Bool
  pub is_space : ℕ → Bool
  pub is_digit : ℕ → Bool

abbrev pub not_bar : ℕ → Bool
not_bar c = not (c == b'|')

-- `[^|]+` in a group, and a bar.
abbrev pub bar_field : Matcher
bar_field = group (plus not_bar) then_match literal (b'|' ∷ [])

unfoldable pub scada_event_pattern : Matcher
unfolding literal group plus star at_end
scada_event_pattern =
    literal (codes "EVENT|")
    then_match bar_field
    then_match bar_field
    then_match bar_field
    then_match bar_field
    then_match group (star any)
    then_match at_end

module _ (c : Classes) where
  -- `\d{2}:\d{2}:\d{2}`
  abbrev clock : Matcher
  clock =
      times 2 c.is_digit
      then_match literal (codes ":")
      then_match times 2 c.is_digit
      then_match literal (codes ":")
      then_match times 2 c.is_digit

  abbrev not_space : ℕ → Bool
  not_space d = not (c.is_space d)

  unfoldable pub syslog_pattern : Matcher
  unfolding literal group plus plus_lazy star at_end times optional
  syslog_pattern =
      group (
        times 3 c.is_word
        then_match plus c.is_space
        then_match either (times 2 c.is_digit) (times 1 c.is_digit)
        then_match plus c.is_space
        then_match clock)
      then_match plus c.is_space
      then_match group (plus not_space)
      then_match plus c.is_space
      then_match group (plus_lazy not_space)
      then_match optional
          (literal (codes "[") then_match group (plus c.is_digit) then_match literal (codes "]"))
      then_match literal (codes ":")
      then_match plus c.is_space
      then_match group (star any)
      then_match at_end

  unfoldable pub applog_pattern : Matcher
  unfolding literal group plus star at_end times
  applog_pattern =
      group (
        times 4 c.is_digit
        then_match literal (codes "-")
        then_match times 2 c.is_digit
        then_match literal (codes "-")
        then_match times 2 c.is_digit
        then_match plus c.is_space
        then_match clock
        then_match literal (codes ".")
        then_match times 3 c.is_digit)
      then_match plus c.is_space
      then_match group (plus c.is_word)
      then_match plus c.is_space
      then_match literal (codes "[")
      then_match group (plus (λ d. not (d == b']')))
      then_match literal (codes "]")
      then_match plus c.is_space
      then_match group (star any)
      then_match at_end
