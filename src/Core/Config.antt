-- ===== src/Core/Config.antt =====
-- src/core/config_loader.py: PlatformConfig over what configparser has read. The parser of the
-- standard library, the environment's interpolation and the texts' methods are arguments.
use Prim.Native.String.{String}
use py2to3_example_project.Prelude.{
  ◌≡◌, refl, ◌⊎◌, inl, inr, Bool, true, false, Option, none, some, List, [], ◌∷◌, arith,
  if◌then◌else◌, ite,
}
use py2to3_example_project.Prelude.Int.{ℤ, pos, ltb_ℤ, ◌≤ℤ◌}
use py2to3_example_project.Prelude.Text.{String_discrete}
use py2to3_example_project.Prelude.Dict.{lookup}

pub data Sections : Type 0 where
  parsed : List (String × List (String × String)) → Sections

-- The files that exist with what configparser reads from them, `_interpolate_env`, `int`,
-- `strip().lower()`, and `split` with `strip` of the items.
pub record Platform : Type 0 where
  pub file : String → Option Sections
  pub interpolate : String → String
  pub parse_int : String → Option ℤ
  pub lowered : String → String
  pub items_of : String → (separator : String) → List String

pub record PlatformConfig : Type 0 where
  pub sections : Sections
  pub path : Option String
  pub loaded : Bool

-- `sys.maxsize` on a platform of 64 bits.
abbrev pub default_max : ℤ
default_max = pos 9223372036854775807

unfoldable pub new_config : Option String → PlatformConfig
new_config config_path = record { sections = parsed []; path = config_path; loaded = false }

-- The first of some files that exists.
unfoldable pub search : Platform → PlatformConfig → List String → PlatformConfig
search host c [] = c
search host c (candidate ∷ rest) = elim (host.file candidate) [
  | none ↦ search host c rest
  | some sections ↦ record { sections = sections; path = some candidate; loaded = true }
]

-- The path that was given is tried before the search paths.
unfoldable pub load :
    Platform → (search_paths : List String) → PlatformConfig → Option String → PlatformConfig
unfolding search
load host search_paths c path =
    let c' : PlatformConfig = elim path [ none ↦ c | some p ↦ record c { path = some p } ] in
    elim c'.path [
      | none ↦ search host c' search_paths
      | some p ↦ elim (host.file p) [
        | none ↦ search host c' search_paths
        | some sections ↦ record c' { sections = sections; loaded = true }
      ]
    ]

-- `self._parser.get(section, key)`, none for a missing section or key.
unfoldable pub raw_value : Sections → (section key : String) → Option String
raw_value (parsed d) section key = elim (lookup String_discrete section d) [
  | none ↦ none
  | some entries ↦ lookup String_discrete key entries
]

unfoldable pub get : Platform → PlatformConfig → (section key : String) → Option String
unfolding raw_value
get host c section key = elim (raw_value c.sections section key) [
  | none ↦ none
  | some value ↦ some (host.interpolate value)
]

abbrev pub ceiling_of : Option ℤ → ℤ
ceiling_of none = default_max
ceiling_of (some m) = m

abbrev clamp : (ceiling value : ℤ) → ℤ
clamp ceiling value = if ltb_ℤ ceiling value then ceiling else value

unfoldable pub get_int :
    Platform → PlatformConfig → (section key : String) → (fallback : ℤ) → Option ℤ → ℤ
unfolding get
get_int host c section key fallback max_value = elim (get host c section key) [
  | none ↦ fallback
  | some raw ↦ elim (host.parse_int raw) [
    | none ↦ fallback
    | some value ↦ clamp (ceiling_of max_value) value
  ]
]

-- `in ("1", "true", "yes", "on")`
unfoldable pub is_on : String → Bool
is_on word = ite (String_discrete word "1") true (
    ite (String_discrete word "true") true
      (ite (String_discrete word "yes") true (ite (String_discrete word "on") true false)))

unfoldable pub get_bool : Platform → PlatformConfig → (section key : String) → Bool → Bool
unfolding get is_on
get_bool host c section key fallback = elim (get host c section key) [
  | none ↦ fallback
  | some raw ↦ is_on (host.lowered raw)
]

unfoldable pub get_list :
    Platform
    → PlatformConfig
    → (section key separator : String) → Option (List String)
    → List String
unfolding get
get_list host c section key separator fallback = elim (get host c section key) [
  | none ↦ elim fallback [ none ↦ [] | some items ↦ items ]
  | some raw ↦ host.items_of raw separator
]

-- The global configuration, before and after, and the one that is returned.
unfoldable pub load_platform_config :
    Platform
    → List String
    → Option PlatformConfig
    → Option String
    → Option PlatformConfig × PlatformConfig
unfolding load new_config
load_platform_config host search_paths global path = elim global [
  | some c ↦ (some c, c)
  | none ↦ let c = load host search_paths (new_config path) path in (some c, c)
]

clamp-le : (ceiling value : ℤ) → clamp ceiling value ≤ℤ ceiling
clamp-le ceiling value = ground arith

-- An integer from the configuration is the fallback, or at most the ceiling.
pub get_int_bounded :
    (host : Platform) (c : PlatformConfig) (section key : String) (fallback : ℤ)
    (max_value : Option ℤ)
    → (get_int host c section key fallback max_value ≡ fallback)
      ⊎ (get_int host c section key fallback max_value ≤ℤ ceiling_of max_value)
unfolding get_int
get_int_bounded host c section key fallback max_value = by_raw (get host c section key) refl
  where
    by_raw :
        (o : Option String)
        → get host c section key ≡ o
        → (get_int host c section key fallback max_value ≡ fallback)
          ⊎ (get_int host c section key fallback max_value ≤ℤ ceiling_of max_value)
    by_raw none e = inl (rw (e, get_int) refl)
    by_raw (some raw) e = by_number (host.parse_int raw) refl
      where
        by_number :
            (o : Option ℤ)
            → host.parse_int raw ≡ o
            → (get_int host c section key fallback max_value ≡ fallback)
              ⊎ (get_int host c section key fallback max_value ≤ℤ ceiling_of max_value)
        by_number none q = inl (rw (e, q, get_int) refl)
        by_number (some value) q = inr (rw (e, q, get_int) (clamp-le (ceiling_of max_value) value))

-- The first load decides: whatever path a later one names, it returns the same configuration and
-- keeps it.
pub load_platform_config_once :
    (host : Platform) (search_paths : List String) (first second : Option String)
    (global : Option PlatformConfig)
    → load_platform_config host search_paths
        (load_platform_config host search_paths global first).0
        second
      ≡ load_platform_config host search_paths global first
unfolding load_platform_config
load_platform_config_once host search_paths first second none = refl
load_platform_config_once host search_paths first second (some c) = refl
