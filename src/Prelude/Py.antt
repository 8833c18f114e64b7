-- ===== src/Prelude/Py.antt =====
-- Python's exceptions and byte strings.
use py2to3_example_project.Prelude.{ℕ, List, [], ◌∷◌}

-- The exceptions that the modelled code raises or meets: Python's own, and those of
-- src/core/exceptions.py.
pub data Exc : Type 0 where
  type_error value_error key_error index_error zero_division struct_error stop_iteration : Exc
  runtime_error attribute_error os_error unicode_error other_error : Exc
  platform_error protocol_error modbus_error serial_error mqtt_error opcua_error : Exc
  data_error encoding_error parse_error validation_error : Exc
  storage_error database_error cache_error : Exc

-- How a call ends: with a value, or with an exception.
pub data Result {ℓ} (A : Type ℓ) : Type ℓ where
  ok : (result : A) → Result A
  raise : (exception : Exc) → Result A

-- What follows a call runs only if the call has not raised.
infixl 5 ◌>>=◌
abbrev pub ◌>>=◌ {ℓ m} : {A : Type ℓ} {B : Type m} → Result A → (A → Result B) → Result B
raise e >>= after = raise e
ok x >>= after = after x

-- A byte string or a text, with its elements' codes.
pub data Raw : Type 0 where
  bytes : List ℕ → Raw
  text : List ℕ → Raw

abbrev pub elements : Raw → List ℕ
elements (bytes cs) = cs
elements (text cs) = cs

-- `[ord(b) for b in raw]`: an element of `bytes` is an int, on which `ord` raises TypeError.
unfoldable pub ords : Raw → Result (List ℕ)
ords (text cs) = ok cs
ords (bytes []) = ok []
ords (bytes (c ∷ cs)) = raise type_error
