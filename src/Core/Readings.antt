-- ===== src/Core/Readings.antt =====
-- src/core/types.py: the decoders of sensor readings.
use py2to3_example_project.Prelude.{
  ℕ, ◌%◌, ◌/◌, Option, none, some, length, take, leb, ◌==◌, if◌then◌else◌,
}
use py2to3_example_project.Prelude.Int.{ℤ}
use py2to3_example_project.Prelude.Py.{Raw, bytes, text, elements, Result, ok, raise, type_error}
use py2to3_example_project.Prelude.Struct.{big_endian, signed}

-- What a reading decodes to. A temperature is in tenths of a degree, and an amplitude in
-- hundredths; `float32` keeps the bits of a flow.
pub data Reading : Type 0 where
  temperature : ℤ → Reading
  pressure : ℕ → Reading
  float32 : ℕ → Reading
  vibration : (frequency amplitude : ℕ) → Reading

-- `struct.unpack` of the first `n` bytes; it refuses a text.
unpack_first : ℕ → Raw → Result (Option ℕ)
unpack_first n raw =
    if leb n (length (elements raw))
    then elim raw [ text cs ↦ raise type_error | bytes cs ↦ ok (some (big_endian 0 (take n cs))) ]
    else ok none

abbrev with_number : Result (Option ℕ) → (ℕ → Reading) → Result (Option Reading)
with_number (raise e) f = raise e
with_number (ok none) f = ok none
with_number (ok (some n)) f = ok (some (f n))

unfoldable pub decode_temperature : Raw → Result (Option Reading)
unfolding unpack_first
decode_temperature raw = with_number (unpack_first 2 raw) (λ n. temperature (signed 32768 n))

unfoldable pub decode_pressure : Raw → Result (Option Reading)
unfolding unpack_first
decode_pressure raw = with_number (unpack_first 4 raw) pressure

unfoldable pub decode_flow : Raw → Result (Option Reading)
unfolding unpack_first
decode_flow raw = with_number (unpack_first 4 raw) float32

unfoldable pub decode_vibration : Raw → Result (Option Reading)
unfolding unpack_first
decode_vibration raw = with_number (unpack_first 4 raw) (λ n. vibration (n / 65536) (n % 65536))

-- `get_sensor_class` and the decoder of the class; a missing type is a KeyError.
unfoldable pub decode_as : ℕ → Option (Raw → Result (Option Reading))
unfolding decode_temperature decode_pressure decode_flow decode_vibration
decode_as sensor_type =
    if sensor_type == 1
    then some decode_temperature
    else if sensor_type == 2
    then some decode_pressure
    else if sensor_type == 3
    then some decode_flow
    else if sensor_type == 4
    then some decode_vibration
    else none
