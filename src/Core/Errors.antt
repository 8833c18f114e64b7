-- ===== src/Core/Errors.antt =====
-- src/core/exceptions.py: which exceptions descend from which, and the two wrappers. A call is its
-- result or the exception that it raises.
use py2to3_example_project.Prelude.{◌≡◌, refl, Bool, true, false, arith, if◌then◌else◌}
use py2to3_example_project.Prelude.Py.{
  Exc, Result, ok, raise, platform_error, protocol_error, modbus_error, serial_error, mqtt_error,
  opcua_error, data_error, encoding_error, parse_error, validation_error, storage_error,
  database_error, cache_error,
}

-- `isinstance(e, ProtocolError)`
unfoldable pub is_protocol : Exc → Bool
is_protocol protocol_error = true
is_protocol modbus_error = true
is_protocol serial_error = true
is_protocol mqtt_error = true
is_protocol opcua_error = true
is_protocol _ = false

unfoldable pub is_data : Exc → Bool
is_data data_error = true
is_data encoding_error = true
is_data parse_error = true
is_data validation_error = true
is_data _ = false

unfoldable pub is_storage : Exc → Bool
is_storage storage_error = true
is_storage database_error = true
is_storage cache_error = true
is_storage _ = false

-- `isinstance(e, PlatformError)`
unfoldable pub is_platform : Exc → Bool
unfolding is_protocol is_data is_storage
is_platform platform_error = true
is_platform e = if is_protocol e then true else if is_data e then true else is_storage e

unfoldable pub safe_execute {ℓ} : {A : Type ℓ} → Result A → Result A
unfolding is_platform
safe_execute (ok a) = ok a
safe_execute (raise e) = if is_platform e then raise e else raise platform_error

-- Environment errors and all others become a ProtocolError, with different messages.
unfoldable pub wrap_protocol_error {ℓ} : {A : Type ℓ} → Result A → Result A
unfolding is_protocol
wrap_protocol_error (ok a) = ok a
wrap_protocol_error (raise e) = if is_protocol e then raise e else raise protocol_error

-- A wrapped call returns what the call returns. What it raises is a platform error, and if the call
-- raised one, the same.
pub safe_execute_lem :
    {A : Type 0} (r : Result A)
    → ((a : A) → r ≡ ok a → safe_execute r ≡ ok a)
      × ((e : Exc) → r ≡ raise e → is_platform e ≡ true → safe_execute r ≡ raise e)
      × ((e : Exc) → safe_execute r ≡ raise e → is_platform e ≡ true)
unfolding safe_execute is_platform
safe_execute_lem (ok a) = ((λ b q. ground arith), (λ e q p. ground arith), λ e q. ground arith)
safe_execute_lem (raise x) = ((λ b q. ground arith), (λ e q p. ground arith), λ e q. ground arith)

-- The wrapper for protocols lets only protocol errors out, so that the general wrapper around it
-- changes nothing; the other way round a platform error of another kind becomes a protocol error.
pub wrap_protocol_error_lem :
    {A : Type 0} (r : Result A)
    → ((e : Exc) → wrap_protocol_error r ≡ raise e → is_protocol e ≡ true)
      × (safe_execute (wrap_protocol_error r) ≡ wrap_protocol_error r)
      × ((e : Exc)
          → r ≡ raise e
          → is_protocol e ≡ false
          → wrap_protocol_error (safe_execute r) ≡ raise protocol_error)
unfolding safe_execute wrap_protocol_error is_platform is_protocol
wrap_protocol_error_lem (ok a) = ((λ e q. ground arith), refl, λ e q p. ground arith)
wrap_protocol_error_lem (raise x) = ((λ e q. ground arith), ground arith, λ e q p. ground arith)
