-- ===== src/Error.antt =====
-- error/mod.rs: the engine's error type. A message is the format string of the source with the
-- values that the source puts in; texts are byte lists.
pub mod Structured
use dart_odbc_fast.Prelude.{ℕ, String, List, Result}
use dart_odbc_fast.Prelude.Int.{ℤ}
use dart_odbc_fast.Wire.{Bytes}

pub data Arg : Type 0 where
  num : ℕ → Arg
  text : Bytes → Arg
  str : String → Arg

pub data Message : Type 0 where
  format : String → List Arg → Message

pub data OdbcError : Type 0 where
  odbc_api : Message → OdbcError
  invalid_handle : ℕ → OdbcError
  empty_connection_string : OdbcError
  environment_not_initialized : OdbcError
  structured : Bytes → ℤ → Message → OdbcError
  pool_error : Message → OdbcError
  internal_error : Message → OdbcError
  validation_error : Message → OdbcError
  unsupported_feature : Message → OdbcError
  no_more_results : OdbcError
  malformed_payload : Message → OdbcError
  rollback_failed : Message → OdbcError
  resource_limit_reached : Message → OdbcError
  cancelled : OdbcError
  worker_crashed : Message → OdbcError
  bulk_partial_failure : ℕ → ℕ → Message → OdbcError

-- `error::Result<T>`
abbrev pub OdbcResult {ℓ} : Type ℓ → Type ℓ
OdbcResult A = Result OdbcError A

-- `OdbcError::ValidationError(format!(…))`
abbrev pub invalid : String → List Arg → OdbcError
invalid s args = validation_error (format s args)
