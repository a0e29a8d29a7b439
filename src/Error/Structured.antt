-- ===== src/Error/Structured.antt =====
-- error/mod.rs: the structured form of an error, and its wire format.
pub mod Laws
mod Tests
use dart_odbc_fast.Prelude.{
  ℕ, ◌+◌, ◌%◌, ◌^◌, ltb, if◌then◌else◌, Bool, true, false, List, [], ◌∷◌, ◌++◌, length, take, drop,
  Option, none, some, ◌==◌, ◌&&◌, ◌||◌,
}
use dart_odbc_fast.Prelude.Int.{ℤ, pos, to_bits, from_bits}
use dart_odbc_fast.Wire.{Bytes, le_bytes, from_le, get_le, ascii}
use dart_odbc_fast.Wire.Utf8.{is_utf8}
use dart_odbc_fast.Engine.Capabilities.{contains}
use dart_odbc_fast.Error.{
  Message, OdbcError, structured, empty_connection_string, environment_not_initialized, pool_error,
  internal_error, validation_error, unsupported_feature,
}

pub data ErrorCategory : Type 0 where
  transient fatal validation connection_lost : ErrorCategory

abbrev pub i32_half : ℕ
i32_half = 2 ^ 31

pub record StructuredError : Type 0 where
  pub sqlstate : Bytes
  pub native_code : ℤ
  pub message : Bytes

unfoldable pub serialize_error : StructuredError → Bytes
serialize_error e =
    e.sqlstate
    ++ (le_bytes 4 (to_bits i32_half e.native_code)
        ++ (le_bytes 4 (length e.message % 2 ^ 32) ++ e.message))

unfoldable pub deserialize_error : Bytes → Option StructuredError
deserialize_error buf =
    if ltb (length buf) 13
    then none
    else (let msg_len = get_le 4 (drop 9 buf) in
        let msg = take msg_len (drop 13 buf) in
        if ltb (length buf) (13 + msg_len)
        then none
        else if is_utf8 msg
        then some (record {
          sqlstate = take 5 buf;
          native_code = from_bits i32_half (get_le 4 (drop 5 buf));
          message = msg;
        })
        else none)

-- `OdbcError::to_structured`, with the three accessors that it calls. `to_text` is the text of an
-- error or of a message: the `Display` of the derive macro and `format!`.
unfoldable pub to_structured : (OdbcError → Bytes) → (Message → Bytes) → OdbcError → StructuredError
to_structured display to_text (structured state code message) = record {
  sqlstate = state;
  native_code = code;
  message = to_text message;
}
to_structured display to_text e = record {
  sqlstate = 0 ∷ 0 ∷ 0 ∷ 0 ∷ 0 ∷ [];
  native_code = pos 0;
  message = display e;
}

-- `sqlstate[0] == b'0' && sqlstate[1] == b'8'`
abbrev pub is_class_08 : Bytes → Bool
is_class_08 [] = false
is_class_08 (a ∷ []) = false
is_class_08 (a ∷ b ∷ rest) = a == b'0' && b == b'8'

unfoldable pub is_retryable : (Message → Bytes) → OdbcError → Bool
is_retryable to_text (structured state code message) = is_class_08 state
is_retryable to_text (pool_error m) = true
is_retryable to_text (internal_error m) =
    contains (to_text m) (ascii "timeout") || contains (to_text m) (ascii "Timeout")
is_retryable to_text _ = false

unfoldable pub is_connection_error : OdbcError → Bool
is_connection_error empty_connection_string = true
is_connection_error environment_not_initialized = true
is_connection_error (structured state code message) = is_class_08 state
is_connection_error _ = false

abbrev is_validation : OdbcError → Bool
is_validation (validation_error m) = true
is_validation _ = false

abbrev is_unsupported : OdbcError → Bool
is_unsupported (unsupported_feature m) = true
is_unsupported _ = false

unfoldable pub error_category : (Message → Bytes) → OdbcError → ErrorCategory
error_category to_text e =
    if is_validation e
    then validation
    else if is_unsupported e
    then fatal
    else if is_connection_error e
    then connection_lost
    else if is_retryable to_text e
    then transient
    else fatal
