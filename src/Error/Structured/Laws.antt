-- ===== src/Error/Structured/Laws.antt =====
-- Round trip and classification of errors.
use dart_odbc_fast.Prelude.{
  ◌+◌, ◌%◌, ◌^◌, ◌<◌, true, false, ltb, ◌++◌, length, drop, some, ◌≡◌, refl, ◌↔◌, arith,
  append_assoc, length-append, ◌∙◌, take-append_eq, drop-append_eq, drop-drop,
}
use dart_odbc_fast.Prelude.Int.{FitsIn, to_bits, to_bits-lt, from_bits-to_bits}
use dart_odbc_fast.Wire.{Bytes, le_bytes, get_le}
use dart_odbc_fast.Wire.Laws.{length-le_bytes-append, get_le-le_bytes, drop-le_bytes}
use dart_odbc_fast.Wire.Utf8.{is_utf8}
use dart_odbc_fast.Error.{Message, OdbcError, structured, internal_error}
use dart_odbc_fast.Error.Structured.{
  transient, connection_lost, i32_half, StructuredError, serialize_error, deserialize_error,
  is_retryable, is_connection_error, error_category,
}

-- A SQLSTATE of five bytes, a 32-bit code and a text.
pub record ErrorFits (e : StructuredError) : Type 0 where
  pub five : length e.sqlstate ≡ 5
  pub code : FitsIn i32_half e.native_code
  pub short : length e.message < 2 ^ 32
  pub valid : is_utf8 e.message ≡ true

-- `deserialize` reads back a structured error that `serialize` wrote, whatever bytes follow.
pub deserialize_error-serialize_error :
    (e : StructuredError) (rest : Bytes)
    → ErrorFits e
    → deserialize_error (serialize_error e ++ rest) ≡ some e
unfolding serialize_error deserialize_error
deserialize_error-serialize_error e rest h =
    let code = to_bits i32_half e.native_code in
    let n = length e.message in
    let tail : Bytes = le_bytes 4 (n % 2 ^ 32) ++ (e.message ++ rest) in
    let body : Bytes = le_bytes 4 code ++ tail in
    let shape : serialize_error e ++ rest ≡ e.sqlstate ++ body =
      rw
        (
          append_assoc e.sqlstate (le_bytes 4 code ++ (le_bytes 4 (n % 2 ^ 32) ++ e.message)) rest,
          append_assoc (le_bytes 4 code) (le_bytes 4 (n % 2 ^ 32) ++ e.message) rest,
          append_assoc (le_bytes 4 (n % 2 ^ 32)) e.message rest,
        )
        refl in
    let after5 : drop 5 (e.sqlstate ++ body) ≡ body = drop-append_eq 5 e.sqlstate body h.five in
    let after9 : drop 9 (e.sqlstate ++ body) ≡ tail =
      rw (← drop-drop 5 4 (e.sqlstate ++ body), after5) (drop-le_bytes 4 code tail) in
    let after13 : drop 13 (e.sqlstate ++ body) ≡ e.message ++ rest =
      rw (← drop-drop 9 4 (e.sqlstate ++ body), after9)
        (drop-le_bytes 4 (n % 2 ^ 32) (e.message ++ rest)) in
    let small : n % 2 ^ 32 ≡ n = omega (arith, h.short) in
    let len : get_le 4 tail ≡ n =
      get_le-le_bytes 4 (n % 2 ^ 32) (e.message ++ rest) (omega arith) ∙ small in
    let native : get_le 4 body ≡ code =
      get_le-le_bytes 4 code tail (omega (arith, to_bits-lt i32_half e.native_code h.code)) in
    let size : length (e.sqlstate ++ body) ≡ 13 + (n + length rest) = omega (
      arith,
      h.five,
      length-append e.sqlstate body,
      length-le_bytes-append 4 code tail,
      length-le_bytes-append 4 (n % 2 ^ 32) (e.message ++ rest),
      length-append e.message rest,
    ) in
    let long : ltb (13 + (n + length rest)) 13 ≡ false = ground arith in
    let full : ltb (13 + (n + length rest)) (13 + n) ≡ false = ground arith in
    rw
      (
        shape,
        size,
        after9,
        after13,
        len,
        long,
        full,
        take-append_eq n e.message rest refl,
        h.valid,
        take-append_eq 5 e.sqlstate body h.five,
        after5,
        native,
        from_bits-to_bits i32_half e.native_code h.code,
      )
      refl

-- An error is transient exactly if it may be retried and does not say that the connection is gone,
-- and it counts as a lost connection exactly if it says so, whatever the text of its message.
error_category_lem :
    (to_text : Message → Bytes) (e : OdbcError)
    → ((error_category to_text e ≡ transient)
        ↔ ((is_retryable to_text e ≡ true) × (is_connection_error e ≡ false)))
      × ((is_connection_error e ≡ true) ↔ (error_category to_text e ≡ connection_lost))
unfolding error_category is_retryable is_connection_error
error_category_lem to_text (structured state code m) = ground arith
error_category_lem to_text (internal_error m) = ground arith
error_category_lem to_text e = ground arith
