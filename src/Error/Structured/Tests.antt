-- ===== src/Error/Structured/Tests.antt =====
-- A structured error, and the theorems there.
use dart_odbc_fast.Prelude.{[], ◌∷◌, ◌++◌, some, ◌≡◌, refl, arith}
use dart_odbc_fast.Prelude.Int.{negsuc}
use dart_odbc_fast.Wire.{ascii}
use dart_odbc_fast.Wire.Utf8.{is_utf8}
use dart_odbc_fast.Error.Structured.{StructuredError, serialize_error, deserialize_error}
use dart_odbc_fast.Error.Structured.Laws.{ErrorFits, deserialize_error-serialize_error}

abbrev broken_link : StructuredError
broken_link = record { sqlstate = ascii "08S01"; native_code = negsuc 0; message = ascii "link" }

broken_link-ErrorFits : ErrorFits broken_link
unfolding is_utf8
broken_link-ErrorFits = record {
  five = refl;
  code = omega arith;
  short = omega arith;
  valid = refl;
}

deserialize_error-serialize_error_example :
    deserialize_error (serialize_error broken_link ++ (1 ∷ [])) ≡ some broken_link
deserialize_error-serialize_error_example =
    deserialize_error-serialize_error broken_link (1 ∷ []) broken_link-ErrorFits
