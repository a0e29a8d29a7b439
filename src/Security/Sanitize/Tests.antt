-- ===== src/Security/Sanitize/Tests.antt =====
-- Connection strings, and the theorem there.
use dart_odbc_fast.Prelude.{List, [], ◌∷◌, map, ◌≡◌, refl, arith, true}
use dart_odbc_fast.Wire.{ascii}
use dart_odbc_fast.Engine.Capabilities.{trim_start, trim_end, same_text}
use dart_odbc_fast.Security.Sanitize.{
  secret_keys, is_secret_key, scan, read_value, sanitize_loop, sanitize_connection_string,
}
use dart_odbc_fast.Security.Sanitize.Fuel.{sanitize_loop_enough}
use dart_odbc_fast.Security.Sanitize.Laws.{Entry, bare, pair, plain, braced, render, redact}
use dart_odbc_fast.Security.Sanitize.Redacts.{sanitize_connection_string_lem}

sanitize_braced :
    sanitize_connection_string (ascii "DSN=prod;Pwd={a;b}c;UID=sa;")
    ≡ ascii "DSN=prod;Pwd=***;UID=sa"
unfolding sanitize_connection_string sanitize_loop scan read_value is_secret_key secret_keys
    trim_start trim_end same_text
sanitize_braced = refl

-- `DSN=prod;PWD={a;b};x`
abbrev entries : List Entry
entries =
    pair (ascii "DSN") (plain (ascii "prod"))
    ∷ pair (ascii "PWD") (braced (ascii "a;b") [])
    ∷ bare b'x' []
    ∷ []

sanitize_connection_string_lem_example :
    sanitize_connection_string (render entries) ≡ render (map redact entries)
sanitize_connection_string_lem_example = sanitize_connection_string_lem entries (
  ((refl, (refl, (refl, tt))), ((refl, (refl, (refl, (refl, tt)))), refl)),
  (((refl, (refl, (refl, tt))), ((refl, (refl, (refl, tt))), tt)), ((refl, tt), tt)),
)

sanitize_loop_enough_example :
    sanitize_loop 10 true (ascii "UID=sa;x") ≡ sanitize_loop 8 true (ascii "UID=sa;x")
sanitize_loop_enough_example =
    sanitize_loop_enough 10 8 true (ascii "UID=sa;x") (omega arith) (omega arith)
