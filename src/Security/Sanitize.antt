-- ===== src/Security/Sanitize.antt =====
-- security/sanitize.rs: connection strings without their secrets. A key is an ASCII text.
pub mod Laws
pub mod Fuel
pub mod Redacts
mod Tests
use dart_odbc_fast.Prelude.{
  ℕ, zero, suc, Bool, true, false, ◌||◌, ◌==◌, if◌then◌else◌, List, [], ◌∷◌, ◌++◌, map, length, any,
}
use dart_odbc_fast.Wire.{Bytes, ascii}
use dart_odbc_fast.Engine.Capabilities.{lower_byte, trim_start, trim_end, same_text}

unfoldable pub secret_keys : List Bytes
secret_keys =
    ascii "pwd"
    ∷ ascii "password"
    ∷ ascii "passwd"
    ∷ ascii "secret"
    ∷ ascii "token"
    ∷ ascii "apikey"
    ∷ ascii "api_key"
    ∷ ascii "accesstoken"
    ∷ ascii "access_token"
    ∷ ascii "authorization"
    ∷ ascii "auth"
    ∷ ascii "sas"
    ∷ ascii "sastoken"
    ∷ ascii "sas_token"
    ∷ ascii "connectionstring"
    ∷ ascii "primarykey"
    ∷ ascii "secondarykey"
    ∷ []

unfoldable pub is_secret_key : Bytes → Bool
is_secret_key key = any (same_text (map lower_byte (trim_end (trim_start key)))) secret_keys

-- `while i < len && !stop(bytes[i]) { i += 1; }`: the bytes passed over, and the rest.
unfoldable pub scan : (ℕ → Bool) → Bytes → Bytes × Bytes
scan stop [] = ([], [])
scan stop (c ∷ cs) =
    let (passed, rest) = scan stop cs in if stop c then ([], c ∷ cs) else (c ∷ passed, rest)

abbrev pub is_key_end : ℕ → Bool
is_key_end c = c == b'=' || c == b';'

abbrev pub is_semicolon : ℕ → Bool
is_semicolon c = c == b';'

abbrev pub is_close : ℕ → Bool
is_close c = c == b'}'

abbrev pub after_brace : Bytes × Bytes → Bytes × Bytes
after_brace (body, []) = (b'{' ∷ body, [])
after_brace (body, close ∷ more) =
    let (tail, rest) = scan is_semicolon more in (b'{' ∷ (body ++ (close ∷ tail)), rest)

-- The value at the cursor, and the rest.
unfoldable pub read_value : Bytes → Bytes × Bytes
read_value [] = ([], [])
read_value (c ∷ cs) =
    if c == b'{' then after_brace (scan is_close cs) else scan is_semicolon (c ∷ cs)

abbrev pub skip_semicolon : Bytes → Bytes
skip_semicolon [] = []
skip_semicolon (c ∷ cs) = if c == b';' then cs else c ∷ cs

-- What one round of the loop appends behind the key, and where the cursor stands then.
abbrev pub finish_entry : Bytes → Bytes → Bytes × Bytes
finish_entry key [] = ([], [])
finish_entry key (d ∷ more) =
    let (value, rest) = read_value more in
    if d == b';'
    then ([], more)
    else (b'=' ∷ (if is_secret_key key then ascii "***" else value), skip_semicolon rest)

-- The outer loop: each round passes over a byte at least, so that the length is fuel enough.
unfoldable pub sanitize_loop : ℕ → Bool → Bytes → Bytes
sanitize_loop zero first cursor = []
sanitize_loop (suc fuel) first [] = []
sanitize_loop (suc fuel) first (c ∷ cs) =
    let (key, after) = scan is_key_end (c ∷ cs) in
    let (appended, next) = finish_entry key after in
    let rest = sanitize_loop fuel false next in
    (if first then [] else b';' ∷ []) ++ (key ++ (appended ++ rest))

unfoldable pub sanitize_connection_string : Bytes → Bytes
sanitize_connection_string s = sanitize_loop (length s) true s
