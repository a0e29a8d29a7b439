-- ===== src/Security/Sanitize/Laws.antt =====
-- What a sanitized connection string is, entry by entry.
use dart_odbc_fast.Prelude.{
  ℕ, Bool, true, false, ◌==◌, if◌then◌else◌, List, [], ◌∷◌, ◌++◌, ◌≡◌, refl, ap, ◌∙◌, arith, All,
  append-nil, append_assoc,
}
use dart_odbc_fast.Wire.{Bytes, ascii}
use dart_odbc_fast.Security.Sanitize.{
  is_secret_key, scan, is_key_end, is_semicolon, is_close, after_brace, read_value,
}

-- A value is plain, or it stands in braces, with more text behind them or none.
pub data Value : Type 0 where
  plain : Bytes → Value
  braced : Bytes → Bytes → Value

pub data Entry : Type 0 where
  bare : ℕ → Bytes → Entry
  pair : Bytes → Value → Entry

abbrev pub value_text : Value → Bytes
value_text (plain v) = v
value_text (braced body tail) = b'{' ∷ (body ++ (b'}' ∷ tail))

abbrev pub entry_text : Entry → Bytes
entry_text (bare c key) = c ∷ key
entry_text (pair key v) = key ++ (b'=' ∷ value_text v)

-- A connection string: the entries with semicolons between them.
unfoldable pub render : List Entry → Bytes
render [] = []
render (e ∷ []) = entry_text e
render (e ∷ next ∷ entries) = entry_text e ++ (b';' ∷ render (next ∷ entries))

abbrev pub Free : (ℕ → Bool) → Bytes → Type 0
Free stop bs = All (λ c. stop c ≡ false) bs

abbrev pub NoBrace : Bytes → Type 0
NoBrace [] = Unit
NoBrace (c ∷ cs) = (c == b'{') ≡ false

abbrev pub ValueIsRead : Value → Type 0
ValueIsRead (plain v) = Free is_semicolon v × NoBrace v
ValueIsRead (braced body tail) = Free is_close body × Free is_semicolon tail

abbrev pub EntryIsRead : Entry → Type 0
EntryIsRead (bare c key) = Free is_key_end (c ∷ key)
EntryIsRead (pair key v) = Free is_key_end key × ValueIsRead v

abbrev pub redact : Entry → Entry
redact (bare c key) = bare c key
redact (pair key v) = pair key (if is_secret_key key then plain (ascii "***") else v)

abbrev pub Stops : (ℕ → Bool) → Bytes → Type 0
Stops stop [] = Unit
Stops stop (c ∷ cs) = stop c ≡ true

pub scan-append :
    (stop : ℕ → Bool) (xs ys : Bytes)
    → Free stop xs
    → Stops stop ys
    → scan stop (xs ++ ys) ≡ (xs, ys)
unfolding scan
scan-append stop [] [] h s = refl
scan-append stop [] (y ∷ ys) h s = rw (scan, s) refl
scan-append stop (x ∷ xs) ys h s = rw (h.0, scan-append stop xs ys h.1 s) refl

-- What may follow a value: the end, or a semicolon.
abbrev pub AtEnd : Bytes → Type 0
AtEnd [] = Unit
AtEnd (c ∷ cs) = (c == b';') ≡ true

AtEnd-Stops : (rest : Bytes) → AtEnd rest → Stops is_semicolon rest
AtEnd-Stops [] h = tt
AtEnd-Stops (c ∷ cs) h = h

read_plain :
    (v rest : Bytes)
    → Free is_semicolon v
    → NoBrace v
    → AtEnd rest
    → read_value (v ++ rest) ≡ (v, rest)
unfolding read_value
read_plain [] [] h n e = refl
read_plain [] (c ∷ cs) h n e =
    let other : (c == b'{') ≡ false = ground (arith, e) in
    rw (read_value, other) (scan-append is_semicolon [] (c ∷ cs) tt e)
read_plain (c ∷ v) rest h n e =
    rw (read_value, n) (scan-append is_semicolon (c ∷ v) rest h (AtEnd-Stops rest e))

read_braced :
    (body tail rest : Bytes)
    → Free is_close body
    → Free is_semicolon tail
    → AtEnd rest
    → read_value (b'{' ∷ (body ++ (b'}' ∷ (tail ++ rest)))) ≡ (b'{' ∷ (body ++ (b'}' ∷ tail)), rest)
unfolding read_value
read_braced body tail rest h t e =
    ap after_brace (scan-append is_close body (b'}' ∷ (tail ++ rest)) h refl)
    ∙ ap (λ m. (b'{' ∷ (body ++ (b'}' ∷ m.0)), m.1))
        (scan-append is_semicolon tail rest t (AtEnd-Stops rest e))

pub read_value_lem :
    (v : Value) (rest : Bytes)
    → ValueIsRead v
    → AtEnd rest
    → read_value (value_text v ++ rest) ≡ (value_text v, rest)
read_value_lem (plain v) rest h e = read_plain v rest h.0 h.1 e
read_value_lem (braced body tail) rest h e =
    rw (append_assoc body (b'}' ∷ tail) rest) (read_braced body tail rest h.0 h.1 e)

-- The text of an entry behind its key, as it is written and as it is redacted.
abbrev pub key_of : Entry → Bytes
key_of (bare c key) = c ∷ key
key_of (pair key v) = key

abbrev pub redacted_text : Entry → Bytes
redacted_text (bare c key) = []
redacted_text (pair key v) = b'=' ∷ (if is_secret_key key then ascii "***" else value_text v)

if_text :
    (b : Bool) (v : Value)
    → value_text (if b then plain (ascii "***") else v) ≡ (if b then ascii "***" else value_text v)
if_text true v = refl
if_text false v = refl

pub redact_lem : (e : Entry) → entry_text (redact e) ≡ key_of e ++ redacted_text e
redact_lem (bare c key) = rw append-nil refl
redact_lem (pair key v) = rw (if_text (is_secret_key key) v) refl
