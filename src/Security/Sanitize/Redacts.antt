-- ===== src/Security/Sanitize/Redacts.antt =====
-- The loop over the entries of a connection string.
use dart_odbc_fast.Prelude.{
  ℕ, zero, suc, ◌≤◌, Bool, true, false, if◌then◌else◌, List, [], ◌∷◌, ◌++◌, map, length, ◌≡◌, refl,
  sym, ap, ◌∙◌, arith, All, append-nil, append_assoc, length-append,
}
use dart_odbc_fast.Wire.{Bytes, ascii}
use dart_odbc_fast.Security.Sanitize.{
  is_secret_key, scan, is_key_end, skip_semicolon, finish_entry, sanitize_loop,
  sanitize_connection_string,
}
use dart_odbc_fast.Security.Sanitize.Laws.{
  Entry, bare, pair, value_text, entry_text, render, EntryIsRead, redact, scan-append, AtEnd,
  read_value_lem, key_of, redacted_text, redact_lem,
}

abbrev behind : Entry → Bytes
behind (bare c key) = []
behind (pair key v) = b'=' ∷ value_text v

scan_key :
    (e : Entry) (rest : Bytes)
    → EntryIsRead e
    → AtEnd rest
    → scan is_key_end (entry_text e ++ rest) ≡ (key_of e, behind e ++ rest)
scan_key (bare c key) [] h end = scan-append is_key_end (c ∷ key) [] h tt
scan_key (bare c key) (d ∷ rest) h end =
    scan-append is_key_end (c ∷ key) (d ∷ rest) h (ground (arith, end))
scan_key (pair key v) rest h end =
    rw (append_assoc key (b'=' ∷ value_text v) rest)
      (scan-append is_key_end key (b'=' ∷ (value_text v ++ rest)) h.0 refl)

finish_entry_lem :
    (e : Entry) (rest : Bytes)
    → EntryIsRead e
    → AtEnd rest
    → finish_entry (key_of e) (behind e ++ rest) ≡ (redacted_text e, skip_semicolon rest)
finish_entry_lem (bare c key) [] h end = refl
finish_entry_lem (bare c key) (d ∷ rest) h end = rw end refl
finish_entry_lem (pair key v) rest h end =
    ap (λ m. (b'=' ∷ (if is_secret_key key then ascii "***" else m.0), skip_semicolon m.1))
      (read_value_lem v rest h.1 end)

abbrev separator : Bool → Bytes
separator first = if first then [] else b';' ∷ []

loop_step :
    (fuel : ℕ) (first : Bool) (cursor key after : Bytes)
    → 1 ≤ length cursor
    → scan is_key_end cursor ≡ (key, after)
    → sanitize_loop (suc fuel) first cursor
      ≡ separator first
        ++ (key
            ++ ((finish_entry key after).0 ++ sanitize_loop fuel false (finish_entry key after).1))
unfolding sanitize_loop
loop_step fuel first [] key after long e = absurd (omega arith)
loop_step fuel first (c ∷ cs) key after long e =
    ap
      (λ m.
        separator first
        ++ (m.0 ++ ((finish_entry m.0 m.1).0 ++ sanitize_loop fuel false (finish_entry m.0 m.1).1)))
      e

entry_long : (e : Entry) → 1 ≤ length (entry_text e)
entry_long (bare c key) = omega arith
entry_long (pair key v) = omega (arith, length-append key (b'=' ∷ value_text v))

entry_step :
    (fuel : ℕ) (first : Bool) (e : Entry) (rest : Bytes)
    → EntryIsRead e
    → AtEnd rest
    → sanitize_loop (suc fuel) first (entry_text e ++ rest)
      ≡ separator first ++ (entry_text (redact e) ++ sanitize_loop fuel false (skip_semicolon rest))
entry_step fuel first e rest h end =
    let long : 1 ≤ length (entry_text e ++ rest) =
      omega (arith, length-append (entry_text e) rest, entry_long e) in
    loop_step fuel first (entry_text e ++ rest) (key_of e) (behind e ++ rest) long
      (scan_key e rest h end)
    ∙ ap (λ m. separator first ++ (key_of e ++ (m.0 ++ sanitize_loop fuel false m.1)))
        (finish_entry_lem e rest h end)
    ∙ rw
        (
          redact_lem e,
          append_assoc (key_of e) (redacted_text e)
              (sanitize_loop fuel false (skip_semicolon rest)),
        )
        refl

loop_end : (fuel : ℕ) (first : Bool) → sanitize_loop fuel first [] ≡ []
unfolding sanitize_loop
loop_end zero first = refl
loop_end (suc fuel) first = refl

entries_lem :
    (fuel : ℕ) (first : Bool) (e : Entry) (entries : List Entry)
    → All EntryIsRead (e ∷ entries)
    → length (render (e ∷ entries)) ≤ fuel
    → sanitize_loop fuel first (render (e ∷ entries))
      ≡ separator first ++ render (map redact (e ∷ entries))
unfolding render
entries_lem zero first e [] h enough = absurd (omega (arith, entry_long e))
entries_lem zero first e (n ∷ entries) h enough =
    absurd (omega (arith, entry_long e, length-append (entry_text e) (b';' ∷ render (n ∷ entries))))
entries_lem (suc fuel) first e [] h enough =
    let whole : entry_text e ++ [] ≡ entry_text e = rw append-nil refl in
    ap (sanitize_loop (suc fuel) first) (sym whole)
    ∙ entry_step fuel first e [] h.0 tt
    ∙ rw (loop_end fuel false, append-nil) refl
entries_lem (suc fuel) first e (n ∷ entries) h enough =
    let tail = render (n ∷ entries) in
    entry_step fuel first e (b';' ∷ tail) h.0 refl
    ∙ ap (λ m. separator first ++ (entry_text (redact e) ++ m))
        (entries_lem fuel false n entries h.1
          (omega (arith, entry_long e, length-append (entry_text e) (b';' ∷ tail))))

-- On a connection string made of entries with semicolons between them, of which a value holds a
-- semicolon only inside braces, `sanitize_connection_string` replaces the whole value of each secret
-- key by three stars and changes nothing else.
pub sanitize_connection_string_lem :
    (entries : List Entry)
    → All EntryIsRead entries
    → sanitize_connection_string (render entries) ≡ render (map redact entries)
unfolding sanitize_connection_string render
sanitize_connection_string_lem [] h = loop_end 0 true
sanitize_connection_string_lem (e ∷ entries) h =
    entries_lem (length (render (e ∷ entries))) true e entries h (omega arith)
