-- ===== src/Security/Sanitize/Fuel.antt =====
-- The loop over a connection string ends by itself.
use dart_odbc_fast.Prelude.{
  ℕ, zero, suc, ◌≤◌, Bool, false, ◌==◌, if◌then◌else◌, [], ◌∷◌, ◌++◌, length, ◌≡◌, refl, ap, arith,
  Bool-cases, inl, inr,
}
use dart_odbc_fast.Wire.{Bytes}
use dart_odbc_fast.Security.Sanitize.{
  scan, is_key_end, is_semicolon, is_close, after_brace, read_value, skip_semicolon, finish_entry,
  sanitize_loop,
}

scan-le : (stop : ℕ → Bool) (s : Bytes) → length (scan stop s).1 ≤ length s
unfolding scan
scan-le stop [] = omega arith
scan-le stop (c ∷ cs) = elim (Bool-cases (stop c)) [
  | inl e ↦ rw (scan, e) (omega arith)
  | inr e ↦ rw (scan, e) (omega (arith, scan-le stop cs))
]

after_brace-le : (m : Bytes × Bytes) → length (after_brace m).1 ≤ length m.1
after_brace-le (body, []) = omega arith
after_brace-le (body, close ∷ more) = omega (arith, scan-le is_semicolon more)

read_value-le : (s : Bytes) → length (read_value s).1 ≤ length s
unfolding read_value
read_value-le [] = omega arith
read_value-le (c ∷ cs) = elim (Bool-cases (c == b'{')) [
  | inl e ↦
      rw (read_value, e) (omega (arith, after_brace-le (scan is_close cs), scan-le is_close cs))
  | inr e ↦ rw (read_value, e) (scan-le is_semicolon (c ∷ cs))
]

skip_semicolon-le : (s : Bytes) → length (skip_semicolon s) ≤ length s
skip_semicolon-le [] = omega arith
skip_semicolon-le (c ∷ cs) = ground arith

finish_entry-le :
    (key after : Bytes) (n : ℕ) → length after ≤ suc n → length (finish_entry key after).1 ≤ n
finish_entry-le key [] n h = omega arith
finish_entry-le key (d ∷ more) n h = elim (Bool-cases (d == b';')) [
  | inl e ↦ rw e (omega arith)
  | inr e ↦ rw e (omega (arith, skip_semicolon-le (read_value more).1, read_value-le more))
]

-- The loop ends within as many rounds as the string has bytes: any two amounts of fuel that reach its
-- length give the same text.
pub sanitize_loop_enough :
    (fuel more : ℕ) (first : Bool) (s : Bytes)
    → length s ≤ fuel
    → length s ≤ more
    → sanitize_loop fuel first s ≡ sanitize_loop more first s
unfolding sanitize_loop
sanitize_loop_enough zero zero first s h g = refl
sanitize_loop_enough zero (suc more) first [] h g = refl
sanitize_loop_enough zero (suc more) first (c ∷ cs) h g = absurd (omega arith)
sanitize_loop_enough (suc fuel) zero first [] h g = refl
sanitize_loop_enough (suc fuel) zero first (c ∷ cs) h g = absurd (omega arith)
sanitize_loop_enough (suc fuel) (suc more) first [] h g = refl
sanitize_loop_enough (suc fuel) (suc more) first (c ∷ cs) h g =
    let m = scan is_key_end (c ∷ cs) in
    let next = (finish_entry m.0 m.1).1 in
    let shorter : length next ≤ length cs =
      finish_entry-le m.0 m.1 (length cs) (scan-le is_key_end (c ∷ cs)) in
    ap (λ rest. (if first then [] else b';' ∷ []) ++ (m.0 ++ ((finish_entry m.0 m.1).0 ++ rest)))
      (sanitize_loop_enough fuel more false next (omega arith) (omega arith))
