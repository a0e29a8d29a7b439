-- ===== src/Engine/Xid/RoundTrip.antt =====
-- The encodings of an XA identifier are read back.
use dart_odbc_fast.Prelude.{
  ℕ, zero, suc, ◌+◌, ◌-◌, ◌^◌, ◌<◌, ◌≤◌, true, false, ◌==◌, leb, [], ◌∷◌, length, some, ok, ◌≡◌,
  refl, ◌⊎◌, inl, inr, arith, All, length-append, ◌/◌, ◌%◌,
}
use dart_odbc_fast.Prelude.Int.{ℤ, pos, negsuc, FitsIn}
use dart_odbc_fast.Wire.{Bytes, AreBytes}
use dart_odbc_fast.Wire.Print.{print_int, decimal_digits}
use dart_odbc_fast.Engine.Xid.{
  xid_max_gtrid_len, xid_max_bqual_len, Xid, new_xid, hex_encode, parse_digits, parse_positive,
  parse_negative, parse_i32, encode_postgres, decode_components, decode_postgres,
  encode_mysql_components, decode_mysql_components, encode_oracle_components,
  decode_oracle_components,
}
use dart_odbc_fast.Engine.Xid.Numbers.{
  IsDigit, decimal_digits-All, parse_digits-decimal_digits, hex_decode-hex_encode, Without,
  split_once-append, hex_encode-Without,
}

-- A 32-bit format id, from 1 to 64 bytes of transaction id and at most 64 of branch qualifier.
pub record XidFits (xid : Xid) : Type 0 where
  pub format : FitsIn (2 ^ 31) xid.format_id
  pub some_gtrid : 1 ≤ length xid.gtrid
  pub short_gtrid : length xid.gtrid ≤ xid_max_gtrid_len
  pub short_bqual : length xid.bqual ≤ xid_max_bqual_len
  pub gtrid_bytes : AreBytes xid.gtrid
  pub bqual_bytes : AreBytes xid.bqual

positive_step :
    (ds : Bytes) (n : ℕ)
    → All IsDigit ds
    → parse_digits 0 ds ≡ some n
    → 1 ≤ length ds
    → n < 2 ^ 31
    → parse_i32 ds ≡ some (pos n)
unfolding parse_i32 parse_positive
positive_step [] n digits e long small = absurd (omega arith)
positive_step (c ∷ cs) n digits e long small =
    let not_minus : (c == b'-') ≡ false = ground (arith, digits.0) in
    let not_plus : (c == b'+') ≡ false = ground (arith, digits.0) in
    rw (not_minus, not_plus, e) (ground arith)

negative_step :
    (ds : Bytes) (n : ℕ)
    → parse_digits 0 ds ≡ some (suc n)
    → 1 ≤ length ds
    → n < 2 ^ 31
    → parse_negative ds ≡ some (negsuc n)
unfolding parse_negative
negative_step [] n e long small = absurd (omega arith)
negative_step (c ∷ cs) n e long small =
    let nonzero : (suc n == 0) ≡ false = ground arith in
    let fits : leb (suc n) (2 ^ 31) ≡ true = ground arith in
    let back : suc n - 1 ≡ n = omega arith in rw (e, nonzero, fits, back) refl

digits_long : (fuel n : ℕ) → 1 ≤ length (decimal_digits fuel n)
unfolding decimal_digits
digits_long zero n = omega arith
digits_long (suc fuel) n =
    ground (arith, length-append (decimal_digits fuel (n / 10)) ((b'0' + n % 10) ∷ []))

pub parse_i32-print_int : (z : ℤ) → FitsIn (2 ^ 31) z → parse_i32 (print_int z) ≡ some z
unfolding print_int
parse_i32-print_int (pos n) h =
    positive_step (decimal_digits 19 n) n (decimal_digits-All 19 n)
      (parse_digits-decimal_digits 19 n (omega arith)) (digits_long 19 n) h
parse_i32-print_int (negsuc n) h =
    unfold parse_i32 in
    negative_step (decimal_digits 19 (suc n)) n
      (parse_digits-decimal_digits 19 (suc n) (omega arith)) (digits_long 19 (suc n)) h

digits-Without : (ds : Bytes) → All IsDigit ds → Without b'_' ds
digits-Without [] h = tt
digits-Without (d ∷ ds) h = (ground (arith, h.0), digits-Without ds h.1)

print_int-Without : (z : ℤ) → Without b'_' (print_int z)
unfolding print_int
print_int-Without (pos n) = digits-Without (decimal_digits 19 n) (decimal_digits-All 19 n)
print_int-Without (negsuc n) =
    (refl, digits-Without (decimal_digits 19 (suc n)) (decimal_digits-All 19 (suc n)))

new_xid-fields : (xid : Xid) → XidFits xid → new_xid xid.format_id xid.gtrid xid.bqual ≡ ok xid
unfolding new_xid
new_xid-fields xid h = ground (arith, h.some_gtrid, h.short_gtrid, h.short_bqual)

components_lem :
    (letter : ℕ) (xid : Xid)
    → (letter ≡ b'a') ⊎ (letter ≡ b'A')
    → XidFits xid
    → decode_components xid.format_id (hex_encode letter xid.gtrid) (hex_encode letter xid.bqual)
      ≡ some xid
unfolding decode_components
components_lem letter xid known h =
    rw
      (
        hex_decode-hex_encode letter xid.gtrid known h.gtrid_bytes,
        hex_decode-hex_encode letter xid.bqual known h.bqual_bytes,
        new_xid-fields xid h,
      )
      refl

-- An identifier within the limits of X/Open is read back from each of its three encodings: the
-- text for PostgreSQL, and the components for MySQL and for Oracle.
pub decode-encode :
    (xid : Xid)
    → XidFits xid
    → (decode_postgres (encode_postgres xid) ≡ some xid)
      × (decode_mysql_components (encode_mysql_components xid) ≡ some xid)
      × (decode_oracle_components (encode_oracle_components xid) ≡ some xid)
unfolding decode_postgres encode_postgres decode_mysql_components encode_mysql_components
    decode_oracle_components encode_oracle_components
decode-encode xid h = (
  rw
      (
        split_once-append b'_' (print_int xid.format_id) _ (print_int-Without xid.format_id),
        split_once-append b'_' (hex_encode b'a' xid.gtrid) _
            (hex_encode-Without xid.gtrid h.gtrid_bytes),
        parse_i32-print_int xid.format_id h.format,
      )
      (components_lem b'a' xid (inl refl) h),
  components_lem b'a' xid (inl refl) h,
  components_lem b'A' xid (inr refl) h,
)
