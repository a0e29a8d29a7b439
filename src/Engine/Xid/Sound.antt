-- ===== src/Engine/Xid/Sound.antt =====
-- What the decoder of PostgreSQL's prepared transactions accepts.
use dart_odbc_fast.Prelude.{
  ℕ, ◌+◌, ◌-◌, ◌*◌, ◌^◌, ◌<◌, ◌≤◌, ◌==◌, leb, ltb, if◌then◌else◌, [], ◌∷◌, length, Option, none,
  some, ◌≡◌, refl, subst, arith,
}
use dart_odbc_fast.Prelude.Int.{ℤ, pos, negsuc, FitsIn}
use dart_odbc_fast.Wire.{Bytes, AreBytes}
use dart_odbc_fast.Engine.Xid.{
  xid_max_gtrid_len, xid_max_bqual_len, Xid, new_xid, to_option, bind_option, hex_nibble,
  hex_decode, parse_digits, parse_positive, parse_negative, parse_i32, split_once, encode_postgres,
  decode_components, decode_postgres,
}
use dart_odbc_fast.Engine.Xid.RoundTrip.{XidFits, decode-encode}

bind_option-eq-some {ℓ κ} :
    {A : Type ℓ} {B : Type κ} (m : Option A) (next : A → Option B) {b : B}
    → bind_option m next ≡ some b
    → (a : A) × (m ≡ some a) × (next a ≡ some b)
bind_option-eq-some none next h = cc
bind_option-eq-some (some a) next h = (a, refl, h)

hex_nibble-lt : (c d : ℕ) → hex_nibble c ≡ some d → d < 16
unfolding hex_nibble
hex_nibble-lt c d h = ground arith

hex_decode-AreBytes : (s out : Bytes) → hex_decode s ≡ some out → AreBytes out
unfolding hex_decode
hex_decode-AreBytes [] [] h = tt
hex_decode-AreBytes [] (b ∷ out) h = cc
hex_decode-AreBytes (c ∷ []) out h = cc
hex_decode-AreBytes (c ∷ d ∷ cs) out h =
    let (hi, e1, h1) = bind_option-eq-some (hex_nibble c) _ h in
    let (lo, e2, h2) = bind_option-eq-some (hex_nibble d) _ h1 in
    let (rest, e3, h3) = bind_option-eq-some (hex_decode cs) _ h2 in
    hex_step hi lo rest out (hex_nibble-lt c hi e1) (hex_nibble-lt d lo e2)
      (hex_decode-AreBytes cs rest e3) h3
  where
    hex_step :
        (hi lo : ℕ) (rest out : Bytes)
        → hi < 16
        → lo < 16
        → AreBytes rest
        → some ((hi * 16 + lo) ∷ rest) ≡ some out
        → AreBytes out
    hex_step hi lo rest [] a b r e = cc
    hex_step hi lo rest (x ∷ xs) a b r e =
        let head : hi * 16 + lo ≡ x = cc e in
        let tail : rest ≡ xs = cc e in (omega arith, rw tail at r)

parse_positive-FitsIn : (s : Bytes) (z : ℤ) → parse_positive s ≡ some z → FitsIn (2 ^ 31) z
unfolding parse_positive
parse_positive-FitsIn [] z h = cc
parse_positive-FitsIn (c ∷ cs) z h =
    let (n, e, h1) = bind_option-eq-some (parse_digits 0 (c ∷ cs)) _ h in positive n z h1
  where
    positive :
        (n : ℕ) (z : ℤ)
        → (if ltb n (2 ^ 31) then some (pos n) else none) ≡ some z
        → FitsIn (2 ^ 31) z
    positive n (pos m) e = ground arith
    positive n (negsuc m) e = ground arith

parse_negative-FitsIn : (s : Bytes) (z : ℤ) → parse_negative s ≡ some z → FitsIn (2 ^ 31) z
unfolding parse_negative
parse_negative-FitsIn [] z h = cc
parse_negative-FitsIn (c ∷ cs) z h =
    let (n, e, h1) = bind_option-eq-some (parse_digits 0 (c ∷ cs)) _ h in negative n z h1
  where
    negative :
        (n : ℕ) (z : ℤ)
        → (if n == 0 then some (pos 0) else if leb n (2 ^ 31) then some (negsuc (n - 1)) else none)
          ≡ some z
        → FitsIn (2 ^ 31) z
    negative n (pos m) e = ground arith
    negative n (negsuc m) e = ground arith

parse_i32-FitsIn : (s : Bytes) (z : ℤ) → parse_i32 s ≡ some z → FitsIn (2 ^ 31) z
unfolding parse_i32
parse_i32-FitsIn [] z h = cc
parse_i32-FitsIn (c ∷ cs) z h = ground (
  arith,
  parse_negative-FitsIn cs z,
  parse_positive-FitsIn cs z,
  parse_positive-FitsIn (c ∷ cs) z,
)

new_xid_sound :
    (format_id : ℤ) (gtrid bqual : Bytes) (xid : Xid)
    → to_option (new_xid format_id gtrid bqual) ≡ some xid
    → (record { format_id = format_id; gtrid = gtrid; bqual = bqual } ≡ xid)
      × (1 ≤ length gtrid)
      × (length gtrid ≤ xid_max_gtrid_len)
      × (length bqual ≤ xid_max_bqual_len)
unfolding new_xid
new_xid_sound format_id gtrid bqual xid h = ground arith

-- Whatever text `decode_postgres` accepts, the identifier that it returns is within the limits of
-- X/Open and of its 32-bit format id, so that encoding it again and decoding gives it back.
pub decode_postgres_sound :
    (s : Bytes) (xid : Xid)
    → decode_postgres s ≡ some xid
    → XidFits xid × (decode_postgres (encode_postgres xid) ≡ some xid)
unfolding decode_postgres decode_components
decode_postgres_sound s xid h =
    let (first, e1, h1) = bind_option-eq-some (split_once b'_' s) _ h in
    let (second, e2, h2) = bind_option-eq-some (split_once b'_' first.1) _ h1 in
    let (format_id, e3, h3) = bind_option-eq-some (parse_i32 first.0) _ h2 in
    let (gtrid, e4, h4) = bind_option-eq-some (hex_decode second.0) _ h3 in
    let (bqual, e5, h5) = bind_option-eq-some (hex_decode second.1) _ h4 in
    let (same, some_g, short_g, short_b) = new_xid_sound format_id gtrid bqual xid h5 in
    let fits : XidFits (record { format_id = format_id; gtrid = gtrid; bqual = bqual }) = record {
      format = parse_i32-FitsIn first.0 format_id e3;
      some_gtrid = some_g;
      short_gtrid = short_g;
      short_bqual = short_b;
      gtrid_bytes = hex_decode-AreBytes second.0 gtrid e4;
      bqual_bytes = hex_decode-AreBytes second.1 bqual e5;
    } in
    let fits' : XidFits xid = subst XidFits same fits in (fits', (decode-encode xid fits').0)
