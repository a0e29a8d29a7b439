-- ===== src/Engine/Xid.antt =====
-- engine/xa_transaction.rs: the identifier of an XA transaction branch and its encodings.
pub mod Numbers
pub mod RoundTrip
pub mod Sound
mod Tests
use dart_odbc_fast.Prelude.{
  ℕ, ◌+◌, ◌-◌, ◌*◌, ◌/◌, ◌%◌, ◌^◌, Bool, true, false, ◌&&◌, ◌==◌, leb, ltb, if◌then◌else◌, List, [],
  ◌∷◌, ◌++◌, length, Option, none, some, ok, err, reject, ◌>>=◌, ◌>>◌,
}
use dart_odbc_fast.Prelude.Int.{ℤ, pos, negsuc}
use dart_odbc_fast.Wire.{Bytes}
use dart_odbc_fast.Wire.Print.{print_int}
use dart_odbc_fast.Error.{OdbcResult, invalid, num}

abbrev pub xid_max_gtrid_len : ℕ
xid_max_gtrid_len = 64

abbrev pub xid_max_bqual_len : ℕ
xid_max_bqual_len = 64

pub record Xid : Type 0 where
  pub format_id : ℤ
  pub gtrid : Bytes
  pub bqual : Bytes

-- `Xid::new`
unfoldable pub new_xid : ℤ → Bytes → Bytes → OdbcResult Xid
new_xid format_id gtrid bqual = do
  reject (length gtrid == 0) (invalid "Xid: gtrid must be non-empty (1..=64 bytes)" [])
  reject (ltb xid_max_gtrid_len (length gtrid)) (
      invalid "Xid: gtrid is {} bytes; X/Open limit is {}"
        (num (length gtrid) ∷ num xid_max_gtrid_len ∷ []))
  reject (ltb xid_max_bqual_len (length bqual)) (
      invalid "Xid: bqual is {} bytes; X/Open limit is {}"
        (num (length bqual) ∷ num xid_max_bqual_len ∷ []))
  ok (record { format_id = format_id; gtrid = gtrid; bqual = bqual })

-- `.ok()` of a result, and `?` on an option.
abbrev pub to_option : OdbcResult Xid → Option Xid
to_option (ok xid) = some xid
to_option (err e) = none

abbrev pub bind_option {ℓ κ} : {A : Type ℓ} {B : Type κ} → Option A → (A → Option B) → Option B
bind_option none next = none
bind_option (some a) next = next a

-- The tables `HEX_LUT` and `HEX_LUT_UPPER`: ten digits, then the letters from `letter` on.
unfoldable pub hex_lut : ℕ → ℕ → ℕ
hex_lut letter d = if ltb d 10 then b'0' + d else letter + (d - 10)

-- `hex_encode` for `b'a'`, `hex_encode_upper` for `b'A'`.
unfoldable pub hex_encode : ℕ → Bytes → Bytes
hex_encode letter [] = []
hex_encode letter (b ∷ bs) =
    hex_lut letter (b / 16) ∷ hex_lut letter (b % 16) ∷ hex_encode letter bs

unfoldable pub hex_nibble : ℕ → Option ℕ
hex_nibble c =
    if leb b'0' c && leb c b'9'
    then some (c - b'0')
    else if leb b'a' c && leb c b'f'
    then some (c - b'a' + 10)
    else if leb b'A' c && leb c b'F'
    then some (c - b'A' + 10)
    else none

-- A text of odd length is rejected before its bytes are read; both give none.
unfoldable pub hex_decode : Bytes → Option Bytes
hex_decode [] = some []
hex_decode (c ∷ []) = none
hex_decode (c ∷ d ∷ cs) =
    let rest = hex_decode cs in
    bind_option (hex_nibble c) (λ hi.
      bind_option (hex_nibble d) (λ lo. bind_option rest (λ out. some ((hi * 16 + lo) ∷ out))))

-- `parse::<i32>`
unfoldable pub parse_digits : ℕ → Bytes → Option ℕ
parse_digits acc [] = some acc
parse_digits acc (c ∷ cs) =
    if leb b'0' c && leb c b'9' then parse_digits (10 * acc + (c - b'0')) cs else none

unfoldable pub parse_positive : Bytes → Option ℤ
parse_positive [] = none
parse_positive (c ∷ cs) =
    bind_option (parse_digits 0 (c ∷ cs)) (λ n. if ltb n (2 ^ 31) then some (pos n) else none)

unfoldable pub parse_negative : Bytes → Option ℤ
parse_negative [] = none
parse_negative (c ∷ cs) =
    bind_option (parse_digits 0 (c ∷ cs))
      (λ n. if n == 0 then some (pos 0) else if leb n (2 ^ 31) then some (negsuc (n - 1)) else none)

unfoldable pub parse_i32 : Bytes → Option ℤ
parse_i32 [] = none
parse_i32 (c ∷ cs) =
    if c == b'-'
    then parse_negative cs
    else if c == b'+'
    then parse_positive cs
    else parse_positive (c ∷ cs)

-- One cut of `splitn`: the text before the first separator, and the text behind it.
unfoldable pub split_once : ℕ → Bytes → Option (Bytes × Bytes)
split_once sep [] = none
split_once sep (c ∷ cs) =
    let rest = split_once sep cs in
    if c == sep then some ([], cs) else bind_option rest (λ r. some (c ∷ r.0, r.1))

unfoldable pub encode_postgres : Xid → Bytes
encode_postgres xid =
    print_int xid.format_id
    ++ (b'_' ∷ (hex_encode b'a' xid.gtrid ++ (b'_' ∷ hex_encode b'a' xid.bqual)))

-- What the three decoders do at their end.
unfoldable pub decode_components : ℤ → Bytes → Bytes → Option Xid
decode_components format_id gtrid_hex bqual_hex = bind_option (hex_decode gtrid_hex) (λ gtrid.
    bind_option (hex_decode bqual_hex) (λ bqual. to_option (new_xid format_id gtrid bqual)))

unfoldable pub decode_postgres : Bytes → Option Xid
decode_postgres s = bind_option (split_once b'_' s) (λ first.
    bind_option (split_once b'_' first.1) (λ second.
      bind_option (parse_i32 first.0) (λ format_id. decode_components format_id second.0 second.1)))

unfoldable pub encode_mysql_components : Xid → Bytes × Bytes × ℤ
encode_mysql_components xid = (hex_encode b'a' xid.gtrid, hex_encode b'a' xid.bqual, xid.format_id)

unfoldable pub decode_mysql_components : Bytes × Bytes × ℤ → Option Xid
decode_mysql_components (gtrid_hex, bqual_hex, format_id) =
    decode_components format_id gtrid_hex bqual_hex

unfoldable pub encode_oracle_components : Xid → ℤ × Bytes × Bytes
encode_oracle_components xid = (xid.format_id, hex_encode b'A' xid.gtrid, hex_encode b'A' xid.bqual)

unfoldable pub decode_oracle_components : ℤ × Bytes × Bytes → Option Xid
decode_oracle_components (format_id, gtrid_hex, bqual_hex) =
    decode_components format_id gtrid_hex bqual_hex
