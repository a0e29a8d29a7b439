-- ===== src/Wire/Print.antt =====
-- `to_string` of integers and `{:02x}` of a byte, as the bytes of the text.
use dart_odbc_fast.Prelude.{ℕ, zero, suc, ◌+◌, ◌-◌, ◌/◌, ◌%◌, [], ◌∷◌, ◌++◌, ltb, if◌then◌else◌}
use dart_odbc_fast.Prelude.Int.{ℤ, pos, negsuc}
use dart_odbc_fast.Wire.{Bytes}

-- The decimal digits of a number of at most `fuel + 1` digits.
unfoldable pub decimal_digits : ℕ → ℕ → Bytes
decimal_digits zero n = (b'0' + n % 10) ∷ []
decimal_digits (suc fuel) n =
    let high = decimal_digits fuel (n / 10) in
    if ltb n 10 then (b'0' + n) ∷ [] else high ++ ((b'0' + n % 10) ∷ [])

-- An `i64` has at most 19 digits.
unfoldable pub print_int : ℤ → Bytes
unfolding decimal_digits
print_int (pos n) = decimal_digits 19 n
print_int (negsuc n) = b'-' ∷ decimal_digits 19 (suc n)

hex_digit : ℕ → ℕ
hex_digit d = if ltb d 10 then b'0' + d else b'a' + d - 10

unfoldable pub print_hex : Bytes → Bytes
unfolding hex_digit
print_hex [] = []
print_hex (b ∷ bs) = hex_digit (b / 16) ∷ hex_digit (b % 16) ∷ print_hex bs
