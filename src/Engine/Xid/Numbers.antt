-- ===== src/Engine/Xid/Numbers.antt =====
-- Decimal and hexadecimal texts are read back.
use dart_odbc_fast.Prelude.{
  ℕ, zero, suc, ◌+◌, ◌-◌, ◌*◌, ◌/◌, ◌%◌, ◌^◌, ◌<◌, ◌≤◌, false, ◌&&◌, ◌==◌, leb, ltb, [], ◌∷◌, ◌++◌,
  some, ◌≡◌, refl, ap, ◌∙◌, ◌⊎◌, inl, inr, arith, All, All-append, Bool-cases,
}
use dart_odbc_fast.Wire.{Bytes, AreBytes}
use dart_odbc_fast.Wire.Print.{decimal_digits}
use dart_odbc_fast.Engine.Xid.{
  bind_option, hex_lut, hex_encode, hex_nibble, hex_decode, parse_digits, split_once,
}
use native.Mathlib.Nat.{pow-suc}

abbrev pub IsDigit : ℕ → Type 0
IsDigit c = (48 ≤ c) × (c ≤ 57)

pub decimal_digits-All : (fuel n : ℕ) → All IsDigit (decimal_digits fuel n)
unfolding decimal_digits
decimal_digits-All zero n = omega arith
decimal_digits-All (suc fuel) n = elim (Bool-cases (ltb n 10)) [
  | inl e ↦ rw (decimal_digits, e) (ground arith)
  | inr e ↦
      rw (decimal_digits, e)
        (All-append IsDigit (decimal_digits fuel (n / 10)) _ (decimal_digits-All fuel (n / 10))
          (omega arith))
]

parse_digits-append :
    (acc : ℕ) (xs ys : Bytes)
    → parse_digits acc (xs ++ ys) ≡ bind_option (parse_digits acc xs) (λ n. parse_digits n ys)
unfolding parse_digits
parse_digits-append acc [] ys = refl
parse_digits-append acc (c ∷ xs) ys = elim (Bool-cases (leb b'0' c && leb c b'9')) [
  | inl e ↦ rw (parse_digits, e) (parse_digits-append (10 * acc + (c - b'0')) xs ys)
  | inr e ↦ rw (parse_digits, e) refl
]

one_digit : (acc d : ℕ) → d < 10 → parse_digits acc ((b'0' + d) ∷ []) ≡ some (10 * acc + d)
unfolding parse_digits
one_digit acc d h = ground arith

pub parse_digits-decimal_digits :
    (fuel n : ℕ) → n < 10 ^ suc fuel → parse_digits 0 (decimal_digits fuel n) ≡ some n
unfolding decimal_digits
parse_digits-decimal_digits zero n h =
    let small : 10 * 0 + n % 10 ≡ n = omega arith in
    one_digit 0 (n % 10) (omega arith) ∙ ap some small
parse_digits-decimal_digits (suc fuel) n h = elim (Bool-cases (ltb n 10)) [
  | inl e ↦
      rw (decimal_digits, e)
        (let low : 10 * 0 + n ≡ n = omega arith in one_digit 0 n (ground arith) ∙ ap some low)
  | inr e ↦
      let h' : n < 10 ^ suc fuel * 10 = rw (← pow-suc 10 (suc fuel)) h in
      let whole : 10 * (n / 10) + n % 10 ≡ n = omega arith in
      rw
        (
          decimal_digits,
          e,
          parse_digits-append 0 (decimal_digits fuel (n / 10)) ((b'0' + n % 10) ∷ []),
          parse_digits-decimal_digits fuel (n / 10) (omega arith),
        )
        (one_digit (n / 10) (n % 10) (omega arith) ∙ ap some whole)
]

hex_nibble-hex_lut :
    (letter d : ℕ)
    → (letter ≡ b'a') ⊎ (letter ≡ b'A')
    → d < 16
    → hex_nibble (hex_lut letter d) ≡ some d
unfolding hex_nibble hex_lut
hex_nibble-hex_lut letter d h small = ground arith

-- A byte string is read back from either form of its hexadecimal text.
pub hex_decode-hex_encode :
    (letter : ℕ) (bs : Bytes)
    → (letter ≡ b'a') ⊎ (letter ≡ b'A')
    → AreBytes bs
    → hex_decode (hex_encode letter bs) ≡ some bs
unfolding hex_decode hex_encode
hex_decode-hex_encode letter [] h bytes = refl
hex_decode-hex_encode letter (b ∷ bs) h bytes =
    let whole : b / 16 * 16 + b % 16 ≡ b = omega arith in
    rw
      (
        hex_nibble-hex_lut letter (b / 16) h (omega (arith, bytes.0)),
        hex_nibble-hex_lut letter (b % 16) h (omega arith),
        hex_decode-hex_encode letter bs h bytes.1,
        whole,
      )
      refl

-- No separator stands in these bytes.
abbrev pub Without : ℕ → Bytes → Type 0
Without sep bs = All (λ c. (c == sep) ≡ false) bs

pub split_once-append :
    (sep : ℕ) (xs ys : Bytes) → Without sep xs → split_once sep (xs ++ (sep ∷ ys)) ≡ some (xs, ys)
unfolding split_once
split_once-append sep [] ys h = ground arith
split_once-append sep (c ∷ xs) ys h = rw (h.0, split_once-append sep xs ys h.1) refl

hex_lut-Without : (d : ℕ) → d < 16 → (hex_lut b'a' d == b'_') ≡ false
unfolding hex_lut
hex_lut-Without d h = ground arith

pub hex_encode-Without : (bs : Bytes) → AreBytes bs → Without b'_' (hex_encode b'a' bs)
unfolding hex_encode
hex_encode-Without [] h = tt
hex_encode-Without (b ∷ bs) h = (
  hex_lut-Without (b / 16) (omega (arith, h.0)),
  (hex_lut-Without (b % 16) (omega arith), hex_encode-Without bs h.1),
)
