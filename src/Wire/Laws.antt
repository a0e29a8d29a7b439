-- ===== src/Wire/Laws.antt =====
-- Laws of little-endian integers: what is written is read back, and what is read is what stands there.
use dart_odbc_fast.Prelude.{
  ℕ, zero, suc, ◌+◌, ◌*◌, ◌/◌, ◌%◌, ◌^◌, ◌≤◌, ◌<◌, ◌≡◌, refl, ap, arith, [], ◌∷◌, ◌++◌, length,
  take, drop, length-append, take-append_eq, drop-append_eq, length-take, All-take,
  take-append-drop, true,
}
use dart_odbc_fast.Wire.{Bytes, IsByte, AreBytes, le_bytes, from_le, get_le, starts_with}
use native.Mathlib.Nat.{pow-suc}

pub length-le_bytes : (w n : ℕ) → length (le_bytes w n) ≡ w
unfolding le_bytes
length-le_bytes zero n = refl
length-le_bytes (suc w) n = ap suc (length-le_bytes w (n / 256))

pub le_bytes-AreBytes : (w n : ℕ) → AreBytes (le_bytes w n)
unfolding le_bytes
le_bytes-AreBytes zero n = tt
le_bytes-AreBytes (suc w) n = (omega arith, le_bytes-AreBytes w (n / 256))

pub from_le-le_bytes : (w n : ℕ) → n < 256 ^ w → from_le (le_bytes w n) ≡ n
unfolding le_bytes from_le
from_le-le_bytes zero n h = omega arith
from_le-le_bytes (suc w) n h =
    let h' : n < 256 ^ w * 256 = rw (← pow-suc 256 w) h in
    omega (arith, from_le-le_bytes w (n / 256) (omega arith))

pub from_le-lt : (bs : Bytes) → AreBytes bs → from_le bs < 256 ^ length bs
unfolding from_le
from_le-lt [] h = omega arith
from_le-lt (b ∷ bs) h = rw (pow-suc 256 (length bs)) (omega (arith, from_le-lt bs h.1))

pub le_bytes-from_le : (bs : Bytes) → AreBytes bs → le_bytes (length bs) (from_le bs) ≡ bs
unfolding le_bytes from_le
le_bytes-from_le [] h = refl
le_bytes-from_le (b ∷ bs) h =
    let low : (b + 256 * from_le bs) % 256 ≡ b = omega arith in
    let high : (b + 256 * from_le bs) / 256 ≡ from_le bs = omega arith in
    rw (low, high) (ap (◌∷◌ b) (le_bytes-from_le bs h.1))

pub drop-le_bytes : (w n : ℕ) (rest : Bytes) → drop w (le_bytes w n ++ rest) ≡ rest
drop-le_bytes w n rest = drop-append_eq w (le_bytes w n) rest (length-le_bytes w n)

pub get_le-le_bytes : (w n : ℕ) (rest : Bytes) → n < 256 ^ w → get_le w (le_bytes w n ++ rest) ≡ n
unfolding get_le
get_le-le_bytes w n rest h =
    rw (take-append_eq w (le_bytes w n) rest (length-le_bytes w n)) (from_le-le_bytes w n h)

pub length-le_bytes-append :
    (w n : ℕ) (rest : Bytes) → length (le_bytes w n ++ rest) ≡ w + length rest
length-le_bytes-append w n rest =
    omega (arith, length-append (le_bytes w n) rest, length-le_bytes w n)

-- What a fixed-width read sees is the encoding of the value that it returns.
pub le_bytes-get_le :
    (w : ℕ) (buf : Bytes)
    → AreBytes buf
    → w ≤ length buf
    → le_bytes w (get_le w buf) ++ drop w buf ≡ buf
unfolding get_le
le_bytes-get_le w buf h fits =
    let e : length (take w buf) ≡ w = omega (arith, length-take w buf) in
    let read : le_bytes w (from_le (take w buf)) ≡ take w buf =
      rw e at (le_bytes-from_le (take w buf) (All-take IsByte w buf h)) in
    rw read (take-append-drop w buf)

pub get_le-lt : (w : ℕ) (buf : Bytes) → AreBytes buf → w ≤ length buf → get_le w buf < 256 ^ w
unfolding get_le
get_le-lt w buf h fits =
    let e : length (take w buf) ≡ w = omega (arith, length-take w buf) in
    rw e at (from_le-lt (take w buf) (All-take IsByte w buf h))

pub AreBytes-rest : (xs ys : Bytes) → AreBytes (xs ++ ys) → AreBytes ys
AreBytes-rest [] ys h = h
AreBytes-rest (x ∷ xs) ys h = AreBytes-rest xs ys h.1

pub starts_with-append : (ps rest : Bytes) → starts_with (ps ++ rest) ps ≡ true
unfolding starts_with
starts_with-append [] rest = refl
starts_with-append (p ∷ ps) rest = ground (arith, starts_with-append ps rest)
