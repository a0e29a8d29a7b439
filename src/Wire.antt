-- ===== src/Wire.antt =====
-- Byte buffers: `to_le_bytes`, `from_le_bytes` and slices of Rust's standard library, over lists of
-- numbers. A read cursor `offset` into `data` is the list of the bytes not read yet, `&data[offset..]`:
-- `data.len() - offset` is its length, and `offset += k` drops `k` bytes.
pub mod Laws
pub mod Utf8
pub mod Print
pub mod Repeat
use dart_odbc_fast.Prelude.{ℕ, zero, suc, ◌+◌, ◌*◌, ◌/◌, ◌%◌, ◌<◌, List, [], ◌∷◌, ◌==◌, take, All}
use dart_odbc_fast.Prelude.{
  Bool, true, false, ◌&&◌, ◌^◌, ltb, if◌then◌else◌, Option, none, some, Result, ok, err, String,
}
use Prim.Native.Char.{code}

abbrev pub Bytes : Type 0
Bytes = List ℕ

-- The bytes of an ASCII literal. `String` has its own `[]` and `∷`.
abbrev pub ascii : String → Bytes
ascii String.[] = []
ascii (String.◌∷◌ c s) = code c ∷ ascii s

abbrev pub IsByte : ℕ → Type 0
IsByte b = b < 256

abbrev pub AreBytes : Bytes → Type 0
AreBytes bs = All IsByte bs

-- `n.to_le_bytes()` of an unsigned integer of `w` bytes.
unfoldable pub le_bytes : ℕ → ℕ → Bytes
le_bytes zero n = []
le_bytes (suc w) n = (n % 256) ∷ le_bytes w (n / 256)

-- `uN::from_le_bytes(bs)`
unfoldable pub from_le : Bytes → ℕ
from_le [] = 0
from_le (b ∷ bs) = b + 256 * from_le bs

-- The unsigned integer of `w` bytes at the cursor.
unfoldable pub get_le : ℕ → Bytes → ℕ
unfolding from_le
get_le w cursor = from_le (take w cursor)

-- `data.starts_with(prefix)`
unfoldable pub starts_with : Bytes → Bytes → Bool
starts_with buf [] = true
starts_with [] (p ∷ ps) = false
starts_with (b ∷ bs) (p ∷ ps) = b == p && starts_with bs ps

-- `a.checked_add(b)` and `a.checked_mul(b)` on a 64-bit `usize`.
unfoldable pub checked_add : ℕ → ℕ → Option ℕ
checked_add a b = if ltb (a + b) (2 ^ 64) then some (a + b) else none

unfoldable pub checked_mul : ℕ → ℕ → Option ℕ
checked_mul a b = if ltb (a * b) (2 ^ 64) then some (a * b) else none

-- `o.ok_or(e)?`
abbrev pub ok_or {ℓ μ} : {E : Type μ} {A : Type ℓ} → Option A → E → Result E A
ok_or none e = err e
ok_or (some a) e = ok a
