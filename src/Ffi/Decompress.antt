-- ===== src/Ffi/Decompress.antt =====
-- ffi/columnar_decompress.rs: the bytes of a column for a caller in C, who gives the memory back. A
-- pointer to the input is null where it is `none`; a pointer to memory of this library is its address,
-- and 0 is null. A `Vec` without capacity has no memory, and its pointer is 1.
pub mod AddressMap
pub mod Blocks
pub mod Laws
mod Tests
use dart_odbc_fast.Prelude.{
  ℕ, zero, suc, ◌-◌, ◌^◌, ◌==◌, ltb, ◌||◌, not, Bool, if◌then◌else◌, List, [], ◌∷◌, length, Option,
  none, some, ok, err,
}
use dart_odbc_fast.Prelude.Int.{ℤ, pos}
use dart_odbc_fast.Wire.{Bytes}
use dart_odbc_fast.Protocol.Columnar.{CompressionType, uncompressed, from_u8}
use dart_odbc_fast.Protocol.Compression.{Codecs, decompress_with_limit}
use dart_odbc_fast.Ffi.{null_pointer, invalid_argument, resource_limit, as_i32}
use dart_odbc_fast.Ffi.Decompress.AddressMap.{Table, lookup, remove, insert}

abbrev pub max_columnar_decompressed_len : ℕ
max_columnar_decompressed_len = 268435456

-- A call of the allocator, with an address and a capacity.
pub data HeapCall : Type 0 where
  allocated : ℕ → ℕ → HeapCall
  freed : ℕ → ℕ → HeapCall

-- The recorded lengths and capacities by address, and the calls of the allocator, newest first.
pub record Memory : Type 0 where
  pub allocations : Table (ℕ × ℕ)
  pub heap : List HeapCall

-- What the caller gets: an address with the bytes there, and a capacity.
pub record Output : Type 0 where
  pub address : ℕ
  pub content : Bytes
  pub cap : ℕ

-- `len > c_uint::MAX`
abbrev pub over_u32 : ℕ → Bool
over_u32 n = ltb (2 ^ 32 - 1) n

abbrev pub call_heap : ℕ → HeapCall → List HeapCall → List HeapCall
call_heap cap call heap = if cap == 0 then heap else call ∷ heap

-- The allocator is a parameter: the address that it finds beside those in use, and the capacity that a
-- vector of some length shrinks to.
module _ (codecs : Codecs) (malloc : Table (ℕ × ℕ) → ℕ) (shrunk : ℕ → ℕ) where
  unfoldable pub hand_out : Bytes → Memory → ℤ × (Option Output × Memory)
  hand_out v m =
      let cap = shrunk (length v) in
      let len = length v in
      let p = if cap == 0 then 1 else malloc m.allocations in
      if over_u32 len || over_u32 cap then (as_i32 resource_limit, (none, m)) else (
        pos 0,
        (
          some (record { address = p; content = v; cap = cap }),
          record {
            allocations = insert p (len, cap) m.allocations;
            heap = call_heap cap (allocated p cap) m.heap;
          },
        ),
      )

  -- `outputs` says whether the three pointers to the results are there. On 64 bits no `u32` is over the
  -- largest `usize`.
  unfoldable pub odbc_columnar_decompress :
      ℕ → Option Bytes → Bool → Memory → ℤ × (Option Output × Memory)
  odbc_columnar_decompress algorithm none outputs m = (as_i32 null_pointer, (none, m))
  odbc_columnar_decompress algorithm (some bytes) outputs m =
      if not outputs then (as_i32 null_pointer, (none, m)) else elim (from_u8 algorithm) [
        | uncompressed ↦ (as_i32 invalid_argument, (none, m))
        | t ↦ elim (decompress_with_limit codecs bytes t max_columnar_decompressed_len) [
          | ok v ↦ hand_out v m
          | err e ↦ (as_i32 invalid_argument, (none, m))
        ]
      ]

-- The length and the capacity that the caller gives back are ignored.
unfoldable pub odbc_columnar_decompress_free : ℕ → ℕ → ℕ → Memory → Memory
odbc_columnar_decompress_free p len cap m = if p == 0 then m else elim (lookup p m.allocations) [
  | none ↦ m
  | some (actual_len, actual_cap) ↦ record {
    allocations = remove p m.allocations;
    heap = call_heap actual_cap (freed p actual_cap) m.heap;
  }
]
