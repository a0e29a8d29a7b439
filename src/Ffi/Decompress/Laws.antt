-- ===== src/Ffi/Decompress/Laws.antt =====
-- No history of calls frees what is not in use, or with another capacity than it was given.
use dart_odbc_fast.Prelude.{
  ℕ, ◌==◌, ◌||◌, Bool, true, false, List, [], ◌∷◌, length, Option, none, some, ok, err, ◌≡◌, ◌≢◌,
  refl, ap, ◌∙◌, arith, All, inl, inr, Bool-cases, ==_iff, ==_self,
}
use dart_odbc_fast.Prelude.Int.{ℤ}
use dart_odbc_fast.Wire.{Bytes}
use dart_odbc_fast.Error.{OdbcResult}
use dart_odbc_fast.Ffi.{as_i32, invalid_argument}
use dart_odbc_fast.Protocol.Columnar.{CompressionType, uncompressed, zstd, lz4, from_u8}
use dart_odbc_fast.Protocol.Compression.{Codecs, decompress_with_limit}
use dart_odbc_fast.Ffi.Decompress.{
  Output, HeapCall, allocated, freed, Memory, over_u32, call_heap, hand_out,
  odbc_columnar_decompress, odbc_columnar_decompress_free, max_columnar_decompressed_len,
}
use dart_odbc_fast.Ffi.Decompress.AddressMap.{Table, lookup, remove, insert}
use dart_odbc_fast.Ffi.Decompress.Blocks.{
  replay, blocks, Dangles, remove-Dangles, blocks-remove, lookup-blocks_free, lookup-blocks_used,
  remove_dangling, lookup-Dangles, insert_dangling, insert_fresh,
}

-- The blocks in use are those of the recorded vectors.
abbrev pub IsSound : Memory → Type 0
IsSound m = (replay m.heap ≡ some (blocks m.allocations)) × All Dangles m.allocations

replay-freed :
    (p c : ℕ) (heap : List HeapCall) (live : Table ℕ)
    → replay heap ≡ some live
    → lookup p live ≡ some c
    → replay (freed p c ∷ heap) ≡ some (remove p live)
unfolding replay
replay-freed p c heap live r h = rw (r, h, ==_self c) refl

replay-allocated :
    (p c : ℕ) (heap : List HeapCall) (live : Table ℕ)
    → replay heap ≡ some live
    → lookup p live ≡ none
    → replay (allocated p c ∷ heap) ≡ some ((p, c) ∷ live)
unfolding replay
replay-allocated p c heap live r h = rw (r, h) refl

free-IsSound :
    (p len cap : ℕ) (m : Memory) → IsSound m → IsSound (odbc_columnar_decompress_free p len cap m)
unfolding odbc_columnar_decompress_free
free-IsSound p len cap m (r, d) = elim (Bool-cases (p == 0)) [
  | inl e ↦ rw e (r, d)
  | inr e ↦ rw e (release (lookup p m.allocations) refl)
]
  where
    release :
        (o : Option (ℕ × ℕ))
        → lookup p m.allocations ≡ o
        → IsSound (elim o [
          | none ↦ m
          | some (actual_len, actual_cap) ↦ record {
            allocations = remove p m.allocations;
            heap = call_heap actual_cap (freed p actual_cap) m.heap;
          }
        ])
    release none h = (r, d)
    release (some (l, c)) h = elim (Bool-cases (c == 0)) [
      | inl z ↦
          let dangling : p ≡ 1 = (lookup-Dangles p (l, c) m.allocations d h).0 ((==_iff c 0).0 z) in
          let same : blocks (remove p m.allocations) ≡ blocks m.allocations =
            blocks-remove p m.allocations
            ∙ ap (λ q. remove q (blocks m.allocations)) dangling
            ∙ remove_dangling m.allocations d in
          (rw (z, same) r, remove-Dangles p m.allocations d)
      | inr z ↦
          let used = lookup-blocks_used p l c m.allocations h (λ e. ground (arith, z, e)) in
          (
            rw (z, blocks-remove p m.allocations)
                (replay-freed p c m.heap (blocks m.allocations) r used),
            remove-Dangles p m.allocations d,
          )
    ]

-- The allocator gives an address that is not in use and is not the pointer of a vector without memory.
abbrev pub GivesFresh : (Table (ℕ × ℕ) → ℕ) → Type 0
GivesFresh malloc =
    (t : Table (ℕ × ℕ)) → (lookup (malloc t) t ≡ none) × (malloc t ≢ 1) × (malloc t ≢ 0)

-- A call of a client in C. The memory that it gives back may be anything.
pub data Operation : Type 0 where
  decompress : ℕ → Option Bytes → Bool → Operation
  free : ℕ → ℕ → ℕ → Operation

insert_step_empty :
    (m : Memory) (v : Bytes) (cap : ℕ)
    → replay m.heap ≡ some (blocks m.allocations)
    → All Dangles m.allocations
    → (cap == 0) ≡ true
    → replay m.heap ≡ some (blocks (insert 1 (length v, cap) m.allocations))
insert_step_empty m v cap r d z = rw (insert_dangling (length v) cap m.allocations d z) r

insert_step :
    (m : Memory) (v : Bytes) (p cap : ℕ)
    → replay m.heap ≡ some (blocks m.allocations)
    → lookup p m.allocations ≡ none
    → (cap == 0) ≡ false
    → replay (allocated p cap ∷ m.heap) ≡ some (blocks (insert p (length v, cap) m.allocations))
insert_step m v p cap r absent z = rw (insert_fresh p (length v) cap m.allocations absent z) (
    replay-allocated p cap m.heap (blocks m.allocations) r
      (lookup-blocks_free p m.allocations absent))

module _ (codecs : Codecs) (malloc : Table (ℕ × ℕ) → ℕ) (shrunk : ℕ → ℕ) where
  hand_out-IsSound :
      GivesFresh malloc
      → (v : Bytes) (m : Memory) → IsSound m
      → IsSound (hand_out codecs malloc shrunk v m).1.1
  unfolding hand_out
  hand_out-IsSound fresh v m (r, d) =
      elim (Bool-cases (over_u32 (length v) || over_u32 (shrunk (length v)))) [
        | inl e ↦ rw e (r, d)
        | inr e ↦ elim (Bool-cases (shrunk (length v) == 0)) [
          | inl z ↦
              let cap = shrunk (length v) in
              let zero_cap : cap ≡ 0 = (==_iff cap 0).0 z in
              (
                rw (e, z) (insert_step_empty m v cap r d z),
                rw (e, z) ((λ _. refl, λ _. zero_cap), remove-Dangles 1 m.allocations d),
              )
          | inr z ↦
              let cap = shrunk (length v) in
              let p = malloc m.allocations in
              let new_block = fresh m.allocations in
              (
                rw (e, z) (insert_step m v p cap r new_block.0 z),
                rw (e, z)
                    (
                      (λ h. absurd (ground (arith, z, h)), λ h. absurd (new_block.1 h)),
                      remove-Dangles p m.allocations d,
                    ),
              )
        ]
      ]

  decompress-IsSound :
      GivesFresh malloc
      → (algorithm : ℕ) (input : Option Bytes) (outputs : Bool) (m : Memory) → IsSound m
      → IsSound (odbc_columnar_decompress codecs malloc shrunk algorithm input outputs m).1.1
  unfolding odbc_columnar_decompress
  decompress-IsSound fresh algorithm none outputs m s = s
  decompress-IsSound fresh algorithm (some bytes) false m s = s
  decompress-IsSound fresh algorithm (some bytes) true m s = choose (from_u8 algorithm)
    where
      unpack :
          (r : OdbcResult Bytes)
          → IsSound (
              let answer : ℤ × (Option Output × Memory) = elim r [
                | ok v ↦ hand_out codecs malloc shrunk v m
                | err e ↦ (as_i32 invalid_argument, (none, m))
              ] in
              answer.1.1)
      unpack (ok v) = hand_out-IsSound fresh v m s
      unpack (err e) = s

      choose :
          (t : CompressionType)
          → IsSound (
              let answer : ℤ × (Option Output × Memory) = elim t [
                | uncompressed ↦ (as_i32 invalid_argument, (none, m))
                | u ↦ elim (decompress_with_limit codecs bytes u max_columnar_decompressed_len) [
                  | ok v ↦ hand_out codecs malloc shrunk v m
                  | err e ↦ (as_i32 invalid_argument, (none, m))
                ]
              ] in
              answer.1.1)
      choose uncompressed = s
      choose zstd = unpack (decompress_with_limit codecs bytes zstd max_columnar_decompressed_len)
      choose lz4 = unpack (decompress_with_limit codecs bytes lz4 max_columnar_decompressed_len)

  unfoldable pub run : List Operation → Memory → Memory
  run [] m = m
  run (decompress algorithm input outputs ∷ calls) m =
      run calls (odbc_columnar_decompress codecs malloc shrunk algorithm input outputs m).1.1
  run (free p len cap ∷ calls) m = run calls (odbc_columnar_decompress_free p len cap m)

  run-IsSound :
      GivesFresh malloc → (calls : List Operation) (m : Memory) → IsSound m → IsSound (run calls m)
  unfolding run
  run-IsSound fresh [] m s = s
  run-IsSound fresh (decompress algorithm input outputs ∷ calls) m s =
      run-IsSound fresh calls
        (odbc_columnar_decompress codecs malloc shrunk algorithm input outputs m).1.1
        (decompress-IsSound fresh algorithm input outputs m s)
  run-IsSound fresh (free p len cap ∷ calls) m s =
      run-IsSound fresh calls (odbc_columnar_decompress_free p len cap m)
        (free-IsSound p len cap m s)

  -- Whatever a client calls, with any addresses, lengths and capacities that it gives back, in any
  -- order and as often as it likes, every block that the library frees is in use and is freed with the
  -- capacity that it was allocated with, and the blocks in use are exactly those that the table records
  -- for vectors with a capacity. The allocator is assumed to give addresses that are not in use.
  pub run_lem :
      GivesFresh malloc
      → (calls : List Operation)
      → (let m = run calls (record { allocations = []; heap = [] }) in
          replay m.heap ≡ some (blocks m.allocations))
  unfolding replay blocks
  run_lem fresh calls =
      (run-IsSound fresh calls (record { allocations = []; heap = [] }) (refl, tt)).0
