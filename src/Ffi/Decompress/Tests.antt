-- ===== src/Ffi/Decompress/Tests.antt =====
-- A client that gives its memory back twice.
use dart_odbc_fast.Prelude.{
  ℕ, suc, ◌≤◌, ◌==◌, true, false, List, [], ◌∷◌, max, ok, some, none, ◌≡◌, refl, arith,
}
use dart_odbc_fast.Protocol.Compression.{Codecs}
use dart_odbc_fast.Wire.{checked_add}
use dart_odbc_fast.Protocol.Columnar.{from_u8}
use dart_odbc_fast.Protocol.Compression.{decompress_with_limit, read_limited, read_to_end}
use dart_odbc_fast.Ffi.Decompress.{
  allocated, freed, hand_out, odbc_columnar_decompress, odbc_columnar_decompress_free,
}
use dart_odbc_fast.Ffi.Decompress.AddressMap.{remove, Table, lookup}
use dart_odbc_fast.Ffi.Decompress.Blocks.{replay, blocks}
use dart_odbc_fast.Ffi.Decompress.Laws.{GivesFresh, Operation, decompress, free, run, run_lem}

-- Codecs that copy.
abbrev copying : Codecs
copying = record {
  zstd_encode_all = λ bytes level. ok bytes;
  zstd_decoder = λ bytes. ok (record { content = bytes; failure = none });
  lz4_build = λ level. ok tt;
  lz4_write_all = λ bytes. ok tt;
  lz4_finish = λ bytes. (bytes, ok tt);
  lz4_decoder = λ bytes. ok (record { content = bytes; failure = none });
}

-- An allocator that goes past every address in use.
abbrev past : Table (ℕ × ℕ) → ℕ
past [] = 16
past ((p, v) ∷ t) = max (suc p) (past t)

past_large : (t : Table (ℕ × ℕ)) → 16 ≤ past t
past_large [] = omega arith
past_large ((p, v) ∷ t) = omega (arith, past_large t)

lookup-past : (q : ℕ) (t : Table (ℕ × ℕ)) → past t ≤ q → lookup q t ≡ none
unfolding lookup
lookup-past q [] h = refl
lookup-past q ((p, v) ∷ t) h =
    let other : (p == q) ≡ false = ground arith in rw other (lookup-past q t (omega arith))

past-GivesFresh : GivesFresh past
past-GivesFresh t = (
  lookup-past (past t) t (omega arith),
  λ e. omega (arith, past_large t),
  λ e. omega (arith, past_large t),
)

abbrev some_calls : List Operation
some_calls =
    decompress 1 (some (1 ∷ 2 ∷ 3 ∷ [])) true
    ∷ decompress 2 (some []) true
    ∷ free 16 0 0
    ∷ free 16 3 3
    ∷ free 1 0 0
    ∷ []

run_lem_example :
    (let m = run copying past (λ n. n) some_calls (record { allocations = []; heap = [] }) in
      replay m.heap ≡ some (blocks m.allocations))
run_lem_example = run_lem copying past (λ n. n) past-GivesFresh some_calls

some_calls_heap :
    (run copying past (λ n. n) some_calls (record { allocations = []; heap = [] })).heap
    ≡ freed 16 3 ∷ allocated 16 3 ∷ []
unfolding run odbc_columnar_decompress odbc_columnar_decompress_free hand_out lookup remove from_u8
    decompress_with_limit read_limited read_to_end checked_add
some_calls_heap = refl
