-- ===== src/Engine/Spill/Holds.antt =====
-- What a stream holds: the bytes in memory, or those of its file.
use dart_odbc_fast.Prelude.{
  ℕ, ◌+◌, ◌-◌, ◌^◌, ◌≤◌, ◌<◌, ltb, min, ◌==◌, not, ◌&&◌, true, false, [], ◌∷◌, ◌++◌, length, none,
  some, Result, ok, err, ◌≡◌, refl, ap, arith, Bool, if◌then◌else◌, length-append,
}
use dart_odbc_fast.Wire.{Bytes}
use dart_odbc_fast.Error.{text, format, OdbcError, OdbcResult, internal_error}
use dart_odbc_fast.Engine.Spill.{
  FileSystem, Spill, io_error, spill_path, spill_to_disk, write_to_file, write_chunk,
}

-- A file system on which no call fails.
pub record IsReliable (fs : FileSystem) : Type 0 where
  pub creates : (path : Bytes) (d : FileSystem.Disk fs) → (fs.create path d).0 ≡ ok tt
  pub writes : (path bytes : Bytes) (d : FileSystem.Disk fs) → (fs.write_all path bytes d).0 ≡ ok tt
  pub flushes : (path : Bytes) (d : FileSystem.Disk fs) → (fs.flush path d).0 ≡ ok tt
  pub reads : (path : Bytes) (d : FileSystem.Disk fs) → (out : Bytes) × (fs.read path d ≡ ok out)

module _ (fs : FileSystem) where
  -- A stream in memory, and a stream with an open file and nothing in memory.
  abbrev pub memory_stream : ℕ → Bytes → Bytes → FileSystem.Disk fs → Spill fs
  memory_stream threshold dir bytes d = (
    record {
      threshold_bytes = threshold;
      temp_dir = dir;
      temp_path = none;
      file = none;
      memory_buffer = bytes;
    },
    d,
  )

  abbrev pub file_stream : ℕ → Bytes → Bytes → FileSystem.Disk fs → Spill fs
  file_stream threshold dir path d = (
    record {
      threshold_bytes = threshold;
      temp_dir = dir;
      temp_path = some path;
      file = some path;
      memory_buffer = [];
    },
    d,
  )

  -- What a stream with the threshold `threshold` holds; in memory it is within the threshold.
  pub data Holds (threshold : ℕ) : Spill fs → Bytes → Type 0 where
    in_memory :
        (dir bytes : Bytes) (d : FileSystem.Disk fs)
        → length bytes ≤ threshold
        → Holds threshold (memory_stream threshold dir bytes d) bytes
    in_file :
        (dir path bytes : Bytes) (d : FileSystem.Disk fs)
        → fs.content path d ≡ bytes
        → Holds threshold (file_stream threshold dir path d) bytes

  -- A call has done its work, or the file system has failed.
  pub data Step {S : Type 0} (Good : S → Type 0) : OdbcResult (Unit {0}) × S → Type 0 where
    done : (s : S) → Good s → Step Good (ok tt, s)
    failed : (e : OdbcError) (s : S) → ¬ IsReliable fs → Step Good (err e, s)

  write_to_file-Holds :
      (threshold : ℕ) (dir path bytes chunk : Bytes) (d : FileSystem.Disk fs)
      → fs.content path d ≡ bytes
      → Step
          (λ s'. Holds threshold s' (bytes ++ chunk))
          (write_to_file fs chunk (file_stream threshold dir path d))
  unfolding write_to_file
  write_to_file-Holds threshold dir path bytes chunk d e = wrote (fs.write_all path chunk d) refl
    where
      wrote :
          (r : Result Bytes (Unit {0}) × FileSystem.Disk fs)
          → fs.write_all path chunk d ≡ r
          → Step
              (λ s'. Holds threshold s' (bytes ++ chunk))
              (io_error "spill write: {}" r.0, file_stream threshold dir path r.1)
      wrote (ok u, d') h =
          let law = fs.write_all-content path chunk d (ap (λ r. r.0) h) in
          let law' : fs.content path d' ≡ fs.content path d ++ chunk = rw h at law in
          done (file_stream threshold dir path d')
            (in_file dir path (bytes ++ chunk) d' (rw (← e) law'))
      wrote (err x, d') h =
          failed (internal_error (format "spill write: {}" (text x ∷ [])))
            (file_stream threshold dir path d')
            (λ r.
              let good = r.writes path chunk d in
              let bad = ap (λ r. r.0) h in absurd (cc (good, bad)))

  -- A stream in memory is written to a file, and then the chunk behind it.
  abbrev spilled_write : ℕ → Bytes → Spill fs → OdbcResult (Unit {0}) × Spill fs
  spilled_write millis chunk s =
      let spilled = spill_to_disk fs millis s in
      elim spilled.0 [ err e ↦ (err e, spilled.1) | ok _ ↦ write_to_file fs chunk spilled.1 ]

  spilled_write-Holds :
      (millis threshold : ℕ) (dir bytes chunk : Bytes) (d : FileSystem.Disk fs)
      → Step
          (λ s'. Holds threshold s' (bytes ++ chunk))
          (spilled_write millis chunk (memory_stream threshold dir bytes d))
  unfolding spill_to_disk
  spilled_write-Holds millis threshold dir bytes chunk d =
      created (fs.create (spill_path dir millis) d) refl
    where
      path : Bytes
      path = spill_path dir millis

      wrote :
          (d0 : FileSystem.Disk fs) (r : Result Bytes (Unit {0}) × FileSystem.Disk fs)
          → fs.content path d0 ≡ []
          → fs.write_all path bytes d0 ≡ r
          → Step
              (λ s'. Holds threshold s' (bytes ++ chunk))
              (let spilled : OdbcResult (Unit {0}) × Spill fs =
                  elim (io_error "spill write: {}" r.0) [
                    | err e ↦ (err e, memory_stream threshold dir bytes r.1)
                    | ok _ ↦ (ok tt, file_stream threshold dir path r.1)
                  ] in
                elim spilled.0 [
                  | err e ↦ (err e, spilled.1)
                  | ok _ ↦ write_to_file fs chunk spilled.1
                ])
      wrote d0 (ok u, d') e h =
          let law = fs.write_all-content path bytes d0 (ap (λ r. r.0) h) in
          let law' : fs.content path d' ≡ fs.content path d0 ++ bytes = rw h at law in
          let held : fs.content path d' ≡ bytes = rw e at law' in
          write_to_file-Holds threshold dir path bytes chunk d' held
      wrote d0 (err x, d') e h =
          failed (internal_error (format "spill write: {}" (text x ∷ [])))
            (memory_stream threshold dir bytes d')
            (λ r.
              let good = r.writes path bytes d0 in
              let bad = ap (λ r. r.0) h in absurd (cc (good, bad)))

      created :
          (r : Result Bytes (Unit {0}) × FileSystem.Disk fs)
          → fs.create path d ≡ r
          → Step
              (λ s'. Holds threshold s' (bytes ++ chunk))
              (let spilled : OdbcResult (Unit {0}) × Spill fs =
                  elim (io_error "spill create: {}" r.0) [
                    | err e ↦ (err e, memory_stream threshold dir bytes r.1)
                    | ok _ ↦
                        let written = fs.write_all path bytes r.1 in
                        elim (io_error "spill write: {}" written.0) [
                          | err e ↦ (err e, memory_stream threshold dir bytes written.1)
                          | ok _ ↦ (ok tt, file_stream threshold dir path written.1)
                        ]
                  ] in
                elim spilled.0 [
                  | err e ↦ (err e, spilled.1)
                  | ok _ ↦ write_to_file fs chunk spilled.1
                ])
      created (ok u, d0) h =
          let law = fs.create-content path d (ap (λ r. r.0) h) in
          let law' : fs.content path d0 ≡ [] = rw h at law in
          wrote d0 (fs.write_all path bytes d0) law' refl
      created (err x, d0) h =
          failed (internal_error (format "spill create: {}" (text x ∷ [])))
            (memory_stream threshold dir bytes d0)
            (λ r.
              let good = r.creates path d in let bad = ap (λ r. r.0) h in absurd (cc (good, bad)))

  -- A chunk within the threshold is held behind what the stream held, or the file system has failed.
  pub write_chunk-Holds :
      (millis threshold : ℕ) (s : Spill fs) (bytes chunk : Bytes)
      → length chunk ≤ threshold
      → threshold + 1 < 2 ^ 64
      → Holds threshold s bytes
      → Step (λ s'. Holds threshold s' (bytes ++ chunk)) (write_chunk fs millis chunk s)
  unfolding write_chunk
  write_chunk-Holds millis threshold s bytes chunk small wide (in_file dir path _ d e) =
      write_to_file-Holds threshold dir path bytes chunk d e
  write_chunk-Holds millis threshold s bytes chunk small wide (in_memory dir _ d fits) =
      split
        (ltb threshold (min (length bytes + length chunk) (2 ^ 64 - 1)) && not (length bytes == 0))
        refl
    where
      split :
          (b : Bool)
          → (ltb threshold (min (length bytes + length chunk) (2 ^ 64 - 1))
              && not (length bytes == 0))
            ≡ b
          → Step
              (λ s'. Holds threshold s' (bytes ++ chunk))
              (if b
                then spilled_write millis chunk (memory_stream threshold dir bytes d)
                else (ok tt, memory_stream threshold dir (bytes ++ chunk) d))
      split true e = spilled_write-Holds millis threshold dir bytes chunk d
      split false e =
          let both : length (bytes ++ chunk) ≤ threshold =
            ground (arith, length-append bytes chunk) in
          done (memory_stream threshold dir (bytes ++ chunk) d)
            (in_memory dir (bytes ++ chunk) d both)
