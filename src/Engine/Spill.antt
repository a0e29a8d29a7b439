-- ===== src/Engine/Spill.antt =====
-- engine/core/disk_spill.rs: bytes that are kept in memory up to a threshold and in a temporary file
-- from there on. A path is a byte list, the current time is an argument, and an open writer is known by
-- the path of its file.
pub mod Holds
pub mod Session
pub mod ReadBack
mod Tests
use dart_odbc_fast.Prelude.{
  ℕ, zero, suc, ◌+◌, ◌-◌, ◌*◌, ◌/◌, ◌%◌, ◌^◌, ◌≤◌, max, min, ltb, leb, ◌==◌, not, ◌&&◌,
  if◌then◌else◌, Bool, List, [], ◌∷◌, ◌++◌, length, take, drop, Option, none, some, Result, ok, err,
  ◌≡◌, ◌≢◌, String,
}
use dart_odbc_fast.Wire.{Bytes, ascii}
use dart_odbc_fast.Wire.Print.{decimal_digits}
use dart_odbc_fast.Error.{text, format, OdbcError, OdbcResult, internal_error}

-- What the code uses of a file system, and what it relies on: a new file is empty, what a call has
-- written stands behind what was there, and a read after a flush sees it. A call that fails may leave
-- anything. `content` is what has been handed to the writer of a file.
pub record FileSystem : Type 1 where
  pub Disk : Type 0
  pub content : Bytes → Disk → Bytes
  pub create : Bytes → Disk → Result Bytes (Unit {0}) × Disk
  pub write_all : Bytes → Bytes → Disk → Result Bytes (Unit {0}) × Disk
  pub flush : Bytes → Disk → Result Bytes (Unit {0}) × Disk
  pub read : Bytes → Disk → Result Bytes Bytes
  pub remove_file : Bytes → Disk → Disk
  pub create-content :
      (path : Bytes) (d : Disk) → (create path d).0 ≡ ok tt → content path (create path d).1 ≡ []
  pub write_all-content :
      (path bytes : Bytes) (d : Disk)
      → (write_all path bytes d).0 ≡ ok tt
      → content path (write_all path bytes d).1 ≡ content path d ++ bytes
  pub flush-read :
      (path out : Bytes) (d : Disk)
      → (flush path d).0 ≡ ok tt
      → read path (flush path d).1 ≡ ok out
      → content path d ≡ out

abbrev pub write_chunk_size : ℕ
write_chunk_size = 65536

abbrev pub default_threshold_mb : ℕ
default_threshold_mb = 100

pub record DiskSpillStream : Type 0 where
  pub threshold_bytes : ℕ
  pub temp_dir : Bytes
  pub temp_path : Option Bytes
  pub file : Option Bytes
  pub memory_buffer : Bytes

-- `usize` multiplication wraps in a release build.
unfoldable pub new : Bytes → ℕ → DiskSpillStream
new temp_dir threshold_mb = record {
  threshold_bytes = max threshold_mb 1 * 1024 * 1024 % 2 ^ 64;
  temp_dir = temp_dir;
  temp_path = none;
  file = none;
  memory_buffer = [];
}

-- `.map_err(|e| OdbcError::InternalError(format!(…, e)))`
abbrev pub io_error {ℓ} : {A : Type ℓ} → String → Result Bytes A → OdbcResult A
io_error s (ok a) = ok a
io_error s (err e) = err (internal_error (format s (text e ∷ [])))

unfoldable pub spill_path : Bytes → ℕ → Bytes
spill_path temp_dir millis =
    temp_dir ++ (ascii "/odbc_spill_" ++ (decimal_digits 38 millis ++ ascii ".bin"))

module _ (fs : FileSystem) where
  -- The stream, and the disk.
  abbrev pub Spill : Type 0
  Spill = DiskSpillStream × FileSystem.Disk fs

  unfoldable pub spill_to_disk : ℕ → Spill → OdbcResult (Unit {0}) × Spill
  spill_to_disk millis (s, disk) =
      let path = spill_path s.temp_dir millis in
      let created = fs.create path disk in
      elim (io_error "spill create: {}" created.0) [
        | err e ↦ (err e, (s, created.1))
        | ok _ ↦
            let written = fs.write_all path s.memory_buffer created.1 in
            elim (io_error "spill write: {}" written.0) [
              | err e ↦ (err e, (s, written.1))
              | ok _ ↦ (
                ok tt,
                (
                  record s { memory_buffer = []; file = some path; temp_path = some path },
                  written.1,
                ),
              )
            ]
      ]

  -- `self.file.as_mut().ok_or_else(…)?.write_all(chunk)`
  unfoldable pub write_to_file : Bytes → Spill → OdbcResult (Unit {0}) × Spill
  write_to_file chunk (s, disk) = elim s.file [
    | none ↦ (err (internal_error (format "spill file missing" [])), (s, disk))
    | some path ↦
        let written = fs.write_all path chunk disk in
        (io_error "spill write: {}" written.0, (s, written.1))
  ]

  unfoldable pub write_chunk : ℕ → Bytes → Spill → OdbcResult (Unit {0}) × Spill
  write_chunk millis chunk (s, disk) = elim s.file [
    | some path ↦ write_to_file chunk (s, disk)
    | none ↦
        let would_exceed =
          ltb s.threshold_bytes (min (length s.memory_buffer + length chunk) (2 ^ 64 - 1)) in
        if would_exceed && not (length s.memory_buffer == 0)
        then (let spilled = spill_to_disk millis (s, disk) in
            elim spilled.0 [ err e ↦ (err e, spilled.1) | ok _ ↦ write_to_file chunk spilled.1 ])
        else (ok tt, (record s { memory_buffer = s.memory_buffer ++ chunk }, disk))
  ]

  unfoldable pub read_back : Spill → OdbcResult Bytes × Spill
  read_back (s, disk) =
      let flushed : OdbcResult (Unit {0}) × FileSystem.Disk fs = elim s.file [
        | none ↦ (ok tt, disk)
        | some path ↦ let r = fs.flush path disk in (io_error "spill flush: {}" r.0, r.1)
      ] in
      let taken = record s { file = none; temp_path = none } in
      elim flushed.0 [
        | err e ↦ (err e, (s, flushed.1))
        | ok _ ↦ elim s.temp_path [
          | some path ↦ elim (io_error "spill read: {}" (fs.read path flushed.1)) [
            | ok bytes ↦ (ok bytes, (taken, fs.remove_file path flushed.1))
            | err e ↦ (err e, (taken, flushed.1))
          ]
          | none ↦ (ok s.memory_buffer, (record taken { memory_buffer = [] }, flushed.1))
        ]
      ]

  -- `drop`
  unfoldable pub drop_stream : Spill → Spill
  drop_stream (s, disk) =
      let taken = record s { file = none; temp_path = none } in
      elim s.temp_path [ none ↦ (taken, disk) | some path ↦ (taken, fs.remove_file path disk) ]

  -- A `DiskSpillWriter`: its buffer, and the stream that it writes to.
  abbrev pub Writer : Type 0
  Writer = Bytes × Spill

  -- The loop of `write`; a round takes bytes from the buffer, so that its length is fuel enough.
  unfoldable pub write_loop : ℕ → ℕ → Writer → OdbcResult (Unit {0}) × Writer
  write_loop zero millis w = (ok tt, w)
  write_loop (suc fuel) millis (buffer, spill) =
      let written = write_chunk millis (take write_chunk_size buffer) spill in
      let left = drop write_chunk_size buffer in
      let rest = write_loop fuel millis (left, written.1) in
      if leb write_chunk_size (length buffer)
      then elim written.0 [ err e ↦ (err e, (left, written.1)) | ok _ ↦ rest ]
      else (ok tt, (buffer, spill))

  unfoldable pub write : ℕ → Bytes → Writer → OdbcResult (Unit {0}) × Writer
  write millis buf (buffer, spill) =
      write_loop (length (buffer ++ buf)) millis (buffer ++ buf, spill)

  unfoldable pub flush : ℕ → Writer → OdbcResult (Unit {0}) × Writer
  flush millis (buffer, spill) =
      if length buffer == 0
      then (ok tt, (buffer, spill))
      else (let written = write_chunk millis buffer spill in (written.0, ([], written.1)))
