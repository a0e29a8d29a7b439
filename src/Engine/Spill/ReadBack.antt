-- ===== src/Engine/Spill/ReadBack.antt =====
-- What a session with a stream reads back.
use dart_odbc_fast.Prelude.{
  ℕ, ◌+◌, ◌*◌, ◌^◌, ◌≤◌, ◌<◌, max, ◌%◌, List, [], ◌∷◌, ok, err, ◌≡◌, refl, sym, ap, ◌∙◌, ◌⊎◌, inl,
  inr, arith, Result-cases,
}
use dart_odbc_fast.Wire.{Bytes}
use dart_odbc_fast.Error.{text, format, OdbcError, OdbcResult, internal_error}
use dart_odbc_fast.Engine.Spill.{FileSystem, new, Spill, Writer, write_chunk_size, flush, read_back}
use dart_odbc_fast.Engine.Spill.Holds.{IsReliable, Holds, in_memory, in_file, Step, done, failed}
use dart_odbc_fast.Engine.Spill.Session.{
  written_bytes, session, Kept, kept, write_each-Kept, flush-Holds,
}

module _ (fs : FileSystem) where
  -- What a read returns: the bytes, or an error where the file system has failed.
  abbrev pub IsRead : Bytes → OdbcResult Bytes → Type 0
  IsRead bytes r = (r ≡ ok bytes) ⊎ ((e : OdbcError) × (r ≡ err e) × (¬ IsReliable fs))

  read_back-IsRead :
      (threshold : ℕ) (s : Spill fs) (bytes : Bytes)
      → Holds fs threshold s bytes
      → IsRead bytes (read_back fs s).0
  unfolding read_back
  read_back-IsRead threshold s bytes (in_memory dir _ d fits) = inl refl
  read_back-IsRead threshold s bytes (in_file dir path _ d e) =
      let flushed = fs.flush path d in
      elim (Result-cases flushed.0) [
        | inl (u, h) ↦ elim (Result-cases (fs.read path flushed.1)) [
          | inl (out, g) ↦
              let law = fs.flush-read path out d h g in
              inl (rw (read_back, h, g) (ap ok (sym law ∙ e)))
          | inr (x, g) ↦ inr (
            internal_error (format "spill read: {}" (text x ∷ [])),
            rw (read_back, h, g) refl,
            λ r. let (out, good) = r.reads path flushed.1 in absurd (cc (g, good)),
          )
        ]
        | inr (x, h) ↦ inr (
          internal_error (format "spill flush: {}" (text x ∷ [])),
          rw (read_back, h) refl,
          λ r. let good = r.flushes path d in absurd (cc (h, good)),
        )
      ]

  new-Holds :
      (temp_dir : Bytes) (threshold_mb : ℕ) (disk : FileSystem.Disk fs)
      → threshold_mb < 2 ^ 43
      → Holds fs (max threshold_mb 1 * 1048576) (new temp_dir threshold_mb, disk) []
  unfolding new
  new-Holds temp_dir threshold_mb disk small =
      let exact : max threshold_mb 1 * 1024 * 1024 % 2 ^ 64 ≡ max threshold_mb 1 * 1048576 =
        omega arith in
      rw exact (in_memory temp_dir [] disk (omega arith))

  -- A session with a threshold under 2 ^ 43 megabytes reads back exactly the bytes that its client has
  -- written, in one piece and in order, whether they stayed in memory or went to a file; if it returns
  -- an error, a call of the file system has failed.
  pub session_lem :
      (temp_dir : Bytes) (threshold_mb : ℕ) (writes : List (ℕ × Bytes)) (last : ℕ)
      (disk : FileSystem.Disk fs)
      → threshold_mb < 2 ^ 43
      → IsRead (written_bytes fs writes) (session fs temp_dir threshold_mb writes last disk).0
  unfolding session
  session_lem temp_dir threshold_mb writes last disk small =
      let threshold = max threshold_mb 1 * 1048576 in
      let fits : write_chunk_size ≤ threshold = omega arith in
      let wide : threshold + 1 < 2 ^ 64 = omega arith in
      let start =
        kept [] [] [] (new temp_dir threshold_mb, disk) (new-Holds temp_dir threshold_mb disk small)
          refl (omega arith) in
      ended threshold
        (write_each-Kept fs threshold fits wide writes [] ([], (new temp_dir threshold_mb, disk))
          start)
        (λ w k. flush-Holds fs threshold fits wide last (written_bytes fs writes) w k)
    where
      read :
          (threshold : ℕ) {r : OdbcResult (Unit {0}) × Writer fs}
          → Step fs {S = Writer fs} (λ w. Holds fs threshold w.1 (written_bytes fs writes)) r
          → IsRead (written_bytes fs writes) (
              let answer : OdbcResult Bytes × Spill fs = elim r.0 [
                | err e ↦ (err e, r.1.1)
                | ok _ ↦ read_back fs r.1.1
              ] in
              answer.0)
      read threshold (done w h) = read_back-IsRead threshold w.1 (written_bytes fs writes) h
      read threshold (failed x w broken) = inr (x, refl, broken)

      ended :
          (threshold : ℕ) {r : OdbcResult (Unit {0}) × Writer fs}
          → Step fs (Kept fs threshold (written_bytes fs writes)) r
          → ((w : Writer fs)
              → Kept fs threshold (written_bytes fs writes) w
              → Step fs {S = Writer fs}
                  (λ w'. Holds fs threshold w'.1 (written_bytes fs writes))
                  (flush fs last w))
          → IsRead (written_bytes fs writes) (
              let flushed = flush fs last r.1 in
              let answer : OdbcResult Bytes × Spill fs = elim r.0 [
                | err e ↦ (err e, r.1.1)
                | ok _ ↦ elim flushed.0 [
                  | err e ↦ (err e, flushed.1.1)
                  | ok _ ↦ read_back fs flushed.1.1
                ]
              ] in
              answer.0)
      ended threshold (done w k) then_flush = read threshold (then_flush w k)
      ended threshold (failed x w broken) then_flush = inr (x, refl, broken)
