-- ===== src/Engine/Spill/Session.antt =====
-- A stream that is written through a `DiskSpillWriter`, flushed and read back: its client is the bytes
-- that it writes.
use dart_odbc_fast.Prelude.{
  ℕ, zero, suc, ◌+◌, ◌^◌, ◌≤◌, ◌<◌, leb, ◌==◌, Bool, true, false, if◌then◌else◌, List, [], ◌∷◌,
  ◌++◌, length, take, drop, ok, err, ◌≡◌, refl, sym, ap, ◌∙◌, arith, append-nil, append_assoc,
  take-append-drop, length-drop, length-take,
}
use dart_odbc_fast.Wire.{Bytes}
use dart_odbc_fast.Error.{OdbcResult}
use dart_odbc_fast.Engine.Spill.{
  FileSystem, new, Spill, Writer, write_chunk_size, write_loop, write, flush, read_back,
}
use dart_odbc_fast.Engine.Spill.Holds.{Holds, Step, done, failed, write_chunk-Holds}

module _ (fs : FileSystem) where
  -- The writes of a client, each at its time.
  unfoldable pub write_each : List (ℕ × Bytes) → Writer fs → OdbcResult (Unit {0}) × Writer fs
  write_each [] w = (ok tt, w)
  write_each ((millis, buf) ∷ writes) w =
      let written = write fs millis buf w in
      let rest = write_each writes written.1 in
      elim written.0 [ err e ↦ (err e, written.1) | ok _ ↦ rest ]

  abbrev pub written_bytes : List (ℕ × Bytes) → Bytes
  written_bytes [] = []
  written_bytes ((millis, buf) ∷ writes) = buf ++ written_bytes writes

  -- All of a session, with the writer's flush at the time `last`.
  unfoldable pub session :
      Bytes → ℕ → List (ℕ × Bytes) → ℕ → FileSystem.Disk fs → OdbcResult Bytes × Spill fs
  session temp_dir threshold_mb writes last disk =
      let written = write_each writes ([], (new temp_dir threshold_mb, disk)) in
      let flushed = flush fs last written.1 in
      elim written.0 [
        | err e ↦ (err e, written.1.1)
        | ok _ ↦ elim flushed.0 [ err e ↦ (err e, flushed.1.1) | ok _ ↦ read_back fs flushed.1.1 ]
      ]

  -- What a writer and its stream hold together; a writer keeps less than a chunk to itself.
  pub data Kept (threshold : ℕ) : Bytes → Writer fs → Type 0 where
    kept :
        (all bytes buffer : Bytes) (s : Spill fs)
        → Holds fs threshold s bytes
        → bytes ++ buffer ≡ all
        → length buffer < write_chunk_size
        → Kept threshold all (buffer, s)

  module _ (threshold : ℕ) (chunk_fits : write_chunk_size ≤ threshold)
      (wide : threshold + 1 < 2 ^ 64) where
    write_loop-Kept :
        (fuel millis : ℕ) (buffer bytes : Bytes) (s : Spill fs)
        → length buffer ≤ fuel
        → Holds fs threshold s bytes
        → Step fs (Kept threshold (bytes ++ buffer)) (write_loop fs fuel millis (buffer, s))
    unfolding write_loop
    write_loop-Kept zero millis buffer bytes s enough h =
        done (buffer, s) (kept (bytes ++ buffer) bytes buffer s h refl (omega arith))
    write_loop-Kept (suc fuel) millis buffer bytes s enough h =
        round (leb write_chunk_size (length buffer)) refl
          (write_chunk-Holds fs millis threshold s bytes (take write_chunk_size buffer)
            (omega (arith, length-take write_chunk_size buffer)) wide h)
          (λ s' h'.
            write_loop-Kept fuel millis (drop write_chunk_size buffer)
              (bytes ++ take write_chunk_size buffer) s'
              (omega (arith, length-drop write_chunk_size buffer)) h')
      where
        round :
            (b : Bool)
            → leb write_chunk_size (length buffer) ≡ b
            → {r : OdbcResult (Unit {0}) × Spill fs}
            → Step fs (λ s'. Holds fs threshold s' (bytes ++ take write_chunk_size buffer)) r
            → ((s' : Spill fs)
                → Holds fs threshold s' (bytes ++ take write_chunk_size buffer)
                → (let left = drop write_chunk_size buffer in
                    Step fs
                      (Kept threshold ((bytes ++ take write_chunk_size buffer) ++ left))
                      (write_loop fs fuel millis (left, s'))))
            → Step fs (Kept threshold (bytes ++ buffer)) (
                let left = drop write_chunk_size buffer in
                let rest = write_loop fs fuel millis (left, r.1) in
                if b
                then elim r.0 [ err e ↦ (err e, (left, r.1)) | ok _ ↦ rest ]
                else (ok tt, (buffer, s)))
        round true e (done s' h') again =
            let left = drop write_chunk_size buffer in
            let more = again s' h' in
            let whole : (bytes ++ take write_chunk_size buffer) ++ left ≡ bytes ++ buffer =
              append_assoc bytes (take write_chunk_size buffer) left
              ∙ ap (◌++◌ bytes) (take-append-drop write_chunk_size buffer) in
            rw whole at more
        round true e (failed x s' broken) again = failed x (drop write_chunk_size buffer, s') broken
        round false e step again =
            done (buffer, s) (kept (bytes ++ buffer) bytes buffer s h refl (ground arith))

    -- A write is kept behind what was kept before, or the file system has failed.
    write-Kept :
        (millis : ℕ) (buf all : Bytes) (w : Writer fs)
        → Kept threshold all w
        → Step fs (Kept threshold (all ++ buf)) (write fs millis buf w)
    unfolding write
    write-Kept millis buf all w (kept _ bytes buffer s h e small) =
        let loop =
          write_loop-Kept (length (buffer ++ buf)) millis (buffer ++ buf) bytes s (omega arith) h in
        let whole : bytes ++ (buffer ++ buf) ≡ all ++ buf =
          sym (append_assoc bytes buffer buf) ∙ ap (λ b. b ++ buf) e in
        rw whole at loop

    -- So is a sequence of writes.
    pub write_each-Kept :
        (writes : List (ℕ × Bytes)) (all : Bytes) (w : Writer fs)
        → Kept threshold all w
        → Step fs (Kept threshold (all ++ written_bytes writes)) (write_each writes w)
    unfolding write_each
    write_each-Kept [] all w k = done w (rw append-nil k)
    write_each-Kept ((millis, buf) ∷ writes) all w k =
        next (write-Kept millis buf all w k) (λ w' k'. write_each-Kept writes (all ++ buf) w' k')
      where
        next :
            {r : OdbcResult (Unit {0}) × Writer fs}
            → Step fs (Kept threshold (all ++ buf)) r
            → ((w' : Writer fs)
                → Kept threshold (all ++ buf) w'
                → Step fs
                    (Kept threshold ((all ++ buf) ++ written_bytes writes))
                    (write_each writes w'))
            → Step fs (Kept threshold (all ++ (buf ++ written_bytes writes))) (
                let rest = write_each writes r.1 in elim r.0 [ err e ↦ (err e, r.1) | ok _ ↦ rest ])
        next (done w' k') again =
            let more = again w' k' in rw (append_assoc all buf (written_bytes writes)) at more
        next (failed x w' broken) again = failed x w' broken

    -- After a flush the stream holds everything.
    pub flush-Holds :
        (millis : ℕ) (all : Bytes) (w : Writer fs)
        → Kept threshold all w
        → Step fs (λ w'. Holds fs threshold w'.1 all) (flush fs millis w)
    unfolding flush
    flush-Holds millis all w (kept _ bytes [] s h e small) =
        let whole : bytes ≡ all = sym (append-nil bytes) ∙ e in done ([], s) (rw (← whole) h)
    flush-Holds millis all w (kept _ bytes (b ∷ buffer) s h e small) =
        let some_bytes : (length (b ∷ buffer) == 0) ≡ false = ground arith in
        rw some_bytes (
          flushed (write_chunk-Holds fs millis threshold s bytes (b ∷ buffer) (omega arith) wide h))
      where
        flushed :
            {r : OdbcResult (Unit {0}) × Spill fs}
            → Step fs (λ s'. Holds fs threshold s' (bytes ++ (b ∷ buffer))) r
            → Step fs {S = Writer fs} (λ w'. Holds fs threshold w'.1 all) (r.0, ([], r.1))
        flushed (done s' h') = done ([], s') (rw (← e) h')
        flushed (failed x s' broken) = failed x ([], s') broken
