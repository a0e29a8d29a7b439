-- ===== src/Engine/Spill/Tests.antt =====
-- A session that goes to its file, on a disk with a single file.
use dart_odbc_fast.Prelude.{ℕ, List, [], ◌∷◌, ◌++◌, replicate, Result, ok, ◌≡◌, refl, arith}
use dart_odbc_fast.Wire.{Bytes, ascii}
use dart_odbc_fast.Engine.Spill.{FileSystem}
use dart_odbc_fast.Engine.Spill.ReadBack.{IsRead, session_lem}
use dart_odbc_fast.Engine.Spill.Session.{written_bytes, session}

abbrev one_file : FileSystem
one_file = record {
  Disk = Bytes;
  content = λ path d. d;
  create = λ path d. (ok tt, []);
  write_all = λ path bytes d. (ok tt, d ++ bytes);
  flush = λ path d. (ok tt, d);
  read = λ path d. ok d;
  remove_file = λ path d. [];
  create-content = λ path d e. refl;
  write_all-content = λ path bytes d e. refl;
  flush-read = λ path out d e e'. same d out e';
}
  where
    same : (d out : Bytes) → (let r : Result Bytes Bytes = ok d in r) ≡ ok out → d ≡ out
    same d out e = cc

abbrev two_writes : List (ℕ × Bytes)
two_writes = (5, replicate 1200000 7) ∷ (6, ascii "end") ∷ []

session_lem_example :
    IsRead one_file
      (written_bytes one_file two_writes)
      (session one_file (ascii "/tmp") 1 two_writes 7 []).0
session_lem_example = session_lem one_file (ascii "/tmp") 1 two_writes 7 [] (omega arith)
