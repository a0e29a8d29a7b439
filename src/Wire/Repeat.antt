-- ===== src/Wire/Repeat.antt =====
-- `for _ in 0..n { out.push(read(…)?) }`: a reader repeated over a cursor.
use dart_odbc_fast.Prelude.{
  ℕ, zero, suc, List, [], ◌∷◌, ◌++◌, length, ok, err, ◌>>=◌, ◌≡◌, refl, All, append_assoc, Result,
  Result-cases, inl, inr, map, arith,
}
use dart_odbc_fast.Wire.{Bytes}

-- `for a in list { out.extend(…) }`
unfoldable pub write_all : {A : Type 0} → (A → Bytes) → List A → Bytes
write_all write [] = []
write_all write (a ∷ as') = write a ++ write_all write as'

module _ {A : Type 0} {E : Type 0} where
  unfoldable pub read_many : (Bytes → Result E (A × Bytes)) → ℕ → Bytes → Result E (List A × Bytes)
  read_many read zero cursor = ok ([], cursor)
  read_many read (suc n) cursor = do
    (a, after) ← read cursor
    (as', rest) ← read_many read n after
    ok (a ∷ as', rest)

  -- If the reader reads back one value as `keep` of it, the repeated reader does so with a list.
  pub read_many-write_all :
      (read : Bytes → Result E (A × Bytes)) (write : A → Bytes) (keep : A → A) (Fits : A → Type 0)
      → ((a : A) (rest : Bytes) → Fits a → read (write a ++ rest) ≡ ok (keep a, rest))
      → (xs : List A) (rest : Bytes) → All Fits xs
      → read_many read (length xs) (write_all write xs ++ rest) ≡ ok (map keep xs, rest)
  unfolding read_many write_all
  read_many-write_all read write keep Fits one [] rest h = refl
  read_many-write_all read write keep Fits one (x ∷ xs) rest h =
      rw
        (
          append_assoc (write x) (write_all write xs) rest,
          one x (write_all write xs ++ rest) h.0,
          read_many-write_all read write keep Fits one xs rest h.1,
        )
        refl

  -- It reads as many values as it is told to.
  pub length-read_many :
      (read : Bytes → Result E (A × Bytes)) (n : ℕ) (cursor : Bytes) (xs : List A) (rest : Bytes)
      → read_many read n cursor ≡ ok (xs, rest)
      → length xs ≡ n
  unfolding read_many
  length-read_many read zero cursor [] rest h = refl
  length-read_many read zero cursor (x ∷ xs) rest h = cc
  length-read_many read (suc n) cursor xs rest h = elim (Result-cases (read cursor)) [
    | inl ((a, after), e) ↦ elim (Result-cases (read_many read n after)) [
      | inl ((more, end), e') ↦
          let same : ok (a ∷ more, end) ≡ read_many read (suc n) cursor = rw (e, e') refl in
          let count = length-read_many read n after more end e' in ground (arith, same, h, count)
      | inr (x, e') ↦
          let bad : read_many read (suc n) cursor ≡ err x = rw (e, e') refl in cc (bad, h)
    ]
    | inr (x, e) ↦ let bad : read_many read (suc n) cursor ≡ err x = rw e refl in cc (bad, h)
  ]
