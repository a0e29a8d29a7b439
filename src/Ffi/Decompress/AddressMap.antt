-- ===== src/Ffi/Decompress/AddressMap.antt =====
-- A `HashMap` with addresses as keys, as an association list.
use dart_odbc_fast.Prelude.{
  ℕ, ◌==◌, if◌then◌else◌, List, [], ◌∷◌, Option, none, some, ◌≡◌, refl, arith, Bool-cases, inl, inr,
}

abbrev pub Table : Type 0 → Type 0
Table V = List (ℕ × V)

module _ {V : Type 0} where
  unfoldable pub lookup : ℕ → Table V → Option V
  lookup p [] = none
  lookup p ((q, v) ∷ t) = if q == p then some v else lookup p t

  unfoldable pub remove : ℕ → Table V → Table V
  remove p [] = []
  remove p ((q, v) ∷ t) = let rest = remove p t in if q == p then rest else (q, v) ∷ rest

  abbrev pub insert : ℕ → V → Table V → Table V
  insert p v t = (p, v) ∷ remove p t

  pub remove_absent : (p : ℕ) (t : Table V) → lookup p t ≡ none → remove p t ≡ t
  unfolding lookup remove
  remove_absent p [] h = refl
  remove_absent p ((q, v) ∷ t) h = elim (Bool-cases (q == p)) [
    | inl e ↦ absurd (ground arith)
    | inr e ↦ let more : lookup p t ≡ none = ground arith in rw (e, remove_absent p t more) refl
  ]
