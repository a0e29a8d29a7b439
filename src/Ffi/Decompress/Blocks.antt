-- ===== src/Ffi/Decompress/Blocks.antt =====
-- The blocks in use, by the calls of the allocator and by the recorded vectors.
use dart_odbc_fast.Prelude.{
  ℕ, ◌==◌, true, false, if◌then◌else◌, List, [], ◌∷◌, Option, none, some, ◌≡◌, ◌≢◌, refl, ◌∙◌, ◌↔◌,
  arith, All, inl, inr, Bool-cases, ==_iff,
}
use dart_odbc_fast.Ffi.Decompress.{HeapCall, allocated, freed}
use dart_odbc_fast.Ffi.Decompress.AddressMap.{Table, lookup, remove, insert, remove_absent}

-- The blocks in use after the calls of the allocator, which are newest first: no block is allocated at
-- an address in use, and a block that is freed is in use with that capacity. `none` is a fault.
unfoldable pub replay : List HeapCall → Option (Table ℕ)
replay [] = some []
replay (allocated p cap ∷ calls) = elim (replay calls) [
  | none ↦ none
  | some live ↦ elim (lookup p live) [ none ↦ some ((p, cap) ∷ live) | some c ↦ none ]
]
replay (freed p cap ∷ calls) = elim (replay calls) [
  | none ↦ none
  | some live ↦ elim (lookup p live) [
    | none ↦ none
    | some c ↦ if c == cap then some (remove p live) else none
  ]
]

-- The recorded vectors that have memory.
unfoldable pub blocks : Table (ℕ × ℕ) → Table ℕ
blocks [] = []
blocks ((p, (len, cap)) ∷ t) = let rest = blocks t in if cap == 0 then rest else (p, cap) ∷ rest

-- A vector without capacity has the pointer 1, and no other has.
abbrev pub Dangles : ℕ × (ℕ × ℕ) → Type 0
Dangles (p, (len, cap)) = (cap ≡ 0) ↔ (p ≡ 1)

pub remove-Dangles : (p : ℕ) (t : Table (ℕ × ℕ)) → All Dangles t → All Dangles (remove p t)
unfolding remove
remove-Dangles p [] h = tt
remove-Dangles p ((q, v) ∷ t) h = elim (Bool-cases (q == p)) [
  | inl e ↦ rw e (remove-Dangles p t h.1)
  | inr e ↦ rw e (h.0, remove-Dangles p t h.1)
]

pub blocks-remove : (p : ℕ) (t : Table (ℕ × ℕ)) → blocks (remove p t) ≡ remove p (blocks t)
unfolding blocks remove
blocks-remove p [] = refl
blocks-remove p ((q, (len, cap)) ∷ t) = elim (Bool-cases (q == p)) [
  | inl e ↦ elim (Bool-cases (cap == 0)) [
    | inl z ↦ rw (e, z, blocks-remove p t) refl
    | inr z ↦ rw (e, z, remove, e, blocks-remove p t) refl
  ]
  | inr e ↦ elim (Bool-cases (cap == 0)) [
    | inl z ↦ rw (e, z, blocks-remove p t) refl
    | inr z ↦ rw (e, z, e, blocks-remove p t) refl
  ]
]

pub lookup-blocks_free :
    (p : ℕ) (t : Table (ℕ × ℕ)) → lookup p t ≡ none → lookup p (blocks t) ≡ none
unfolding lookup blocks
lookup-blocks_free p [] h = refl
lookup-blocks_free p ((q, (len, cap)) ∷ t) h = elim (Bool-cases (q == p)) [
  | inl e ↦ absurd (ground arith)
  | inr e ↦
      let more : lookup p t ≡ none = ground arith in
      let rest = lookup-blocks_free p t more in
      elim (Bool-cases (cap == 0)) [ inl z ↦ rw z rest | inr z ↦ rw (z, lookup, e) rest ]
]

pub lookup-blocks_used :
    (p len cap : ℕ) (t : Table (ℕ × ℕ))
    → lookup p t ≡ some (len, cap)
    → cap ≢ 0
    → lookup p (blocks t) ≡ some cap
unfolding lookup blocks
lookup-blocks_used p len cap [] h ne = absurd cc
lookup-blocks_used p len cap ((q, (l, c)) ∷ t) h ne = elim (Bool-cases (q == p)) [
  | inl e ↦
      let same : c ≡ cap = ground arith in
      let big : (c == 0) ≡ false = ground arith in rw (big, lookup, e, same) refl
  | inr e ↦
      let more : lookup p t ≡ some (len, cap) = ground arith in
      let rest = lookup-blocks_used p len cap t more ne in
      elim (Bool-cases (c == 0)) [ inl z ↦ rw z rest | inr z ↦ rw (z, lookup, e) rest ]
]

-- No block stands at the pointer of the vectors without capacity.
pub remove_dangling : (t : Table (ℕ × ℕ)) → All Dangles t → remove 1 (blocks t) ≡ blocks t
unfolding remove blocks
remove_dangling [] h = refl
remove_dangling ((q, (len, cap)) ∷ t) h = elim (Bool-cases (cap == 0)) [
  | inl z ↦ rw z (remove_dangling t h.1)
  | inr z ↦
      let other : (q == 1) ≡ false = elim (Bool-cases (q == 1)) [
        | inl w ↦ let zero_cap : cap ≡ 0 = h.0.1 ((==_iff q 1).0 w) in ground arith
        | inr w ↦ w
      ] in
      rw (z, remove, other, remove_dangling t h.1) refl
]

pub lookup-Dangles :
    (p : ℕ) (v : ℕ × ℕ) (t : Table (ℕ × ℕ)) → All Dangles t → lookup p t ≡ some v → Dangles (p, v)
unfolding lookup
lookup-Dangles p v [] d h = absurd cc
lookup-Dangles p v ((q, w) ∷ t) d h = elim (Bool-cases (q == p)) [
  | inl e ↦
      let same : w ≡ v = ground arith in
      let here : q ≡ p = (==_iff q p).0 e in rw (← same, ← here) d.0
  | inr e ↦ lookup-Dangles p v t d.1 (ground arith)
]

pub insert_dangling :
    (len cap : ℕ) (t : Table (ℕ × ℕ))
    → All Dangles t
    → (cap == 0) ≡ true
    → blocks (insert 1 (len, cap) t) ≡ blocks t
unfolding blocks
insert_dangling len cap t d z = rw z (blocks-remove 1 t ∙ remove_dangling t d)

pub insert_fresh :
    (p len cap : ℕ) (t : Table (ℕ × ℕ))
    → lookup p t ≡ none
    → (cap == 0) ≡ false
    → blocks (insert p (len, cap) t) ≡ (p, cap) ∷ blocks t
unfolding blocks
insert_fresh p len cap t h z = rw (z, remove_absent p t h) refl
