-- ===== src/Engine/Identifier/Qualified.antt =====
-- Qualified names: `schema.table`, quoted part by part.
use dart_odbc_fast.Prelude.{
  ℕ, ◌==◌, List, [], ◌∷◌, map, All, ok, err, some, ◌≡◌, refl, ◌⊎◌, inl, inr, append-nil, Bool-cases,
  ==_iff,
}
use dart_odbc_fast.Wire.{Bytes}
use dart_odbc_fast.Error.{OdbcError}
use dart_odbc_fast.Engine.Identifier.{
  double_quote, wrap, quote_identifier_default, split, join, quote_parts, quote_qualified_default,
}
use dart_odbc_fast.Engine.Identifier.Laws.{
  IsIdentifier, IsIdentifier-All, read_delimited, read_delimited-wrap, quote_identifier_cases,
  validate_identifier_iff,
}

-- SQL reads `out` as delimited identifiers with these names and a dot between them, to its end.
abbrev pub Reads : Bytes → List Bytes → Type 0
Reads out [] = ⊥
Reads out (p ∷ []) = read_delimited double_quote out ≡ some (p, [])
Reads out (p ∷ next ∷ parts) =
    (rest : Bytes) × (read_delimited double_quote out ≡ some (p, b'.' ∷ rest))
    × Reads rest (next ∷ parts)

split_cons : (c : ℕ) (bs : Bytes) → (p : Bytes) × (ps : List Bytes) × (split c bs ≡ p ∷ ps)
unfolding split
split_cons c [] = ([], [], refl)
split_cons c (b ∷ bs) = elim (Bool-cases (b == c)) [
  | inl e ↦ ([], split c bs, rw e refl)
  | inr e ↦ let (p, ps, h) = split_cons c bs in (b ∷ p, ps, rw (e, h) refl)
]

join_cons : (c b : ℕ) (p : Bytes) (ps : List Bytes) → join c ((b ∷ p) ∷ ps) ≡ b ∷ join c (p ∷ ps)
unfolding join
join_cons c b p [] = refl
join_cons c b p (q ∷ ps) = refl

join_empty : (c : ℕ) (p : Bytes) (ps : List Bytes) → join c ([] ∷ p ∷ ps) ≡ c ∷ join c (p ∷ ps)
unfolding join
join_empty c p ps = refl

-- Joining the parts of a text gives the text.
pub join-split : (c : ℕ) (bs : Bytes) → join c (split c bs) ≡ bs
join-split c [] = unfold split join in refl
join-split c (b ∷ bs) =
    let (p, ps, h) = split_cons c bs in
    let ih : join c (p ∷ ps) ≡ bs = rw (← h) (join-split c bs) in
    elim (Bool-cases (b == c)) [
      | inl e ↦
          let same : b ≡ c = (==_iff b c).0 e in
          let parts : split c (b ∷ bs) ≡ [] ∷ p ∷ ps = unfold split in rw (e, h) refl in
          rw (parts, join_empty c p ps, ih, same) refl
      | inr e ↦
          let parts : split c (b ∷ bs) ≡ (b ∷ p) ∷ ps = unfold split in rw (e, h) refl in
          rw (parts, join_cons c b p ps, ih) refl
    ]

pub quote_parts_cases :
    (parts : List Bytes)
    → ((quote_parts parts ≡ ok (map (wrap double_quote) parts)) × All IsIdentifier parts)
      ⊎ ((e : OdbcError) × (quote_parts parts ≡ err e) × (¬ All IsIdentifier parts))
unfolding quote_parts quote_identifier_default
quote_parts_cases [] = inl (refl, tt)
quote_parts_cases (p ∷ parts) = elim (quote_identifier_cases p double_quote) [
  | inl (v, q) ↦ elim (quote_parts_cases parts) [
    | inl (h, fine) ↦ inl (rw (q, h) refl, ((validate_identifier_iff p).0 v, fine))
    | inr (x, h, bad) ↦ inr (x, rw (q, h) refl, λ fine. bad fine.1)
  ]
  | inr (x, v, q) ↦
      inr (x, rw q refl, λ fine. let good = (validate_identifier_iff p).1 fine.0 in cc (good, v))
]

Reads-join :
    (p : Bytes) (parts : List Bytes)
    → All IsIdentifier (p ∷ parts)
    → Reads (join b'.' (map (wrap double_quote) (p ∷ parts))) (p ∷ parts)
unfolding join
Reads-join p [] h =
    let r = read_delimited-wrap double_quote p [] (IsIdentifier-All p h.0) tt in rw append-nil at r
Reads-join p (q ∷ parts) h = (
  join b'.' (map (wrap double_quote) (q ∷ parts)),
  read_delimited-wrap double_quote p (b'.' ∷ _) (IsIdentifier-All p h.0) refl,
  Reads-join q parts h.1,
)

Reads-parts :
    (parts : List Bytes) (p : Bytes) (ps : List Bytes)
    → parts ≡ p ∷ ps
    → All IsIdentifier parts
    → Reads (join b'.' (map (wrap double_quote) parts)) parts
Reads-parts [] p ps e h = cc
Reads-parts (q ∷ parts) p ps e h = Reads-join q parts h

-- `quote_qualified_default` accepts exactly the texts whose parts between dots are identifiers.
-- What it returns, SQL reads as those parts, each one delimited, with a dot between them and
-- nothing behind; and joined by dots they are the text that was given.
pub quote_qualified_default_safe :
    (qualified : Bytes)
    → ((out : Bytes) × (quote_qualified_default qualified ≡ ok out)
        × All IsIdentifier (split b'.' qualified)
        × Reads out (split b'.' qualified)
        × (join b'.' (split b'.' qualified) ≡ qualified))
      ⊎ ((e : OdbcError) × (quote_qualified_default qualified ≡ err e)
          × (¬ All IsIdentifier (split b'.' qualified)))
unfolding quote_qualified_default
quote_qualified_default_safe qualified = elim (quote_parts_cases (split b'.' qualified)) [
  | inl (h, fine) ↦
      let (p, ps, e) = split_cons b'.' qualified in
      let reads = Reads-parts (split b'.' qualified) p ps e fine in
      inl (
        join b'.' (map (wrap double_quote) (split b'.' qualified)),
        rw h refl,
        fine,
        reads,
        join-split b'.' qualified,
      )
  | inr (x, h, bad) ↦ inr (x, rw h refl, bad)
]
