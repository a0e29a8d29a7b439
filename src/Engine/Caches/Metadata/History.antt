-- ===== src/Engine/Caches/Metadata/History.antt =====
-- The calls of a metadata cache, what they have stored, and what a read may answer.
use dart_odbc_fast.Prelude.{ℕ, ◌-◌, ◌≤◌, List, [], ◌∷◌, Option, none, some, ◌≡◌, ◌⊎◌}
use dart_odbc_fast.Wire.{Bytes}
use dart_odbc_fast.Engine.Lru.Forgets.{Store, assign}
use dart_odbc_fast.Engine.Caches.Metadata.{TableSchema, CachedPayload}

-- A call, with the time at which it reads the clock.
pub data Op (K : Type 0) : Type 0 where
  read_schema : ℕ → K → Op K
  write_schema : K → TableSchema → Op K
  read_payload : ℕ → K → Op K
  write_payload : ℕ → K → Bytes → Op K
  wipe : Op K

module _ {K : Type 0} (dec : Discrete K) where
  -- What a history has stored since the last `clear`.
  abbrev pub stored_schemas : List (Op K) → Store K TableSchema → Store K TableSchema
  stored_schemas [] store = store
  stored_schemas (write_schema k schema ∷ ops) store =
      stored_schemas ops (assign dec k schema store)
  stored_schemas (wipe ∷ ops) store = stored_schemas ops (λ k. none)
  stored_schemas (_ ∷ ops) store = stored_schemas ops store

  abbrev pub stored_payloads : List (Op K) → Store K CachedPayload → Store K CachedPayload
  stored_payloads [] store = store
  stored_payloads (write_payload now k bytes ∷ ops) store =
      stored_payloads ops (assign dec k (record { bytes = bytes; cached_at = now }) store)
  stored_payloads (wipe ∷ ops) store = stored_payloads ops (λ k. none)
  stored_payloads (_ ∷ ops) store = stored_payloads ops store

-- What a read may answer: nothing, or what was stored last and is not too old.
abbrev pub PayloadAnswer : {K : Type 0} → ℕ → Store K CachedPayload → ℕ → K → Option Bytes → Type 0
PayloadAnswer ttl ps now k answer =
    (answer ≡ none)
    ⊎ ((p : CachedPayload) × (ps k ≡ some p) × (answer ≡ some p.bytes) × (now - p.cached_at ≤ ttl))

abbrev pub SchemaAnswer :
    {K : Type 0} → ℕ → Store K TableSchema → ℕ → K → Option TableSchema → Type 0
SchemaAnswer ttl ss now k answer =
    (answer ≡ none)
    ⊎ ((s : TableSchema) × (ss k ≡ some s) × (answer ≡ some s) × (now - s.cached_at ≤ ttl))
