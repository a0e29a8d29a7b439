-- ===== src/Engine/Caches/Metadata/Tests.antt =====
-- The theorems on the metadata cache, at a cache that keeps one entry.
use dart_odbc_fast.Prelude.{ℕ, ◌≤◌, max, List, [], ◌∷◌, none, some, ◌≡◌, refl}
use native.Mathlib.Decide.{ℕ_discrete}
use dart_odbc_fast.Wire.{ascii}
use dart_odbc_fast.Engine.Lru.OneEntry.{one_entry}
use dart_odbc_fast.Engine.Caches.Metadata.{
  TableSchema, CachedPayload, MetadataCache, new_cache, get_schema, get_payload, cache_payload,
  stats,
}
use dart_odbc_fast.Engine.Caches.Metadata.History.{
  Op, read_schema, write_payload, stored_schemas, stored_payloads, PayloadAnswer, SchemaAnswer,
}
use dart_odbc_fast.Engine.Caches.Metadata.Laws.{run, metadata_cache_lem}

abbrev small : MetadataCache (one_entry TableSchema) (one_entry CachedPayload)
small = record { schemas = (1, none); payloads = (1, none); ttl = 5; max_size = 1 }

abbrev calls : List (Op ℕ)
calls = write_payload 10 3 (ascii "users") ∷ read_schema 11 3 ∷ []

payload_read :
    (get_payload
      (one_entry TableSchema)
      (one_entry CachedPayload)
      15
      3
      (run ℕ_discrete (one_entry TableSchema) (one_entry CachedPayload) calls small)).0
    ≡ some (ascii "users")
unfolding get_payload run get_schema cache_payload ℕ_discrete
payload_read = refl

metadata_cache_lem_example :
    (let c =
        run ℕ_discrete
          (one_entry TableSchema)
          (one_entry CachedPayload)
          calls
          (new_cache (one_entry TableSchema) (one_entry CachedPayload) 1 5) in
      let ss = stored_schemas ℕ_discrete calls (λ j. none) in
      let ps = stored_payloads ℕ_discrete calls (λ j. none) in
      PayloadAnswer 5 ps 15 3
        (get_payload (one_entry TableSchema) (one_entry CachedPayload) 15 3 c).0
      × SchemaAnswer 5 ss 15 3
          (get_schema (one_entry TableSchema) (one_entry CachedPayload) 15 3 c).0
      × ((stats (one_entry TableSchema) (one_entry CachedPayload) c).max_size ≡ max 1 1)
      × ((stats (one_entry TableSchema) (one_entry CachedPayload) c).payload_entries ≤ max 1 1)
      × ((stats (one_entry TableSchema) (one_entry CachedPayload) c).schema_entries ≤ max 1 1))
metadata_cache_lem_example =
    metadata_cache_lem ℕ_discrete (one_entry TableSchema) (one_entry CachedPayload) 1 5 calls 15 3
