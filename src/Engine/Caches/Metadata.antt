-- ===== src/Engine/Caches/Metadata.antt =====
-- engine/core/metadata_cache.rs: two caches with a time to live. An `Instant` is a number of
-- nanoseconds, and each operation is given the time at which it reads the clock. Poisoned mutexes are
-- not modelled.
pub mod History
pub mod Laws
mod Tests
use dart_odbc_fast.Prelude.{
  ℕ, ◌-◌, ◌/◌, ◌^◌, ltb, max, Bool, if◌then◌else◌, List, Option, none, some,
}
use dart_odbc_fast.Prelude.Int.{ℤ}
use dart_odbc_fast.Wire.{Bytes}
use dart_odbc_fast.Engine.Lru.{Lru}

pub record ColumnMetadata : Type 0 where
  pub name : Bytes
  pub odbc_type : ℤ
  pub nullable : Bool

pub record TableSchema : Type 0 where
  pub table_name : Bytes
  pub columns : List ColumnMetadata
  pub cached_at : ℕ

pub record CachedPayload : Type 0 where
  pub bytes : Bytes
  pub cached_at : ℕ

pub record MetadataCacheStats : Type 0 where
  pub max_size : ℕ
  pub ttl_secs : ℕ
  pub schema_entries : ℕ
  pub payload_entries : ℕ

-- `cached_at.elapsed() > ttl`; the time that has passed is never negative.
abbrev pub expired : ℕ → ℕ → ℕ → Bool
expired ttl now cached_at = ltb ttl (now - cached_at)

module _ {K : Type 0} (lru_schemas : Lru K TableSchema) (lru_payloads : Lru K CachedPayload) where
  pub record MetadataCache : Type 0 where
    pub schemas : lru_schemas.Cache
    pub payloads : lru_payloads.Cache
    pub ttl : ℕ
    pub max_size : ℕ

  -- The capacity is at least 1, so the fallback to 100 is never taken.
  unfoldable pub new_cache : ℕ → ℕ → MetadataCache
  new_cache max_size ttl = record {
    schemas = lru_schemas.create (max max_size 1);
    payloads = lru_payloads.create (max max_size 1);
    ttl = ttl;
    max_size = max max_size 1;
  }

  -- What follows the lookup in `get_schema` and in `get_payload`.
  abbrev pub found_schema :
      ℕ
      → K
      → MetadataCache
      → Option TableSchema × lru_schemas.Cache
      → Option TableSchema × MetadataCache
  found_schema now table c (none, guard) = (none, record c { schemas = guard })
  found_schema now table c (some schema, guard) =
      if expired c.ttl now schema.cached_at
      then (none, record c { schemas = lru_schemas.pop table guard })
      else (some schema, record c { schemas = guard })

  abbrev pub found_payload :
      ℕ
      → K
      → MetadataCache
      → Option CachedPayload × lru_payloads.Cache
      → Option Bytes × MetadataCache
  found_payload now key c (none, guard) = (none, record c { payloads = guard })
  found_payload now key c (some payload, guard) =
      if expired c.ttl now payload.cached_at
      then (none, record c { payloads = lru_payloads.pop key guard })
      else (some payload.bytes, record c { payloads = guard })

  unfoldable pub get_schema : ℕ → K → MetadataCache → Option TableSchema × MetadataCache
  get_schema now table c = found_schema now table c (lru_schemas.get table c.schemas)

  unfoldable pub cache_schema : K → TableSchema → MetadataCache → MetadataCache
  cache_schema table schema c = record c { schemas = lru_schemas.put table schema c.schemas }

  unfoldable pub get_payload : ℕ → K → MetadataCache → Option Bytes × MetadataCache
  get_payload now key c = found_payload now key c (lru_payloads.get key c.payloads)

  unfoldable pub cache_payload : ℕ → K → Bytes → MetadataCache → MetadataCache
  cache_payload now key bytes c = record c {
    payloads = lru_payloads.put key (record { bytes = bytes; cached_at = now }) c.payloads;
  }

  unfoldable pub clear : MetadataCache → MetadataCache
  clear c = record c {
    schemas = lru_schemas.clear c.schemas;
    payloads = lru_payloads.clear c.payloads;
  }

  unfoldable pub stats : MetadataCache → MetadataCacheStats
  stats c = record {
    max_size = c.max_size;
    ttl_secs = c.ttl / 10 ^ 9;
    schema_entries = lru_schemas.len c.schemas;
    payload_entries = lru_payloads.len c.payloads;
  }
