-- ===== src/Engine/Caches/Prepared.antt =====
-- engine/core/prepared_cache.rs: the cache of prepared statements and its counters, which are 64-bit
-- and wrap. The average, a float, and poisoned mutexes are not modelled.
pub mod Laws
mod Tests
use dart_odbc_fast.Prelude.{ℕ, ◌+◌, ◌*◌, ◌%◌, ◌^◌, ◌==◌, Bool, true, false, if◌then◌else◌}
use dart_odbc_fast.Engine.Lru.{Lru}

-- `fetch_add(1)` of an `AtomicU64`.
abbrev pub fetch_add : ℕ → ℕ
fetch_add n = (n + 1) % 2 ^ 64

module _ {K : Type 0} (lru : Lru K (Unit {0})) where
  pub record PreparedStatementCache : Type 0 where
    pub cache : lru.Cache
    pub max_size : ℕ
    pub cache_hits : ℕ
    pub cache_misses : ℕ
    pub total_prepares : ℕ
    pub total_executions : ℕ

  -- A size of 0 gives a capacity of 100.
  unfoldable pub new_cache : ℕ → PreparedStatementCache
  new_cache max_size = record {
    cache = lru.create (if max_size == 0 then 100 else max_size);
    max_size = max_size;
    cache_hits = 0;
    cache_misses = 0;
    total_prepares = 0;
    total_executions = 0;
  }

  unfoldable pub get_or_insert : K → PreparedStatementCache → Bool × PreparedStatementCache
  get_or_insert sql c =
      if lru.contains sql c.cache
      then (true, record c { cache_hits = fetch_add c.cache_hits })
      else (
        false,
        record c {
          cache_misses = fetch_add c.cache_misses;
          total_prepares = fetch_add c.total_prepares;
          cache = lru.put sql tt c.cache;
        },
      )

  unfoldable pub record_execution : PreparedStatementCache → PreparedStatementCache
  record_execution c = record c { total_executions = fetch_add c.total_executions }

  unfoldable pub clear : PreparedStatementCache → PreparedStatementCache
  clear c = record c { cache = lru.clear c.cache }

  unfoldable pub len : PreparedStatementCache → ℕ
  len c = lru.len c.cache

  unfoldable pub memory_usage_bytes : PreparedStatementCache → ℕ
  memory_usage_bytes c = lru.len c.cache * 64
