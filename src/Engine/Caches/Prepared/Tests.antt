-- ===== src/Engine/Caches/Prepared/Tests.antt =====
-- The theorem on the cache of prepared statements, at a cache that keeps one entry.
use dart_odbc_fast.Prelude.{ℕ, ◌+◌, ◌%◌, ◌^◌, ◌≤◌, true, List, [], ◌∷◌, none, some, ◌≡◌, refl}
use native.Mathlib.Decide.{ℕ_discrete}
use dart_odbc_fast.Engine.Lru.OneEntry.{one_entry}
use dart_odbc_fast.Engine.Caches.Prepared.{new_cache, get_or_insert, record_execution, len}
use dart_odbc_fast.Engine.Caches.Prepared.Laws.{
  Op, lookup, execution, lookups, executions, prepared, capacity, run, prepared_cache_lem,
}

abbrev calls : List (Op ℕ)
calls = lookup 3 ∷ lookup 3 ∷ execution ∷ lookup 4 ∷ []

misses :
    (run ℕ_discrete (one_entry (Unit {0})) calls (new_cache (one_entry (Unit {0})) 2)).cache_misses
    ≡ 2
unfolding run new_cache get_or_insert record_execution ℕ_discrete
misses = refl

prepared_cache_lem_example :
    (let c = run ℕ_discrete (one_entry (Unit {0})) calls (new_cache (one_entry (Unit {0})) 2) in
      ((c.cache_hits + c.cache_misses) % 2 ^ 64 ≡ lookups calls % 2 ^ 64)
      × (c.total_prepares ≡ c.cache_misses)
      × (c.total_executions ≡ executions calls % 2 ^ 64)
      × (len (one_entry (Unit {0})) c ≤ capacity 2)
      × ((get_or_insert (one_entry (Unit {0})) 4 c).0 ≡ true
          → prepared ℕ_discrete calls (λ j. none) 4 ≡ some tt)
      × ((get_or_insert (one_entry (Unit {0})) 4 (get_or_insert (one_entry (Unit {0})) 4 c).1).0
          ≡ true))
prepared_cache_lem_example = prepared_cache_lem ℕ_discrete (one_entry (Unit {0})) 2 calls 4
