-- ===== src/Security/Audit/Tests.antt =====
-- A log that is off for a while.
use dart_odbc_fast.Prelude.{true, false, List, [], ◌∷◌, none, ◌≡◌}
use dart_odbc_fast.Wire.{ascii}
use dart_odbc_fast.Security.Audit.{
  new, is_enabled, query_event, error_event, get_events, event_count,
}
use dart_odbc_fast.Security.Audit.Laws.{Operation, query, error, enable, run, recall, audit_log_lem}

abbrev some_operations : List Operation
some_operations =
    query 1 7 (ascii "SELECT 1")
    ∷ enable false
    ∷ query 2 7 (ascii "SELECT 2")
    ∷ enable true
    ∷ error 3 none (ascii "gone")
    ∷ []

audit_log_lem_example :
    (is_enabled (run some_operations (new true)) ≡ true)
    × (event_count (run some_operations (new true)) ≡ 2)
    × (get_events 5 (run some_operations (new true))
        ≡ error_event 3 none (ascii "gone") ∷ query_event 1 7 (ascii "SELECT 1") ∷ [])
unfolding recall
audit_log_lem_example = audit_log_lem true some_operations 5
