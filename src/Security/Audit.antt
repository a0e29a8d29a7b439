-- ===== src/Security/Audit.antt =====
-- security/audit.rs: the audit log. A `HashMap` with at most one entry is a list of pairs, and the
-- time of an event is an argument.
pub mod Laws
mod Tests
use dart_odbc_fast.Prelude.{
  ℕ, Bool, true, false, ltb, if◌then◌else◌, List, [], ◌∷◌, ◌++◌, length, take, drop, Option, none,
  some,
}
use mathlib.Core.List.{reverse}
use dart_odbc_fast.Wire.{Bytes, ascii}
use dart_odbc_fast.Security.Sanitize.{sanitize_connection_string}

pub record AuditEvent : Type 0 where
  pub timestamp : ℕ
  pub event_type : Bytes
  pub user : Option Bytes
  pub connection_id : Option ℕ
  pub query : Option Bytes
  pub metadata : List (Bytes × Bytes)

pub record AuditLogger : Type 0 where
  pub events : List AuditEvent
  pub enabled : Bool

abbrev pub new : Bool → AuditLogger
new enabled = record { events = []; enabled = enabled }

-- `AuditLogger::default()`
abbrev pub default : AuditLogger
default = new true

abbrev pub is_enabled : AuditLogger → Bool
is_enabled logger = logger.enabled

-- `events.push(event); if events.len() > 10000 { events.remove(0); }`
unfoldable pub push_event : ℕ → AuditEvent → List AuditEvent → List AuditEvent
push_event limit event events =
    let pushed = events ++ (event ∷ []) in
    if ltb limit (length pushed) then drop 1 pushed else pushed

abbrev pub max_events : ℕ
max_events = 10000

-- `if !self.is_enabled() { return; }`, and then the event goes to the log.
unfoldable pub log_event : AuditEvent → AuditLogger → AuditLogger
log_event event logger =
    if is_enabled logger
    then record logger { events = push_event max_events event logger.events }
    else logger

abbrev pub connection_event : ℕ → ℕ → Bytes → AuditEvent
connection_event now connection_id connection_string = record {
  timestamp = now;
  event_type = ascii "connection";
  user = none;
  connection_id = some connection_id;
  query = none;
  metadata = (ascii "connection_string", sanitize_connection_string connection_string) ∷ [];
}

abbrev pub query_event : ℕ → ℕ → Bytes → AuditEvent
query_event now connection_id query = record {
  timestamp = now;
  event_type = ascii "query";
  user = none;
  connection_id = some connection_id;
  query = some query;
  metadata = [];
}

abbrev pub error_event : ℕ → Option ℕ → Bytes → AuditEvent
error_event now connection_id error = record {
  timestamp = now;
  event_type = ascii "error";
  user = none;
  connection_id = connection_id;
  query = none;
  metadata = (ascii "error", error) ∷ [];
}

unfoldable pub log_connection : ℕ → ℕ → Bytes → AuditLogger → AuditLogger
log_connection now connection_id connection_string =
    log_event (connection_event now connection_id connection_string)

unfoldable pub log_query : ℕ → ℕ → Bytes → AuditLogger → AuditLogger
log_query now connection_id query = log_event (query_event now connection_id query)

unfoldable pub log_error : ℕ → Option ℕ → Bytes → AuditLogger → AuditLogger
log_error now connection_id error = log_event (error_event now connection_id error)

unfoldable pub get_events : ℕ → AuditLogger → List AuditEvent
get_events limit logger = take limit (reverse logger.events)

unfoldable pub clear_events : AuditLogger → AuditLogger
clear_events logger = record logger { events = [] }

unfoldable pub set_enabled : Bool → AuditLogger → AuditLogger
set_enabled enabled logger = record logger { enabled = enabled }

abbrev pub event_count : AuditLogger → ℕ
event_count logger = length logger.events
