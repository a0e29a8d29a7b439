-- ===== src/Engine/Capabilities/Laws.antt =====
-- The canonical engine ids are names of their own engines.
use dart_odbc_fast.Prelude.{map, ◌≡◌, refl}
use dart_odbc_fast.Wire.{Bytes}
use dart_odbc_fast.Engine.Capabilities.{
  EngineId, sqlserver, unknown, engine_name, contains, same_text, engine_from_name, lower_byte,
  trim_start, trim_end, canonical, from_driver_name, detect_from_connection_string,
}

from_driver_name-engine_name : (e : EngineId) → from_driver_name (engine_name e) ≡ canonical e
unfolding from_driver_name engine_from_name contains same_text trim_start trim_end
from_driver_name-engine_name sqlserver = refl
from_driver_name-engine_name _ = refl

twice_lem :
    (e : EngineId)
    → (elim e [ unknown ↦ canonical unknown | other ↦ from_driver_name (engine_name other) ])
      ≡ canonical e
twice_lem unknown = refl
twice_lem e = from_driver_name-engine_name e

-- The engine that a connection string names is the one that its lowercased text matches: looking the
-- canonical id up again as a driver's name never changes it. The same holds of every engine id.
detect_from_connection_string_lem :
    (connection_string : Bytes) (e : EngineId)
    → (detect_from_connection_string connection_string
        ≡ canonical (engine_from_name (map lower_byte connection_string)))
      × (from_driver_name (engine_name e) ≡ canonical e)
unfolding detect_from_connection_string
detect_from_connection_string_lem connection_string e = (
  twice_lem (engine_from_name (map lower_byte connection_string)),
  from_driver_name-engine_name e,
)
