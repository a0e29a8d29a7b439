-- ===== src/Versioning.antt =====
-- versioning/: the versions of the ABI, the API and the protocol, and their rule of compatibility.
mod Laws
use dart_odbc_fast.Prelude.{ℕ, Bool, not, ◌&&◌, ◌==◌, leb, List, [], ◌∷◌, ◌++◌}
use dart_odbc_fast.Prelude.Int.{pos}
use dart_odbc_fast.Wire.{Bytes, ascii}
use dart_odbc_fast.Wire.Print.{print_int}

pub record AbiVersion : Type 0 where
  pub major : ℕ
  pub minor : ℕ

abbrev pub abi_current : AbiVersion
abi_current = record { major = 1; minor = 0 }

unfoldable pub abi_is_compatible_with : AbiVersion → AbiVersion → Bool
abi_is_compatible_with v other = v.major == other.major && leb other.minor v.minor

unfoldable pub abi_is_breaking_change : AbiVersion → AbiVersion → Bool
abi_is_breaking_change v other = not (v.major == other.major)

pub record ApiVersion : Type 0 where
  pub api_major : ℕ
  pub api_minor : ℕ
  pub api_patch : ℕ

unfoldable pub api_is_compatible_with : ApiVersion → ApiVersion → Bool
api_is_compatible_with v other = v.api_major == other.api_major && leb other.api_minor v.api_minor

unfoldable pub api_is_breaking_change : ApiVersion → ApiVersion → Bool
api_is_breaking_change v other = not (v.api_major == other.api_major)

pub record ProtocolVersion : Type 0 where
  pub protocol_major : ℕ
  pub protocol_minor : ℕ

abbrev pub v1 : ProtocolVersion
v1 = record { protocol_major = 1; protocol_minor = 0 }

abbrev pub v2 : ProtocolVersion
v2 = record { protocol_major = 2; protocol_minor = 0 }

abbrev pub protocol_current : ProtocolVersion
protocol_current = v2

unfoldable pub protocol_is_compatible_with : ProtocolVersion → ProtocolVersion → Bool
protocol_is_compatible_with v other =
    v.protocol_major == other.protocol_major && leb other.protocol_minor v.protocol_minor

unfoldable pub protocol_is_breaking_change : ProtocolVersion → ProtocolVersion → Bool
protocol_is_breaking_change v other = not (v.protocol_major == other.protocol_major)
