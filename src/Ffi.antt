-- ===== src/Ffi.antt =====
-- ffi/: the functions that C code calls. The codes that they return are those of ffi/guard.rs.
pub mod Decompress
use dart_odbc_fast.Prelude.Int.{ℤ, negsuc}

pub data FfiError : Type 0 where
  null_pointer invalid_handle invalid_argument panic internal_lock : FfiError
  odbc_error timeout resource_limit cancelled generic : FfiError

-- `negsuc n` is -(n + 1).
abbrev pub as_i32 : FfiError → ℤ
as_i32 null_pointer = negsuc 0
as_i32 invalid_handle = negsuc 1
as_i32 invalid_argument = negsuc 2
as_i32 panic = negsuc 3
as_i32 internal_lock = negsuc 4
as_i32 odbc_error = negsuc 5
as_i32 timeout = negsuc 6
as_i32 resource_limit = negsuc 7
as_i32 cancelled = negsuc 8
as_i32 generic = negsuc 99
