-- ===== src/Protocol.antt =====
-- protocol/: the wire formats between the engine and its Dart client.
pub mod MultiResult
pub mod ParamValue
pub mod BoundParam
pub mod Types
pub mod RowBuffer
pub mod Encoder
pub mod Decoder
pub mod BulkInsert
pub mod Columnar
pub mod Compression
