-- ===== src/Protocol/BulkInsert/RoundTrip.antt =====
-- What `serialize_bulk_insert_payload` writes, `parse_bulk_insert_payload` reads.
pub mod Values
pub mod Columns
pub mod Payload
pub mod Exact
mod Tests
