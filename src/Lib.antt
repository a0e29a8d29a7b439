-- ===== src/Lib.antt =====
-- The native engine of dart_odbc_fast (the Rust crate native/odbc_engine), which a Dart package
-- calls to reach databases through ODBC. The engine turns result sets, parameters and errors into
-- byte messages and back, builds SQL from names that callers give, and drives transactions on
-- connections.
--
-- The parts, with the paths below native/odbc_engine/src:
--   Wire               byte buffers, little-endian integers, UTF-8: what the code uses of Rust's
--                      standard library. A cursor into a buffer is the list of the bytes not read yet.
--   Error              error/mod.rs. A message is its format string with the values put in. Its
--                      child Structured has StructuredError and the classification of errors.
--   Protocol           the wire formats that the engine and its Dart client share:
--     MultiResult      protocol/multi_result.rs: the items of a batch, with and without a header
--     ParamValue       protocol/param_value.rs: a parameter, a list of parameters, their texts
--     BoundParam       protocol/bound_param.rs: parameters with a direction
--     Types            protocol/types.rs: the codes of the column types
--     RowBuffer        protocol/row_buffer.rs: a result set in memory
--     Encoder          protocol/encoder.rs: a result set as a message, and the two footers
--     Decoder          protocol/decoder.rs: a message as a result set
--     BulkInsert       protocol/bulk_insert.rs: the columns of a bulk insert
--     Columnar         protocol/columnar.rs and protocol/converter.rs (the root), and
--                      protocol/columnar_encoder.rs (Encode): a result set by columns. Reader is what
--                      a reader of a message does; it is no code of the engine
--     Compression      protocol/compression.rs, over the zstd and lz4 crates
--   Handles            handles/mod.rs: the open connections by id, and the allocation of ids
--   Engine
--     Identifier       engine/identifier.rs: validation and quoting of SQL names
--     Capabilities     engine/core/driver_capabilities.rs: the engine that a name stands for
--     SqlserverJson    engine/sqlserver_json.rs: the rows of a FOR JSON result, joined
--     Transaction      engine/transaction.rs: options (the root), the connection and its driver
--                      (Connection), begin (Begin), commit, rollback, drop and savepoints (Lifecycle)
--     Xid              engine/xa_transaction.rs: the identifiers of XA branches and their encodings
--     Xa               engine/xa_transaction.rs: the statements of each engine (Sql), the branch and
--                      its operations (Branch), clients by the state of their branch (Client)
--     Lru              what the caches use of the lru crate
--     Caches           engine/core/metadata_cache.rs and engine/core/prepared_cache.rs
--     Spill            engine/core/disk_spill.rs: the stream and its writer, on a file system that is
--                      a parameter with its laws
--   Security
--     Sanitize         security/sanitize.rs: connection strings without their secrets
--     Audit            security/audit.rs: the audit log
--   Versioning         versioning/: the versions and their compatibility
--   Plugins            plugins/capabilities/upsert.rs (Upsert), and the builder of an UPSERT
--                      statement of each vendor in plugins/ (Vendors)
--   Ffi                ffi/guard.rs: the codes that C callers get
--     Decompress       ffi/columnar_decompress.rs: the memory that C callers get and give back
-- How they meet: Encoder writes RowBuffer with the codes of Types and the values of ParamValue;
-- Decoder reads it; MultiResult tolerates the footers of Encoder; BoundParam reads both request
-- formats over ParamValue; Transaction quotes savepoint names by Identifier and finds its dialect by
-- Capabilities; Xa runs on the connection of Transaction and encodes its branch by Xid; Plugins
-- validates and quotes names by Identifier; Caches keeps its entries in Lru; Columnar transposes
-- RowBuffer and compresses by Compression, which Ffi.Decompress undoes for a C caller; Audit cleans
-- connection strings by Sanitize.
--
-- Conventions. A function has the name of its Rust function; a loop is a helper beside it, by
-- recursion on the count or on the list, so that no fuel is needed, but for three loops: the one
-- over a parameter buffer is bounded by the 4096 parameters that the code allows itself, and the
-- one over a connection string and the one of a writer in Spill have the length of what is left as
-- fuel, since each round passes over a byte. A machine integer is a number with the width written
-- out; a signed one is the type Int.ℤ of Prelude with its two's complement. `usize` has 64 bits.
-- Results with the `?` operator are Result. A text is the list of its bytes; a Rust String is
-- valid UTF-8 by hypothesis where a theorem needs it. The ODBC driver is a parameter: it answers
-- each call from the calls before it, and a connection is the list of its calls.
--
-- The methods of Rust that consume a transaction or a branch can be called once: a client of Xa is a
-- term that is indexed by the state of its branch. The lru crate is the record Lru of a cache with
-- its documented laws, of which OneEntry is an instance; the clock of a cache or a log is an
-- argument. The zstd and lz4 crates are the record Codecs: Lossless says that they decode what they
-- have encoded. The file system of Spill is the record FileSystem: its calls may fail at any time,
-- and nobody else writes to the file of a stream. The allocator of Ffi.Decompress is a function to
-- an address that is not in use.
--
-- Not modelled: what only calls the odbc_api crate or other crates (queries, cursors, the pool,
-- logging, telemetry, the list of prepared branches), the builds with the features xa-dtc and
-- xa-oci, the other exported C functions, writer failures, poisoned mutexes, and the arena,
-- streaming and the rest of the plugins. Functions that panic where a fallible variant returns an
-- error are covered by that variant.
pub mod Prelude
pub mod Wire
pub mod Error
pub mod Protocol
pub mod Handles
pub mod Engine
pub mod Versioning
pub mod Security
pub mod Plugins
pub mod Ffi
