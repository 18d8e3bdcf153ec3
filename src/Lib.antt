-- ===== src/Lib.antt =====
-- swanlake: a model of the session layer of SwanLake, an Arrow Flight SQL server in front of
-- DuckDB.
--
-- A client's requests name a session. The registry (swanlake-core/src/session/registry.rs) finds
-- the session or makes one with its own DuckDB connection, up to a maximum. A session
-- (swanlake-core/src/session/mod.rs) checks each text of its user, locks its engine down before
-- the first one, runs it with a recovery from aborted transactions, and keeps transactions,
-- prepared statements and a cache of schemas. The checks and the statements that attach a
-- project's catalogs are made of the scanners in swanlake-core/src/duckvis/attach.rs.
--
-- The files and the code that they model:
--
-- - Prelude, Text, Dict: what the other files share. Text has Rust's strings as lists of UTF-8
--   bytes, with the operations of the standard library that the code uses, and slices that panic
--   off a character boundary; Prelude/Panics has the type of what may panic. Dict has hash maps
--   and hash sets as lists.
-- - Error: ServerError of swanlake-core/src/error.rs, and results.
-- - Sql: swanlake-core/src/duckvis/attach.rs. Sql/Lexer is split_top_level_statements, as an
--   automaton over the bytes, and Sql/Lexer/Parts writes scripts for it from code, quoted texts
--   and comments; Sql/Comments is strip_comments, Sql/Keyword leading_keyword, Sql/Scan scan,
--   Sql/Tokens tokenize and unquote, Sql/Constructs the tests of admission, Sql/Attach
--   parse_attach, attach_data_path, and in its children normalize_attach, secret_statement and
--   catalog_search_path_sql, Sql/Quoting the escapes. Sql/Syntax is ParsedStatement of
--   swanlake-core/src/sql/parser.rs, on trees that stand for those of the crate sqlparser.
-- - Engine/Cancellation: RequestCancellation of swanlake-core/src/engine/cancellation.rs; its
--   steps take the lock of a connection from engine/connection.rs as the owner of the connection.
-- - Session/Engine: the interface of a session to DuckDB and the file system, which are no code
--   of this repository. Each call is a function of the engine's world that returns the next
--   world; no law is assumed of it.
-- - Session/State: the fields of Session, and with_transaction_recovery with what it calls.
--   Session/Transactions has begin_transaction, end_transaction and transaction_absent,
--   Session/Prepared the prepared statements, Session/SchemaCache the cache, Session/Admission
--   validate_user_sql, Session/Lockdown lockdown_sql, Session/Statements ensure_lockdown and the
--   calls that run a user's text, Session/Catalogs attach_catalog, Session/Executions
--   register_execution and cancel_execution.
-- - Session/Registry: SessionRegistry. get_or_create_by_id_with_auth has two parts, up to its
--   permit and from its connection on, that other requests may come between;
--   Session/Registry/Steps has the steps of all requests as a relation.
-- - Session/Ids: the identifiers of swanlake-core/src/session/id.rs, and the tickets of
--   swanlake-core/src/service/handlers/ticket.rs.
-- - Duckvis: the authenticated mode, swanlake-core/src/duckvis. Duckvis/Jwt is verify_and_decode
--   of jwt.rs over the interface Jose, which stands for base64, JSON and Ed25519; Duckvis/Jwks
--   the key cache of jwks.rs and its refresh; Duckvis/Validate validate_token of mod.rs, on both;
--   Duckvis/Sa the service-account token of sa.rs; Duckvis/Api the authorization calls of api.rs.
--   A server is a function of the instant and of the request, so it may change its mind between
--   two calls.
-- - Scrub: scrub_error_text of swanlake-core/src/scrub.rs. Its loop has fuel, one round for each
--   byte of the text and one more, and each round but the last passes a key of eight bytes, so
--   that is enough; Scrub/Ends proves it.
-- - Metrics: swanlake-core/src/metrics.rs. Metrics/State has Metrics, what records into it and
--   its snapshot, Metrics/Latency push_ring and summarize_latencies, Metrics/Groups
--   summarize_slow_query_groups, Metrics/Texts compact_sql and infer_reasons; Metrics/Log the log
--   that they are a view of, Metrics/Quantiles what a median and a percentile are.
-- - Service/Requests: swanlake-core/src/service/mod.rs, extract_session_id, prepare_request and
--   prepare_request_duckvis, with status_from_error in Service/Requests/Statuses. The token and
--   the permissions are asked of an Authority, and the registry has a state of its own at each
--   step of a request, since other requests come between; Service/Requests/EndToEnd makes the
--   Authority of Duckvis/Validate and Duckvis/Api.
-- - Service/Filters: expression_to_sql and parse_filters_to_where_clause of
--   swanlake-core/src/service/handlers/action.rs. A JSON value is what the code reads of it.
--   Service/Filters/Spelled prints the filters in SQL by tables of its own, for what the code can
--   express, and the code is compared with it.
-- - Service/Parameters: infer_parameter_schema of swanlake-core/src/service/handlers/prepared.rs,
--   with resolve_catalog_and_table of session/mod.rs.
-- - Client/Pool: the connections of FlightSQLPool in swanlake-client/src/pool.rs and
--   swanlake-client/src/pool_shared.rs. A round of the loop in acquire_connection is a function;
--   the waiting between two rounds and the driver are left out.
--
-- Numbers are natural numbers; the counters of 64 bits wrap around, and a theorem that needs them
-- not to has that as a hypothesis. Instants are milliseconds. All loops are recursions on the
-- text or the list that they walk, so no fuel is needed. The calls of one session run one at a
-- time: two calls that interleave within one session are not modelled. A mutex that is poisoned
-- is used on, as in the code. Log lines and spans are left out.
--
-- Not modelled: the engine, Arrow and Flight themselves, most of the service handlers,
-- maintenance, configuration and the server binary.
pub mod Prelude
pub mod Text
pub mod Dict
pub mod Error
pub mod Sql
pub mod Engine
pub mod Session
pub mod Duckvis
pub mod Scrub
pub mod Metrics
pub mod Service
pub mod Client
