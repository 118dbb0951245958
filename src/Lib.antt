-- ===== src/Lib.antt =====
-- The native half of Allgres, a PostgreSQL extension that runs agents inside the database: two
-- background workers and what they share. The web worker serves the dashboard and never speaks to
-- the database; it passes a request on to the runtime worker by one socket only. The runtime worker
-- claims work from queues in the database: HTTP calls, which it hands to a pool of threads, and
-- agents' statements, functions and procedures, which it runs itself under the agents' roles.
--
-- Text is a list of bytes. A file of the library stands for a part of the program:
-- - Base, Bytes, Utf8, Json: what the source uses of its language and of serde_json's values: lists
--   and maps, searches and splits, UTF-8, objects. Utf8 also has `truncate_utf8` of src/lib.rs.
-- - Config: src/config.rs, the settings and the directory and socket of the runtime worker.
-- - Http: src/http_protocol.rs. `read_http_request` with its read loop, `parse_http_request`, and in
--   Http/Form `parse_form_body` with `percent_decode` and `query_param` of src/web.rs; Http/Printed
--   is a request as a client writes it, and Http/Pieces how it comes in pieces.
-- - Web: src/web.rs. Tickets (`mint_sse_ticket`, `consume_sse_ticket`), RateLimit (`rate_check`,
--   `rate_limited`, `auth_failures_exceeded`, `record_auth_failure`), Auth (`authorized`, `csrf_ok`,
--   `constant_time_eq`), Api (`api_route`), Mock (the mock endpoints), Respond (`respond`),
--   Exposure (`check_exposure`), Nonce (`nonce`), Main (`allgres_web_main`), World (what is outside
--   of the worker, and `rpc`), Connection (`handle_web_connection`, `stream_events`) and
--   Connection/Slots (the count of its threads).
-- - Outbound: src/outbound.rs. Address (`is_blocked_ip` and `GuardedResolver`), Request
--   (`perform_http`, `guarded_post_json`), Flags (`OUTBOUND_CANCEL_FLAGS`, `CancelGuard`), Wait (the
--   loops of `CancellableTransport`), Connector (`CancellableConnector`), Dial (the agents and the
--   addresses that they dial).
-- - Sql: src/sql_parser.rs. `read_token`, `node_body`, `paren_body`, `quoted_strings`, and in
--   Sql/Analyze `analyze_dump`; in Sql/Dump `raw_parse_dump`, and `analyze_sql` of src/lib.rs. How
--   PostgreSQL writes the fields of a node is in Sql/Fields, and a list of names in Sql/Strings.
-- - Worker: the runtime worker. Session (a database session with `drop_privileges` and
--   `run_in_subtransaction`), Ident (`valid_uuid`, `valid_pg_role`, `valid_sql_ident`,
--   `dollar_quote`), Execute (`run_sandboxed_sql` and the like of src/sandbox.rs,
--   src/function_exec.rs and src/procedure_exec.rs), Claims and SqlOutcome (the claims and results
--   of these and of src/runtime_worker.rs), Pumps (`pump_sql` and the like), Rpc
--   (`handle_rpc_stream` of src/rpc.rs), Outbox (what `allgres_runtime_main` hands to the pool and
--   takes back), Runtime (its loop; with the threads of `spawn_http_pool` in Runtime/Pool) and Main
--   (from its start to its end).
-- - Host: src/lib.rs, the functions offered to SQL (`native_status`, `native_start_dynamic_workers`,
--   `native_host_stats`, `native_llm_http_send`) and `_PG_init`.
-- - System: the two workers together, from the bytes that a client sends to the database and back.
--
-- State is passed on: tickets and rate windows are maps in the server's state, which each handler
-- takes and returns; a database session is a log of the statements sent, with the open
-- subtransactions and the timer, which fires once. Each block of a transaction is logged by its
-- `begin`, and commits behind a result, which may raise an ERROR as well; where a subtransaction is
-- left open, the block commits nothing, and the next one continues its transaction. An ERROR of
-- PostgreSQL unwinds the session's code up to the nearest subtransaction, else the worker.
-- Worker/Policy says what may be sent behind a log, and Worker/Guard how the parts of the code keep
-- to it; Worker/Yields says what they return, and Worker/Claims/Handed what a result that is handed
-- back leaves in the log.
--
-- What the code cannot know is an argument: the clock where it is read, the bytes that a `read`
-- gives, random bytes, the answers of the default resolver, the HTTP client and its transport, which
-- calls of the file system and of the sockets succeed, the JSON parser and printer, floating-point
-- numbers, PostgreSQL's parser and printer of trees, its answer to each statement from all
-- statements before. A panic is a value of the result.
--
-- Bounds: the read loop has fuel for 2^20 + 2 rounds, since each round but the last adds a byte and
-- the limit is 2^20 bytes; the event stream has fuel for 32 rounds, since a round sleeps for one
-- second of 30; a search through a text of n bytes has fuel n + 1, since each find leaves less; the
-- loop for a tag has fuel for a body's bytes and one more, since a longer tag is not in the body; a
-- cancellable wait has fuel for a turn in each millisecond of its timeout and one more.
--
-- Not modelled: messages to the log, signal handlers and the timeouts of the runtime worker's
-- socket, which only read and write; the control plane, which is written in SQL; pgrx, ureq and
-- serde_json, which the source only calls.
mod Base
pub mod Config
pub mod Bytes
pub mod Utf8
pub mod Http
pub mod Json
pub mod Web
pub mod Outbound
pub mod Sql
pub mod Worker
pub mod Host
pub mod System
