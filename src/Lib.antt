-- ===== src/Lib.antt =====
-- QueQiao-Router, a gateway that spreads requests for language models over configured backends.
--
-- A request names a model. The dispatcher takes the backends whose configuration matches the model,
-- orders them by the load-balancing strategy, and calls them one after the other as far as the
-- circuit breaker lets it, until an answer is worth returning; when all have failed it goes on with
-- the fallback model that a backend names. Every answer is entered in the circuit breaker, which
-- all requests share.
--
-- Which file models what, with paths from the repository's root:
--   Base: lists, association lists for hash maps, stable sorting (Base/Sorting), and the doubles as
--     an argument (Base/Floats); total orders (Base/Order), sorting in parts (Base/Merging) and
--     decimal texts of i64 (Base/Decimal).
--   Config: config/types.rs under src. `matches_model`, `resolve_upstream_model` and
--     `resolve_thinking_format` are the methods of those names.
--   CircuitBreaker: src/services/circuit_breaker.rs. `allow`, `record_success`, `record_failure`,
--     `configure` and `new_registry` are the methods of the registry, each one step on its state,
--     since each holds the mutex throughout. Instants and durations are nanoseconds; `Instant::now`
--     is an argument. A result none is the panic of `Duration::mul_f64`.
--   Routing: src/client/routing.rs. `select_clients` and the three strategies. The draws of the
--     random generator and the standard library's hash are arguments.
--   Response: src/app_error.rs and src/models/mod.rs. A text built by `format!` is kept as the
--     data that it is built from.
--   Dispatcher: src/services/dispatcher.rs and `find_matching_clients` of
--     src/client/client_manager.rs. `execute_client_chain` is the method
--     `execute_client_chain_with_registry`. A request runs in an `Environment`, which says what the
--     handler answers and what all other tasks do to the world and the registry between two steps
--     of the request; a theorem holds for all environments unless it says otherwise.
--   Thinking: src/handlers/thinking_transformer.rs. A text is the list of its bytes, and a JSON
--     object an association list. `parse` is the loop of `parse_content_source`, on fuel that is
--     one more than the bytes left; it is enough since each round takes a tag off. In the conversion
--     of a whole message, `transform_message`, the matches of the regular expression are an argument.
--   RequestBody: src/handlers/request_body.rs and the requests of src/models/requests.rs. A JSON
--     object is an association list; requests that serde writes as they are stand for their objects.
--   Streams: src/handlers/stream_handler.rs. `poll_terminate`, `poll_outcome`, `poll_sentinel` and
--     `poll_body` are the `poll_next` of the adapters, `on_item` the closure of `flat_map`
--     (Streams/Forward, Streams/Chunk), and `poll_response` a poll of the whole response
--     (Streams/Response). Reading and writing JSON is an argument, and of a chunk only the parts
--     that the handler reads have a form.
--   Records: src/db/records_query.rs. A table is a list of rows, and a SELECT keeps, sorts and cuts
--     it; the filter of the WHERE clause is an argument, and a shard may fail.
--   Days: `local_day_ms`, `next_local_day`, `full_day_bounds` and `correction_windows` of
--     src/db/aggregate.rs. chrono and the time zone are an argument, the calendar.
--   Rollup: the sums by day of the active shard in src/db/aggregate.rs (`scan_after` in Rollup,
--     `apply_deltas` and `ensure_active` in Rollup/Update) and the summary that
--     src/handlers/analysis_api/rollup.rs makes of them (Rollup/Analyse). A table is a list of rows,
--     what the engine answers to the query of a summary is an argument, and i64 counts are 64 bits.
--   Slices: `range_slices` of src/handlers/analysis_api/shards.rs.
--   ModelsCache: src/services/models_cache.rs. `insert`, `lookup`, `begin_refresh` and
--     `complete_refresh` are the methods; SHA-256 and the order of a map's iterator are arguments.
--   ModelList: src/handlers/model_handler.rs. What the upstreams answer is an argument of
--     `aggregate_models`; `refresh` is the leader's task and `follow` what a follower answers.
--   Window: src/metrics/sliding_window.rs, with the times at which it reads the clock as arguments.
--   Messages: src/handlers/message_utils.rs and the messages of src/models/requests.rs.
--   Samples and the modules named Tests: runs at small inputs.
--
-- Sizes: u32 and u64 keep their saturation or wrap-around where the source computes with them.
-- The loop of `execute` over fallback models takes fuel, one unit for each model; how much is
-- enough, and when no amount is, are theorems. The loop of `scan_after` takes one unit for each row
-- and one more, enough as a theorem says. All other loops are structural.
--
-- Not modelled: the HTTP calls and handlers, the databases themselves, the sums by dimension and of
-- archives, the other metrics, logging and the dashboard, which are I/O, the work of libraries or
-- repeat a modelled pattern; the log lines; the locking of the mutexes beyond its atomicity.
pub mod Base
pub mod Config
pub mod CircuitBreaker
pub mod Routing
pub mod Response
pub mod Dispatcher
pub mod Thinking
pub mod ModelsCache
pub mod ModelList
pub mod Window
pub mod Messages
pub mod Samples
pub mod Records
pub mod RequestBody
pub mod Streams
pub mod Days
pub mod Rollup
pub mod Slices
