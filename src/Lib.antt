-- ===== src/Lib.antt =====
-- A model of the core of causalmesh, a server that keeps a graph of the contracts (RPC services,
-- HTTP routes, topics, imports) of several repositories and answers questions about it.
--
-- The crawler hands each file to the guards (crates/mesh-parsers/src/guard.rs), which refuse what
-- must not be parsed; the differential cache (crates/mesh-core/src/vfs.rs) tells which files
-- changed; the parsers' facts fill the contract graph (crates/mesh-core/src/contracts.rs), whose
-- nodes of a changed file are patched out before its new ones are added; what was not indexed
-- stands in the index health (crates/mesh-core/src/health.rs). An edit of the configuration
-- (crates/mesh-core/src/config.rs) is weighed by crates/mesh-core/src/reload_kind.rs. Questions
-- read the graph: topics and names by contracts.rs, routes by crates/mesh-core/src/routes.rs,
-- test code by crates/mesh-core/src/test_paths.rs. The paths of requests are judged by
-- crates/mesh-core/src/security.rs. Pages of the search are kept in
-- crates/mesh-core/src/search_cache.rs, what a file yields in crates/mesh-core/src/index_cache.rs;
-- every call leaves a row by crates/mesh-core/src/audit.rs, and the daemon ends by
-- crates/mesh-daemon/src/idle.rs.
--
-- - Graph: `ContractGraph`; `add_node`, `add_edge`, `add_dependency` and the other functions of
--   those names; Graph.Patch has `patch_files` and `remove_nodes`, Graph.Topics
--   `normalize_topic_key`, Graph.Ties both functions `pick_or_ambiguous` and the order of
--   confidences. Maps are association lists, sets are lists without repetition, and each function
--   takes the graph and returns the next one.
-- - Subject: `subject_matches`, `is_subject_pattern`, `bare_names_match` of contracts.rs.
-- - SearchCache, Vfs, Idle: the records of the source, and histories of calls in SearchCache.History,
--   Vfs.History and Idle.Watching, whose newest call or round stands first.
-- - Guard: `check_with_budget` and the functions around it; Guard.Scan is `max_nesting_depth`.
-- - Config, Reload: the records of config.rs, `classify` and `changed_patterns`.
-- - Routes: `match_route` and the tests on segments; Routes.Query is `path_segments` and
--   `RouteQuery::parse`; Routes.Finding is `node_route` and `find_routes`.
-- - Health: the counters, `normalize_rejected` and `replace_rejected`.
-- - TestPaths: `is_test_path`, `is_generated_path` and `is_test_node`.
-- - Security: `resolve_with_aliases` and `validate_file_access` of crates/mesh-core/src/security.rs.
-- - Audit: `record_entry_with_error` and `verify_db` of crates/mesh-core/src/audit.rs, over the rows
--   of the table; Audit.Chain has sequences of calls, Audit.Secrets `secret_ranges`, Audit.Messages
--   `sanitize_error_message`, Audit.Timestamps the calendar of `format_epoch_iso` and of
--   `parse_timestamp_to_epoch_secs`.
-- - IndexCache: `get`, `put_batch` and `enforce_quota` of crates/mesh-core/src/index_cache.rs, over
--   the two tables of the database; IndexCache.Pairing has sequences of calls.
-- - Governance: `evaluate_guard` and `recommend_skill` of crates/mesh-core/src/governance.rs.
-- - RootGuard: `guard_workspace_root` of crates/mesh-core/src/root_guard.rs.
-- - Framing: the writer and the reader of crates/mesh-server/src/framing.rs, as functions of the
--   events that they meet.
-- - Handlers: `HandlerIndex` and `signature_contains_bare` of contracts.rs, and the test of all pairs
--   of `reconcile_edges` that the index prunes for.
-- - Prelude: the shared names, tests, lists, maps, texts, paths and their order.
--
-- Numbers are unbounded, except the node ids (modulo 2^32) and the counter of clients (modulo
-- 2^64). Fuel: the outer loop of `max_nesting_depth` has one unit for each byte, and every
-- round takes a byte or more; the loop of `enforce_quota` has one unit more than the rows, and every
-- round but the last deletes a row; the loops of `strip_serde_values` and `collapse_home` have one
-- for each character, and every round takes a marker off the text. Texts are lists of code points,
-- file contents lists of bytes, paths lists of components without the prefixes of Windows.
--
-- Parameters stand for code of libraries: Unicode lower case, normal form and character classes,
-- SHA-256, JSON, what SQLite measures and which of its statements fail, the lexical cleaning of a
-- path, and what the file system answers. What the database measures depends on its rows only, and
-- all paths are valid Unicode. Not modelled:
-- tree-sitter and the extractors on top of it, the file system and sockets, the reconciliation of
-- edges and the analyses of contracts.rs, and the rendering of answers.
pub mod Prelude
pub mod SearchCache
pub mod Vfs
pub mod Idle
pub mod Graph
pub mod Subject
pub mod Guard
pub mod Config
pub mod Reload
pub mod Routes
pub mod Health
pub mod TestPaths
pub mod Audit
pub mod IndexCache
pub mod Governance
pub mod RootGuard
pub mod Framing
pub mod Handlers
pub mod Security
