-- ===== src/Lib.antt =====
-- A verification library for wp-knowledge, the knowledge base of queries that enrich log records.
--
-- The program answers SQL queries of a log pipeline from named providers: an in-memory SQLite
-- database, Postgres, MySQL and Redis. `src/facade.rs` takes a query, `src/sql_route.rs` finds the
-- provider that it is for and removes the provider's name from its text, and `src/runtime.rs` keeps
-- the registry of providers, numbers each installed provider with a generation, and answers through
-- a result cache. Each thread of the pipeline puts a cache of its own before this, `src/cache.rs`,
-- by way of `src/cache_util.rs`.
--
-- Base: shared names. Base/Tests has Boolean tests, Base/Lists lists and dictionaries, Base/Text
--   the operations of `str` and `u8`, Base/Model the values and fields of the crate `wp_model_core`.
-- Lru: the crate `lru` as a record of operations and laws; Lru/Bounded fills it.
-- Cache: `src/cache.rs`. Cache/Fields is the state `FieldQueryCache` and its operations:
--   `save_scoped`, `fetch_scoped`, `prepare_generation`. A struct that is changed in place is passed
--   on as a value. The six blocks that implement `CacheAble` are one definition over the list of the
--   parameters. Cache/Keys, Cache/Invariant, Cache/Alloc, Cache/Save, Cache/Scope and Cache/Store
--   have the invariant and its parts, Cache/Contract and Cache/Generations what the operations
--   promise. Cache/History is an ideal cache, Cache/Tracked and Cache/Run the refinement. Cache/Split
--   and Cache/StaleHit are about a reset between two parameters of one save, Cache/Announced about
--   the generations that a cache has been told. Cache/Query is `src/cache_util.rs`.
-- SqlRoute: `src/sql_route.rs`. SqlRoute/Scan has `find_keyword` and `matching_paren`,
--   SqlRoute/Table `first_table_name`, SqlRoute/Strip `strip_provider_prefix` and `compute_route`,
--   SqlRoute/Memo `route_provider_sql`. A loop over a position is a recursion over the rest of the
--   text with the number of bytes that are still to be passed. SqlRoute/Events says what routes a run
--   of queries, installations and removals ought to have, SqlRoute/Lexer what a literal or a comment
--   is, by an automaton that does not use the scans. The other modules hold proofs.
-- Runtime: `src/runtime.rs`. Runtime/Types has its types, Runtime/Params the parameters and the
--   keys of the cache, Runtime/State the state and the registry, Runtime/Configure the settings of
--   the caches, Runtime/Ask, Runtime/Execute and Runtime/Entry the queries, Runtime/Redis the cache
--   of Redis results, Runtime/Counters the counters and the scopes of metadata. Runtime/Registry,
--   Runtime/Named, Runtime/Answers, Runtime/Keeps and Runtime/Reload hold proofs. Runtime/Race takes
--   the installation apart into its atomic steps, for two threads at once.
-- PoolConfig: `src/pool_config.rs`, the builders of the configuration of a connection pool.
-- Vel: `src/vel.rs`, the variables of refreshed tables: Vel has `eval`, Vel/Text and Vel/Parse the
--   parser, Vel/Resolve the substitution in a query.
-- Rewrite: the rewriting of named parameters in `src/postgres.rs` and `src/mysql.rs`, whose loops
--   scan alike. Rewrite/Tokens is the scan, Rewrite/Place the placeholders and the values,
--   Rewrite/Bind what its pieces mean, Rewrite/Sent how a server reads its text. Rewrite/Bound,
--   Rewrite/Pieces, Rewrite/Numbered, Rewrite/InOrder, Rewrite/Scanned, Rewrite/Alike, Rewrite/Marks
--   and Rewrite/Numbers hold proofs.
-- Refresh: `src/refresh.rs`, the tasks that reload tables and the signals to the host;
--   Refresh/Spawn and Refresh/Signals hold proofs.
-- Fun: `src/fun.rs`, the functions of the configuration that are commands of Redis.
-- Facade: `src/facade.rs`, what the host calls. Facade/Queries, Facade/CacheQuery and
--   Facade/CacheQueryAsync have the queries, Facade/Redis the commands of Redis, Facade/Specs the
--   specifications of `src/loader.rs`, Facade/Setup and Facade/Init the set-up from a configuration,
--   Facade/ByHand the providers that a host installs by itself. Facade/Fresh, Facade/Kept and
--   Facade/Install are about the two caches of a query and a reload, Facade/Stale about the cache of
--   Redis results, Facade/Registered and Facade/Uncached about what a set-up leaves.
-- IntranetNets: `src/intranet_nets.rs`, the networks of the intranet, with the set that is loaded
--   at its first use as a state; IntranetNets/Listed holds proofs.
-- SqliteExt: `src/sqlite_ext.rs`, the functions that are registered with SQLite. SqliteExt has those
--   on addresses and blocks that give a number, SqliteExt/Texts `ip4_text` and `trim_quotes`.
--   SqliteExt/Bits has what masks are in arithmetic; SqliteExt/Cidr, SqliteExt/Octets,
--   SqliteExt/Printed and SqliteExt/Quotes hold proofs.
-- Loader: `src/loader.rs`, the tables that are loaded from files. Loader/Config has the
--   specifications, Loader/Rows the insertion of rows in batches, Loader/Table `load_one_table`,
--   Loader/Authority the tables of a configuration and `reload_table_rows`. Loader/Good,
--   Loader/Inserted, Loader/Batch, Loader/Batches, Loader/Loaded and Loader/Total hold proofs.
-- Redis: `src/redis.rs`. Redis has the registry of names and pools with `init_with_opts` and
--   `close`, Redis/Commands the commands on the pool of a name. An init locks the registry twice, and
--   takes as arguments what it finds at each lock. Redis/Names, Redis/Linked, Redis/Reached,
--   Redis/Resolved, Redis/Once, Redis/Opened and Redis/Answers hold proofs; Facade/Twice is about a
--   second load of a configuration, Facade/Served about what the facade reads over the registry.
-- Postgres: `src/postgres.rs`, the settings of a session and the start of a provider, in which
--   `after_connect` makes the settings and `validate_startup` reads them. Postgres/Statements is how
--   SQL reads a statement that sets, Postgres/Applied a server that treats settings as documented; they,
--   Postgres/Distinct and Postgres/Startup hold proofs.
-- Examples: tests, and the theorems at concrete inputs.
--
-- Bounds: `first_table_name` runs on fuel, one more than the length of the text, which is enough
-- since the text inside parentheses is shorter; `decimal` of Base/Text on the number itself, which is
-- enough since a number has no more digits than that. An `AtomicU64` counts modulo 2^64. Times are
-- milliseconds, and a time that would be negative is 0, as for the monotonic clock of the source.
--
-- Parameters: the hash of the standard library is a function of what is written to it; a provider
-- is a record of its methods, each a function of the state of the world at the call; `lru` is an
-- interface. The drivers that a set-up calls, the commands of Redis, SQLite on a database, the
-- files and the csv crate, and the crate `ipnet` are records too, and so are the pool of `sqlx` and
-- the Postgres server behind it. The facade takes the commands of Redis as such a record;
-- Facade/Twice and Facade/Served fill it from the registry of Redis. Of `LruCache` only `peek` is
-- used to read, so a read does not change the order.
--
-- Not modelled: logging and telemetry; poisoned locks; the steps of other threads between the locks
-- of one call, but for the loads of `current_generation`, which each read a state of their own, for
-- the two locks of an init of Redis, and for Runtime/Race; the drivers of the databases and the
-- modules of the program that mostly call them (the queries over connections in `src/mysql.rs` and
-- `src/postgres.rs`, `src/mem`); `exec_async` of `src/redis.rs`, which only tests call; the reading
-- of TOML and the opening of the authority in `src/loader.rs`; the files of the tables, whose
-- reload `src/refresh.rs` takes as an argument; the write-ahead log and the snapshots of
-- `src/facade.rs`.
pub mod Base
pub mod Lru
pub mod Cache
pub mod SqlRoute
pub mod Runtime
pub mod PoolConfig
pub mod Vel
pub mod Rewrite
pub mod Refresh
pub mod Fun
pub mod Facade
pub mod IntranetNets
pub mod SqliteExt
pub mod Loader
pub mod Redis
pub mod Postgres
pub mod Examples
