-- ===== src/Lib.antt =====
-- A model of mcpyeahyouknowme, an MCP server with a background daemon that indexes personal data sources
-- into a local full-text search store.
--
-- Core models src/core: the sliding-window rate limiter (Core/RateLimiter, of rate_limiter.go), the gate
-- between the sources' tools and the MCP server (Core/SecureAdder, of secure_adder.go), and the
-- configuration file (Core/Config, of interfaces.go and helpers.go). The gate asks the limiter for mutating
-- tools, with the limit that the configuration gives.
--
-- Core/Tools has the arguments and results of MCP tools (helpers.go), with the banner in front of untrusted
-- text, Core/LogTrim the trimming of log files (log_trim.go), and Core/AuditLog the summaries of the audit
-- log (audit_log.go).
--
-- Search models src/search_store.go and src/search_store_init.go. Search/Tables has the tables and SQL
-- statements as functions on a record `Db`, triggers included; Search/Exec is a small monad in which each
-- statement may fail, by a script of faults, and a transaction rolls back; Search/Store has the methods of
-- SearchStore that write, in that monad. Search/Query is sanitizeFTSQuery, Search/Results the queries with
-- their ranking, over a record of the floating-point operations, and Search/Weights its tables. Search/Tool
-- and Search/Profile are the handlers of src/search_mcp.go and src/profile_mcp.go.
--
-- Daemon models the background process. Daemon/Coordinator is indexCoordinator of src/runtime.go, one
-- function for each critical section, with its interleavings as a step relation; Daemon/Services is one
-- tick of runCore with startSource and handleReset; Daemon/Registry is src/sources/registry/registry.go;
-- Daemon/Pool is the pool of sources and Daemon/Indexer the index pass of src/indexer.go, the latter over
-- an interface that the search store fills. A cancelled context is the number of looks at it after which it
-- is seen cancelled.
--
-- Sources models how src/sources/whatsapp/source.go and src/sources/gsuite/app_gmail.go split and group
-- transcripts into bounded chunks. A text is a sequence of runes. The splitting loop runs on fuel, the
-- length of the entry, which is enough since every round shortens what remains. Sources/Notebook models
-- src/sources/notebook: cutting notes into chunks (extract.go; the same fuel), the walk, the file cache and
-- the scan (scanner.go, store.go), lexical paths, and the tools (mcp.go), whose results are those of
-- Core/Tools. Sources/Whatsapp/Fuzzy models the matching of names in src/sources/whatsapp/helpers.go, and
-- Sources/Whatsapp/Names senders and the texts of messages (store.go, source.go, service.go). Sources/Gmail
-- models the visible bodies and the threads of src/sources/gsuite/app_gmail.go. Sources/BrowserHistory
-- models the snapshot and the queries of src/sources/browser_history.
--
-- Times are natural numbers. JSON, the clock, time formats, for the gate the tools' handlers, and what
-- SQLite counts and finds in its full-text table are parameters, as are floating-point numbers, the file
-- system, PDF and text recognition. The other sources' clients and their own databases, the command line
-- and printing are not modelled: they are input and output, or wait for a model of their own. Tests has
-- runs of the definitions and uses of the theorems on concrete inputs.
pub mod Prelude
pub mod Core
pub mod Search
pub mod Daemon
pub mod Sources
pub mod Tests
