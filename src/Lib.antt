-- ===== src/Lib.antt =====
-- NexusGate: a gateway that puts an authenticated REST interface before databases and file stores.
--
-- A request comes in through the firewall and the rate limit, is authenticated against the ban list
-- and the API keys, and is then handled by the database side (a filter becomes SQL with
-- placeholders, or a statement is checked by a policy, and an engine of the pool runs it) or the
-- file side (listings, actions, ranges of files and uploads). A database or a storage of another site
-- is forwarded to that site, whose state a task polls. Circuit breakers stand before what can fail,
-- and events go out as webhooks.
--
-- Files and the code that they are about:
--   Circuit    src/security/circuit_breaker.py and the circuit tables of src/security/storage.py;
--              writes that run later are tasks of the state, `Circuits`
--   Bans       src/security/ban_list.py and the ban tables of src/security/storage.py; a ban and its
--              lifting are two steps each, the commit of the row and the write to the cache
--   Keys       the API keys of src/security/storage.py
--   Auth       src/server/middleware/auth.py; a handler is a function from a state to a state and a
--              result, since the cached context and the count of failures change
--   RateLimit  src/server/middleware/rate_limit.py, and `check_rate_limit` of src/cache/memory.py and
--              src/cache/sqlite_backend.py
--   Waf        src/server/middleware/waf.py
--   Idempotency  src/server/middleware/idempotency.py
--   Filter     src/api/database/filter_builder.py
--   Query      src/api/database/query_parser.py
--   Storage    src/api/storage/: streaming.py, chunked_upload.py, file_ops.py, upload_scanner.py, and
--              of handlers.py the paths, the listings, the actions and the stream of a direct upload
--   Database   src/api/database/handlers.py with src/db/pool.py and src/db/dialect/transpiler.py; a
--              handler is an `Action` on the `World` of databases, engines, caches, routes and hooks
--   Federation src/api/federation/: sync.py, state.py and proxy.py
--   Admin      src/api/admin/handlers.py: keys, bans and circuits; a handler is an `Action`
--   Webhook    src/webhook/emitter.py and src/webhook/dispatcher.py
--   Errors     src/api/errors.py; what may raise gives a `Result`
--   Actions    coroutines that keep what they have done when they raise
--   Prelude, Text, Sql: dictionaries, texts as Python's `str` has them, and tables with a key
--   Tests      runs at concrete inputs
--
-- Definitions carry the names of the functions that they model. Times are natural numbers of a
-- tick, so that a difference of times stops at 0. Numbers of Python have no bound, and neither have
-- those here. Parameters stand for code outside the repository: tables of SQLite (`Table`, `Log`),
-- `TTLCache` of cachetools, the parser sqlglot, HTTP, the operating system's paths and files, and
-- Base64, PBKDF2, SHA-256 and `compare_digest`. What an engine does when it is asked to connect, to
-- list, to describe or to run is the parameter `ask`, after the protocol of src/db/engines/base.py.
-- Where the code relies on a law of such a part, the law is documented and a field of its record;
-- each record is filled in by a concrete one in Tests. Calls that the code makes at once, of a
-- `gather`, are made here one after the other.
--
-- Loops are by recursion on what they run over. Fuel is used for the digits of a number, where the
-- number itself is enough since each round divides it by ten; for streaming a file, where the bytes
-- left are enough since each round sends one at least or ends; for the count of what a storage
-- holds, where the number of its directories is enough since each round ends one; and for the walk
-- of a recursive listing, where the number of entries is enough, since each round takes one.
--
-- Not modelled: the drivers of databases, the network, images and archives, logs and metrics, the
-- reading of the configuration, the MCP interface, the administration of databases and
-- webhooks, the lists of all databases and storages, the forms of an upload, negative pages of
-- rows, and the envelope of an answer.
pub mod Prelude
pub mod Sql
pub mod Circuit
pub mod Text
pub mod Errors
pub mod Bans
pub mod Keys
pub mod Auth
pub mod RateLimit
pub mod Filter
pub mod Query
pub mod Storage
pub mod Webhook
pub mod Waf
pub mod Idempotency
pub mod Federation
pub mod Actions
pub mod Admin
pub mod Database
mod Tests
