-- ===== src/Lib.antt =====
-- dataspan: a gateway that serves tables and functions of foreign systems (SQL, HTTP, files and
-- others) under one REST interface in the style of PostgREST. A metadata store says which servers,
-- tables, columns and functions there are; the data API parses a request's URL into a query, resolves
-- the table in the store, and passes the query, under the remote names of the columns, to the driver of
-- the table's server.
--
-- Files:
-- - Models: internal/models/models.go, the records of the metadata and of the requests.
-- - FileStore: internal/store/file, the store that keeps the metadata in memory and in a drivers
--   file. Records (data.go, the lock and the conversions), Credentials, Servers, Tables, Columns and
--   Functions hold the operations of store.go and crud.go under the source's names in snake case. An
--   operation that changes the store takes the UUIDs and the time that it draws as arguments and
--   returns its result with the new snapshot; the body that runs under `withLock` is a function of its
--   own (insert_x, replace_x, drop_x). Invariant and its children are about the well-formedness
--   of the snapshot; Requests runs sequences of requests, as the lock orders them.
--   The drivers file: Declarative (the document, bridge.go), Compile and Decompile (declarative.go), and
--   Load (load, the test for the format, import.go). The variables of compileDeclarative are the record
--   Compiler, and a loop is `each` with its body.
-- - Postgrest: internal/postgrest. Query, Groups (query.go), Match (filter_match.go), Mapping (the names
--   of columns, query.go), Errors (errors.go, with internal/errkind), Headers (accept.go, range.go).
-- - Engine: internal/engine, with the breaker of internal/observability/middleware.go. Pool
--   (driver_pool.go) with the steps of concurrent calls, MetaCache (meta_cache.go), Breaker, and Operations
--   (engine.go) as actions on the engine's state (Action), over an interface for the drivers.
-- - Auth: internal/auth/gateway.go and admin.go, with the middleware of internal/api/auth.go; Outgoing,
--   internal/auth/httpauth.go, signs the requests that the HTTP driver sends, with the options that
--   internal/auth/credential.go makes (Merge).
-- - Rest: internal/api/rest. Route (route.go and the paths of handler.go), Body (body.go), and
--   Handlers (handler.go, errors.go) over the operations of the engine.
-- - Drivers: internal/driver/file/file.go, the select over the rows of a file (File), and
--   internal/driver/postgres/postgres.go and mysql/mysql.go (Postgres, Mysql): the text of every statement with its
--   values, over a client library that is an interface (Sql); and internal/driver/http (Http), the requests to
--   another server and what is made of its answers.
-- - Admin: internal/api/admin/handler.go, over an interface for the store (Interface) that the file store
--   fills (Store), with LoadConfig of internal/store/config.go; Registered holds the routes, what
--   sequences of requests do to a file store, and which request is which operation of any store. The
--   program allows writes with the store over a database alone.
-- - Importer: internal/importer/merge.go and types.go (Merge), the merge of the documents that the
--   drivers file and the imports are made of.
-- - Base: shared types, tests on numbers, lists, Go strings as bytes, and their lemmas.
--
-- Numbers and loops: a Go int that may be negative is a ℤ of Base.Int, others are native naturals; the
-- bounds of the 64-bit int are written where strings become numbers (Query) and numbers become strings
-- (Headers). The loop of `itoa` runs on the free bytes of its buffer, 20, which the numbers below 2^63
-- never use up. All other loops are structural.
--
-- Outside of the model: YAML, the vault's encryption and the write of the drivers file are the
-- parameters in `Env` of FileStore.Records. White space and letter case are those of ASCII. `sort.Slice`
-- leaves the order of equal elements open and is an insertion sort here; a Go map is the list of its
-- entries in the order of a walk over it. Not modelled: the store over a database (internal/store/db),
-- the calls of the file system, the OpenAPI document, the handler of the
-- imports, the other drivers, the formats that the importer reads, and the command line. The JWT library,
-- the digests of configurations and revisions, and JSON decoding are arguments of what uses them.
pub mod Base
pub mod Models
pub mod FileStore
pub mod Importer
pub mod Postgrest
pub mod Engine
pub mod Auth
pub mod Rest
pub mod Drivers
pub mod Admin
