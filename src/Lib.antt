-- ===== src/Lib.antt =====
-- Query Man: a service that runs read-only SQL of its callers on registered PostgreSQL sources
-- (src/query_man/). A query is read against the metadata that was published for its source, its
-- SQL is validated on the parse tree of pglast, its plan is admitted within the source's budget, and
-- its result is fetched in batches within limits on rows and bytes.
--
-- The files:
--   Base: results, texts, dictionaries, sets, integers and JSON as the code uses them.
--   Errors: src/query_man/errors.py.
--   Models: the data classes of source_catalog/models.py and metadata/models.py.
--   Operations: `OperationalState` of runtime/operations.py; Usable, Known and Status are about
--     `public_status`, Sources about the entries of sources and what is kept of the counters.
--   Sql: guarded_query/sql_validation.py. Tree has the parse tree, Allowlists the constants, Handlers
--     the tests of a node, Scope the names of CTEs and tables, Validate `validate_sql`.
--   Encoding: guarded_query/result_encoding.py.
--   Query: guarded_query/query.py. Fetch has the loop that reads the result, Plan the admission of the
--     plan, Execution the handlers of `execute` and what they count, Session and Connection the
--     transaction of `_execute_connection`, Lease the use of a connection of the pool, Slots the tasks in
--     flight and the permits of a source, Shutdown the drain, Service `QueryService.query`.
--   Access: delivery/access.py.
--   Metadata: Revision is metadata/revision.py, Context and Service are metadata/service.py.
--   Catalog: metadata/catalog.py. Loading has the transaction that reads the catalog, Rows what its rows
--     become, Comments and Quoting the texts of views and names.
--   Reader: source_catalog/reader_policy.py.
--   Registry: source_catalog/registry.py. Budgets and Files have the configuration files, Resolve the
--     resolution of a source, Registered the registry, Paths what is used of pathlib.
--   App: delivery/app.py. Details has what a client is told of an invalid body, Responses the responses,
--     Admission the middleware that authenticates.
--   Config: runtime/config.py.
--   Composition: runtime/composition.py.
--
-- A query goes from App through Query.Service, which reads the metadata of Metadata and validates the SQL
-- by Sql, to Query.Execution, whose work on a connection is that of Query.Lease and Query.Connection; the
-- catalog that Metadata loads is that of Catalog, and its sources are those of Registry.
--
-- Stateful code takes and returns its state. A method that raises returns a `Result`. The set of
-- relations, functions and operators that `_ValidationPolicy` collects is a list without repetition in
-- `Found`; the mutual block of Scope is `_validate_select_scope` and `_validate_scoped_value`, cut up so
-- that each call is on a part of the tree. The cursor loop and the loop over plan nodes run on
-- fuel: the first needs more than the number of rows left, the second takes a weight of the plan that
-- its size gives.
--
-- The two transactions record what the connection is asked for, since the order of their statements is what
-- they promise. The tasks that share an executor make the steps of a relation, in any order. The drain runs
-- on fuel, of which it needs more than its grace period has milliseconds. An error of a clean-up is
-- dropped unless it is a cancellation.
--
-- Parameters: the parser and fingerprint of pglast (`Parser`), `casefold` and `str` of Python (`Python`),
-- `casefold` and `int` (`PythonText`), floats (`Floats`), decimals and dates (`Library`), the cursor of
-- psycopg with what its documentation says of `fetchmany` (`IsCursor`), SHA-256, the revision of the SQL
-- policy, the lexer of PostgreSQL with what its documentation says of quoted identifiers (`IsLexer`), and
-- what pydantic reads from variables and the address library says of a host (`Libraries`). The
-- clock and the load of the catalog are inputs of a request for metadata, which the lock of its source makes
-- one step. What a pool, a connection or a database answers is an input of the run that asks it, and what
-- YAML and the file system give for a file is an input of the registry.
--
-- Not modelled: Python's limit on recursion; the network, the database and its SQL texts; logging; the
-- cache of pools; the routing and body parsing of FastAPI; the deadline of the shutdown, which is
-- kept in floats; the probes of the sources at the start; the administration scripts.
pub mod Base
pub mod Access
pub mod Errors
pub mod Models
pub mod Operations
pub mod Sql
pub mod Encoding
pub mod Metadata
pub mod Query
pub mod App
pub mod Catalog
pub mod Composition
pub mod Config
pub mod Reader
pub mod Registry
