-- ===== src/Lib.antt =====
-- Topbase: a verification library for the core of the BI server.
--
-- A question reaches the database in three steps. A client sends a query (internal/core/queryir);
-- internal/app/query/expand.go replaces the models, analyses, metrics and segments it builds on and
-- adds joins along foreign keys; internal/adapters/postgres_compile.go validates what is left and
-- turns it into a statement with placeholders and arguments. Who may do so is decided by
-- internal/app/identity/service.go and internal/platform/httpapi/content_access.go.
--
-- Prelude: Boolean tests, results with errors, lists; no code of the repository.
-- Text: texts as lists of code points, with the functions of Go's package strings that the code
--   uses. Letters are folded in ASCII, and beyond it only as far as Text says.
-- QueryIr: internal/core/queryir. The records are query.go's; Values is what JSON decodes to;
--   Validate is Query.Validate; Identifier is Quote and QuotePath; Drill is Drill. Quoting holds a
--   reader of quoted identifiers, which is not in the repository.
-- Compile: compilePostgres. Filters is postgresFilters, Select the columns and joins, Statement the
--   whole. Scan is a reader of PostgreSQL's lexical rules, written from its manual: it is the
--   specification of what the compiler may write. Fragments, Operators, Numbering, Plain, Solid,
--   Joins and Clauses carry the proof through the parts of a statement. Total has the queries that
--   the compiler accepts, Limit the limit, Dropped the segments that are left.
-- Expand: Expand of internal/app/query/expand.go. The stores are functions, and the order in which
--   Go visits a map is a parameter.
-- Access: IsAdmin, HasCapability and CanAccessProject, and canAccessCollection, canAccessQuestion
--   and canAccessDashboard over them. The stores and the JSON decoder are parameters.
-- Accounts: the same service's setup, sign-in, sessions, invitations and linked identities. The state
--   is the tables that internal/adapters/appdb/store.go writes, as schema.sql declares them, with the
--   settings that hold JSON decoded; an operation takes the tables to a result and the tables behind
--   it. The password digest and the new identifiers are parameters. A moment is in seconds, as the
--   tables keep it, and in nanoseconds where a session is asked for.
--   Providers has the settings of sign-in, with the steps that an administrator may take.
--
-- Params: what the values of parameters do to a query. Dates and Mapped are internal/core/queryir/
--   apply.go, Tokens and Native internal/core/queryir/native.go, its regular expressions as scanners.
--   The calendar is a parameter. Native/Opaque compares two assignments.
-- Rows: internal/adapters/query_limits.go. What database/sql hands out is a list of rows and errors.
--   Utf8 is boundedUTF8 on bytes, Scan the rest; Boundary, Bounds and Whole say what a result keeps.
-- Warehouse: internal/app/warehouse with the stores of internal/adapters/appdb/w4.go, every one of them
--   there, as server.go makes the service. Target is ParseTarget, Cron and Propose are the files of
--   those names, Source is the SQL of a run, Create and Running are Create and Run. A run is one step
--   on the tables; the writer and the compiler are parameters.
--   Confirmed says what the writer may be asked, Settled what a run leaves behind. Writer is
--   internal/adapters/warehouse.go, with the database as a parameter; Strategies has what each
--   strategy promises and what a statement does by PostgreSQL's manual, Materialized their connection.
-- Dashboards: internal/app/content/dashboard.go with the store of internal/adapters/appdb/w2.go. Normal
--   is normalizeDashboard, Service and Duplicate the operations; the source of ids is a parameter.
--   Publishing and Reach follow the public links through every request, Closed the references of a
--   copy.
-- Collections: the collections and questions of internal/app/content/service.go, with their stores. Filed
--   is about deletion, Personal about a user's own collection.
-- Charts: internal/app/viz/infer.go. Columns compares the names in a chart with those in the statement.
--
-- Accounts/Groups: the groups of that service with internal/app/identity/org.go. Membership says what a
--   replacement does to the table, Manual and Sync what the operations come to. The order of the
--   lists and the column feishu_open_id are parameters.
-- Accounts/Keys: API keys and the settings of developer mode. The digest is a parameter.
-- Gate: internal/platform/httpapi/access.go, which lets requests through to the handlers, over
--   Accounts.Sessions and Accounts/Keys.
-- Queries: internal/core/services.go and internal/app/query, which connect Expand, Compile, Params,
--   Charts, Dashboards and Collections. A service returns its result with the calls of the executor
--   that it made; what the executor answers is a parameter. Vetted says what RunArgs lets through,
--   Sent what gets to the executor.
-- Leases: internal/adapters/appdb/leases.go. Each of its SQL statements is a step, so that those of
--   several instances may stand in any order. A moment is in nanoseconds; the text of its date and
--   time up to the seconds is a parameter, of which Order says what is asked.
-- Catalog: CatalogService of internal/core/catalog.go. The connector and the stores may refuse any
--   request, but for the listing and reading of the entries. Service has the operations, Added is about
--   Add.
-- Notify: internal/app/notify with the alerts of internal/app/content/share.go, in Alerts and
--   Subscriptions. What a query or a card comes to is a parameter, which Queries gives. Once is about
--   what is not sent twice.
--
-- Every function ends by structural recursion; two run on fuel: read_path, one for each part of
-- a name, whose theorem gives that much, and show_from, whose suc n is more than a number has digits.
-- Numbers are unbounded: the ints of the code are limits, moments and lengths, far below those of a
-- machine word. A float is its decimal form.
--
-- Not modelled: a database that fails for another reason than a taken key, drivers and network, the
-- HTTP handlers beyond the access checks, the gate and the update of a dashboard, profiles,
-- bookmarks, the trash and the search, the delivery of notifications to other channels, the notices of
-- a warehouse run, the statements of other engines than PostgreSQL, and the web client.
pub mod Prelude
pub mod Text
pub mod QueryIr
pub mod Compile
pub mod Expand
pub mod Access
pub mod Accounts
pub mod Catalog
pub mod Charts
pub mod Collections
pub mod Dashboards
pub mod Gate
pub mod Leases
pub mod Notify
pub mod Params
pub mod Queries
pub mod Rows
pub mod Warehouse
