-- ===== src/Lib.antt =====
-- fusion-bff: a back end for front ends that signs users in by OIDC, keeps their sessions, decides
-- by roles and permissions which requests they may make, and forwards these to the services behind
-- it with the user's identity in headers. Library fusion_bff models its Go code under internal/ and
-- cmd/server.
--
-- The parts, and the files that model them:
--   Base           the helpers: Boolean tests, results with an error, maps as association lists,
--                  sorted lists without repetition, the functions of package strings
--   Rbac.Route     internal/rbac/route.go: patterns of paths, the permission that a route requires
--   Rbac.Config    internal/rbac/config.go
--   Rbac.Store     internal/rbac: static_store.go, db_store.go, merged_store.go
--   Rbac.Engine    internal/rbac/engine.go: roles, permissions, owner groups, resource permissions
--   Db             internal/db: the tables of the schema and the queries. Db.Pool is the interface
--                  that the engine reads; Db.Pools fills it from the tables
--   Session        internal/session/session.go: the sessions and the pending login states
--   Allowlist      internal/allowlist/allowlist.go
--   Token          internal/token/provider.go: the service account token
--   Oidc           internal/oidc: claims.go, validator.go and, in Oidc.KeySet, jwks.go
--   Config         internal/config/config.go: the settings from the environment
--   Presets        internal/presets/config.go and internal/api/handler/presets.go
--   MockOidc       internal/mockoidc: the provider that OIDC_BYPASS embeds, and its validator
--   Server         internal/api/router.go, the table of routes, and cmd/server/main.go, the start;
--                  internal/db/db.go, the opening of the pool
--   Proxy          internal/proxy/upstream.go: what is sent to the services
--   Middleware     internal/api/middleware: SessionAuth, Auth, APIAuth, CORS
--   Handler        internal/api/handler: auth.go, preferences.go, admin.go,
--                  resource_permissions.go, owner_groups.go, system_health.go, helpers.go
-- A function of the code has the name of its Go function in snake case; in Handler the methods of
-- the HTTP handlers are named by what they do to which resource (post_group_role for
-- CreateGroupRole, get_group_roles for ListGroupRoles, remove_group_role for DeleteGroupRole). The
-- modules below a part hold its theorems, the modules Tests the examples.
--
-- How they interact. A request passes the middleware, which reads the session store (Session) or
-- validates a token (Oidc), asks the engine (Rbac) for permissions and leaves an identity in the
-- context of the request; the proxy turns it into headers. The login callback takes a pending
-- state, asks the engine, and creates the session. The engine reads roles from a GroupRoleStore
-- and the rest from a Pool. The start reads the configuration, opens the database, builds the
-- engine and the handlers, and the router puts the session middleware or the API middleware before
-- them: Server.Admin composes the requests below /bff/admin with their handlers and the tables,
-- Server.Forward the API middleware with the proxy. With the bypass the login goes through the
-- embedded provider: MockOidc.Bypass puts it behind the handlers of Handler.Auth.
--
-- State is passed explicitly: each operation takes the store, the database or the cache and gives
-- back the new one. An operation under a lock is one step; where the code takes two locks one
-- after the other (FileProvider.Token, cachingKeySet.VerifySignature) the state may change between
-- them. A middleware or a handler that uses the session store or the database more than once is
-- one step. A Go pair of a value and an error is a Result. Times are natural numbers, given as
-- arguments. A nil slice and an empty one are the same list. Texts are compared by their bytes, as
-- Go does; a list that a query orders is sorted by the collation of the database (the field
-- collate of Database), which the repository does not fix. The statements of SQL act on lists of
-- rows with the constraints of the schema; a connection that fails does so before any change; ids
-- of new rows are arguments. Ids in paths are natural numbers: negative ids, and those that the
-- type of the column does not hold, which the database refuses with an error, are left out. All
-- loops are over lists or texts and are structural, so no fuel is needed.
--
-- Parameters stand for code of others: the OAuth library, the verifier of id tokens, the JSON and
-- YAML decoders, the file system, the environment, the parser of durations, the database driver,
-- signatures and base64, random numbers, lower-casing of texts. Where a theorem needs more of them
-- than their types it has a hypothesis for it: MockOidc.IsSound says that base64 and JSON read
-- back what they write, that base64 writes no point, and that a signature verifies; a theorem on
-- an ordered list needs a collation that is total; a body that gin binds does not lack a required
-- field.
--
-- Not modelled: log lines and the request id that they carry; the ticker that calls Reap, the
-- shutdown and the transport of HTTP in cmd/server and package httputil; how gin finds the route
-- of a path (Server.Unambiguous uses the documented meaning of its patterns); health and docs
-- endpoints, which serve constants; the HTML page and the JWKS document of the embedded provider.
pub mod Allowlist
pub mod Base
pub mod Config
pub mod Db
pub mod Handler
pub mod Middleware
pub mod MockOidc
pub mod Oidc
pub mod Presets
pub mod Proxy
pub mod Rbac
pub mod Server
pub mod Session
pub mod Token
