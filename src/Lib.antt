-- ===== src/Lib.antt =====
-- ai-iam-platform: identity and access for AI agents. Agents delegate scopes to one another, call
-- tools on MCP servers through a proxy, and have every decision written to an audit log whose
-- entries are chained by hashes. An agent is registered, activated, suspended and decommissioned; it
-- holds API keys, which it exchanges for tokens of fifteen minutes.
--
-- The parts and where they are modelled:
--   Model: the rows of the tables (backend/app/models) and the enumerations
--     (backend/app/core/constants.py). An identifier is a number, a scope is its text, a moment is in
--     microseconds.
--   Service: the world that the services work on, as explicit state: the tables of the session and
--     as they were committed (backend/app/db/session.py), the Redis store, the audit entries, the
--     circuit breaker, and the requests that were sent to MCP servers. A method is a function from a
--     world to a result or an `HTTPException` and a new world.
--   Delegation.Validator: `DelegationValidator` (backend/app/core/delegation.py) with
--     `validate_scope_subset` (backend/app/core/permissions.py). Delegation.Chain: `_load_chain`.
--     Delegation.Cascade: `_find_descendant_ids`. Delegation.Grants: `delegate` and
--     `create_delegation_token` (backend/app/core/jwt.py). Delegation.Revoke: `revoke_grant`. All of
--     them are of backend/app/services/delegation_service.py where no other file is named.
--     Delegation.Table is the invariant of the table of grants.
--   Revocation: backend/app/core/revocation.py. Revocation.Redis is what its commands promise, as an
--     interface that Revocation.Index takes as a parameter; Revocation.Sample implements it.
--   Audit: backend/app/repositories/audit_repo.py, with `compute_entry_hash`
--     (backend/app/core/security.py); its queries are in Audit.Queries and Audit.Listing. SHA-256 and
--     `json.dumps` are parameters; of SHA-256 only the length of a digest is used, and where
--     injectivity would be needed the theorem offers a collision.
--   Breaker: `_CircuitBreaker`; Proxy, Proxy.Records and Proxy.Execute: `McpProxyService`
--     (backend/app/services/mcp_proxy_service.py), gate by gate. The policy engine, the MCP server,
--     JSON, hashing and whether the database takes a session row are one record of functions,
--     `Outside`.
--   Policy: `check_permission` (backend/app/core/permissions.py). Policy.Rego: the policy of the
--     repository (backend/policies/authz.rego), for theorems about an engine that evaluates it.
--   Agents: `AgentService` (backend/app/services/agent_service.py) over the rows of
--     backend/app/repositories/agent_repo.py. Agents.Register: `register` and
--     `validate_mcp_bindings`, with the URL parser as a parameter. Agents.Lifecycle: `activate`,
--     `jit_activate`, `suspend` and `decommission`; Agents.Lifecycle.Machine is the state machine that
--     they implement. Agents.Human: the on-behalf-of grants.
--   Keys: `ApiKeyService` (backend/app/services/api_key_service.py). Keys.Secrets: the texts of a
--     credential (backend/app/core/security.py), with bcrypt as an interface and the random source as
--     arguments. Keys.Verify: `verify_key`. Keys.Manage: `issue_key`, `rotate_key`, `revoke_key`.
--   Exchange: `exchange_token` (backend/app/api/token.py) with `create_agent_access_token`
--     (backend/app/core/jwt.py). Middleware: `AgentAuthMiddleware`
--     (backend/app/middleware/agent_auth.py), with the JWT library as a parameter.
--   OAuth: `build_authorization_redirect` and `exchange_authorization_code`
--     (backend/app/services/oauth_service.py), over an interface of the two Redis commands on codes.
--   Workers: the rotator of keys and the reaper of ephemeral agents
--     (backend/app/worker/credential_rotator.py), with the answer of their advisory lock, and where Redis
--     fails in a call of `decommission`, as arguments.
--   RateLimit: `enforce_rate_limit` and its callers (backend/app/core/rate_limit.py), over an interface
--     of the two Redis commands on counters.
--   Tests: a small organisation, on which the theorems are applied to concrete calls.
--
-- The services meet in the world: `delegate` tracks its token in the Redis store in which
-- `revoke_grant` blacklists it, `revoke_grant` deactivates the rows that `load_chain` reads, and a
-- proxied call reads the session rows of the calls before it. `exchange_token` verifies a key, asks
-- for the human of the agent, resolves an intent by the bindings that the proxy reads, and tracks its
-- token in the two indexes that `suspend`, `decommission` and `revoke_key` revoke.
--
-- Loops and fuel: `load_chain` gives its loop one round more than the table has grants, which is
-- always enough; `find_descendant_ids` takes its fuel as an argument, and the depth ceiling is enough
-- in a well-formed table. The maximum depth is 5, the breaker's threshold 5 and its cooldown 30
-- seconds, as in backend/app/core/config.py.
--
-- Not modelled: signatures of tokens, HTTP routes but for the exchange, metrics, the registration of
-- OAuth clients, users and roles, and the audit flusher and verifier. Redis and the database fail only
-- where a definition says so: at the check of a revoked token (`is_revoked`), at the session row of a
-- tool call (`record_session`), at the row of a new agent (`create`), at the counters of the rate limit
-- and in the calls of the reaper (`decommission_until`). Elsewhere a command is taken to succeed. Two
-- requests run one after the other; appends to the audit log are ordered by their advisory lock. Of a
-- row, columns that no modelled operation reads are left out (the argument metadata, the source address,
-- the user agent, the resource type, the times of creation and of the last change).
pub mod Prelude
pub mod Model
pub mod Breaker
pub mod Delegation
pub mod Revocation
pub mod Service
pub mod Audit
pub mod Policy
pub mod Proxy
pub mod Agents
pub mod Keys
pub mod Exchange
pub mod Middleware
pub mod OAuth
pub mod RateLimit
pub mod Workers
pub mod Tests
