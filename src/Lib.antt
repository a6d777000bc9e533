-- ===== src/Lib.antt =====
-- A model of the BuildPulse MCP server: the remote server of cmd/mcp-remote, which is an OAuth 2.1
-- authorization server in front of Cognito, and of internal/mcpserver the tools, which read the
-- platform's API.
--
-- A client registers (POST /oauth/register, behind a limiter by address). GET /oauth/authorize
-- stashes its request as a pending record and sends the browser to Cognito; GET /oauth/callback
-- takes the record, exchanges Cognito's code, and stashes a second record for the consent page;
-- POST /oauth/consent takes that one and stores an authorization code; POST /oauth/token exchanges
-- the code, or a refresh token, for an access token, which it writes as a session to DocumentDB;
-- POST /oauth/revoke deletes. The handlers share the store, the database and the limiter, and
-- nothing else.
--
-- A call of a tool passes the limiter and the audit line (`guarded`), checks its arguments, chooses an
-- organization, and sends GETs to the platform, whose answers it reads and reshapes.
--
-- Oauth/Model, Oauth/Server   the records, limits and answers of oauth.go, and handlers as actions
--                             on an explicit state (`World`) that may answer early
-- Oauth/Register, Guard, Limiter   register of oauth.go, and register_guard.go
-- Oauth/Authorize, Callback, Cognito, Token, Revoke, Pkce   the other handlers of oauth.go
-- Oauth/Consent, Destination  consent.go
-- Oauth/Store                 the Store interface of store.go as a record, what it promises as a
--                             record of laws (`Contract`), and the backends of store_memory.go
--                             and store_dynamo.go
-- Oauth/Crypter, Sessions     crypto.go and mongo.go
-- Oauth/Setup                 newOAuthServer and the discovery documents of oauth.go and main.go, and
--                             the choice of a backend in store_init.go
-- Oauth/System                the routes as steps on the shared state, traces of them, and code
--   exchanges whose pieces interleave (Oauth/Token/Steps)
-- McpServer/Policy            the limiter of tool calls in internal/mcpserver/policy.go
-- McpServer/Validate, Client  internal/mcpserver/validate.go, and of client.go the URLs, the
--                             redirects and the cache
-- McpServer/Wire              the records that the platform answers and the tools return
-- McpServer/Platform, Badges  the rest of client.go: a GET and its answer, badges, links
-- McpServer/Tool, Gate        a call as an action on its session, the choice of an organization,
--                             and the wrappers around a handler, of tools.go and policy.go
-- McpServer/Tools             the handlers of tools.go and, in Tools/Runners, of tools_runners.go;
--                             Tools/Failures and Tools/Fetch are get_recent_failures, with its
--                             goroutines as schedules of moves, and Tools/Registered is all of them
-- McpServer/Resources, Prompts   internal/mcpserver/resources.go and prompts.go
-- Remote                      the Bearer check of main.go; Remote/Routes is its routing table and
--                             middleware
-- Oauth/Examples, McpServer/Examples, Remote/Examples   inputs on which the theorems are run
--
-- A text is the list of its bytes; strings.ToLower and EqualFold of a
-- host are parameters, and elsewhere upper and lower case and white space are those of ASCII. A time
-- is a number of nanoseconds since the Unix epoch, and `Call` holds what a handler reads from
-- outside: its first and its next time, its random bytes and the answers of Cognito. A handler is a
-- function of the state before it to its response and the state after it. A method of the store
-- returns a state even where it fails, since a failed write may have happened. Every function of
-- the model is total by recursion on its input, and none needs fuel.
--
-- net/url, net, the hashes and encodings, and JSON are parameters (`Library`), and so are KMS
-- (`Kms`), the DocumentDB driver (`Mongo`), the DynamoDB SDK's calls on a table (`Table`), whose reads
-- of a client are eventually consistent, and HTTP to
-- Cognito (`Call.post`). A request that cannot be built counts as one that does not reach the server.
-- Logging, HTML templates, the JSON of a response, the
-- descriptions of the tools and process start-up are not modelled. The platform (`Platform`) is
-- a parameter with the answer to each request of a call, the order in which a map is visited
-- another. A handler is one step: the memory
-- store and the limiter lock a method, and DynamoDB's DeleteItem is atomic. In Oauth/System/Race a
-- code exchange takes a step for each of its calls outside, and other requests are served
-- between them; the pieces of the other handlers are not interleaved.
mod Common
pub mod Library
pub mod Oauth
pub mod McpServer
pub mod Remote
