-- ===== src/Lib.antt =====
-- The OpenBao authorizer: a service that lets sessions ask for access to OpenBao paths (Grant
-- Requests), lets Approvers decide on the items asked for, and keeps one OpenBao policy for each
-- session in step with the Grants that are active.
--
-- The parts, by file:
--   Prelude          native numbers, lists, `Result`, signed durations, and the lemmas shared
--   Text             Go strings as lists of bytes: comparison, splitting, UTF-8, white space, case
--   Rules            internal/grants/rules.go: patterns (Rules.Pattern), concrete paths and texts
--                    (Rules.Concrete), capabilities (Rules.Capability), ValidateRule
--                    (Rules.Validate), and Policy.Resolve (Rules.Resolve)
--   Store            internal/store/grants.go: the types (Store.Model), the rows and their
--                    encryption (Store.Rows), and the operations on grant_requests
--                    (Store.Requests) and grants (Store.Grants); and of internal/store/store.go
--                    the approver sessions (Store.Sessions) and the push subscriptions
--                    (Store.Subscriptions); the life of a stored request (Store.Evolution), the key
--                    of requests (Store.Keys), and what each transaction does to both
--                    (Store.Advance)
--   Service          internal/grants/service.go: OpenBao and the state (Service.Model), actions
--                    with errors (Service.Exec), the session policy (Service.Policy), approvalTTL
--                    (Service.Approval), Decide (Service.Decide), Revoke (Service.Revoke),
--                    Authenticate and CreateRequest (Service.Create), the sweeps (Service.Sweeps);
--                    its runs (Service.Steps); and internal/grants/discover.go (Service.Discovery)
--   Config           internal/config/config.go: the decoded blocks and the configuration
--                    (Config.Model), the login block (Config.Login), requesters and Grants
--                    (Config.Policy), and Load (Config.Load)
--   Push             internal/push/push.go: public addresses (Push.Address), the allowlist and
--                    the checks of endpoints (Push.Endpoint), and NewRequest (Push.Deliver)
--   Client           internal/openbao/client.go: the calls over HTTP, as the service's OpenBao, and
--                    what the service relies on (Client.Lawful)
--   Api              internal/api: errors.go (Api.Errors), convert.go (Api.Render), server.go
--                    (Api.Model), auth.go (Api.Auth), the sign-in and the sign-out of approver.go
--                    (Api.Sessions), the unary handlers of grant.go and approver.go
--                    (Api.Handlers), its handlers of push subscriptions
--                    (Api.Subscriptions), and events.go with WatchEvents (Api.Streams)
--   Cred             cmd/bao-cred: mappings and field paths (Cred.Mapping, Cred.FieldPath) and their
--                    renderings (Cred.Render) of utils.go, the environment and the options of
--                    main.go (Cred.Environment, Cred.Options), and of authorizer.go requests
--                    (Cred.Request), errors (Cred.Errors), flags (Cred.Item) and waiting
--                    (Cred.Wait)
--   Examples         concrete inputs, and the theorems at them
--
-- How they interact: the service resolves items by the rules, stores requests and Grants through the
-- store, and writes policies through OpenBao. A handler is an action on `World`: it returns a result
-- or an error, with the world that it leaves, so that what was written before an error stays written.
-- The API authorizes a call, hands it to the service and renders what comes back; its streams read the
-- store again whenever the service has notified them. The rules that the service is given are those
-- that Load accepts.
--
-- The choices of the model:
--   - A time is a number of nanoseconds since year 1 and a duration a signed number of nanoseconds,
--     without the 64-bit bounds of Go's types. The clock is an argument, read as often as the code
--     reads it.
--   - OpenBao is a record of calls over states that are left open, any of which may fail. `IsLawful`
--     names what is relied on: a policy that was written or deleted with success is there or gone
--     at the next read, and calls about entities change no policy.
--   - A database call fails when the list `faults` says so. A transaction that fails changes nothing.
--     Ciphertexts stand for their contents, which only the same additional data opens; the JSON text
--     of the items stands for the items, and its decoding does not fail.
--   - The identifiers that NewID draws are a list, which may end: that is its error.
--   - The functions of Go's standard library that are not written out are the fields of `Runtime`.
--   - A handler runs alone under its session lock; the sweep of pending items, which takes no lock,
--     may run once between the policy writes and the transaction of a decision.
--
--   - Third-party code is a parameter: the HCL library with the environment, base64, net/url, DNS,
--     the webpush library, the keyed fingerprint, strings.EqualFold on schemes, and proto.Equal, and for the OpenBao client
--     the HTTP server and encoding/json.
--   - The handlers on sessions work on tables of their own, over an OpenBao of their own (`Site`).
--   - A live stream is a phase between its queries, with a channel that holds at most one wake-up; a
--     step relation interleaves the streams with handlers that commit and then notify.
--
-- Recursion is on the structure of a list, but for the wait of bao-cred, which runs on fuel counted in
-- watches, of which one more than the seconds of its timeout are enough, and for the turns of a stream,
-- of which seven are enough from any phase.
--
-- Not modelled: the HTTP mux and its headers, heartbeats, timers, WatchGrantRequest and the end of a
-- stream with its session, the handlers that return configuration, the
-- opening of the database, the long poll of Request, the session locks, the
-- command openbao-authorizer, and of bao-cred the output files, templates, TLS files and the running of
-- the command.
pub mod Prelude
pub mod Text
pub mod Rules
pub mod Store
pub mod Service
pub mod Config
pub mod Cred
pub mod Push
pub mod Client
pub mod Api
pub mod Examples
