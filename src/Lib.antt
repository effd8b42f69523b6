-- ===== src/Lib.antt =====
-- The gateway (src/server.ts with src/state.ts, src/storage.ts, src/validation.ts,
-- src/admin-session.ts and src/push-notification.ts) and the two SDKs that talk to it
-- (packages/backend and packages/client), as functions on explicit states.
--
-- A gateway relays between the clients of an application and its backends. Each peer opens a
-- control connection, authenticates with an issued credential in its first message, and is then a
-- session of the credential's namespace. A backend's session holds a lease, in an epoch that a
-- persistent counter gives out; the registry lists the leased backends. Clients open channels to
-- the backends they can reach: both ends dial with one-time tickets and the gateway pairs the two
-- sockets, and relays their frames under a byte rate. An HTTP request to a backend goes through
-- such a channel, bridged at the gateway and served by the backend's SDK. Backends publish on
-- topics. Heartbeats, pings, timers and takeovers end leases and sessions. Admins issue, bind,
-- scope and revoke the credentials over HTTP. The SDKs keep a control connection up across closes
-- and failures.
--
-- Which file models what:
--   Prelude, Map, Json: the shared helpers. A JavaScript `Map` with text keys is an association
--     list in order of insertion, a parsed message is a `Json`; numbers are natural where the code
--     has counts and times in milliseconds.
--   Validation (validation.ts: `validateGatewayMessage`, `checkField`), Validation/Headers
--     (`filterProxyResponseHeaders`), Validation/Hello (server.ts: `validatePeerHelloV4`).
--     Validation/Decode has no function of its own in the code: it is what the handlers' typed
--     parameters read of a message.
--   RateLimit (server.ts: `checkLimit`, `rateLimited`, `denyUnauthorized`, `refuseProxyRequest`).
--   AdminSession (admin-session.ts: `AdminSessionStore`).
--   Storage (storage.ts: `GatewayStorage`, in its in-memory branch; the SQL statements do the same
--     on tables): Identities, Credentials, Revocation, Exchange.
--   State (state.ts: `GatewayState`).
--   Gateway (server.ts: the variables that the closures of `createGatewayServer` share, as one
--     record, and the calls on sockets as a list of actions, the newest first), with Scope
--     (`canReach`, `visibleRegistry`, `broadcastRegistrySnapshot`), Channels (tickets, opening,
--     dialling, teardown), Topics, Ownership (disconnect, lease expiry, replacement of an owner),
--     Hello (`handlePeerHello`), Messages (`handlePeerMessage`), Events (the WebSocket layer, the
--     intervals and the HTTP requests: `step` is one event, `run` a sequence of them) and Relay
--     (one direction of `wireChannel`).
--   Http (server.ts: `requireGatewayAuth`, `requireRecoveryToken`, `requireAdmin`, `afterRevoke`,
--     the route that revokes one credential, and `parseBackendScope` on a list of texts), with
--     Answer (how a route ends), Issue (`POST /api/admin/credentials`), Credentials (the other
--     admin routes over credentials), Backends (the known identities and the discovery), Sessions
--     (the admin's login, the overview, the exchange of an enrollment credential), Admin (the
--     admin routes behind their guard, as one handler), Reads (the registry for a recovery token,
--     the discovery and the notification routes with their guards), Proxy (the proxy route and
--     `proxyViaChannel`) and Bridge (`bridgeHttpChannel`).
--   PushNotification (push-notification.ts: `GatewayPushNotificationService` up to its request).
--   SdkMessages (the control messages that the SDKs send).
--   BackendSdk (packages/backend/src/index.ts): Serve (`serveHttp`), Failure (`describeFailure`),
--     Session and Steps (`GatewayBackend`: connecting, handshake, close, timers, `close`), Offers
--     (`handleOffer`), and Exchange, which runs Serve against the gateway's Http/Bridge.
--   ClientSdk (packages/client/src): Socket (addresses), TopicKey, Session, Ops (the queue of
--     control operations), Steps (connecting, messages, closes) and Calls (channels, topics,
--     presence).
--   Validation/Soundness, Validation/Allowed, Http/Access, Http/Guarded, Http/Failing,
--     Http/Synced, Http/Forgetting, RateLimit/Window, RateLimit/Sweeping, AdminSession/Lifetime,
--     Storage/Laws, Storage/Purging, Gateway/Frame, Gateway/Invariant, Gateway/Isolation,
--     Gateway/Tickets, Gateway/Retained, Gateway/Relay/Rate, Gateway/Relay/Pacing,
--     PushNotification/Filter, SdkMessages/Accepted, BackendSdk/Modes, BackendSdk/Happenings,
--     BackendSdk/Persistence, BackendSdk/RoundTrip and ClientSdk/Closing hold the proofs, Tests
--     the concrete inputs.
--
-- How the model is made. A closure that changes shared variables is a function from a gateway to a
-- gateway. JavaScript runs a handler to its end, so events are one after another, in any order; in
-- the SDKs an `await` ends a step, and what follows it is a task with the place where it waits.
-- `now` is `Date.now()`, read once in a handler. Random ids and tokens are arguments (`FreshPeer`,
-- `FreshChannel`, `Fresh`). Parameters stand for SHA-256, `toLowerCase`, `TextEncoder`, the URL
-- parser, `trim`, base64, the fraction of a day in milliseconds, which header values Node accepts,
-- and the application's handlers. A text frame is the value that `JSON.parse` makes of it, a
-- binary frame its bytes or, in the relay, its length. `wsToPeer` and the variable `peerSessionId`
-- of a connection hold session ids, through which a shared peer object is read and changed.
-- Sockets and HTTP responses are named by texts. What Node does with the headers and the body of a
-- response is written out in BackendSdk/Exchange, as its documentation has it. What an operation
-- of the client's SDK leaves to microtasks follows the handler in the same step. All loops are
-- over the entries of finite collections, so no fuel is needed. `pairing` of a channel says
-- whether its pairing timeout is still to fire. An authentication timeout may fire in the model
-- even where the code has cleared it. A backend id is never empty, so `!peer.backendId` is `none`.
--
-- Not modelled: the audit log; `sendToWs`'s test of the socket's state, which is left to the
-- action; of the HTTP layer CORS, the health route, the static files, the shutdown, `extractIp`,
-- the parsing of the cookie header and the uptime (`safeCompare` is equality, and the host of an
-- origin is a parameter); the HTTP call of a push notification; the entry point index.ts; the SQL
-- of storage.ts; of the backend's SDK the lists of state and message handlers and a heartbeat
-- interval that another one replaces; of the client's SDK the handlers of states and registries,
-- `discoverBackends`, the timers of `waitForBackend` and fetch.ts; the packages admin-ui (views)
-- and python (another language); of packages/protocol/src/index.ts all but the types of the
-- control messages and the bridge's frames.
pub mod Prelude
pub mod Map
pub mod Json
pub mod Validation
pub mod RateLimit
pub mod AdminSession
pub mod Storage
pub mod State
pub mod Gateway
pub mod Http
pub mod PushNotification
pub mod SdkMessages
pub mod ClientSdk
pub mod BackendSdk
pub mod Tests
