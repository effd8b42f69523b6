-- ===== src/Gateway/Events.antt =====
-- src/server.ts, the WebSocket layer and the intervals, with the requests of the HTTP layer: what
-- happens to the gateway, event by event.
use zclaudia_gateway.Prelude.{
  ℕ, ◌+◌, ◌-◌, String, Bool, true, false, leb, ltb, if◌then◌else◌, get_or, Option, none, some, List,
  [], ◌∷◌,
}
use zclaudia_gateway.Json.{Json}
use zclaudia_gateway.Map.{Map, get, set, delete, update, values}
use zclaudia_gateway.Validation.Hello.{validate_peer_hello, read_peer_hello}
use zclaudia_gateway.RateLimit.{cleanup}
use zclaudia_gateway.Storage.{Storage}
use zclaudia_gateway.Storage.Credentials.{Ttl, Fresh as FreshCredential}
use zclaudia_gateway.AdminSession.{SessionStore}
use zclaudia_gateway.Http.{Request, require_gateway_auth, require_recovery_token}
use zclaudia_gateway.Http.Admin.{AdminCall, handle_admin}
use zclaudia_gateway.Http.Bridge.{BridgeCall, perform}
use zclaudia_gateway.Http.Proxy.{FreshProxy, handle_proxy, response_closed}
use zclaudia_gateway.Http.Sessions.{login, exchange_token}
use zclaudia_gateway.State.{PeerSession, BackendLease, initial}
use zclaudia_gateway.Gateway.{
  Gateway, Config, Connection, closed, send, close, ping, gateway_error, invalid_message, emit,
}
use zclaudia_gateway.Gateway.Scope.{broadcast_registry_snapshot}
use zclaudia_gateway.Gateway.Channels.{
  FreshChannel, handle_channel_upgrade, teardown_channel, pairing_timeout, cleanup_tickets,
}
use zclaudia_gateway.Gateway.Ownership.{handle_backend_lease_expired, handle_peer_disconnect}
use zclaudia_gateway.Gateway.Hello.{FreshPeer, handle_peer_hello}
use zclaudia_gateway.Gateway.Messages.{handle_peer_message}

abbrev pub max_ws_connections_per_ip : ℕ
max_ws_connections_per_ip = 10

unfoldable pub connect : (ws ip : String) → Gateway → Gateway
connect ws ip g =
    let count = get_or 0 (get ip g.ws_connections_per_ip) in
    if leb max_ws_connections_per_ip count
    then emit (close ws 1008 "Too many connections") g
    else record g {
      ws_connections_per_ip = set ip (count + 1) g.ws_connections_per_ip;
      connections = set ws (record { ip = ip; session = none }) g.connections;
    }

unfoldable pub auth_timeout : String → Gateway → Gateway
auth_timeout ws g = elim (get ws g.connections) [
  | none ↦ g
  | some c ↦ elim c.session [ none ↦ emit (close ws 1008 "Authentication timeout") g | some id ↦ g ]
]

-- the random values that one message may use
pub record Fresh : Type 0 where
  pub peer : FreshPeer
  pub channel : FreshChannel

abbrev pub session_started : String → Connection → Option String → Gateway → Gateway
session_started ws c none g = g
session_started ws c (some id) g = record g {
  connections = set ws (record c { session = some id }) g.connections;
}

abbrev pub invalid_hello : String → String → String → Gateway → Gateway
invalid_hello ws message reason g =
    emit (close ws 1008 reason) (emit (send ws (gateway_error invalid_message message)) g)

-- The first message of a connection. `read_peer_hello` finds every field after the validation.
unfoldable pub first_message :
    Config → (String → String) → String → Connection → ℕ → FreshPeer → Json → Gateway → Gateway
unfolding handle_peer_hello
first_message cfg hash ws c now fresh message g = elim (validate_peer_hello message) [
  | some error ↦ invalid_hello ws error "Invalid peer_hello" g
  | none ↦ elim (read_peer_hello message) [
    | none ↦ invalid_hello ws "Invalid message format" "Invalid message format" g
    | some hello ↦
        let (g', session) = handle_peer_hello cfg hash ws c.ip now fresh hello g in
        session_started ws c session g'
  ]
]

-- A frame of a control connection; `none` is one that `JSON.parse` refuses.
unfoldable pub receive :
    Config → (String → String) → String → ℕ → Fresh → Option Json → Gateway → Gateway
unfolding first_message handle_peer_message
receive cfg hash ws now fresh message g = elim (get ws g.connections) [
  | none ↦ g
  | some c ↦ elim c.session [
    | none ↦ elim message [
      | none ↦ invalid_hello ws "Invalid message format" "Invalid message format" g
      | some json ↦ first_message cfg hash ws c now fresh.peer json g
    ]
    | some id ↦ elim message [
      | none ↦ emit (send ws (gateway_error invalid_message "Invalid message format")) g
      | some json ↦ handle_peer_message cfg now fresh.channel id json g
    ]
  ]
]

abbrev pub alive : Bool → PeerSession → PeerSession
alive b peer = record peer { is_alive = b }

abbrev pub set_alive : String → Bool → Gateway → Gateway
set_alive id b g = record g {
  state = record (g.state) { peers = update id (alive b) g.state.peers };
}

unfoldable pub pong_received : String → Gateway → Gateway
pong_received ws g = elim (get ws g.connections) [
  | none ↦ g
  | some c ↦ elim c.session [ none ↦ g | some id ↦ set_alive id true g ]
]

abbrev pub release_address : String → Gateway → Gateway
release_address ip g =
    let count = get_or 1 (get ip g.ws_connections_per_ip) in
    if leb count 1
    then record g { ws_connections_per_ip = delete ip g.ws_connections_per_ip }
    else record g { ws_connections_per_ip = set ip (count - 1) g.ws_connections_per_ip }

-- `ws.on('close')` of a control connection
unfoldable pub disconnect : String → ℕ → Gateway → Gateway
unfolding handle_peer_disconnect
disconnect ws now g = elim (get ws g.connections) [
  | none ↦ g
  | some c ↦
      let g' = release_address c.ip (record g { connections = delete ws g.connections }) in
      elim c.session [ none ↦ g' | some id ↦ handle_peer_disconnect id now g' ]
]

-- the loop of `pingInterval`, over the peers there are at its start
unfoldable pub ping_peers : List PeerSession → ℕ → Gateway → Gateway
unfolding handle_peer_disconnect
ping_peers [] now g = g
ping_peers (peer ∷ peers) now g = ping_peers peers now (
    if peer.is_alive
    then emit (ping peer.ws) (set_alive peer.peer_session_id false g)
    else handle_peer_disconnect peer.peer_session_id now g)

-- `now - lease.lastHeartbeatAt > lease.leaseTtlMs`
abbrev pub is_overdue : ℕ → BackendLease → Bool
is_overdue now lease = ltb (lease.last_heartbeat_at + lease.lease_ttl_ms) now

-- the loop of `leaseCheckInterval`
unfoldable pub check_leases : Map BackendLease → ℕ → Gateway → Gateway
unfolding handle_backend_lease_expired
check_leases [] now g = g
check_leases ((backend_id, lease) ∷ leases) now g =
    check_leases leases now
      (if is_overdue now lease then handle_backend_lease_expired backend_id now g else g)

-- what an admin request finds outside the gateway's own state: the configuration of the web side and
-- the admin sessions, any
pub record Web : Type 0 where
  pub url_host : String → Option String
  pub allowed_origins : Option (List String)
  pub admin_token : String
  pub fraction_ms : String → Option ℕ
  pub sessions : SessionStore

-- What happens: on the control connections, on the data sockets and their bridges, on the timers and
-- intervals, and over HTTP. Of the routes that only read, the guard is what changes the state.
pub data Event : Type 0 where
  connected : (ws ip : String) → Event
  auth_timed_out : (ws : String) → Event
  received : (ws : String) (fresh : Fresh) (message : Option Json) → Event
  ponged : (ws : String) → Event
  disconnected : (ws : String) → Event
  dialled : (channel_id ticket ws : String) → Event
  pairing_timed_out : (channel_id : String) → Event
  -- a data socket of a paired channel closes or fails
  relay_ended : (channel_id : String) → Event
  -- the bridge of an internal channel makes these calls
  bridged : (channel_id response : String) (calls : List BridgeCall) → Event
  response_ended : (channel_id : String) → Event
  pings leases_checked registry_pushed cleaned : Event
  proxied : (fresh : FreshProxy) (backend_id : String) (req : Request) → Event
  authenticated recovered : (req : Request) → Event
  logged_in : (web : Web) (id : String) (req : Request) (body : Json) → Event
  administered : (web : Web) (fresh : FreshCredential) (req : Request) (call : AdminCall) → Event
  exchanged : (ttl : Ttl) (fresh : FreshCredential) (req : Request) → Event

module _ (cfg : Config) (hash : String → String) where
  -- one event, at a time
  unfoldable pub step : Gateway → ℕ × Event → Gateway
  unfolding connect auth_timeout receive pong_received disconnect handle_channel_upgrade
      pairing_timeout teardown_channel perform response_closed ping_peers check_leases
      broadcast_registry_snapshot cleanup_tickets cleanup handle_proxy require_gateway_auth
      require_recovery_token login handle_admin exchange_token
  step g (now, connected ws ip) = connect ws ip g
  step g (now, auth_timed_out ws) = auth_timeout ws g
  step g (now, received ws fresh message) = receive cfg hash ws now fresh message g
  step g (now, ponged ws) = pong_received ws g
  step g (now, disconnected ws) = disconnect ws now g
  step g (now, dialled channel_id ticket ws) = handle_channel_upgrade now channel_id ticket ws g
  step g (now, pairing_timed_out channel_id) = pairing_timeout channel_id g
  step g (now, relay_ended channel_id) = teardown_channel channel_id closed g
  step g (now, bridged channel_id response calls) = perform channel_id response calls g
  step g (now, response_ended channel_id) = response_closed channel_id g
  step g (now, pings) = ping_peers (values g.state.peers) now g
  step g (now, leases_checked) = check_leases g.state.leases now g
  step g (now, registry_pushed) = broadcast_registry_snapshot none g
  step g (now, cleaned) = cleanup_tickets now (record g { buckets = cleanup now g.buckets })
  step g (now, proxied fresh backend_id req) = (handle_proxy cfg hash now fresh backend_id req g).0
  step g (now, authenticated req) = (require_gateway_auth cfg hash now req g).0
  step g (now, recovered req) = (require_recovery_token cfg now req g).0
  step g (now, logged_in web id req body) =
      (login web.admin_token cfg id now req body web.sessions g).1.0
  step g (now, administered web fresh req call) =
      (handle_admin hash web.fraction_ms web.url_host web.allowed_origins web.admin_token cfg fresh
        now req call web.sessions g).1.0
  step g (now, exchanged ttl fresh req) = (exchange_token cfg hash ttl fresh now req g).0

  unfoldable pub run : Gateway → List (ℕ × Event) → Gateway
  unfolding step
  run g [] = g
  run g (e ∷ es) = run (step g e) es

-- the maps of `createGatewayServer`, empty but for the storage
unfoldable pub start : (default_lease_ttl_ms : ℕ) → Storage → Gateway
unfolding initial
start ttl storage = record {
  state = initial ttl;
  storage = storage;
  recovery_tokens = [];
  buckets = record { auth_failures = []; proxy_requests = []; proxy_ip_requests = [] };
  owner_replacements = [];
  channels = [];
  channel_tickets = [];
  topic_subs = [];
  retained_topics = [];
  ws_connections_per_ip = [];
  connections = [];
  responses = [];
  out = [];
}
