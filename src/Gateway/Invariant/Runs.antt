-- ===== src/Gateway/Invariant/Runs.antt =====
-- The invariant along the gateway's events, from its start.
use zclaudia_gateway.Prelude.{
  ℕ, String, true, false, Option, none, some, List, [], ◌∷◌, ◌≡◌, refl, sym, ap, subst, leb, get_or,
  Option-cases, Bool-cases, inl, inr,
}
use zclaudia_gateway.Json.{Json}
use zclaudia_gateway.Map.{Map, get, values, delete}
use zclaudia_gateway.Validation.Hello.{validate_peer_hello, read_peer_hello}
use zclaudia_gateway.Storage.{Storage}
use zclaudia_gateway.State.{PeerSession, BackendLease, initial}
use zclaudia_gateway.Gateway.{Gateway, Config, Connection, ClosedReason, emit, ping}
use zclaudia_gateway.Gateway.Hello.{FreshPeer, handle_peer_hello}
use zclaudia_gateway.Gateway.Ownership.{handle_backend_lease_expired, handle_peer_disconnect}
use zclaudia_gateway.Gateway.Events.{
  Fresh, Event, connected, auth_timed_out, received, ponged, disconnected, dialled,
  pairing_timed_out, relay_ended, bridged, response_ended, proxied, authenticated, recovered,
  logged_in, administered, exchanged, pings, leases_checked, registry_pushed, cleaned, connect,
  auth_timeout, first_message, receive, pong_received, disconnect, ping_peers, check_leases,
  is_overdue, step, run, set_alive, start, max_ws_connections_per_ip, session_started,
  release_address,
}
use zclaudia_gateway.Gateway.Frame.{broadcast-Calls}
use zclaudia_gateway.Gateway.Invariant.{CoreInv, Inv, core}
use zclaudia_gateway.Gateway.Invariant.Channels.{
  teardown-Inv, handle_channel_upgrade-Inv, pairing_timeout-Inv,
}
use zclaudia_gateway.Gateway.Invariant.Proxied.{handle_proxy-Inv, perform-Inv}
use zclaudia_gateway.Gateway.Invariant.Web.{
  require_gateway_auth-core, require_recovery_token-core, login-core, handle_admin-core,
  exchange_token-core,
}
use zclaudia_gateway.Http.Proxy.{response_closed}
use zclaudia_gateway.Gateway.Invariant.Liveness.{set_alive-Inv}
use zclaudia_gateway.Gateway.Invariant.Disconnect.{handle_peer_disconnect-Inv}
use zclaudia_gateway.Gateway.Invariant.Expiry.{handle_backend_lease_expired-Inv}
use zclaudia_gateway.Gateway.Invariant.Steps.{handle_peer_message-Inv}
use zclaudia_gateway.Gateway.Invariant.Arrival.{handle_peer_hello-Inv}

session_started-core :
    (ws : String) (c : Connection) (o : Option String) (g : Gateway)
    → core (session_started ws c o g) ≡ core g
session_started-core ws c none g = refl
session_started-core ws c (some id) g = refl

first_message-Inv :
    (cfg : Config) (hash : String → String) (ws : String) (c : Connection) (now : ℕ)
    (fresh : FreshPeer) (message : Json) (g : Gateway)
    → get fresh.peer_session_id g.state.peers ≡ none
    → Inv g
    → Inv (first_message cfg hash ws c now fresh message g)
unfolding first_message
first_message-Inv cfg hash ws c now fresh message g new v =
    elim (Option-cases (validate_peer_hello message)) [
      | inr (error, e) ↦ rw (e, first_message) v
      | inl e ↦ elim (Option-cases (read_peer_hello message)) [
        | inl f ↦ rw (e, f, first_message) v
        | inr (hello, f) ↦
            let (g', session) = handle_peer_hello cfg hash ws c.ip now fresh hello g in
            rw (e, f, first_message)
              (subst CoreInv (sym (session_started-core ws c session g'))
                (handle_peer_hello-Inv cfg hash ws c.ip now fresh hello g new v))
      ]
    ]

receive-Inv :
    (cfg : Config) (hash : String → String) (ws : String) (now : ℕ) (fresh : Fresh)
    (message : Option Json) (g : Gateway)
    → get fresh.peer.peer_session_id g.state.peers ≡ none
    → Inv g
    → Inv (receive cfg hash ws now fresh message g)
unfolding receive
receive-Inv cfg hash ws now fresh message g new v = elim (Option-cases (get ws g.connections)) [
  | inl e ↦ rw (e, receive) v
  | inr (c, e) ↦ elim (Option-cases c.session) [
    | inl f ↦ elim (Option-cases message) [
      | inl m ↦ rw (e, f, m, receive) v
      | inr (json, m) ↦
          rw (e, f, m, receive) (first_message-Inv cfg hash ws c now fresh.peer json g new v)
    ]
    | inr (id, f) ↦ elim (Option-cases message) [
      | inl m ↦ rw (e, f, m, receive) v
      | inr (json, m) ↦
          rw (e, f, m, receive) (handle_peer_message-Inv cfg now fresh.channel id json g v)
    ]
  ]
]

connect-core : (ws ip : String) (g : Gateway) → core (connect ws ip g) ≡ core g
unfolding connect
connect-core ws ip g =
    elim (Bool-cases (leb max_ws_connections_per_ip (get_or 0 (get ip g.ws_connections_per_ip)))) [
      | inl e ↦ rw (e, connect) refl
      | inr e ↦ rw (e, connect) refl
    ]

auth_timeout-core : (ws : String) (g : Gateway) → core (auth_timeout ws g) ≡ core g
unfolding auth_timeout
auth_timeout-core ws g = elim (Option-cases (get ws g.connections)) [
  | inl e ↦ rw (e, auth_timeout) refl
  | inr (c, e) ↦ elim (Option-cases c.session) [
    | inl f ↦ rw (e, f, auth_timeout) refl
    | inr (id, f) ↦ rw (e, f, auth_timeout) refl
  ]
]

pong_received-Inv : (ws : String) (g : Gateway) → Inv g → Inv (pong_received ws g)
unfolding pong_received
pong_received-Inv ws g v = elim (Option-cases (get ws g.connections)) [
  | inl e ↦ rw (e, pong_received) v
  | inr (c, e) ↦ elim (Option-cases c.session) [
    | inl f ↦ rw (e, f, pong_received) v
    | inr (id, f) ↦ rw (e, f, pong_received) (set_alive-Inv id true g v)
  ]
]

release_address-core : (ip : String) (g : Gateway) → core (release_address ip g) ≡ core g
release_address-core ip g = elim (Bool-cases (leb (get_or 1 (get ip g.ws_connections_per_ip)) 1)) [
  | inl e ↦ rw e refl
  | inr e ↦ rw e refl
]

disconnect-Inv : (ws : String) (now : ℕ) (g : Gateway) → Inv g → Inv (disconnect ws now g)
unfolding disconnect
disconnect-Inv ws now g v = elim (Option-cases (get ws g.connections)) [
  | inl e ↦ rw (e, disconnect) v
  | inr (c, e) ↦
      let closed : Gateway = record g { connections = delete ws g.connections } in
      let v' : Inv (release_address c.ip closed) =
        subst CoreInv (sym (release_address-core c.ip closed)) v in
      elim (Option-cases c.session) [
        | inl f ↦ rw (e, f, disconnect) v'
        | inr (id, f) ↦
            rw (e, f, disconnect)
              (handle_peer_disconnect-Inv id now (release_address c.ip closed) v')
      ]
]

ping_peers-Inv :
    (peers : List PeerSession) (now : ℕ) (g : Gateway) → Inv g → Inv (ping_peers peers now g)
unfolding ping_peers
ping_peers-Inv [] now g v = v
ping_peers-Inv (peer ∷ peers) now g v = elim (Bool-cases peer.is_alive) [
  | inl e ↦ rw e (
      ping_peers-Inv peers now (emit (ping peer.ws) (set_alive peer.peer_session_id false g))
        (set_alive-Inv peer.peer_session_id false g v))
  | inr e ↦ rw e (
      ping_peers-Inv peers now (handle_peer_disconnect peer.peer_session_id now g)
        (handle_peer_disconnect-Inv peer.peer_session_id now g v))
]

check_leases-Inv :
    (leases : Map BackendLease) (now : ℕ) (g : Gateway) → Inv g → Inv (check_leases leases now g)
unfolding check_leases
check_leases-Inv [] now g v = v
check_leases-Inv ((b, lease) ∷ leases) now g v = elim (Bool-cases (is_overdue now lease)) [
  | inl e ↦
      rw (e, check_leases)
        (check_leases-Inv leases now (handle_backend_lease_expired b now g)
          (handle_backend_lease_expired-Inv b now g v))
  | inr e ↦ rw (e, check_leases) (check_leases-Inv leases now g v)
]

-- The session id that a message may be given is of no connected peer.
abbrev pub NewSession : Gateway → ℕ × Event → Type 0
NewSession g (_, received ws fresh message) = get fresh.peer.peer_session_id g.state.peers ≡ none
NewSession g _ = Unit

-- Along a run, the session ids given to messages are new.
unfoldable pub NewSessions : Config → (String → String) → Gateway → List (ℕ × Event) → Type 0
NewSessions cfg hash g [] = Unit
NewSessions cfg hash g (e ∷ es) = NewSession g e × NewSessions cfg hash (step cfg hash g e) es

pub step-Inv :
    (cfg : Config) (hash : String → String) (g : Gateway) (e : ℕ × Event)
    → NewSession g e
    → Inv g
    → Inv (step cfg hash g e)
unfolding step response_closed
step-Inv cfg hash g (now, connected ws ip) n v = subst CoreInv (sym (connect-core ws ip g)) v
step-Inv cfg hash g (now, auth_timed_out ws) n v = subst CoreInv (sym (auth_timeout-core ws g)) v
step-Inv cfg hash g (now, received ws fresh m) n v = receive-Inv cfg hash ws now fresh m g n v
step-Inv cfg hash g (now, ponged ws) n v = pong_received-Inv ws g v
step-Inv cfg hash g (now, disconnected ws) n v = disconnect-Inv ws now g v
step-Inv cfg hash g (now, dialled id token ws) n v = handle_channel_upgrade-Inv now id token ws g v
step-Inv cfg hash g (now, pairing_timed_out id) n v = pairing_timeout-Inv id g v
step-Inv cfg hash g (now, relay_ended id) n v = teardown-Inv id ClosedReason.closed g v
step-Inv cfg hash g (now, bridged id response calls) n v = perform-Inv id response calls g v
step-Inv cfg hash g (now, response_ended id) n v = teardown-Inv id ClosedReason.closed g v
step-Inv cfg hash g (now, pings) n v = ping_peers-Inv (values g.state.peers) now g v
step-Inv cfg hash g (now, leases_checked) n v = check_leases-Inv g.state.leases now g v
step-Inv cfg hash g (now, registry_pushed) n v =
    subst CoreInv (sym (ap core (broadcast-Calls none g))) v
step-Inv cfg hash g (now, cleaned) n v = v
step-Inv cfg hash g (now, proxied fresh b req) n v = handle_proxy-Inv cfg hash now fresh b req g v
step-Inv cfg hash g (now, authenticated req) n v =
    subst CoreInv (sym (require_gateway_auth-core cfg hash now req g)) v
step-Inv cfg hash g (now, recovered req) n v =
    subst CoreInv (sym (require_recovery_token-core cfg now req g)) v
step-Inv cfg hash g (now, logged_in web id req body) n v =
    subst CoreInv (sym (login-core web.admin_token cfg id now req body web.sessions g)) v
step-Inv cfg hash g (now, administered web fresh req call) n v =
    subst CoreInv
      (sym (
        handle_admin-core hash web.fraction_ms web.url_host web.allowed_origins web.admin_token cfg
          fresh now req call web.sessions g))
      v
step-Inv cfg hash g (now, exchanged ttl fresh req) n v =
    subst CoreInv (sym (exchange_token-core cfg hash ttl fresh now req g)) v

run-Inv :
    (cfg : Config) (hash : String → String) (g : Gateway) (es : List (ℕ × Event))
    → NewSessions cfg hash g es
    → Inv g
    → Inv (run cfg hash g es)
unfolding run NewSessions
run-Inv cfg hash g [] n v = v
run-Inv cfg hash g (e ∷ es) (n, ns) v =
    run-Inv cfg hash (step cfg hash g e) es ns (step-Inv cfg hash g e n v)

pub start-Inv : (ttl : ℕ) (s : Storage) → Inv (start ttl s)
unfolding start get initial
start-Inv ttl s = record {
  channels_distinct = tt;
  peers_keyed = λ id p h. absurd (cc);
  owners = λ id p b h q. absurd (cc);
  leased = λ b l h. absurd (cc);
  registered = λ b item h. absurd (cc);
  listed = λ b l h. absurd (cc);
  epochs = λ b l h. absurd (cc);
  current = λ id ch h. absurd (cc);
  subscribed = λ b t h. absurd (cc);
  retained = λ b t h. absurd (cc);
}

-- In every state that the gateway reaches from its start, whatever was stored before and whatever of
-- the modelled events happen, in any order and at any times, if each new session gets a session id
-- that no connected peer has: a peer that has a backend holds the backend's lease in its own epoch,
-- every lease is held by a connected peer, the registry lists exactly the leased backends in their
-- epochs, no epoch is beyond the counter, every channel is of its backend's current owner and
-- epoch, and subscriptions and retained payloads are of leased backends only. The events are those
-- of the control connections, the data sockets, the bridges and responses of proxied requests, the
-- timers and intervals, and the requests to the proxy, to the admin routes, to the exchange of
-- enrollment credentials and to the routes that only read.
pub reachable-Inv :
    (cfg : Config) (hash : String → String) (ttl : ℕ) (s : Storage) (es : List (ℕ × Event))
    → NewSessions cfg hash (start ttl s) es
    → Inv (run cfg hash (start ttl s) es)
reachable-Inv cfg hash ttl s es n = run-Inv cfg hash (start ttl s) es n (start-Inv ttl s)
