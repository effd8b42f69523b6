-- ===== src/State.antt =====
-- src/state.ts: peer sessions, the registry of online backends, and their leases. A peer stands in
-- `peers` only: `wsToPeer`, whose values are the same objects, holds the session's id here. The
-- timer of a lease is left out, since every lease is added with `leaseTimer: null`.
use zclaudia_gateway.Prelude.{ℕ, String, Bool, ◌==◌, Option, none, some, List, [], filter, ◌>>=◌}
use zclaudia_gateway.Json.{Json, Number}
use zclaudia_gateway.Map.{Map, get, set, delete, values}
use zclaudia_gateway.Validation.Hello.{PeerType}

pub record PeerSession : Type 0 where
  pub peer_session_id : String
  -- the socket, by an identifier of its own
  pub ws : String
  pub protocol_version : ℕ
  pub peer_type : PeerType
  pub namespace : String
  pub credential_id : Option String
  pub allowed_backends : Option (List String)
  pub device_id : String
  pub instance_id : String
  pub channel : String
  pub name : String
  pub recovery_token : String
  pub is_alive : Bool
  pub backend_id : Option String
  pub epoch : Option ℕ

-- `BackendPresenceV4`
pub record BackendPresence : Type 0 where
  pub namespace : String
  pub backend_id : String
  pub instance_id : String
  pub device_id : String
  pub name : String
  pub channel : String
  pub visible : Bool
  pub capabilities : List Json
  pub backend_protocol_version : Number
  pub min_client_protocol_version : Option Json
  pub epoch : ℕ
  pub connected_at : ℕ
  pub last_seen_at : ℕ
  pub gateway_protocol_version : ℕ

pub record BackendLease : Type 0 where
  pub backend_id : String
  pub epoch : ℕ
  pub peer_session_id : String
  pub lease_ttl_ms : ℕ
  pub last_heartbeat_at : ℕ

pub record GatewayState : Type 0 where
  pub peers : Map PeerSession
  pub ws_to_peer : Map String
  pub registry : Map BackendPresence
  pub leases : Map BackendLease
  pub default_lease_ttl_ms : ℕ

unfoldable pub initial : ℕ → GatewayState
initial ttl = record {
  peers = [];
  ws_to_peer = [];
  registry = [];
  leases = [];
  default_lease_ttl_ms = ttl;
}

unfoldable pub add_peer : PeerSession → GatewayState → GatewayState
add_peer peer s = record s {
  peers = set peer.peer_session_id peer s.peers;
  ws_to_peer = set peer.ws peer.peer_session_id s.ws_to_peer;
}

unfoldable pub remove_peer : String → GatewayState → GatewayState × Option PeerSession
remove_peer id s = elim (get id s.peers) [
  | none ↦ (s, none)
  | some peer ↦
      (record s { ws_to_peer = delete peer.ws s.ws_to_peer; peers = delete id s.peers }, some peer)
]

unfoldable pub get_peer_by_ws : String → GatewayState → Option PeerSession
get_peer_by_ws ws s = do id ← get ws s.ws_to_peer; get id s.peers

unfoldable pub registry_upsert : BackendPresence → GatewayState → GatewayState
registry_upsert item s = record s { registry = set item.backend_id item s.registry }

unfoldable pub registry_remove : String → GatewayState → GatewayState
registry_remove backend_id s = record s { registry = delete backend_id s.registry }

unfoldable pub get_registry_snapshot : String → GatewayState → List BackendPresence
get_registry_snapshot namespace s = filter (λ item. item.namespace == namespace) (values s.registry)

unfoldable pub add_lease : BackendLease → GatewayState → GatewayState
add_lease lease s = record s { leases = set lease.backend_id lease s.leases }

unfoldable pub remove_lease : String → GatewayState → GatewayState
remove_lease backend_id s = record s { leases = delete backend_id s.leases }

unfoldable pub remove_backend : String → GatewayState → GatewayState
unfolding remove_lease
remove_backend backend_id s = remove_lease backend_id s

unfoldable pub destroy : GatewayState → GatewayState
destroy s = record s { peers = []; ws_to_peer = []; registry = []; leases = [] }
