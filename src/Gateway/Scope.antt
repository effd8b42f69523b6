-- ===== src/Gateway/Scope.antt =====
-- src/server.ts: who may see and reach which backend, and the registry broadcast.
use zclaudia_gateway.Prelude.{
  String, Bool, true, false, ◌==◌, ◌<>◌, if◌then◌else◌, includes, option_eq, Option, none, some,
  List, [], ◌∷◌, filter,
}
use zclaudia_gateway.Map.{Map, get, set, values}
use zclaudia_gateway.Validation.{join}
use zclaudia_gateway.Storage.{Storage}
use zclaudia_gateway.Storage.Identities.{get_backend_identity, separator}
use zclaudia_gateway.State.{PeerSession, BackendPresence, GatewayState, get_registry_snapshot}
use zclaudia_gateway.Gateway.{Gateway, send, registry_snapshot, emit}

abbrev pub in_scope : Option (List String) → String → Bool
in_scope none backend_id = true
in_scope (some ids) backend_id = includes ids backend_id

-- `canReach` on the parts of its two arguments that it reads
unfoldable pub can_reach :
    (namespace : String) (allowed : Option (List String)) (target_namespace backend_id : String)
    → Bool
can_reach namespace allowed target_namespace backend_id =
    if target_namespace == namespace then in_scope allowed backend_id else false

unfoldable pub peer_reaches : PeerSession → BackendPresence → Bool
unfolding can_reach
peer_reaches peer item =
    can_reach peer.namespace peer.allowed_backends item.namespace item.backend_id

unfoldable pub visible_registry : GatewayState → PeerSession → List BackendPresence
unfolding get_registry_snapshot peer_reaches
visible_registry s peer = filter (peer_reaches peer) (get_registry_snapshot peer.namespace s)

abbrev pub scope_text : Option (List String) → String
unfolding join
scope_text none = "*"
scope_text (some ids) = join "," ids

unfoldable pub scope_key : PeerSession → String
unfolding join
scope_key peer = peer.namespace <> separator <> scope_text peer.allowed_backends

-- The loop of `broadcastRegistrySnapshot`: the snapshot of a scope is computed once.
unfoldable pub broadcast_from :
    Option String → Map (List BackendPresence) → List PeerSession → Gateway → Gateway
broadcast_from exclude per_scope [] g = g
broadcast_from exclude per_scope (peer ∷ peers) g =
    if option_eq exclude peer.peer_session_id
    then broadcast_from exclude per_scope peers g
    else elim (get (scope_key peer) per_scope) [
      | some items ↦
          broadcast_from exclude per_scope peers (emit (send peer.ws (registry_snapshot items)) g)
      | none ↦
          let items = visible_registry g.state peer in
          broadcast_from exclude (set (scope_key peer) items per_scope) peers
            (emit (send peer.ws (registry_snapshot items)) g)
    ]

unfoldable pub broadcast_registry_snapshot : Option String → Gateway → Gateway
unfolding broadcast_from
broadcast_registry_snapshot exclude g = broadcast_from exclude [] (values g.state.peers) g

unfoldable pub is_known_backend : String → String → Storage → Bool
unfolding get_backend_identity
is_known_backend backend_id namespace s = elim (get_backend_identity backend_id s) [
  | none ↦ false
  | some identity ↦ identity.namespace == namespace
]
