-- ===== src/Gateway.antt =====
-- src/server.ts: the variables that the closures of `createGatewayServer` share, and the calls on
-- sockets and responses that they make.
pub mod Scope
pub mod Channels
pub mod Topics
pub mod Ownership
pub mod Hello
pub mod Messages
pub mod Events
pub mod Frame
pub mod Invariant
pub mod Isolation
pub mod Tickets
pub mod Retained
pub mod Relay
use zclaudia_gateway.Prelude.{ℕ, String, Bool, Option, none, some, List, [], ◌∷◌}
use zclaudia_gateway.Json.{Json, Number}
use zclaudia_gateway.Map.{Map, get}
use zclaudia_gateway.RateLimit.{Buckets, Limits}
use zclaudia_gateway.AdminSession.{SessionStore}
use zclaudia_gateway.Storage.{Storage}
use zclaudia_gateway.State.{GatewayState, BackendPresence, PeerSession}

pub record Config : Type 0 where
  pub limits : Limits
  pub channel_ticket_ttl_ms : ℕ
  pub max_channels_per_peer : ℕ

pub data ErrorCode : Type 0 where
  invalid_message protocol_version_mismatch unauthorized backend_offline rate_limited : ErrorCode

pub data ClosedReason : Type 0 where
  closed rejected timeout epoch_changed offline : ClosedReason

-- Messages from the gateway to a peer.
pub data Outbound : Type 0 where
  gateway_error : ErrorCode → (message : String) → Outbound
  peer_ready :
      (peer_session_id recovery_token : String)
      → (backend : Option (String × ℕ × ℕ)) → (items : List BackendPresence) → Outbound
  registry_snapshot : List BackendPresence → Outbound
  heartbeat_ack : Number → Outbound
  pong : Option Json → Outbound
  channel_ready : (channel_id ticket data_path : String) → Outbound
  channel_offer :
      (channel_id : String) (kind source : Option String) (ticket data_path : String) → Outbound
  channel_closed : (channel_id : String) → ClosedReason → Outbound
  topic_subscribed : (backend_id topic : String) → Outbound
  topic_unsubscribed : (backend_id topic : String) → Outbound
  topic_message : (backend_id topic : String) → (payload : Option Json) → Outbound
  relayed : Json → Outbound

-- The calls that leave the gateway. `send` is a call of `sendToWs`, which drops the message if the
-- socket is no longer open. `close_data_socket` is `resume` and then `close(1000, reason)` on an
-- open socket, `terminate` on another. Log lines are left out.
pub data Action : Type 0 where
  send : (ws : String) → Outbound → Action
  close : (ws : String) (code : ℕ) (reason : String) → Action
  -- `close()` with no code
  close_plain : (ws : String) → Action
  terminate : (ws : String) → Action
  -- `terminate` after a time, if the socket is not closed by then
  terminate_after : (delay : ℕ) (ws : String) → Action
  ping : (ws : String) → Action
  close_data_socket : (ws : String) → ClosedReason → Action
  resume : (ws : String) → Action
  pause : (ws : String) → Action
  reject_upgrade : (ws : String) → Action
  respond : (response : String) (status : ℕ) → (code : String) → Action
  destroy_response : (response : String) → Action
  bridge : (channel_id ws : String) → Action
  relay : (channel_id client backend : String) → Action
  notify : (event : Json) (backend_id : String) → Action

pub data Role : Type 0 where
  client backend : Role

pub record Ticket : Type 0 where
  pub channel_id : String
  pub role : Role
  pub expires_at : ℕ

pub record ChannelRecord : Type 0 where
  pub channel_id : String
  pub backend_id : String
  pub epoch : ℕ
  pub kind : Option String
  pub client_peer_session_id : String
  pub backend_peer_session_id : String
  pub client_socket : Option String
  pub backend_socket : Option String
  pub piped : Bool
  pub ticket_tokens : List String
  -- whether `pairingTimeout` is still to fire
  pub pairing : Bool
  -- an internal HTTP channel, with `onBackendSocket`
  pub internal : Bool
  pub internal_res : Option String

-- what `teardownChannel` asks of an HTTP response
pub record ResponseState : Type 0 where
  pub headers_sent : Bool
  pub ended : Bool

-- A control connection: its client address, and its session once the hello was accepted.
pub record Connection : Type 0 where
  pub ip : String
  pub session : Option String

pub record Gateway : Type 0 where
  pub state : GatewayState
  pub storage : Storage
  pub recovery_tokens : Map String
  pub buckets : Buckets
  pub owner_replacements : Map (List ℕ)
  pub channels : Map ChannelRecord
  pub channel_tickets : Map Ticket
  pub topic_subs : Map (Map (List String))
  pub retained_topics : Map (Map Json)
  pub ws_connections_per_ip : Map ℕ
  pub connections : Map Connection
  pub responses : Map ResponseState
  -- the calls made so far, the newest first
  pub out : List Action

-- one more call
abbrev pub emit : Action → Gateway → Gateway
emit a g = record g { out = a ∷ g.out }

-- `if (peer) sendToWs(peer.ws, message)` for the peer of a session id
unfoldable pub send_to_session : String → Outbound → Gateway → Gateway
send_to_session id message g = elim (get id g.state.peers) [
  | none ↦ g
  | some peer ↦ emit (send peer.ws message) g
]
