-- ===== src/Gateway/Messages.antt =====
-- src/server.ts, Message Router and the handlers of backends' and clients' messages.
use zclaudia_gateway.Prelude.{
  ℕ, String, Bool, false, not, ◌==◌, ◌<>◌, if◌then◌else◌, is_empty, get_or, Option, none, some,
}
use zclaudia_gateway.Json.{Json, Number, number_eq}
use zclaudia_gateway.Map.{get, update}
use zclaudia_gateway.Validation.{validate_gateway_message, message_type, type_text}
use zclaudia_gateway.Validation.Decode.{
  GatewayMessage, heartbeat, registry_request, server_message, push_request, ping_request,
  open_channel, reject_channel, close_channel, subscribe, unsubscribe, publish, read_message,
}
use zclaudia_gateway.State.{PeerSession, BackendLease, BackendPresence}
use zclaudia_gateway.Gateway.{
  Gateway, Config, send, notify, gateway_error, invalid_message, heartbeat_ack, registry_snapshot,
  relayed, pong, emit,
}
use zclaudia_gateway.Gateway.Scope.{visible_registry, can_reach}
use zclaudia_gateway.Gateway.Channels.{
  FreshChannel, handle_channel_open, handle_channel_reject, handle_channel_close,
}
use zclaudia_gateway.Gateway.Topics.{
  owned_backend, handle_topic_subscribe, handle_topic_unsubscribe, handle_topic_publish,
}

abbrev pub epoch_is : Number → Option ℕ → Bool
epoch_is n none = false
epoch_is n (some e) = number_eq n e

abbrev pub beat : ℕ → BackendLease → BackendLease
beat now lease = record lease { last_heartbeat_at = now }

abbrev pub seen : ℕ → BackendPresence → BackendPresence
seen now presence = record presence { last_seen_at = now }

unfoldable pub handle_backend_heartbeat : PeerSession → Number → ℕ → Gateway → Gateway
unfolding owned_backend
handle_backend_heartbeat peer epoch now g =
    if not (epoch_is epoch peer.epoch) then g else elim (owned_backend peer g) [
      | none ↦ g
      | some b ↦ emit (send peer.ws (heartbeat_ack epoch)) (record g {
        state = record (g.state) {
          leases = update b (beat now) g.state.leases;
          registry = update b (seen now) g.state.registry;
        };
      })
    ]

unfoldable pub handle_request_registry_snapshot : PeerSession → Gateway → Gateway
unfolding visible_registry
handle_request_registry_snapshot peer g =
    emit (send peer.ws (registry_snapshot (visible_registry g.state peer))) g

-- a target that is given and not empty
abbrev pub target_of : Option String → Option String
target_of none = none
target_of (some id) = if is_empty id then none else some id

unfoldable pub handle_backend_server_message :
    PeerSession → (backend_id : String) → (target : Option String) → Json → Gateway → Gateway
unfolding owned_backend can_reach
handle_backend_server_message peer backend_id target raw g = elim (owned_backend peer g) [
  | none ↦ g
  | some b ↦ if not (backend_id == b) then g else elim (target_of target) [
    | none ↦ g
    | some id ↦ elim (get id g.state.peers) [
      | none ↦ g
      | some target_peer ↦
          if can_reach target_peer.namespace target_peer.allowed_backends peer.namespace b
          then emit (send target_peer.ws (relayed raw)) g
          else g
    ]
  ]
]

unfoldable pub handle_push_notification_request : PeerSession → Json → Gateway → Gateway
handle_push_notification_request peer event g = elim peer.backend_id [
  | none ↦
      emit
        (send peer.ws
          (gateway_error invalid_message "push_notification_request is only allowed from backends"))
        g
  | some b ↦ emit (notify event b) g
]

-- the switch of `handlePeerMessage`, on a message that the validation passed
unfoldable pub dispatch :
    (cfg : Config) (now : ℕ) (fresh : FreshChannel)
    → PeerSession
    → GatewayMessage
    → Gateway
    → Gateway
unfolding handle_backend_heartbeat handle_request_registry_snapshot handle_backend_server_message
    handle_push_notification_request handle_channel_open handle_channel_reject handle_channel_close
    handle_topic_subscribe handle_topic_unsubscribe handle_topic_publish
dispatch cfg now fresh peer (heartbeat epoch) g = handle_backend_heartbeat peer epoch now g
dispatch cfg now fresh peer registry_request g = handle_request_registry_snapshot peer g
dispatch cfg now fresh peer (server_message b target raw) g =
    handle_backend_server_message peer b target raw g
dispatch cfg now fresh peer (push_request event) g = handle_push_notification_request peer event g
dispatch cfg now fresh peer (ping_request ts) g = emit (send peer.ws (pong ts)) g
dispatch cfg now fresh peer (open_channel target kind) g =
    handle_channel_open cfg now fresh peer target kind g
dispatch cfg now fresh peer (reject_channel id) g = handle_channel_reject peer id g
dispatch cfg now fresh peer (close_channel id) g = handle_channel_close peer id g
dispatch cfg now fresh peer (subscribe b topic) g = handle_topic_subscribe peer b topic g
dispatch cfg now fresh peer (unsubscribe b topic) g = handle_topic_unsubscribe peer b topic g
dispatch cfg now fresh peer (publish topic payload retain) g =
    handle_topic_publish peer topic payload retain g

-- A message of a type that the switch does not know. (The validation passes those.)
abbrev pub unknown_type : PeerSession → String → Gateway → Gateway
unknown_type peer type g =
    emit (send peer.ws (gateway_error invalid_message ("Unknown message type: " <> type))) g

abbrev pub invalid_format : PeerSession → Gateway → Gateway
invalid_format peer g =
    emit (send peer.ws (gateway_error invalid_message "Invalid message format")) g

unfoldable pub dispatch_read :
    Config → ℕ → FreshChannel → PeerSession → Option GatewayMessage → Gateway → Gateway
unfolding dispatch
dispatch_read cfg now fresh peer none g = invalid_format peer g
dispatch_read cfg now fresh peer (some message) g = dispatch cfg now fresh peer message g

unfoldable pub route :
    (cfg : Config) (now : ℕ) (fresh : FreshChannel) → PeerSession → Json → Gateway → Gateway
unfolding dispatch_read
route cfg now fresh peer message g = elim (validate_gateway_message message) [
  | some error ↦ emit (send peer.ws (gateway_error invalid_message error)) g
  | none ↦
      let type = get_or "" (type_text message) in
      elim (message_type type) [
        | none ↦ unknown_type peer type g
        | some ty ↦ dispatch_read cfg now fresh peer (read_message ty message) g
      ]
]

unfoldable pub handle_peer_message :
    (cfg : Config) (now : ℕ) (fresh : FreshChannel) → String → Json → Gateway → Gateway
unfolding route
handle_peer_message cfg now fresh id message g = elim (get id g.state.peers) [
  | none ↦ g
  | some peer ↦ route cfg now fresh peer message g
]
