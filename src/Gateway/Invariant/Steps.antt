-- ===== src/Gateway/Invariant/Steps.antt =====
-- The invariant when a connected peer sends a message.
use zclaudia_gateway.Prelude.{
  ℕ, String, Option, none, some, ◌≡◌, refl, sym, subst, get_or, ◌==◌, Option-cases, Bool-cases, inl,
  inr,
}
use zclaudia_gateway.Json.{Json}
use zclaudia_gateway.Map.{get}
use zclaudia_gateway.Validation.{validate_gateway_message, message_type, type_text}
use zclaudia_gateway.Validation.Decode.{
  GatewayMessage, heartbeat, registry_request, server_message, push_request, ping_request,
  open_channel, reject_channel, close_channel, subscribe, unsubscribe, publish, read_message,
}
use zclaudia_gateway.State.{PeerSession}
use zclaudia_gateway.Gateway.{Gateway, Config}
use zclaudia_gateway.Gateway.Scope.{can_reach}
use zclaudia_gateway.Gateway.Channels.{FreshChannel}
use zclaudia_gateway.Gateway.Topics.{owned_backend}
use zclaudia_gateway.Gateway.Messages.{
  handle_backend_server_message, handle_push_notification_request, handle_request_registry_snapshot,
  target_of, dispatch, dispatch_read, route, handle_peer_message,
}
use zclaudia_gateway.Gateway.Invariant.{CoreInv, Inv, core}
use zclaudia_gateway.Gateway.Invariant.Channels.{
  handle_channel_open-Inv, handle_channel_reject-Inv, handle_channel_close-Inv,
}
use zclaudia_gateway.Gateway.Invariant.Topics.{
  handle_topic_subscribe-Inv, handle_topic_unsubscribe-Inv, handle_topic_publish-Inv,
}
use zclaudia_gateway.Gateway.Invariant.Liveness.{handle_backend_heartbeat-Inv}

server_message-core :
    (peer : PeerSession) (b : String) (target : Option String) (raw : Json) (g : Gateway)
    → core (handle_backend_server_message peer b target raw g) ≡ core g
unfolding handle_backend_server_message
server_message-core peer b target raw g = elim (Option-cases (owned_backend peer g)) [
  | inl e ↦ rw (e, handle_backend_server_message) refl
  | inr (own, e) ↦ elim (Bool-cases (b == own)) [
    | inr f ↦ rw (e, f, handle_backend_server_message) refl
    | inl f ↦ elim (Option-cases (target_of target)) [
      | inl t ↦ rw (e, f, t, handle_backend_server_message) refl
      | inr (id, t) ↦ elim (Option-cases (get id g.state.peers)) [
        | inl k ↦ rw (e, f, t, k, handle_backend_server_message) refl
        | inr (p, k) ↦
            elim (Bool-cases (can_reach p.namespace p.allowed_backends peer.namespace own)) [
              | inl r ↦ rw (e, f, t, k, r, handle_backend_server_message) refl
              | inr r ↦ rw (e, f, t, k, r, handle_backend_server_message) refl
            ]
      ]
    ]
  ]
]

push-core :
    (peer : PeerSession) (event : Json) (g : Gateway)
    → core (handle_push_notification_request peer event g) ≡ core g
unfolding handle_push_notification_request
push-core peer event g = elim (Option-cases peer.backend_id) [
  | inl e ↦ rw (e, handle_push_notification_request) refl
  | inr (b, e) ↦ rw (e, handle_push_notification_request) refl
]

pub dispatch-Inv :
    (cfg : Config) (now : ℕ) (fresh : FreshChannel) (peer : PeerSession) (m : GatewayMessage)
    (g : Gateway)
    → Inv g
    → Inv (dispatch cfg now fresh peer m g)
unfolding dispatch handle_request_registry_snapshot
dispatch-Inv cfg now fresh peer (heartbeat epoch) g v =
    handle_backend_heartbeat-Inv peer epoch now g v
dispatch-Inv cfg now fresh peer registry_request g v = v
dispatch-Inv cfg now fresh peer (server_message b target raw) g v =
    subst CoreInv (sym (server_message-core peer b target raw g)) v
dispatch-Inv cfg now fresh peer (push_request event) g v =
    subst CoreInv (sym (push-core peer event g)) v
dispatch-Inv cfg now fresh peer (ping_request ts) g v = v
dispatch-Inv cfg now fresh peer (open_channel target kind) g v =
    handle_channel_open-Inv cfg now fresh peer target kind g v
dispatch-Inv cfg now fresh peer (reject_channel id) g v = handle_channel_reject-Inv peer id g v
dispatch-Inv cfg now fresh peer (close_channel id) g v = handle_channel_close-Inv peer id g v
dispatch-Inv cfg now fresh peer (subscribe b topic) g v =
    handle_topic_subscribe-Inv peer b topic g v
dispatch-Inv cfg now fresh peer (unsubscribe b topic) g v =
    handle_topic_unsubscribe-Inv peer b topic g v
dispatch-Inv cfg now fresh peer (publish topic payload keep) g v =
    handle_topic_publish-Inv peer topic payload keep g v

dispatch_read-Inv :
    (cfg : Config) (now : ℕ) (fresh : FreshChannel) (peer : PeerSession) (m : Option GatewayMessage)
    (g : Gateway)
    → Inv g
    → Inv (dispatch_read cfg now fresh peer m g)
unfolding dispatch_read
dispatch_read-Inv cfg now fresh peer none g v = v
dispatch_read-Inv cfg now fresh peer (some m) g v = dispatch-Inv cfg now fresh peer m g v

route-Inv :
    (cfg : Config) (now : ℕ) (fresh : FreshChannel) (peer : PeerSession) (message : Json)
    (g : Gateway)
    → Inv g
    → Inv (route cfg now fresh peer message g)
unfolding route
route-Inv cfg now fresh peer message g v = elim (Option-cases (validate_gateway_message message)) [
  | inr (error, e) ↦ rw (e, route) v
  | inl e ↦
      let type = get_or "" (type_text message) in
      elim (Option-cases (message_type type)) [
        | inl f ↦ rw (e, f, route) v
        | inr (ty, f) ↦
            rw (e, f, route) (dispatch_read-Inv cfg now fresh peer (read_message ty message) g v)
      ]
]

-- Whatever message a connected peer sends, valid or not, the state after `handlePeerMessage`
-- satisfies the invariant if the state before does.
pub handle_peer_message-Inv :
    (cfg : Config) (now : ℕ) (fresh : FreshChannel) (id : String) (message : Json) (g : Gateway)
    → Inv g
    → Inv (handle_peer_message cfg now fresh id message g)
unfolding handle_peer_message
handle_peer_message-Inv cfg now fresh id message g v = elim (Option-cases (get id g.state.peers)) [
  | inl e ↦ rw (e, handle_peer_message) v
  | inr (peer, e) ↦ rw (e, handle_peer_message) (route-Inv cfg now fresh peer message g v)
]
