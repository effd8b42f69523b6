-- ===== src/Validation/Decode.antt =====
-- src/server.ts, `handlePeerMessage`: the fields that each case of its switch reads from a message
-- that was checked, with the types that the handlers' signatures give them.
use zclaudia_gateway.Prelude.{String, Bool, false, Option, none, some, ◌>>=◌}
use zclaudia_gateway.Json.{Json, Number, boolean, member, as_text}
use zclaudia_gateway.Validation.{
  MessageType, backend_heartbeat, request_registry_snapshot, backend_server_message,
  push_notification_request, ping, channel_open, channel_reject, channel_close, topic_subscribe,
  topic_unsubscribe, topic_publish,
}
use zclaudia_gateway.Validation.Hello.{text_member, number_member}

pub data GatewayMessage : Type 0 where
  heartbeat : (epoch : Number) → GatewayMessage
  registry_request : GatewayMessage
  -- `raw` is the message itself, which is relayed as it came
  server_message : (backend_id : String) (target : Option String) (raw : Json) → GatewayMessage
  push_request : (event : Json) → GatewayMessage
  ping_request : (ts : Option Json) → GatewayMessage
  open_channel : (target : String) (kind : Option String) → GatewayMessage
  reject_channel : (channel_id : String) → GatewayMessage
  close_channel : (channel_id : String) → GatewayMessage
  subscribe : (backend_id topic : String) → GatewayMessage
  unsubscribe : (backend_id topic : String) → GatewayMessage
  publish : (topic : String) (payload : Option Json) (retain : Bool) → GatewayMessage

-- an optional text field: absent, or a text
abbrev pub optional_text : Option Json → Option (Option String)
optional_text none = some none
optional_text (some v) = do s ← as_text v; some (some s)

-- `value === true`
abbrev pub is_true : Option Json → Bool
is_true (some (boolean b)) = b
is_true _ = false

unfoldable pub read_message : MessageType → Json → Option GatewayMessage
read_message backend_heartbeat msg = do n ← number_member "epoch" msg; some (heartbeat n)
read_message request_registry_snapshot msg = some registry_request
read_message backend_server_message msg = do
  id ← text_member "backendId" msg
  target ← optional_text (member "targetPeerSessionId" msg)
  some (server_message id target msg)
read_message push_notification_request msg = do
  event ← member "event" msg
  some (push_request event)
read_message ping msg = some (ping_request (member "ts" msg))
read_message channel_open msg = do
  target ← text_member "target" msg
  kind ← optional_text (member "kind" msg)
  some (open_channel target kind)
read_message channel_reject msg = do id ← text_member "channelId" msg; some (reject_channel id)
read_message channel_close msg = do id ← text_member "channelId" msg; some (close_channel id)
read_message topic_subscribe msg = do
  id ← text_member "backendId" msg
  topic ← text_member "topic" msg
  some (subscribe id topic)
read_message topic_unsubscribe msg = do
  id ← text_member "backendId" msg
  topic ← text_member "topic" msg
  some (unsubscribe id topic)
read_message topic_publish msg = do
  topic ← text_member "topic" msg
  some (publish topic (member "payload" msg) (is_true (member "retain" msg)))
