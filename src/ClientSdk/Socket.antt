-- ===== src/ClientSdk/Socket.antt =====
-- packages/client/src/socket.ts and channel.ts: addresses, and a channel's data socket. `parse_url`
-- gives the protocol and the host that `new URL` finds, `encode` is `encodeURIComponent`.
use zclaudia_gateway.Prelude.{
  String, Bool, true, false, not, ◌==◌, ◌<>◌, ◌&&◌, ◌||◌, nat_eq, ℕ, if◌then◌else◌, Option, none,
  some, List, [],
}

abbrev pub is_secure : String → Bool
is_secure protocol = (protocol == "https:") || (protocol == "wss:")

module _ (parse_url : String → Option (String × String)) where
  -- `none` where the address is no URL
  unfoldable pub to_ws_base : String → Option String
  to_ws_base url = elim (parse_url url) [
    | none ↦ none
    | some (protocol, host) ↦ some ((if is_secure protocol then "wss:" else "ws:") <> "//" <> host)
  ]

  unfoldable pub to_http_base : String → Option String
  to_http_base url = elim (parse_url url) [
    | none ↦ none
    | some (protocol, host) ↦
        some ((if is_secure protocol then "https:" else "http:") <> "//" <> host)
  ]

-- the address that `dialChannel` opens
unfoldable pub channel_url :
    (encode : String → String) → (ws_base data_path ticket : String) → String
channel_url encode ws_base data_path ticket = ws_base <> data_path <> "?ticket=" <> encode ticket

-- `GatewayChannel`: whether its socket was seen to close, and the handlers, by names of their own
pub record Channel : Type 0 where
  pub channel_id : String
  pub kind : Option String
  pub is_closed : Bool
  pub message_handlers : List String
  pub close_handlers : List String

abbrev pub new_channel : String → Option String → Channel
new_channel channel_id kind = record {
  channel_id = channel_id;
  kind = kind;
  is_closed = false;
  message_handlers = [];
  close_handlers = [];
}

-- `isOpen`, with the socket's `readyState`
unfoldable pub is_open : (ready_state : ℕ) → Channel → Bool
is_open ready_state c = not c.is_closed && nat_eq ready_state 1

-- a message is given to each handler: the handlers that are called
unfoldable pub channel_message : Channel → List String
channel_message c = c.message_handlers

-- the socket's close: the handlers are called the first time
unfoldable pub channel_gone : Channel → Channel × List String
channel_gone c = if c.is_closed then (c, []) else (record c { is_closed = true }, c.close_handlers)
