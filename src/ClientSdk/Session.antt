-- ===== src/ClientSdk/Session.antt =====
-- packages/client/src/index.ts: the state of `GatewayClient` and its control operations. The promise
-- chain `opQueue` is a queue, of which the first operation runs: `pending` is the one that waits for
-- its reply. A call is told its result by its own name, a text.
use zclaudia_gateway.Prelude.{ℕ, String, Bool, Option, List}
use zclaudia_gateway.Json.{Json}
use zclaudia_gateway.Map.{Map}
use zclaudia_gateway.SdkMessages.{SdkMessage}
use zclaudia_gateway.ClientSdk.Socket.{Channel}

pub record Options : Type 0 where
  pub reconnect : Bool
  pub reconnect_min_ms : ℕ
  pub reconnect_max_ms : ℕ

pub data ClientState : Type 0 where
  idle connecting connected closed : ClientState

-- The code that awaits an operation: `openChannel`, `subscribeTopic` with its key and handler, its
-- unsubscription, or `resubscribeTopics`, which goes on with the keys from this stamp.
pub data Purpose : Type 0 where
  opening_channel : (kind : Option String) → Purpose
  subscribing : (key handler : String) → Purpose
  unsubscribing : Purpose
  resubscribing : (stamp : ℕ) → Purpose

-- The handlers of a topic. The stamps are in order of insertion, as an iterator of the map goes.
pub record Handlers : Type 0 where
  pub stamp : ℕ
  pub handlers : List String

pub record Op : Type 0 where
  pub id : String
  pub message : SdkMessage
  -- the types of the replies that it takes
  pub expect : List String
  pub purpose : Purpose

pub data OpError : Type 0 where
  not_connected timed_out connection_closed : OpError
  by_gateway : (code message : Option Json) → OpError

-- where a run of `establish` waits: for its socket to open, or for `peer_ready`
pub data Phase : Type 0 where
  opening greeting : (ws : String) → Phase

-- whether a reconnect timer started it
pub record Task : Type 0 where
  pub background : Bool
  pub phase : Phase

pub record Client : Type 0 where
  pub socket : Option String
  pub state : ClientState
  pub peer_session_id : Json
  pub registry : Json
  pub reconnect_attempt : ℕ
  pub user_closed : Bool
  pub pending : Option Op
  pub queue : List Op
  -- by the key of the topic
  pub topic_handlers : Map Handlers
  pub next_stamp : ℕ
  pub channels : Map Channel
  pub tasks : Map Task
  -- the reconnect timers that are set
  pub timers : ℕ

pub data ClientCall : Type 0 where
  dial : (ws : String) → ClientCall
  hello : (ws : String) → ClientCall
  send : (ws : String) → SdkMessage → ClientCall
  close_socket : (ws : String) → ClientCall
  close_channel : (channel_id : String) → ClientCall
  state_changed : ClientState → ClientCall
  set_timer : (delay : ℕ) → ClientCall
  connect_resolved connect_rejected : ClientCall
  registry_changed : Json → ClientCall
  call_handler : (handler : String) → (payload : Option Json) → ClientCall
  dial_channel : (reply : Json) → (kind : Option String) → ClientCall
  op_resolved : Op → (reply : Json) → ClientCall
  op_rejected : Op → OpError → ClientCall
