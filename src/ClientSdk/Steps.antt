-- ===== src/ClientSdk/Steps.antt =====
-- packages/client/src/index.ts, `GatewayClient`: connecting, messages, the close of its socket, and
-- the calls of its user, as steps. As in the code, a run of `establish` does not look at `close`, and
-- the close of any socket that was connected is a close of the client's.
use zclaudia_gateway.Prelude.{
  zero, suc, String, Bool, true, false, not, ◌==◌, ◌||◌, if◌then◌else◌, Option, none, some, List,
  [], ◌∷◌, ◌++◌, map, get_or,
}
use zclaudia_gateway.Json.{Json, null, text, array, nil, member}
use zclaudia_gateway.Map.{get, set, delete}
use zclaudia_gateway.ClientSdk.Socket.{Channel}
use zclaudia_gateway.ClientSdk.TopicKey.{topic_key}
use zclaudia_gateway.ClientSdk.Session.{
  Options, ClientState, idle, connecting, connected, closed, Handlers, connection_closed,
  by_gateway, opening, greeting, Task, Client, ClientCall, dial, hello, close_socket, close_channel,
  state_changed, connect_resolved, connect_rejected, registry_changed, call_handler, op_rejected,
}
use zclaudia_gateway.ClientSdk.Ops.{
  settle_pending, fail_pending, follow_op, resubscribe_from, schedule_reconnect, close_channels,
}

unfoldable pub new_client : Client
new_client = record {
  socket = none;
  state = idle;
  peer_session_id = text "";
  registry = array nil;
  reconnect_attempt = 0;
  user_closed = false;
  pending = none;
  queue = [];
  topic_handlers = [];
  next_stamp = 0;
  channels = [];
  tasks = [];
  timers = 0;
}

unfoldable pub establish :
    (task ws : String) (background : Bool) → Client → Client × List ClientCall
unfolding set
establish task ws background s = (
  record s {
    state = connecting;
    socket = some ws;
    tasks = set task (record { background = background; phase = opening ws }) s.tasks;
  },
  state_changed connecting ∷ dial ws ∷ [],
)

-- `connect`, which returns at once where the client is connected or connecting
unfoldable pub connect : (task ws : String) → Client → Client × List ClientCall
unfolding establish
connect task ws s = elim s.state [
  | connected ↦ (s, connect_resolved ∷ [])
  | connecting ↦ (s, connect_resolved ∷ [])
  | _ ↦ establish task ws false (record s { user_closed = false })
]

-- the end of a failed run of `establish`
unfoldable pub fail_task :
    Options → (task : String) → (background : Bool) → Client → Client × List ClientCall
unfolding schedule_reconnect delete
fail_task opts task background s =
    let s' : Client = record s { tasks = delete task s.tasks } in
    if background then schedule_reconnect opts s' else (s', connect_rejected ∷ [])

unfoldable pub socket_opened :
    Options → (task ws : String) → Task → (success : Bool) → Client → Client × List ClientCall
unfolding set fail_task
socket_opened opts task ws t true s =
    (record s { tasks = set task (record t { phase = greeting ws }) s.tasks }, hello ws ∷ [])
socket_opened opts task ws t false s = fail_task opts task t.background s

-- what comes in a handshake: `peer_ready` with its session and registry, an error, or 10 s pass
pub data Greeting : Type 0 where
  peer_ready : (peer_session_id items : Json) → Greeting
  refused timed_out : Greeting

abbrev pub resolved : Bool → List ClientCall
resolved true = []
resolved false = connect_resolved ∷ []

-- The end of a handshake. The promise of `establish` is fulfilled after the topics, but nothing waits
-- on it that changes the state.
unfoldable pub receive_greeting :
    Options → (task : String) → Task → Greeting → Client → Client × List ClientCall
unfolding delete resubscribe_from fail_task
receive_greeting opts task t (peer_ready peer_session_id items) s =
    let s₁ : Client = record s {
      peer_session_id = peer_session_id;
      registry = items;
      reconnect_attempt = 0;
      state = connected;
      tasks = delete task s.tasks;
    } in
    let (s₂, calls) = resubscribe_from 0 s₁ in
    (s₂, state_changed connected ∷ registry_changed items ∷ (calls ++ resolved t.background))
receive_greeting opts task t refused s = fail_task opts task t.background s
receive_greeting opts task t timed_out s = fail_task opts task t.background s

abbrev text_or_empty : Option Json → String
text_or_empty (some (text t)) = t
text_or_empty _ = ""

-- the handlers of a message on a topic
abbrev topic_calls : Option Handlers → Option Json → List ClientCall
topic_calls none payload = []
topic_calls (some entry) payload = map (λ h. call_handler h payload) entry.handlers

-- a channel that the gateway closed
abbrev drop_channel : Option Channel → String → Client → Client × List ClientCall
unfolding delete
drop_channel none id s = (s, [])
drop_channel (some c) id s = (record s { channels = delete id s.channels }, close_channel id ∷ [])

-- the switch of `routeMessage`, by the message's type
unfoldable pub route_typed : (type : String) → (msg : Json) → Client → Client × List ClientCall
unfolding member get settle_pending fail_pending topic_key delete
route_typed type msg s =
    if type == "registry_snapshot"
    then (let items = get_or null (member "items" msg) in
        (record s { registry = items }, registry_changed items ∷ []))
    else if type == "topic_message"
    then (let key =
          topic_key (text_or_empty (member "backendId" msg)) (text_or_empty (member "topic" msg)) in
        (s, topic_calls (get key s.topic_handlers) (member "payload" msg)))
    else if type == "channel_closed"
    then (let id = text_or_empty (member "channelId" msg) in drop_channel (get id s.channels) id s)
    else if (type == "channel_ready")
        || ((type == "topic_subscribed") || (type == "topic_unsubscribed"))
    then settle_pending type msg s
    else if type == "gateway_error"
    then fail_pending (by_gateway (member "code" msg) (member "message" msg)) s
    else (s, [])

-- `routeMessage` on what `JSON.parse` made of a text message, `none` where it throws
unfoldable pub route_message : Option Json → Client → Client × List ClientCall
unfolding member route_typed
route_message none s = (s, [])
route_message (some msg) s = route_typed (text_or_empty (member "type" msg)) msg s

-- the state after a lost connection
abbrev pub lose_connection : Options → (was : ClientState) → Client → Client × List ClientCall
unfolding schedule_reconnect
lose_connection opts idle s = (s, [])
lose_connection opts closed s = (s, [])
lose_connection opts _ s =
    let (s', calls) = schedule_reconnect opts (record s { state = connecting }) in
    (s', state_changed connecting ∷ calls)

-- the end of `handleClose`, for a client that was in this state
unfoldable pub go_down : Options → (was : ClientState) → Client → Client × List ClientCall
unfolding schedule_reconnect
go_down opts was s =
    if s.user_closed || not opts.reconnect
    then (record s { state = closed }, state_changed closed ∷ [])
    else lose_connection opts was s

-- `handleClose`. What waits for the failed operation, and the queue, go on after it, as microtasks.
unfoldable pub handle_close : Options → Client → Client × List ClientCall
unfolding follow_op go_down
handle_close opts s =
    let failed : List ClientCall = elim s.pending [
      | none ↦ []
      | some op ↦ op_rejected op connection_closed ∷ []
    ] in
    let s₁ : Client = record s { socket = none; pending = none; channels = [] } in
    let (s₂, calls) = go_down opts s.state s₁ in
    let (s₃, later) = follow_op s.pending none s₂ in
    (s₃, failed ++ (close_channels s ++ (calls ++ later)))

-- a reconnect timer fires
unfoldable pub reconnect_fires : (task ws : String) → Client → Client × List ClientCall
unfolding establish
reconnect_fires task ws s = elim s.timers [
  | zero ↦ (s, [])
  | suc n ↦
      let s' : Client = record s { timers = n } in
      if s.user_closed then (s', []) else establish task ws true s'
]

-- `close`
unfoldable pub close : Client → Client × List ClientCall
close s = (
  record s { user_closed = true; state = closed; channels = []; socket = none },
  state_changed closed
      ∷ (close_channels s ++ elim s.socket [ none ↦ [] | some ws ↦ close_socket ws ∷ [] ]),
)
