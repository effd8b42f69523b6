-- ===== src/BackendSdk/Steps.antt =====
-- packages/backend/src/index.ts, `GatewayBackend`: the handshake, the close of a socket, the timers
-- and `close`, as the steps of the machine of Session.
use zclaudia_gateway.Prelude.{
  ℕ, zero, suc, String, Bool, true, false, not, nat_eq, ◌==◌, ◌&&◌, ◌||◌, option_eq, if◌then◌else◌,
  Option, none, some, List, [], ◌∷◌,
}
use zclaudia_gateway.Map.{Map, get, set, delete}
use zclaudia_gateway.BackendSdk.Failure.{
  Thrown, attempt_error, auth_failed, gateway_rejected, gateway_unreachable, handshake_timeout,
  protocol_error, replaced, error_message,
}
use zclaudia_gateway.BackendSdk.Session.{
  Options, connecting, connected, closed, Phase, exchanging, opening, greeting, Task, Sdk, SdkCall,
  hello, close_socket, state_changed, send_heartbeat, connect_resolved, establish,
  schedule_reconnect, fail_attempt, finish_exchange, ExchangeResult, set_state,
  backend_replaced_code,
}

-- what comes to the socket of a handshake
pub data Greeting : Type 0 where
  peer_ready : (backend : Option (String × ℕ)) → Greeting
  gateway_error : (code : String) → Greeting
  closed_early timed_out : Greeting

abbrev pub greeting_error : Greeting → Thrown
greeting_error (peer_ready backend) = attempt_error protocol_error none
greeting_error (gateway_error code) =
    attempt_error (if code == "UNAUTHORIZED" then auth_failed else gateway_rejected) (some code)
greeting_error closed_early = attempt_error gateway_unreachable none
greeting_error timed_out = attempt_error handshake_timeout none

abbrev pub resolved : Task → String → ℕ → List SdkCall
resolved t backend_id epoch = if t.background then [] else connect_resolved backend_id epoch ∷ []

-- the end of a handshake that assigned a backend
unfoldable pub finish_handshake :
    (task : String) → Task → (backend_id : String) (epoch : ℕ) → Sdk → Sdk × List SdkCall
unfolding delete
finish_handshake task t backend_id epoch s = (
  record s {
    backend_id = backend_id;
    epoch = epoch;
    heartbeat = true;
    reconnect_attempt = 0;
    failure = none;
    state = connected;
    tasks = delete task s.tasks;
  },
  state_changed connected ∷ resolved t backend_id epoch,
)

unfoldable pub receive_greeting :
    Options → (now : ℕ) (task ws next : String) → Task → Greeting → Sdk → Sdk × List SdkCall
unfolding finish_handshake fail_attempt
receive_greeting opts now task ws next t (peer_ready (some (b, e))) s =
    finish_handshake task t b e s
receive_greeting opts now task ws next t g s =
    fail_attempt opts now task ws next t (greeting_error g) s

-- the socket of an attempt opened, or failed to: the hello is sent
unfoldable pub socket_opened :
    Options → (now : ℕ) (task ws next : String) → Task → (success : Bool) → Sdk → Sdk × List SdkCall
unfolding set fail_attempt
socket_opened opts now task ws next t true s = (
  record s { tasks = set task (record t { phase = greeting ws }) s.tasks },
  hello ws t.credential ∷ [],
)
socket_opened opts now task ws next t false s =
    fail_attempt opts now task ws next t (attempt_error gateway_unreachable none) s

-- `code === GATEWAY_CLOSE_BACKEND_REPLACED`
abbrev pub is_replaced : Option ℕ → Bool
is_replaced none = false
is_replaced (some n) = nat_eq n backend_replaced_code

-- `handleClose`
unfoldable pub handle_close :
    Options → (now : ℕ) (ws : String) (code : Option ℕ) → Sdk → Sdk × List SdkCall
unfolding schedule_reconnect error_message
handle_close opts now ws code s =
    if not (option_eq s.socket ws)
    then (s, [])
    else (let s' : Sdk = record s { socket = none; heartbeat = false } in
        if is_replaced code && not s.is_closed
        then (
          record s' {
            failure = some (record {
              code = replaced;
              message = error_message replaced;
              gateway_code = none;
              occurred_at = now;
            });
            state = closed;
          },
          state_changed closed ∷ [],
        )
        else if s.is_closed || not opts.reconnect
        then (set_state closed s', state_changed closed ∷ [])
        else (let (s'', calls) = schedule_reconnect opts (set_state connecting s') in
            (s'', state_changed connecting ∷ calls)))

-- a reconnect timer fires
unfoldable pub reconnect_fires : Options → (now : ℕ) (task ws : String) → Sdk → Sdk × List SdkCall
unfolding establish
reconnect_fires opts now task ws s = elim s.timers [
  | zero ↦ (s, [])
  | suc n ↦
      let s' : Sdk = record s { timers = n } in
      if s.is_closed then (s', []) else establish opts now task ws true s'
]

-- `close`
unfoldable pub close : Sdk → Sdk × List SdkCall
close s = (
  record s { is_closed = true; state = closed; heartbeat = false; socket = none },
  state_changed closed ∷ elim s.socket [ none ↦ [] | some ws ↦ close_socket ws ∷ [] ],
)

-- the heartbeat interval, with whether the socket is open
unfoldable pub heartbeat_tick : (is_open : Bool) → Sdk → Sdk × List SdkCall
heartbeat_tick is_open s = elim s.socket [
  | none ↦ (s, [])
  | some ws ↦ (s, if s.heartbeat && is_open then send_heartbeat ws s.epoch ∷ [] else [])
]

-- What happens to the machine apart from the calls of its user. `next` names the socket of an
-- attempt that may follow.
pub data Happening : Type 0 where
  timer_fired : (task ws : String) → Happening
  exchanged : (task ws : String) → ExchangeResult → Happening
  opened : (task next : String) → (success : Bool) → Happening
  greeted : (task next : String) → Greeting → Happening
  socket_gone : (ws : String) (code : Option ℕ) → Happening
  beat : (is_open : Bool) → Happening

abbrev pub socket_of : Phase → Option String
socket_of exchanging = none
socket_of (opening ws) = some ws
socket_of (greeting ws) = some ws

-- whether a run of `establish` is in its handshake on this socket, which then has no `handleClose`
unfoldable pub in_handshake : String → Map Task → Bool
in_handshake ws [] = false
in_handshake ws ((id, t) ∷ tasks) = option_eq (socket_of t.phase) ws || in_handshake ws tasks

unfoldable pub exchange_in :
    Options → ℕ → (task ws : String) → ExchangeResult → Task → Phase → Sdk → Sdk × List SdkCall
unfolding finish_exchange
exchange_in opts now task ws result t exchanging s = finish_exchange opts now task ws result t s
exchange_in opts now task ws result t _ s = (s, [])

unfoldable pub opened_in :
    Options → ℕ → (task next : String) → Bool → Task → Phase → Sdk → Sdk × List SdkCall
unfolding socket_opened
opened_in opts now task next success t (opening ws) s =
    socket_opened opts now task ws next t success s
opened_in opts now task next success t _ s = (s, [])

unfoldable pub greeted_in :
    Options → ℕ → (task next : String) → Greeting → Task → Phase → Sdk → Sdk × List SdkCall
unfolding receive_greeting
greeted_in opts now task next g t (greeting ws) s = receive_greeting opts now task ws next t g s
greeted_in opts now task next g t _ s = (s, [])

-- `step` in a run that is under way
abbrev pub on_task : Option Task → (Task → Sdk → Sdk × List SdkCall) → Sdk → Sdk × List SdkCall
on_task none f s = (s, [])
on_task (some t) f s = f t s

unfoldable pub step : Options → (now : ℕ) → Happening → Sdk → Sdk × List SdkCall
unfolding reconnect_fires exchange_in opened_in greeted_in handle_close heartbeat_tick in_handshake
    get
step opts now (timer_fired task ws) s = reconnect_fires opts now task ws s
step opts now (exchanged task ws result) s =
    on_task (get task s.tasks) (λ t. exchange_in opts now task ws result t t.phase) s
step opts now (opened task next success) s =
    on_task (get task s.tasks) (λ t. opened_in opts now task next success t t.phase) s
step opts now (greeted task next g) s =
    on_task (get task s.tasks) (λ t. greeted_in opts now task next g t t.phase) s
step opts now (socket_gone ws code) s =
    if in_handshake ws s.tasks then (s, []) else handle_close opts now ws code s
step opts now (beat is_open) s = heartbeat_tick is_open s

-- the state after these happenings, each at its time
unfoldable pub run : Options → List (ℕ × Happening) → Sdk → Sdk
unfolding step
run opts [] s = s
run opts ((now, h) ∷ hs) s = run opts hs (step opts now h s).0
