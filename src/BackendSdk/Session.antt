-- ===== src/BackendSdk/Session.antt =====
-- packages/backend/src/index.ts: `GatewayBackend` as a state machine. An `await` ends a step, so a
-- run of `establish` is a task with the place where it waits. Tasks, sockets and the offers that are
-- dialled are named by texts. `now` is `Date.now()`.
use text.Mathlib.Text.{starts_with}
use zclaudia_gateway.Prelude.{
  ℕ, suc, ◌+◌, ◌*◌, ◌^◌, String, Bool, true, false, not, ltb, leb, nat_eq, ◌==◌, ◌&&◌, ◌||◌,
  option_eq, is_empty, if◌then◌else◌, Option, none, some, List, [], ◌∷◌,
}
use zclaudia_gateway.Map.{Map, set, delete}
use zclaudia_gateway.BackendSdk.Failure.{
  BackendErrorInfo, Thrown, attempt_error, auth_failed, gateway_unreachable, protocol_error,
  describe_failure,
}

pub record Options : Type 0 where
  pub credential : String
  -- `exchangeEnrollment !== false`
  pub exchange_enrollment : Bool
  -- `reconnect !== false`
  pub reconnect : Bool
  pub reconnect_min_ms : ℕ
  pub reconnect_max_ms : ℕ

pub data SdkState : Type 0 where
  idle connecting connected closed : SdkState

-- where a run of `establish` waits
pub data Phase : Type 0 where
  -- for the answer of the enrollment exchange
  exchanging : Phase
  -- for the socket to open
  opening : (ws : String) → Phase
  -- for `peer_ready`
  greeting : (ws : String) → Phase

pub record Task : Type 0 where
  -- started by a reconnect timer, not by `connect`
  pub background : Bool
  pub credential : String
  -- whether the credential came from the cache
  pub cached : Bool
  pub phase : Phase

pub record AccessToken : Type 0 where
  pub token : String
  pub expires_at : Option ℕ

pub record Sdk : Type 0 where
  pub socket : Option String
  pub backend_id : String
  pub epoch : ℕ
  pub heartbeat : Bool
  pub is_closed : Bool
  pub state : SdkState
  pub failure : Option BackendErrorInfo
  pub reconnect_attempt : ℕ
  pub access_token : Option AccessToken
  pub tasks : Map Task
  -- the reconnect timers that are set
  pub timers : ℕ

pub data SdkCall : Type 0 where
  dial : (ws : String) → SdkCall
  hello : (ws credential : String) → SdkCall
  close_socket : (ws : String) → SdkCall
  exchange : SdkCall
  state_changed : SdkState → SdkCall
  set_timer : (delay : ℕ) → SdkCall
  send_heartbeat : (ws : String) (epoch : ℕ) → SdkCall
  connect_resolved : (backend_id : String) (epoch : ℕ) → SdkCall
  connect_rejected : Thrown → SdkCall

unfoldable pub new_sdk : Sdk
new_sdk = record {
  socket = none;
  backend_id = "";
  epoch = 0;
  heartbeat = false;
  is_closed = false;
  state = idle;
  failure = none;
  reconnect_attempt = 0;
  access_token = none;
  tasks = [];
  timers = 0;
}

abbrev pub access_token_refresh_margin_ms : ℕ
access_token_refresh_margin_ms = 60_000

abbrev pub backend_replaced_code : ℕ
backend_replaced_code = 4001

-- `held.expiresAt === null || Date.now() < held.expiresAt - ACCESS_TOKEN_REFRESH_MARGIN_MS`
abbrev pub is_fresh : ℕ → Option ℕ → Bool
is_fresh now none = true
is_fresh now (some t) = ltb (now + access_token_refresh_margin_ms) t

abbrev pub fresh_token : ℕ → Option AccessToken → Option String
fresh_token now none = none
fresh_token now (some held) = if is_fresh now held.expires_at then some held.token else none

-- the credential for the next handshake and whether it is cached; `none` where it is exchanged first
unfoldable pub held_credential : Options → ℕ → Sdk → Option (String × Bool)
held_credential opts now s =
    if not opts.exchange_enrollment || not (starts_with opts.credential "zgb_")
    then some (opts.credential, false)
    else elim (fresh_token now s.access_token) [ none ↦ none | some t ↦ some (t, true) ]

abbrev pub set_state : SdkState → Sdk → Sdk
set_state state s = record s { state = state }

-- the beginning of `attempt`
abbrev pub begin_attempt :
    (task ws : String) (background : Bool) → String × Bool → Sdk → Sdk × List SdkCall
unfolding set
begin_attempt task ws background (credential, cached) s = (
  record s {
    socket = some ws;
    tasks =
        set task
          (record {
            background = background;
            credential = credential;
            cached = cached;
            phase = opening ws;
          })
          s.tasks;
  },
  dial ws ∷ [],
)

-- `resolveCredential`, and then `attempt` where nothing is exchanged
unfoldable pub resolve_credential :
    Options → ℕ → (task ws : String) (background : Bool) → Sdk → Sdk × List SdkCall
unfolding held_credential set
resolve_credential opts now task ws background s = elim (held_credential opts now s) [
  | some held ↦ begin_attempt task ws background held s
  | none ↦ (
    record s {
      access_token = none;
      tasks =
          set task
            (record {
              background = background;
              credential = "";
              cached = false;
              phase = exchanging;
            })
            s.tasks;
    },
    exchange ∷ [],
  )
]

unfoldable pub establish :
    Options → ℕ → (task ws : String) (background : Bool) → Sdk → Sdk × List SdkCall
unfolding resolve_credential
establish opts now task ws background s =
    let (s', calls) = resolve_credential opts now task ws background (set_state connecting s) in
    (s', state_changed connecting ∷ calls)

unfoldable pub connect : Options → ℕ → (task ws : String) → Sdk → Sdk × List SdkCall
unfolding establish
connect opts now task ws s =
    establish opts now task ws false (record s { is_closed = false; failure = none })

unfoldable pub record_failure : Thrown → ℕ → Sdk → Sdk
unfolding describe_failure
record_failure error now s =
    if s.is_closed then s else record s { failure = some (describe_failure error now) }

-- `Math.min(minMs * 2 ** attempt, maxMs)`
unfoldable pub reconnect_delay : Options → ℕ → ℕ
reconnect_delay opts attempt =
    let delay = opts.reconnect_min_ms * 2 ^ attempt in
    if leb delay opts.reconnect_max_ms then delay else opts.reconnect_max_ms

unfoldable pub schedule_reconnect : Options → Sdk → Sdk × List SdkCall
unfolding reconnect_delay
schedule_reconnect opts s = (
  record s { reconnect_attempt = suc s.reconnect_attempt; timers = suc s.timers },
  set_timer (reconnect_delay opts s.reconnect_attempt) ∷ [],
)

-- the end of a failed run of `establish`: `connect` rejects, a reconnect is scheduled again
unfoldable pub fail_task :
    Options → (now : ℕ) (task : String) → Task → Thrown → Sdk → Sdk × List SdkCall
unfolding record_failure schedule_reconnect delete
fail_task opts now task t error s =
    let s' = record_failure error now (record s { tasks = delete task s.tasks }) in
    if t.background then schedule_reconnect opts s' else (s', connect_rejected error ∷ [])

-- whether an error is a refusal of the credential
abbrev pub is_unauthorized : Thrown → Bool
is_unauthorized (attempt_error code (some g)) = g == "UNAUTHORIZED"
is_unauthorized _ = false

-- the cleanup of `attempt`
abbrev pub drop_socket : String → Sdk → Sdk
drop_socket ws s = if option_eq s.socket ws then record s { socket = none } else s

-- A failed `attempt`: a cached token that was refused is dropped, and one more attempt made with a
-- credential that is resolved afresh. `next` names its socket.
unfoldable pub fail_attempt :
    Options → (now : ℕ) (task ws next : String) → Task → Thrown → Sdk → Sdk × List SdkCall
unfolding fail_task resolve_credential
fail_attempt opts now task ws next t error s =
    let s' = drop_socket ws s in
    let (s'', calls) =
      if t.cached && is_unauthorized error
      then resolve_credential opts now task next t.background (record s' { access_token = none })
      else fail_task opts now task t error s' in
    (s'', close_socket ws ∷ calls)

-- how the enrollment exchange ended
pub data ExchangeResult : Type 0 where
  fetch_failed : ExchangeResult
  http_status : ℕ → ExchangeResult
  -- the body's token, where it is a text, and its end, where that is a number
  answered : (token : Option String) (expires_at : Option ℕ) → ExchangeResult

abbrev pub exchange_error : ExchangeResult → Option Thrown
exchange_error fetch_failed = some (attempt_error gateway_unreachable none)
exchange_error (http_status n) =
    some (
      attempt_error (if nat_eq n 401 || nat_eq n 403 then auth_failed else gateway_unreachable)
        none)
exchange_error (answered none e) = some (attempt_error protocol_error none)
exchange_error (answered (some t) e) =
    if is_empty t then some (attempt_error protocol_error none) else none

abbrev pub exchanged_token : ExchangeResult → AccessToken
exchanged_token (answered (some t) e) = record { token = t; expires_at = e }
exchanged_token _ = record { token = ""; expires_at = none }

-- the answer of the exchange, in the run that waits for it
unfoldable pub finish_exchange :
    Options → (now : ℕ) (task ws : String) → ExchangeResult → Task → Sdk → Sdk × List SdkCall
unfolding fail_task set
finish_exchange opts now task ws result t s = elim (exchange_error result) [
  | some error ↦ fail_task opts now task t error s
  | none ↦
      let held = exchanged_token result in
      begin_attempt task ws t.background (held.token, false) (record s { access_token = some held })
]
