-- ===== src/BackendSdk/Happenings.antt =====
-- What each happening makes of a mode of `GatewayBackend`.
use zclaudia_gateway.Prelude.{
  ℕ, suc, String, Bool, true, false, ◌==◌, Option, none, some, [], refl, ap, inl, inr, Bool-cases,
  Option-cases, option_eq,
}
use zclaudia_gateway.Map.{get}
use zclaudia_gateway.BackendSdk.Failure.{
  replaced, gateway_unreachable, BackendErrorInfo, attempt_error, error_message,
}
use zclaudia_gateway.BackendSdk.Session.{
  Options, exchanging, opening, greeting, ExchangeResult, establish, schedule_reconnect,
  finish_exchange, exchange_error, exchanged_token,
}
use zclaudia_gateway.BackendSdk.Steps.{
  timer_fired, exchanged, opened, greeted, socket_gone, beat, step, reconnect_fires, socket_opened,
  receive_greeting, finish_handshake, handle_close, heartbeat_tick, in_handshake, Greeting,
  peer_ready, gateway_error, closed_early, timed_out, socket_of, is_replaced, greeting_error,
  exchange_in, opened_in, greeted_in,
}
use zclaudia_gateway.BackendSdk.Modes.{
  Rest, Mode, task_of, sdk_of, Reason, Kept, bare, Sole-self, Sole-nil, resolve-Kept, delete_sole,
  fail_task-Kept, fail_attempt-Kept, attempt-Kept, up, attempting, waiting, down,
}

-- what happens in a mode, by the kind of happening
pub fired-Kept :
    (opts : Options) (now : ℕ) (id ws : String) (r : Rest) (m : Mode)
    → Reason opts r m
    → Kept opts (step opts now (timer_fired id ws) (sdk_of r m)).0
unfolding step reconnect_fires establish
fired-Kept opts now id ws r (up w) h = (r, up w, refl, h)
fired-Kept opts now id ws r (attempting i c k p) h = (r, attempting i c k p, refl, h)
fired-Kept opts now id ws r waiting h = resolve-Kept opts now id ws [] r (Sole-nil id)
fired-Kept opts now id ws r down h = (r, down, refl, h)

exchanged_self-Kept :
    (opts : Options) (now : ℕ) (i ws c : String) (k : Bool) (result : ExchangeResult) (r : Rest)
    → Kept opts
        (finish_exchange opts now i ws result
          (task_of c k exchanging)
          (sdk_of r (attempting i c k exchanging))).0
unfolding finish_exchange
exchanged_self-Kept opts now i ws c k result r = elim (Option-cases (exchange_error result)) [
  | inr (error, e) ↦ rw (e, finish_exchange) (fail_task-Kept opts now i c k exchanging error r)
  | inl e ↦
      let held = exchanged_token result in
      let r' : Rest = record r { access_token = some held } in
      rw (e, finish_exchange)
        (
          r',
          attempting i held.token false (opening ws),
          ap (λ ts. record (bare r' ts) { socket = some ws })
              (Sole-self i (task_of c k exchanging) (task_of held.token false (opening ws))),
          tt,
        )
]

pub exchanged-Kept :
    (opts : Options) (now : ℕ) (id ws : String) (result : ExchangeResult) (r : Rest) (m : Mode)
    → Reason opts r m
    → Kept opts (step opts now (exchanged id ws result) (sdk_of r m)).0
unfolding step get exchange_in
exchanged-Kept opts now id ws result r (up w) h = (r, up w, refl, h)
exchanged-Kept opts now id ws result r (attempting i c k exchanging) h =
    attempt-Kept opts id i c k exchanging r (λ t. exchange_in opts now id ws result t t.phase)
      (λ p. rw p (exchanged_self-Kept opts now i ws c k result r))
exchanged-Kept opts now id ws result r (attempting i c k (opening w)) h =
    attempt-Kept opts id i c k (opening w) r (λ t. exchange_in opts now id ws result t t.phase)
      (λ p. (r, attempting i c k (opening w), refl, tt))
exchanged-Kept opts now id ws result r (attempting i c k (greeting w)) h =
    attempt-Kept opts id i c k (greeting w) r (λ t. exchange_in opts now id ws result t t.phase)
      (λ p. (r, attempting i c k (greeting w), refl, tt))
exchanged-Kept opts now id ws result r waiting h = (r, waiting, refl, h)
exchanged-Kept opts now id ws result r down h = (r, down, refl, h)

opened_self-Kept :
    (opts : Options) (now : ℕ) (i ws next c : String) (k success : Bool) (r : Rest)
    → Kept opts
        (socket_opened opts now i ws next
          (task_of c k (opening ws))
          success
          (sdk_of r (attempting i c k (opening ws)))).0
unfolding socket_opened
opened_self-Kept opts now i ws next c k true r = (
  r,
  attempting i c k (greeting ws),
  ap (λ ts. record (bare r ts) { socket = some ws })
      (Sole-self i (task_of c k (opening ws)) (task_of c k (greeting ws))),
  tt,
)
opened_self-Kept opts now i ws next c k false r =
    fail_attempt-Kept opts now i ws next c k (opening ws) (attempt_error gateway_unreachable none) r

pub opened-Kept :
    (opts : Options) (now : ℕ) (id next : String) (success : Bool) (r : Rest) (m : Mode)
    → Reason opts r m
    → Kept opts (step opts now (opened id next success) (sdk_of r m)).0
unfolding step get opened_in
opened-Kept opts now id next success r (up w) h = (r, up w, refl, h)
opened-Kept opts now id next success r (attempting i c k exchanging) h =
    attempt-Kept opts id i c k exchanging r (λ t. opened_in opts now id next success t t.phase)
      (λ p. (r, attempting i c k exchanging, refl, tt))
opened-Kept opts now id next success r (attempting i c k (opening w)) h =
    attempt-Kept opts id i c k (opening w) r (λ t. opened_in opts now id next success t t.phase)
      (λ p. rw p (opened_self-Kept opts now i w next c k success r))
opened-Kept opts now id next success r (attempting i c k (greeting w)) h =
    attempt-Kept opts id i c k (greeting w) r (λ t. opened_in opts now id next success t t.phase)
      (λ p. (r, attempting i c k (greeting w), refl, tt))
opened-Kept opts now id next success r waiting h = (r, waiting, refl, h)
opened-Kept opts now id next success r down h = (r, down, refl, h)

greeted_self-Kept :
    (opts : Options) (now : ℕ) (i ws next c : String) (k : Bool) (g : Greeting) (r : Rest)
    → Kept opts
        (receive_greeting opts now i ws next
          (task_of c k (greeting ws))
          g
          (sdk_of r (attempting i c k (greeting ws)))).0
unfolding receive_greeting finish_handshake
greeted_self-Kept opts now i ws next c k (peer_ready (some (b, e))) r =
    let r' : Rest = record r { backend_id = b; epoch = e; failure = none; reconnect_attempt = 0 } in
    (
      r',
      up ws,
      ap (λ ts. record (sdk_of r' (up ws)) { tasks = ts })
          (delete_sole i (task_of c k (greeting ws))),
      tt,
    )
greeted_self-Kept opts now i ws next c k (peer_ready none) r =
    fail_attempt-Kept opts now i ws next c k (greeting ws) (greeting_error (peer_ready none)) r
greeted_self-Kept opts now i ws next c k (gateway_error code) r =
    fail_attempt-Kept opts now i ws next c k (greeting ws) (greeting_error (gateway_error code)) r
greeted_self-Kept opts now i ws next c k closed_early r =
    fail_attempt-Kept opts now i ws next c k (greeting ws) (greeting_error closed_early) r
greeted_self-Kept opts now i ws next c k timed_out r =
    fail_attempt-Kept opts now i ws next c k (greeting ws) (greeting_error timed_out) r

pub greeted-Kept :
    (opts : Options) (now : ℕ) (id next : String) (g : Greeting) (r : Rest) (m : Mode)
    → Reason opts r m
    → Kept opts (step opts now (greeted id next g) (sdk_of r m)).0
unfolding step get greeted_in
greeted-Kept opts now id next g r (up w) h = (r, up w, refl, h)
greeted-Kept opts now id next g r (attempting i c k exchanging) h =
    attempt-Kept opts id i c k exchanging r (λ t. greeted_in opts now id next g t t.phase)
      (λ p. (r, attempting i c k exchanging, refl, tt))
greeted-Kept opts now id next g r (attempting i c k (opening w)) h =
    attempt-Kept opts id i c k (opening w) r (λ t. greeted_in opts now id next g t t.phase)
      (λ p. (r, attempting i c k (opening w), refl, tt))
greeted-Kept opts now id next g r (attempting i c k (greeting w)) h =
    attempt-Kept opts id i c k (greeting w) r (λ t. greeted_in opts now id next g t t.phase)
      (λ p. rw p (greeted_self-Kept opts now i w next c k g r))
greeted-Kept opts now id next g r waiting h = (r, waiting, refl, h)
greeted-Kept opts now id next g r down h = (r, down, refl, h)

pub gone-Kept :
    (opts : Options) (now : ℕ) (ws : String) (code : Option ℕ) (r : Rest) (m : Mode)
    → Reason opts r m
    → Kept opts (step opts now (socket_gone ws code) (sdk_of r m)).0
unfolding step handle_close in_handshake schedule_reconnect error_message
gone-Kept opts now ws code r (up w) h = elim (Bool-cases (w == ws)) [
  | inr e ↦ rw (e, handle_close) (r, up w, refl, tt)
  | inl e ↦ elim (Bool-cases (is_replaced code)) [
    | inl f ↦
        let info : BackendErrorInfo = record {
          code = replaced;
          message = error_message replaced;
          gateway_code = none;
          occurred_at = now;
        } in
        rw (e, f, handle_close)
          (record r { failure = some info }, down, refl, inl (info, refl, refl))
    | inr f ↦ elim (Bool-cases opts.reconnect) [
      | inr n ↦ rw (e, f, n, handle_close) (r, down, refl, inr refl)
      | inl n ↦
          rw (e, f, n, handle_close)
            (record r { reconnect_attempt = suc r.reconnect_attempt }, waiting, refl, tt)
    ]
  ]
]
gone-Kept opts now ws code r (attempting i c k p) h =
    elim (Bool-cases (option_eq (socket_of p) ws)) [
      | inl e ↦ rw (e, step, in_handshake) (r, attempting i c k p, refl, tt)
      | inr e ↦ rw (e, step, in_handshake, handle_close) (r, attempting i c k p, refl, tt)
    ]
gone-Kept opts now ws code r waiting h = (r, waiting, refl, h)
gone-Kept opts now ws code r down h = (r, down, refl, h)

pub beat-Kept :
    (opts : Options) (now : ℕ) (is_open : Bool) (r : Rest) (m : Mode)
    → Reason opts r m
    → Kept opts (step opts now (beat is_open) (sdk_of r m)).0
unfolding step heartbeat_tick
beat-Kept opts now is_open r (up w) h = (r, up w, refl, h)
beat-Kept opts now is_open r (attempting i c k exchanging) h =
    (r, attempting i c k exchanging, refl, h)
beat-Kept opts now is_open r (attempting i c k (opening w)) h =
    (r, attempting i c k (opening w), refl, h)
beat-Kept opts now is_open r (attempting i c k (greeting w)) h =
    (r, attempting i c k (greeting w), refl, h)
beat-Kept opts now is_open r waiting h = (r, waiting, refl, h)
beat-Kept opts now is_open r down h = (r, down, refl, h)
