-- ===== src/BackendSdk/Modes.antt =====
-- What `GatewayBackend` is doing, as one of four modes, and what a failed attempt leaves it in.
use zclaudia_gateway.Prelude.{
  ℕ, suc, String, Bool, true, false, ◌&&◌, Option, none, some, List, [], ◌∷◌, ◌≡◌, refl, sym, ap,
  ◌⊎◌, inl, inr, Bool-cases, Option-cases, test_refl, text-cases,
}
use zclaudia_gateway.Map.{get, set, delete}
use zclaudia_gateway.BackendSdk.Failure.{replaced, BackendErrorInfo, Thrown, describe_failure}
use zclaudia_gateway.BackendSdk.Session.{
  Options, connecting, connected, closed, Phase, exchanging, opening, Task, Sdk, AccessToken,
  SdkCall, resolve_credential, held_credential, schedule_reconnect, is_unauthorized, fail_task,
  fail_attempt, record_failure,
}
use zclaudia_gateway.BackendSdk.Steps.{socket_of, on_task}

-- the fields that say nothing of what is going on
pub record Rest : Type 0 where
  pub backend_id : String
  pub epoch : ℕ
  pub failure : Option BackendErrorInfo
  pub reconnect_attempt : ℕ
  pub access_token : Option AccessToken

-- connected on a socket; one attempt under way; one timer set; or stopped
pub data Mode : Type 0 where
  up : (ws : String) → Mode
  attempting : (id credential : String) (cached : Bool) → Phase → Mode
  waiting : Mode
  down : Mode

abbrev pub task_of : String → Bool → Phase → Task
task_of credential cached phase = record {
  background = true;
  credential = credential;
  cached = cached;
  phase = phase;
}

abbrev pub sdk_of : Rest → Mode → Sdk
sdk_of r (up ws) = record {
  socket = some ws;
  heartbeat = true;
  state = connected;
  tasks = [];
  timers = 0;
  is_closed = false;
  backend_id = r.backend_id;
  epoch = r.epoch;
  failure = r.failure;
  reconnect_attempt = r.reconnect_attempt;
  access_token = r.access_token;
}
sdk_of r (attempting id credential cached phase) = record {
  socket = socket_of phase;
  heartbeat = false;
  state = connecting;
  tasks = (id, task_of credential cached phase) ∷ [];
  timers = 0;
  is_closed = false;
  backend_id = r.backend_id;
  epoch = r.epoch;
  failure = r.failure;
  reconnect_attempt = r.reconnect_attempt;
  access_token = r.access_token;
}
sdk_of r waiting = record {
  socket = none;
  heartbeat = false;
  state = connecting;
  tasks = [];
  timers = 1;
  is_closed = false;
  backend_id = r.backend_id;
  epoch = r.epoch;
  failure = r.failure;
  reconnect_attempt = r.reconnect_attempt;
  access_token = r.access_token;
}
sdk_of r down = record {
  socket = none;
  heartbeat = false;
  state = closed;
  tasks = [];
  timers = 0;
  is_closed = false;
  backend_id = r.backend_id;
  epoch = r.epoch;
  failure = r.failure;
  reconnect_attempt = r.reconnect_attempt;
  access_token = r.access_token;
}

-- why it is down
abbrev pub Reason : Options → Rest → Mode → Type 0
Reason opts r down =
    ((e : BackendErrorInfo) × (r.failure ≡ some e) × (e.code ≡ replaced)) ⊎ (opts.reconnect ≡ false)
Reason opts r _ = Unit

abbrev pub Kept : Options → Sdk → Type 0
Kept opts s = (r : Rest) × (m : Mode) × (s ≡ sdk_of r m) × Reason opts r m

abbrev pub rest_of : Sdk → Rest
rest_of s = record {
  backend_id = s.backend_id;
  epoch = s.epoch;
  failure = s.failure;
  reconnect_attempt = s.reconnect_attempt;
  access_token = s.access_token;
}

-- no socket, no timer, and these tasks
abbrev pub bare : Rest → List (String × Task) → Sdk
bare r tasks = record (sdk_of r waiting) { timers = 0; tasks = tasks }

-- the task's entry is the only one, or the first
abbrev Sole : String → List (String × Task) → Type 0
Sole id tasks = (t : Task) → set id t tasks ≡ (id, t) ∷ []

pub Sole-nil : (id : String) → Sole id []
unfolding set
Sole-nil id t = refl

pub Sole-self : (id : String) (t : Task) → Sole id ((id, t) ∷ [])
unfolding set
Sole-self id t u = rw (test_refl id, set) refl

-- a new attempt, or the exchange before it
pub resolve-Kept :
    (opts : Options) (now : ℕ) (id ws : String) (tasks : List (String × Task)) (r : Rest)
    → Sole id tasks
    → Kept opts (resolve_credential opts now id ws true (bare r tasks)).0
unfolding resolve_credential
resolve-Kept opts now id ws tasks r sole =
    elim (Option-cases (held_credential opts now (bare r tasks))) [
      | inl f ↦
          rw (f, resolve_credential)
            (
              record r { access_token = none },
              attempting id "" false exchanging,
              ap (bare (record r { access_token = none })) (sole (task_of "" false exchanging)),
              tt,
            )
      | inr ((credential, cached), f) ↦
          rw (f, resolve_credential)
            (
              r,
              attempting id credential cached (opening ws),
              ap (λ ts. record (bare r ts) { socket = some ws })
                  (sole (task_of credential cached (opening ws))),
              tt,
            )
    ]

pub delete_sole : (id : String) (t : Task) → delete id ((id, t) ∷ []) ≡ []
unfolding delete
delete_sole id t = rw (test_refl id, delete) refl

-- a failed run sets a timer
pub fail_task-Kept :
    (opts : Options) (now : ℕ) (id credential : String) (cached : Bool) (phase : Phase)
    (error : Thrown) (r : Rest)
    → Kept opts
        (fail_task opts now id
          (task_of credential cached phase)
          error
          (bare r ((id, task_of credential cached phase) ∷ []))).0
unfolding fail_task record_failure schedule_reconnect
fail_task-Kept opts now id credential cached phase error r =
    let r' : Rest = record r {
      failure = some (describe_failure error now);
      reconnect_attempt = suc r.reconnect_attempt;
    } in
    (
      r',
      waiting,
      ap (λ ts. record (sdk_of r' waiting) { tasks = ts })
          (delete_sole id (task_of credential cached phase)),
      tt,
    )

-- a failed attempt sets a timer, or leads to one more attempt
pub fail_attempt-Kept :
    (opts : Options) (now : ℕ) (id ws next credential : String) (cached : Bool) (phase : Phase)
    (error : Thrown) (r : Rest)
    → Kept opts
        (fail_attempt opts now id ws next
          (task_of credential cached phase)
          error
          (record (bare r ((id, task_of credential cached phase) ∷ [])) { socket = some ws })).0
unfolding fail_attempt
fail_attempt-Kept opts now id ws next credential cached phase error r =
    let t = task_of credential cached phase in
    elim (Bool-cases (cached && is_unauthorized error)) [
      | inl e ↦
          rw (test_refl ws, e, fail_attempt)
            (resolve-Kept opts now id next ((id, t) ∷ []) (record r { access_token = none })
              (Sole-self id t))
      | inr e ↦
          rw (test_refl ws, e, fail_attempt)
            (fail_task-Kept opts now id credential cached phase error r)
    ]

-- a happening of a run finds the one that is under way, or changes nothing
pub attempt-Kept :
    (opts : Options) (id i c : String) (k : Bool) (p : Phase) (r : Rest)
    (f : Task → Sdk → Sdk × List SdkCall)
    → (id ≡ i → Kept opts (f (task_of c k p) (sdk_of r (attempting i c k p))).0)
    → Kept opts (on_task (get id ((i, task_of c k p) ∷ [])) f (sdk_of r (attempting i c k p))).0
unfolding get
attempt-Kept opts id i c k p r f h = elim (text-cases i id) [
  | inl (q, e) ↦ rw (e, get) (h (sym q))
  | inr (q, e) ↦ rw (e, get) (r, attempting i c k p, refl, tt)
]
