-- ===== src/BackendSdk/Persistence.antt =====
-- A backend that was connected stays in contact, or is down for a reason.
use zclaudia_gateway.Prelude.{String, true, false, some, [], ◌∷◌, ◌≡◌, ◌⊎◌}
use zclaudia_gateway.BackendSdk.Failure.{replaced, BackendErrorInfo}
use zclaudia_gateway.BackendSdk.Session.{Options, connecting, connected, closed, Task, Sdk}

-- connected on a socket with its heartbeat, and nothing under way
abbrev pub Connected : Sdk → Type 0
Connected s =
    (s.is_closed ≡ false)
    × (s.state ≡ connected)
    × (s.heartbeat ≡ true)
    × ((ws : String) × (s.socket ≡ some ws))
    × (s.tasks ≡ [])
    × (s.timers ≡ 0)

-- one attempt is under way in the background, and no timer is set
abbrev pub Attempting : Sdk → Type 0
Attempting s =
    (s.is_closed ≡ false)
    × (s.state ≡ connecting)
    × (s.heartbeat ≡ false)
    × ((id : String) × (t : Task) × (s.tasks ≡ (id, t) ∷ []) × (t.background ≡ true))
    × (s.timers ≡ 0)

-- one timer is set, and no attempt is under way
abbrev pub Waiting : Sdk → Type 0
Waiting s =
    (s.is_closed ≡ false)
    × (s.state ≡ connecting)
    × (s.heartbeat ≡ false)
    × (s.tasks ≡ [])
    × (s.timers ≡ 1)

-- nothing is under way, because the backend was replaced or is not to reconnect
abbrev pub Stopped : Options → Sdk → Type 0
Stopped opts s =
    (s.state ≡ closed)
    × (s.heartbeat ≡ false)
    × (s.tasks ≡ [])
    × (s.timers ≡ 0)
    × (((e : BackendErrorInfo) × (s.failure ≡ some e) × (e.code ≡ replaced))
        ⊎ (opts.reconnect ≡ false))

abbrev pub InContact : Options → Sdk → Type 0
InContact opts s = Connected s ⊎ (Attempting s ⊎ (Waiting s ⊎ Stopped opts s))
