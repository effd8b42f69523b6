-- ===== src/AdminSession/Lifetime.antt =====
-- How long an admin session is good for.
use zclaudia_gateway.Prelude.{
  ℕ, ◌+◌, ◌≤◌, ◌<◌, String, true, false, ltb, not, Option, none, some, ◌≡◌, ◌≢◌, ◌∙◌, arith, List,
  [], ◌∷◌, inl, inr, ◌⊎◌, All, text-cases,
}
use zclaudia_gateway.Map.{get, Distinct, set, delete}
use zclaudia_gateway.Map.Laws.{
  get-set_self, get-set_ne, get-delete_self, get-delete_ne, get-keep, get-delete, set-Distinct,
  delete-Distinct, keep-Distinct,
}
use zclaudia_gateway.AdminSession.{SessionStore, create, validate, destroy, sweep}

-- What else happens to the store while a session is in use.
pub data Event : Type 0 where
  creates : (id : String) (now : ℕ) → Event
  validates : (id : String) (now : ℕ) → Event
  destroys : (id : String) → Event
  sweeps : (now : ℕ) → Event

unfoldable pub step : SessionStore → Event → SessionStore
step s (creates id now) = (create id now s).0
step s (validates id now) = (validate id now s).0
step s (destroys id) = destroy id s
step s (sweeps now) = sweep now s

unfoldable pub run : SessionStore → List Event → SessionStore
run s [] = s
run s (e ∷ es) = run (step s e) es

-- An event that neither logs the session out nor is late for it.
abbrev pub Spares : String → ℕ → Event → Type 0
Spares id expires (creates other now) = other ≢ id
Spares id expires (validates other now) = (now ≤ expires) ⊎ (other ≢ id)
Spares id expires (destroys other) = other ≢ id
Spares id expires (sweeps now) = now ≤ expires

-- An event that does not log the session in again.
abbrev pub NotLogin : String → Event → Type 0
NotLogin id (creates other now) = other ≢ id
NotLogin id _ = Unit {0}

step-Distinct : (s : SessionStore) (e : Event) → Distinct s.sessions → Distinct (step s e).sessions
unfolding step create validate destroy sweep
step-Distinct s (creates id now) d = set-Distinct id _ s.sessions d
step-Distinct s (validates id now) d = ground (arith, delete-Distinct id s.sessions d)
step-Distinct s (destroys id) d = delete-Distinct id s.sessions d
step-Distinct s (sweeps now) d = keep-Distinct _ s.sessions d

spared-step :
    (s : SessionStore) (id : String) (expires : ℕ) (e : Event)
    → Distinct s.sessions
    → get id s.sessions ≡ some expires
    → Spares id expires e
    → get id (step s e).sessions ≡ some expires
unfolding step create validate destroy sweep
spared-step s id expires (creates other now) d g h = get-set_ne other id _ s.sessions h ∙ g
spared-step s id expires (validates other now) d g (inr h) =
    ground (arith, get-delete_ne other id s.sessions h)
spared-step s id expires (validates other now) d g (inl h) = elim (text-cases other id) [
  | inl (p, _) ↦ rw p (ground arith)
  | inr (n, _) ↦ ground (arith, get-delete_ne other id s.sessions n)
]
spared-step s id expires (destroys other) d g h = get-delete_ne other id s.sessions h ∙ g
spared-step s id expires (sweeps now) d g h = get-keep _ id s.sessions d ∙ ground arith

spared-run :
    (s : SessionStore) (id : String) (expires : ℕ) (es : List Event)
    → Distinct s.sessions
    → get id s.sessions ≡ some expires
    → All (Spares id expires) es
    → get id (run s es).sessions ≡ some expires
unfolding run
spared-run s id expires [] d g h = g
spared-run s id expires (e ∷ es) d g (h, hs) =
    spared-run (step s e) id expires es (step-Distinct s e d) (spared-step s id expires e d g h) hs

-- no session, or one with this expiry
abbrev AtMost : ℕ → Option ℕ → Type 0
AtMost expires o = (o ≡ none) ⊎ (o ≡ some expires)

AtMost-step :
    (s : SessionStore) (id : String) (expires : ℕ) (e : Event)
    → Distinct s.sessions
    → AtMost expires (get id s.sessions)
    → NotLogin id e
    → AtMost expires (get id (step s e).sessions)
unfolding step create validate destroy sweep
AtMost-step s id expires (creates other now) d g h =
    ground (arith, get-set_ne other id (now + s.ttl_ms) s.sessions h)
AtMost-step s id expires (validates other now) d g h =
    ground (arith, get-delete other id s.sessions)
AtMost-step s id expires (destroys other) d g h = ground (arith, get-delete other id s.sessions)
AtMost-step s id expires (sweeps now) d g h =
    ground (arith, get-keep (λ _ t. not (ltb t now)) id s.sessions d)

AtMost-run :
    (s : SessionStore) (id : String) (expires : ℕ) (es : List Event)
    → Distinct s.sessions
    → AtMost expires (get id s.sessions)
    → All (NotLogin id) es
    → AtMost expires (get id (run s es).sessions)
unfolding run
AtMost-run s id expires [] d g h = g
AtMost-run s id expires (e ∷ es) d g (h, hs) =
    AtMost-run (step s e) id expires es (step-Distinct s e d) (AtMost-step s id expires e d g h) hs

-- In a store with one entry for each id, a new session is accepted at every time up to its expiry,
-- whatever else happens to the store, as long as nobody logs it out, creates a session of the same
-- id, or validates it or sweeps at a later time.
pub session_accepted :
    (s : SessionStore) (id : String) (now later : ℕ) (es : List Event)
    → Distinct s.sessions
    → All (Spares id (now + s.ttl_ms)) es
    → later ≤ now + s.ttl_ms
    → (validate id later (run (create id now s).0 es)).1 ≡ true
unfolding create validate
session_accepted s id now later es d h l =
    let s' : SessionStore = record s { sessions = set id (now + s.ttl_ms) s.sessions } in
    ground (
      arith,
      spared-run s' id (now + s.ttl_ms) es (set-Distinct id (now + s.ttl_ms) s.sessions d)
          (get-set_self id (now + s.ttl_ms) s.sessions) h,
    )

-- In a store with one entry for each id, the expiry of a new session is fixed: after it the session
-- is refused, however it was used before, unless a session of the same id was created again.
pub session_expires :
    (s : SessionStore) (id : String) (now later : ℕ) (es : List Event)
    → Distinct s.sessions
    → All (NotLogin id) es
    → now + s.ttl_ms < later
    → (validate id later (run (create id now s).0 es)).1 ≡ false
unfolding create validate
session_expires s id now later es d h l =
    let s' : SessionStore = record s { sessions = set id (now + s.ttl_ms) s.sessions } in
    ground (
      arith,
      AtMost-run s' id (now + s.ttl_ms) es (set-Distinct id (now + s.ttl_ms) s.sessions d)
          (inr (get-set_self id (now + s.ttl_ms) s.sessions)) h,
    )

-- an absent session stays absent: it is at most one with either of two expiries
absent-run :
    (s : SessionStore) (id : String) (es : List Event)
    → Distinct s.sessions
    → get id s.sessions ≡ none
    → All (NotLogin id) es
    → get id (run s es).sessions ≡ none
absent-run s id es d g h =
    neither _ (AtMost-run s id 0 es d (inl g) h) (AtMost-run s id 1 es d (inl g) h)
  where
    neither : (o : Option ℕ) → AtMost 0 o → AtMost 1 o → o ≡ none
    neither o a b = ground arith

-- In a store with one entry for each id, a session that was logged out is refused, whatever happens
-- after, unless a session of the same id is created.
pub destroyed_session :
    (s : SessionStore) (id : String) (now : ℕ) (es : List Event)
    → Distinct s.sessions
    → All (NotLogin id) es
    → (validate id now (run (destroy id s) es)).1 ≡ false
unfolding destroy validate
destroyed_session s id now es d h =
    let s' : SessionStore = record s { sessions = delete id s.sessions } in
    ground (
      arith,
      absent-run s' id es (delete-Distinct id s.sessions d) (get-delete_self id s.sessions) h,
    )
