-- ===== src/Gateway/Retained.antt =====
-- How many payloads are retained for a backend.
use zclaudia_gateway.Prelude.{
  ◌≤◌, ◌+◌, String, not, leb, ◌&&◌, if◌then◌else◌, get_or, [], ◌∷◌, ◌≡◌, arith, Bool-cases, inl,
  inr,
}
use zclaudia_gateway.Json.{Json}
use zclaudia_gateway.Map.{Map, get, set, has, size}
use zclaudia_gateway.Map.Laws.{get-set_self}
use zclaudia_gateway.Gateway.{Gateway}
use zclaudia_gateway.Gateway.Topics.{retain, max_retained_topics_per_backend}

-- writing a map adds at most one key, and none that is there
size-set {ℓ} :
    {A : Type ℓ} (k : String) (v : A) (m : Map A)
    → size (set k v m) ≡ (if has k m then size m else size m + 1)
unfolding get set
size-set k v [] = omega arith
size-set k v ((j, w) ∷ m) = ground (arith, size-set k v m)

-- the payloads that are retained for a backend
abbrev pub retained_of : String → Gateway → Map Json
retained_of b g = get_or [] (get b g.retained_topics)

-- A retained publication never makes a backend have more than 64 retained payloads, if it had no
-- more before.
pub retain-bound :
    (b topic : String) (payload : Json) (g : Gateway)
    → size (retained_of b g) ≤ max_retained_topics_per_backend
    → size (retained_of b (retain b topic payload g)) ≤ max_retained_topics_per_backend
unfolding retain
retain-bound b topic payload g h =
    let topics = retained_of b g in
    elim (Bool-cases
      (leb max_retained_topics_per_backend (size topics) && not (has topic topics))) [
        | inl e ↦ rw (e, get-set_self b topics g.retained_topics) h
        | inr e ↦
            rw (e, get-set_self b (set topic payload topics) g.retained_topics)
              (ground (arith, size-set topic payload topics))
      ]
