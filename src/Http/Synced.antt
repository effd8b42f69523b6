-- ===== src/Http/Synced.antt =====
-- What `GET /sync/registry` shows, and to whom.
use zclaudia_gateway.Prelude.{ℕ, String, some, List, All, ◌≡◌, Option-cases, inl, inr, subst, refl}
use zclaudia_gateway.State.{BackendPresence, PeerSession}
use zclaudia_gateway.Gateway.{Gateway, Config}
use zclaudia_gateway.Gateway.Isolation.{Permitted, visible_registry-Permitted}
use zclaudia_gateway.Http.{
  Request, Outcome, admitted, bearer_token, deny, recovered_peer, require_recovery_token,
}
use zclaudia_gateway.Http.Reads.{sync_registry}

-- the caller's token is a connected peer's, and what it shows is of that peer's view
abbrev pub Synced : Request → Gateway → List BackendPresence → Type 0
Synced req g items =
    (token : String) × (peer : PeerSession) × (bearer_token req.authorization ≡ some token)
    × (recovered_peer token g ≡ some peer)
    × All (Permitted peer) items

-- When the registry is shown, the caller has sent the recovery token of a peer that is connected,
-- and every backend shown is of that peer's namespace and in the scope of its credential.
pub sync_registry-Permitted :
    (cfg : Config) (now : ℕ) (req : Request) (g : Gateway) (items : List BackendPresence)
    → (sync_registry cfg now req g).1 ≡ admitted items
    → Synced req g items
unfolding sync_registry require_recovery_token deny
sync_registry-Permitted cfg now req g items = elim (Option-cases (bearer_token req.authorization)) [
  | inl e ↦ rw (e, sync_registry, require_recovery_token) (λ h. absurd (cc))
  | inr (token, e) ↦ elim (Option-cases (recovered_peer token g)) [
    | inl f ↦ rw (e, f, sync_registry, require_recovery_token) (λ h. absurd (cc))
    | inr (peer, f) ↦
        rw (e, f, sync_registry, require_recovery_token)
          (λ h. (
            token,
            peer,
            refl,
            f,
            subst (All (Permitted peer)) (shown h) (visible_registry-Permitted g.state peer),
          ))
  ]
]
  where
    shown :
        {xs ys : List BackendPresence}
        → ◌≡◌ {A = Outcome (List BackendPresence)} (admitted xs) (admitted ys)
        → xs ≡ ys
    shown h = cc
