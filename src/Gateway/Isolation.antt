-- ===== src/Gateway/Isolation.antt =====
-- What a peer can see and reach (`visibleRegistry`, `handleChannelOpen`).
use zclaudia_gateway.Prelude.{
  ℕ, String, Bool, true, false, leb, nat_eq, ◌==◌, ◌<>◌, Option, none, some, List, [], ◌∷◌, ◌≡◌,
  ◌⊎◌, refl, sym, ap, ◌∙◌, inl, inr, Option-cases, Bool-cases, filter, All, All-mono, eq-of-test,
  some-injective,
}
use zclaudia_gateway.Map.{get}
use zclaudia_gateway.Map.Laws.{get-set_self}
use zclaudia_gateway.State.{
  PeerSession, BackendPresence, BackendLease, GatewayState, get_registry_snapshot,
}
use zclaudia_gateway.Gateway.{
  Gateway, Config, ChannelRecord, ErrorCode, send, gateway_error, backend_offline, emit,
}
use zclaudia_gateway.Gateway.Scope.{in_scope, can_reach, peer_reaches, visible_registry}
use zclaudia_gateway.Gateway.Channels.{
  FreshChannel, reachable_backend, handle_channel_open, opened, count_channels_for_peer,
  issue_channel_ticket,
}

-- the peer and the backend are of one namespace, and the backend is in the peer's scope
abbrev pub Permitted : PeerSession → BackendPresence → Type 0
Permitted peer item =
    (item.namespace ≡ peer.namespace) × (in_scope peer.allowed_backends item.backend_id ≡ true)

pub peer_reaches-Permitted :
    (peer : PeerSession) (item : BackendPresence)
    → peer_reaches peer item ≡ true
    → Permitted peer item
unfolding peer_reaches can_reach
peer_reaches-Permitted peer item = elim (Bool-cases (item.namespace == peer.namespace)) [
  | inl e ↦ rw (e, peer_reaches) (λ h. (eq-of-test item.namespace peer.namespace e, h))
  | inr e ↦ rw (e, peer_reaches) (λ h. absurd (cc))
]

passing-All {ℓ} : {A : Type ℓ} (p : A → Bool) (xs : List A) → All (λ x. p x ≡ true) (filter p xs)
passing-All p [] = tt
passing-All p (x ∷ xs) = elim (Bool-cases (p x)) [
  | inl e ↦ rw e (e, passing-All p xs)
  | inr e ↦ rw e (passing-All p xs)
]

-- Every backend of the registry view of a peer is of the peer's namespace and in the scope of its
-- credential.
pub visible_registry-Permitted :
    (s : GatewayState) (peer : PeerSession) → All (Permitted peer) (visible_registry s peer)
unfolding visible_registry
visible_registry-Permitted s peer =
    All-mono (λ x. peer_reaches peer x ≡ true) (Permitted peer) (peer_reaches-Permitted peer)
      (visible_registry s peer)
      (passing-All (peer_reaches peer) (get_registry_snapshot peer.namespace s))

-- the backend of a target that a peer may open a channel to
abbrev pub Reached : PeerSession → String → Gateway → BackendLease → PeerSession → Type 0
Reached peer target g lease backend_peer =
    (presence : BackendPresence) × (get target g.state.registry ≡ some presence)
    × Permitted peer presence
    × (get target g.state.leases ≡ some lease)
    × (get lease.peer_session_id g.state.peers ≡ some backend_peer)

reachable_backend-Reached :
    (peer : PeerSession) (target : String) (g : Gateway) (l : BackendLease)
    (backend_peer : PeerSession)
    → reachable_backend peer target g ≡ some (l, backend_peer)
    → Reached peer target g l backend_peer
unfolding reachable_backend
reachable_backend-Reached peer target g l backend_peer =
    elim (Option-cases (get target g.state.registry)) [
      | inl e ↦ rw (e, reachable_backend) (λ h. absurd (cc))
      | inr (presence, e) ↦ elim (Option-cases (get target g.state.leases)) [
        | inl f ↦ rw (e, f, reachable_backend) (λ h. absurd (cc))
        | inr (lease, f) ↦ elim (Option-cases (get lease.peer_session_id g.state.peers)) [
          | inl k ↦ rw (e, f, k, reachable_backend) (λ h. absurd (cc))
          | inr (owner, k) ↦ elim (Bool-cases (peer_reaches peer presence)) [
            | inr t ↦ rw (e, f, k, t, reachable_backend) (λ h. absurd (cc))
            | inl t ↦
                rw (e, f, k, t, reachable_backend)
                  (λ h.
                    let pair = some-injective (lease, owner) (l, backend_peer) h in
                    (
                      presence,
                      refl,
                      peer_reaches-Permitted peer presence t,
                      ap some (ap (λ x. x.0) pair),
                      ap (λ x. get x.peer_session_id g.state.peers) (sym (ap (λ x. x.0) pair))
                          ∙ (k ∙ ap some (ap (λ x. x.1) pair)),
                    ))
          ]
        ]
      ]
    ]

-- A channel to a permitted backend: what the gateway has under its id afterwards
abbrev pub Opened : PeerSession → String → FreshChannel → Gateway → Gateway → Type 0
Opened peer target fresh g g' =
    (l : BackendLease) × (backend_peer : PeerSession) × (ch : ChannelRecord) × Reached peer target g
      l backend_peer
    × (get fresh.channel_id g'.channels ≡ some ch)
    × (ch.backend_id ≡ target)
    × (ch.epoch ≡ l.epoch)
    × (ch.client_peer_session_id ≡ peer.peer_session_id)
    × (ch.backend_peer_session_id ≡ l.peer_session_id)

abbrev pub Answered : PeerSession → Gateway → Gateway → Type 0
Answered peer g g' =
    (code : ErrorCode) × (message : String) × (g'
      ≡ emit (send peer.ws (gateway_error code message)) g)

-- A `channel_open` either changes nothing but that the peer is answered with an error, or the
-- target is a registered and leased backend of the peer's namespace and in the scope of its
-- credential, its owner is connected, and the new channel is from this peer to that owner, in the
-- epoch of the lease.
pub handle_channel_open-Permitted :
    (cfg : Config) (now : ℕ) (fresh : FreshChannel) (peer : PeerSession) (target : String)
    (kind : Option String) (g : Gateway)
    → Answered peer g (handle_channel_open cfg now fresh peer target kind g)
      ⊎ Opened peer target fresh g (handle_channel_open cfg now fresh peer target kind g)
unfolding handle_channel_open opened issue_channel_ticket
handle_channel_open-Permitted cfg now fresh peer target kind g =
    elim (Bool-cases (nat_eq peer.protocol_version 4)) [
      | inr e ↦ rw (e, handle_channel_open) (inl (_, _, refl))
      | inl e ↦ elim (Option-cases (reachable_backend peer target g)) [
        | inl f ↦ rw (e, f, handle_channel_open) (inl (_, _, refl))
        | inr ((l, backend_peer), f) ↦
            elim (Bool-cases
              (leb cfg.max_channels_per_peer (count_channels_for_peer peer.peer_session_id g))) [
                | inl t ↦ rw (e, f, t, handle_channel_open) (inl (_, _, refl))
                | inr t ↦
                    rw (e, f, t, handle_channel_open)
                      (inr (
                        l,
                        backend_peer,
                        _,
                        reachable_backend-Reached peer target g l backend_peer f,
                        get-set_self fresh.channel_id _ g.channels,
                        refl,
                        refl,
                        refl,
                        refl,
                      ))
              ]
      ]
    ]

-- The target is not registered, or the peer may not reach it.
abbrev pub Hidden : PeerSession → String → Gateway → Type 0
Hidden peer target g =
    (get target g.state.registry ≡ none)
    ⊎ ((presence : BackendPresence) × (get target g.state.registry ≡ some presence)
        × (peer_reaches peer presence ≡ false))

Hidden-unreachable :
    (peer : PeerSession) (target : String) (g : Gateway)
    → Hidden peer target g
    → reachable_backend peer target g ≡ none
unfolding reachable_backend
Hidden-unreachable peer target g (inl e) = rw (e, reachable_backend) refl
Hidden-unreachable peer target g (inr (presence, e, r)) =
    elim (Option-cases (get target g.state.leases)) [
      | inl f ↦ rw (e, f, reachable_backend) refl
      | inr (lease, f) ↦ elim (Option-cases (get lease.peer_session_id g.state.peers)) [
        | inl k ↦ rw (e, f, k, reachable_backend) refl
        | inr (owner, k) ↦ rw (e, f, k, r, reachable_backend) refl
      ]
    ]

-- The error of a `channel_open` does not tell whether the backend exists: to a peer that may not
-- reach the registered backend it is the error for a target that is not registered, and nothing
-- else happens in either case. (The peer speaks protocol version 4, as every admitted peer does.)
pub handle_channel_open-Hidden :
    (cfg : Config) (now : ℕ) (fresh : FreshChannel) (peer : PeerSession) (target : String)
    (kind : Option String) (g : Gateway)
    → nat_eq peer.protocol_version 4 ≡ true
    → Hidden peer target g
    → handle_channel_open cfg now fresh peer target kind g
      ≡ emit
          (send peer.ws
            (gateway_error backend_offline ("Backend " <> target <> " not found or offline")))
          g
unfolding handle_channel_open
handle_channel_open-Hidden cfg now fresh peer target kind g four hidden =
    rw (four, Hidden-unreachable peer target g hidden, handle_channel_open) refl
