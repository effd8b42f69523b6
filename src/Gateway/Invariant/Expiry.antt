-- ===== src/Gateway/Invariant/Expiry.antt =====
-- The invariant when a backend's lease expires (`handleBackendLeaseExpired`).
use mathlib.Core.Option
use zclaudia_gateway.Prelude.{
  ℕ, String, ◌==◌, none, some, ◌≡◌, refl, sym, ap, ◌∙◌, subst, Option-cases, inl, inr,
}
use zclaudia_gateway.Map.{Map, get, delete, update, values}
use zclaudia_gateway.Map.Laws.{get-update_self}
use zclaudia_gateway.State.{
  PeerSession, BackendLease, remove_backend, remove_lease, registry_remove,
}
use zclaudia_gateway.Storage.Identities.{touch_backend_identity}
use zclaudia_gateway.Gateway.{Gateway, ChannelRecord, offline, emit, terminate}
use zclaudia_gateway.Gateway.Channels.{close_channels_for_backend}
use zclaudia_gateway.Gateway.Scope.{broadcast_registry_snapshot}
use zclaudia_gateway.Gateway.Topics.{remove_topics_for_backend}
use zclaudia_gateway.Gateway.Ownership.{
  handle_backend_lease_expired, unregister_recovery_token, disowned, disown_peer, drop_peer,
  drop_backend, drop_registration, touch,
}
use zclaudia_gateway.Gateway.Frame.{
  Closes, Calls, broadcast-Calls, teardown_where-Closes, teardown_where-Distinct,
}
use zclaudia_gateway.Gateway.Invariant.{Core, CoreInv, Inv, core, vacated, vacated-CoreInv}
use zclaudia_gateway.Gateway.Invariant.Sessions.{gone-Left, close_channels_for_backend-found}
use zclaudia_gateway.Gateway.Invariant.Disconnect.{drop_peer-core, dropped}

-- the steps before the peer goes, with the loop and the broadcast as variables
abbrev retired : String → String → Core → Map ChannelRecord → Core
retired b id c chans = vacated c b (update id disowned c.peers) chans

assembled :
    (g g₁ g₂ : Gateway) (b id : String) (p : PeerSession) (now : ℕ)
    → Closes g g₁
    → Calls (drop_registration b (remove_topics_for_backend b g₁)) g₂
    → core (
        unregister_recovery_token p
          (emit (terminate p.ws) (disown_peer id (touch b now (drop_backend b g₂)))))
      ≡ retired b id (core g) g₁.channels
unfolding registry_remove remove_backend remove_lease touch_backend_identity
    unregister_recovery_token remove_topics_for_backend
assembled g g₁ g₂ b id p now h q =
    ap (λ x. core (disown_peer id (touch b now (drop_backend b x)))) q
    ∙ ap (λ x. retired b id (core x) g₁.channels) h

module _ (g : Gateway) (b : String) (now : ℕ) (l : BackendLease) (p : PeerSession)
    (held : get b g.state.leases ≡ some l)
    (found : get l.peer_session_id g.state.peers ≡ some p) where
  abbrev before : Gateway
  unfolding unregister_recovery_token
  before =
      let g₁ = close_channels_for_backend b offline g in
      let g₂ = drop_registration b (remove_topics_for_backend b g₁) in
      let g₃ = touch b now (drop_backend b (broadcast_registry_snapshot none g₂)) in
      unregister_recovery_token p (emit (terminate p.ws) (disown_peer l.peer_session_id g₃))

  expired : handle_backend_lease_expired b now g ≡ drop_peer l.peer_session_id before
  unfolding handle_backend_lease_expired
  expired = rw (held, handle_backend_lease_expired, found) refl

  before-core :
      core before
      ≡ retired b l.peer_session_id (core g) (close_channels_for_backend b offline g).channels
  unfolding close_channels_for_backend before unregister_recovery_token
  before-core =
      let g₁ = close_channels_for_backend b offline g in
      let g₂ = drop_registration b (remove_topics_for_backend b g₁) in
      assembled g g₁ (broadcast_registry_snapshot none g₂) b l.peer_session_id p now
        (teardown_where-Closes (λ c. c.backend_id == b) offline (values g.channels) g)
        (broadcast-Calls none g₂)

  -- what is left of the gateway after the expiry
  pub expired-core :
      core (handle_backend_lease_expired b now g)
      ≡ vacated
          (core g)
          b
          (delete l.peer_session_id (update l.peer_session_id disowned g.state.peers))
          (close_channels_for_backend b offline g).channels
  expired-core =
      ap core expired
      ∙ (drop_peer-core l.peer_session_id (disowned p) before (
            ap (λ x. get l.peer_session_id x.peers) before-core
            ∙ (get-update_self l.peer_session_id disowned g.state.peers
                ∙ ap (Option.map disowned) found))
          ∙ ap (dropped l.peer_session_id) before-core)

-- When a lease expires, in any state that satisfies the invariant, the state after
-- `handleBackendLeaseExpired` satisfies it too.
pub handle_backend_lease_expired-Inv :
    (b : String) (now : ℕ) (g : Gateway) → Inv g → Inv (handle_backend_lease_expired b now g)
unfolding handle_backend_lease_expired close_channels_for_backend
handle_backend_lease_expired-Inv b now g v = elim (Option-cases (get b g.state.leases)) [
  | inl e ↦ rw (e, handle_backend_lease_expired) v
  | inr (l, e) ↦
      let (p, f, _) = v.leased b l e in
      let chans = (close_channels_for_backend b offline g).channels in
      subst CoreInv (sym (expired-core g b now l p e f)) (
        vacated-CoreInv (core g) v b l e
          (delete l.peer_session_id (update l.peer_session_id disowned g.state.peers))
          (gone-Left l.peer_session_id g.state.peers) chans
          (teardown_where-Distinct (λ c. c.backend_id == b) offline (values g.channels) g
            v.channels_distinct)
          (λ j ch h. close_channels_for_backend-found g b offline j ch v h))
]
