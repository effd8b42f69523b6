-- ===== src/Gateway/Invariant/Replacement.antt =====
-- The invariant when the owner of a backend is replaced by a newer connection
-- (`handleBackendOwnerReplaced`, called by `handlePeerHello`).
use zclaudia_gateway.Prelude.{
  ℕ, String, ◌==◌, none, some, ◌≡◌, ◌≢◌, refl, sym, ap, ◌∙◌, subst, Option-cases, inl, inr, test-ne,
}
use zclaudia_gateway.Map.{Map, get, delete, update, values}
use zclaudia_gateway.Map.Laws.{delete_found, get-delete_ne, get-delete_self, get-update_ne}
use zclaudia_gateway.State.{PeerSession, BackendLease, remove_lease}
use zclaudia_gateway.Gateway.{Gateway, ChannelRecord, epoch_changed}
use zclaudia_gateway.Gateway.Channels.{close_channels_for_backend}
use zclaudia_gateway.Gateway.Topics.{remove_topics_for_backend}
use zclaudia_gateway.Gateway.Ownership.{
  handle_backend_owner_replaced, note_owner_replaced, stand_down, disowned,
}
use zclaudia_gateway.Gateway.Hello.{replace_owner}
use zclaudia_gateway.Gateway.Frame.{Closes, teardown_where-Closes, teardown_where-Distinct}
use zclaudia_gateway.Gateway.Invariant.{Core, CoreInv, Inv, core, vacated-CoreInv, none-ne-some}
use zclaudia_gateway.Gateway.Invariant.Sessions.{disowned-Left, close_channels_for_backend-found}

-- a listed backend without a lease may as well not be listed
abbrev pub unlisted : String → Core → Core
unlisted b c = record c { registry = delete b c.registry }

unlisted-CoreInv :
    (c : Core) (b : String) → CoreInv c → get b c.leases ≡ none → CoreInv (unlisted b c)
unlisted-CoreInv c b v n = record {
  channels_distinct = v.channels_distinct;
  peers_keyed = v.peers_keyed;
  owners = v.owners;
  leased = v.leased;
  registered = λ b' item h. v.registered b' item (delete_found b b' c.registry item h).1;
  listed = λ b' l h.
      let (item, f) = v.listed b' l h in
      (
        item,
        get-delete_ne b b' c.registry (λ same. none-ne-some n (ap (λ x. get x c.leases) same ∙ h))
            ∙ f,
      );
  epochs = v.epochs;
  current = v.current;
  subscribed = v.subscribed;
  retained = v.retained;
}

-- The gateway is ready for a new owner of a backend.
pub record Ready (g : Gateway) (b session : String) (epoch : ℕ) : Type 0 where
  pub unlisted_inv : CoreInv (unlisted b (core g))
  pub free : get b g.state.leases ≡ none
  pub new : get session g.state.peers ≡ none
  pub last_epoch : g.storage.max_epoch ≡ epoch

stand_down-core :
    (id : String) (p : PeerSession) (g : Gateway)
    → get id g.state.peers ≡ some p
    → core (stand_down id g) ≡ record (core g) { peers = update id disowned g.state.peers }
unfolding stand_down
stand_down-core id p g h = rw (h, stand_down) refl

-- the core after a replacement
abbrev replaced : String → String → Core → Map ChannelRecord → Core
replaced b id c chans = record c {
  peers = update id disowned c.peers;
  leases = delete b c.leases;
  channels = chans;
  topic_subs = delete b c.topic_subs;
  retained_topics = delete b c.retained_topics;
}

assembled :
    (b id : String) (p : PeerSession) (g g₁ : Gateway)
    → Closes g g₁
    → get id g.state.peers ≡ some p
    → (let g₂ = remove_topics_for_backend b g₁ in
        core (stand_down id (record g₂ { state = remove_lease b g₂.state })))
      ≡ replaced b id (core g) g₁.channels
unfolding remove_topics_for_backend remove_lease
assembled b id p g g₁ q h =
    let g₂ = remove_topics_for_backend b g₁ in
    let g₃ : Gateway = record g₂ { state = remove_lease b g₂.state } in
    stand_down-core id p g₃ (ap (λ x. get id x.state.peers) q ∙ h)
    ∙ ap (λ x. replaced b id (core x) g₁.channels) q

owner_replaced-core :
    (b id : String) (p : PeerSession) (g : Gateway)
    → get id g.state.peers ≡ some p
    → core (handle_backend_owner_replaced b id g)
      ≡ replaced b id (core g) (close_channels_for_backend b epoch_changed g).channels
unfolding handle_backend_owner_replaced close_channels_for_backend remove_topics_for_backend
    remove_lease
owner_replaced-core b id p g h =
    assembled b id p g (close_channels_for_backend b epoch_changed g)
      (teardown_where-Closes (λ c. c.backend_id == b) epoch_changed (values g.channels) g) h

-- After a replacement the backend is free for its new owner.
owner_replaced-Ready :
    (b session : String) (l : BackendLease) (g : Gateway)
    → Inv g
    → get b g.state.leases ≡ some l
    → get session g.state.peers ≡ none
    → session ≢ l.peer_session_id
    → Ready (handle_backend_owner_replaced b l.peer_session_id g) b session g.storage.max_epoch
unfolding close_channels_for_backend
owner_replaced-Ready b session l g v held new n =
    let (p, f, _) = v.leased b l held in
    let id = l.peer_session_id in
    let chans = (close_channels_for_backend b epoch_changed g).channels in
    let e = owner_replaced-core b id p g f in
    record {
      unlisted_inv = subst CoreInv (sym (ap (unlisted b) e)) (
          vacated-CoreInv (core g) v b l held (update id disowned g.state.peers)
            (disowned-Left id g.state.peers v.peers_keyed) chans
            (teardown_where-Distinct (λ c. c.backend_id == b) epoch_changed (values g.channels) g
              v.channels_distinct)
            (λ j ch h. close_channels_for_backend-found g b epoch_changed j ch v h));
      free = ap (λ x. get b x.leases) e ∙ get-delete_self b g.state.leases;
      new =
          ap (λ x. get session x.peers) e
          ∙ (get-update_ne id session disowned g.state.peers n ∙ new);
      last_epoch = ap (λ x. x.max_epoch) e;
    }

-- Whoever holds the backend's lease, the gateway is ready for the new owner.
pub replace_owner-Ready :
    (b session : String) (epoch now : ℕ) (g : Gateway)
    → Inv g
    → get session g.state.peers ≡ none
    → Ready
        (replace_owner b session epoch now (get b g.state.leases) g)
        b
        session
        g.storage.max_epoch
unfolding replace_owner note_owner_replaced
replace_owner-Ready b session epoch now g v new = elim (Option-cases (get b g.state.leases)) [
  | inl e ↦ rw e (record {
    unlisted_inv = unlisted-CoreInv (core g) b v e;
    free = e;
    new = new;
    last_epoch = refl;
  })
  | inr (l, e) ↦
      let (p, f, _) = v.leased b l e in
      let n : l.peer_session_id ≢ session =
        λ same. none-ne-some new (ap (λ x. get x g.state.peers) (sym same) ∙ f) in
      rw (e, test-ne l.peer_session_id session n)
        (owner_replaced-Ready b session l (note_owner_replaced b now g).0 v e new
          (λ same. n (sym same)))
]
