-- ===== src/Gateway/Invariant/Disconnect.antt =====
-- The invariant when a peer's socket closes (`handlePeerDisconnect`).
use mathlib.Core.Option
use zclaudia_gateway.Prelude.{
  ℕ, String, ◌==◌, Option, none, some, List, ◌≡◌, inl, inr, refl, sym, ap, ◌∙◌, subst, Option-cases,
}
use zclaudia_gateway.Map.{Map, get, delete, values, map_entries, Distinct}
use zclaudia_gateway.Map.Laws.{get-map_entries}
use zclaudia_gateway.State.{PeerSession, remove_peer, remove_backend, remove_lease, registry_remove}
use zclaudia_gateway.Storage.Identities.{touch_backend_identity}
use zclaudia_gateway.Gateway.{Gateway, ChannelRecord, ClosedReason, offline, emit, terminate}
use zclaudia_gateway.Gateway.Channels.{
  close_channels_for_backend, close_channels_for_peer, is_end_of,
}
use zclaudia_gateway.Gateway.Scope.{broadcast_registry_snapshot}
use zclaudia_gateway.Gateway.Topics.{
  without, owned_backend, remove_topics_for_backend, remove_topic_subscriptions_for_peer,
}
use zclaudia_gateway.Gateway.Ownership.{
  handle_peer_disconnect, unregister_recovery_token, leave_backend, drop_peer, drop_backend,
  drop_registration, touch, remove_topics_if,
}
use zclaudia_gateway.Gateway.Frame.{
  Closes, Calls, broadcast-Calls, teardown_where-Closes, teardown_where-Distinct,
  teardown_where-kept,
}
use zclaudia_gateway.Gateway.Invariant.{
  Core, CoreInv, Inv, Left, core, closed-CoreInv, vacated-CoreInv,
}
use zclaudia_gateway.Gateway.Invariant.Registration.{removed-CoreInv}
use zclaudia_gateway.Gateway.Invariant.Sessions.{
  delete-Left, owned_backend-owner, owned_backend-none, close_channels_for_backend-found,
}

-- the subscriptions without a peer
abbrev pruned : String → Map (Map (List String)) → Map (Map (List String))
pruned id = map_entries (λ _ topics. map_entries (λ _ ids. without id ids) topics)

map_found {ℓ κ} :
    {A : Type ℓ} {B : Type κ} (f : A → B) (o : Option A) (w : B)
    → Option.map f o ≡ some w
    → (v : A) × (o ≡ some v)
map_found f none w h = absurd (cc)
map_found f (some v) w h = (v, refl)

pruned-CoreInv :
    (c : Core) (id : String)
    → CoreInv c
    → CoreInv (record c { topic_subs = pruned id c.topic_subs })
pruned-CoreInv c id v = record {
  channels_distinct = v.channels_distinct;
  peers_keyed = v.peers_keyed;
  owners = v.owners;
  leased = v.leased;
  registered = v.registered;
  listed = v.listed;
  epochs = v.epochs;
  current = v.current;
  subscribed = λ b t h.
      let f = λ (topics : Map (List String)). map_entries (λ _ ids. without id ids) topics in
      let (s, e) =
        map_found f (get b c.topic_subs) t
          (sym (get-map_entries (λ _ topics. f topics) b c.topic_subs) ∙ h) in
      v.subscribed b s e;
  retained = v.retained;
}

-- a registered peer is dropped
abbrev pub dropped : String → Core → Core
dropped id c = record c { peers = delete id c.peers }

pub drop_peer-core :
    (id : String) (p : PeerSession) (g : Gateway)
    → get id g.state.peers ≡ some p
    → core (drop_peer id g) ≡ dropped id (core g)
unfolding remove_peer
drop_peer-core id p g h = rw (h, remove_peer) refl

-- the owner's part of a disconnect, with the loop and the broadcast as variables
abbrev left_core : String → Core → Map ChannelRecord → Core
left_core b c chans = record c {
  leases = delete b c.leases;
  registry = delete b c.registry;
  channels = chans;
}

assembled :
    (g g₁ g₂ : Gateway) (b : String) (now : ℕ)
    → Closes g g₁
    → Calls (drop_registration b g₁) g₂
    → core (touch b now (drop_backend b g₂)) ≡ left_core b (core g) g₁.channels
unfolding registry_remove remove_backend remove_lease touch_backend_identity
assembled g g₁ g₂ b now p q =
    ap (λ x. core (touch b now (drop_backend b x))) q ∙ ap (λ x. left_core b (core x) g₁.channels) p

leave_backend-core :
    (g : Gateway) (p : PeerSession) (b : String) (now : ℕ)
    → owned_backend p g ≡ some b
    → core (leave_backend p now g)
      ≡ left_core b (core g) (close_channels_for_backend b offline g).channels
unfolding leave_backend close_channels_for_backend
leave_backend-core g p b now h =
    let g₁ = close_channels_for_backend b offline g in
    let g₂ = broadcast_registry_snapshot (some p.peer_session_id) (drop_registration b g₁) in
    rw (h, leave_backend)
      (assembled g g₁ g₂ b now
        (teardown_where-Closes (λ c. c.backend_id == b) offline (values g.channels) g)
        (broadcast-Calls (some p.peer_session_id) (drop_registration b g₁)))

leave_backend-none :
    (g : Gateway) (p : PeerSession) (now : ℕ) → p.backend_id ≡ none → leave_backend p now g ≡ g
unfolding leave_backend
leave_backend-none g p now h = rw (owned_backend-none g p h, leave_backend) refl

-- what is done to every peer that goes
abbrev cleared : Option String → String → Core → Core
cleared none id c = record c { topic_subs = pruned id c.topic_subs }
cleared (some b) id c = record c {
  topic_subs = delete b (pruned id c.topic_subs);
  retained_topics = delete b c.retained_topics;
}

-- the rest of a disconnect, after the owner's part
abbrev finish : Option String → PeerSession → String → Gateway → Gateway
unfolding unregister_recovery_token remove_topics_for_backend remove_topic_subscriptions_for_peer
finish o p id g =
    unregister_recovery_token p
      (emit (terminate p.ws) (remove_topics_if o (remove_topic_subscriptions_for_peer id g)))

cleared_lem :
    (o : Option String) (p : PeerSession) (id : String) (g g' : Gateway)
    → Closes g g'
    → core (finish o p id g') ≡ cleared o id (record (core g) { channels = g'.channels })
unfolding unregister_recovery_token remove_topics_for_backend remove_topic_subscriptions_for_peer
cleared_lem none p id g g' q =
    ap (λ x. cleared none id (record (core x) { channels = g'.channels })) q
cleared_lem (some b) p id g g' q =
    ap (λ x. cleared (some b) id (record (core x) { channels = g'.channels })) q

cleared-peers : (o : Option String) (id : String) (c : Core) → (cleared o id c).peers ≡ c.peers
cleared-peers none id c = refl
cleared-peers (some b) id c = refl

finish-core :
    (o : Option String) (p : PeerSession) (id : String) (g g' : Gateway)
    → Closes g g'
    → get id g.state.peers ≡ some p
    → core (drop_peer id (finish o p id g'))
      ≡ dropped id (cleared o id (record (core g) { channels = g'.channels }))
finish-core o p id g g' q h =
    let e = cleared_lem o p id g g' q in
    let c : Core = record (core g) { channels = g'.channels } in
    drop_peer-core id p (finish o p id g')
      (ap (λ m. get id m) (ap (λ x. x.peers) e ∙ cleared-peers o id c) ∙ h)
    ∙ ap (dropped id) e

-- a peer without a backend goes
without_backend :
    (g : Gateway) (id : String) (p : PeerSession)
    → Inv g
    → get id g.state.peers ≡ some p
    → p.backend_id ≡ none
    → Inv (drop_peer id (finish none p id (close_channels_for_peer id g)))
unfolding close_channels_for_peer
without_backend g id p v h n =
    let cs = values g.channels in
    let g' = close_channels_for_peer id g in
    let closed =
      closed-CoreInv (core g) g'.channels v
        (teardown_where-Distinct (is_end_of id) ClosedReason.closed cs g v.channels_distinct)
        (teardown_where-kept (is_end_of id) ClosedReason.closed cs g) in
    let c : Core = record (core g) { channels = g'.channels } in
    subst CoreInv
      (sym (
        finish-core none p id g g' (teardown_where-Closes (is_end_of id) ClosedReason.closed cs g)
          h))
      (removed-CoreInv (record c { topic_subs = pruned id c.topic_subs })
        (pruned-CoreInv c id closed) id p h n)

-- a peer goes, and its backend with it
with_backend :
    (g : Gateway) (id b : String) (p : PeerSession) (now : ℕ)
    → Inv g
    → get id g.state.peers ≡ some p
    → p.backend_id ≡ some b
    → Inv (drop_peer id (finish (some b) p id (close_channels_for_peer id (leave_backend p now g))))
unfolding close_channels_for_peer close_channels_for_backend
with_backend g id b p now v h q =
    let (e, _, (l, held, k, _)) = v.owners id p b h q in
    let g₁ = leave_backend p now g in
    let g' = close_channels_for_peer id g₁ in
    let chans = (close_channels_for_backend b offline g).channels in
    let left : core g₁ ≡ left_core b (core g) chans =
      leave_backend-core g p b now (owned_backend-owner g id b p v h q) in
    let c : Core = record (core g) { topic_subs = pruned id g.topic_subs } in
    let all =
      teardown_where-Distinct (λ x. x.backend_id == b) offline (values g.channels) g
        v.channels_distinct in
    let distinct =
      teardown_where-Distinct (is_end_of id) ClosedReason.closed (values g₁.channels) g₁
        (subst Distinct (sym (ap (λ x. x.channels) left)) all) in
    let final =
      finish-core (some b) p id g₁ g'
        (teardown_where-Closes (is_end_of id) ClosedReason.closed (values g₁.channels) g₁)
        (ap (λ x. get id x.peers) left ∙ h) in
    subst CoreInv
      (sym (
        final
        ∙ ap (λ x. dropped id (cleared (some b) id (record x { channels = g'.channels }))) left))
      (vacated-CoreInv c (pruned-CoreInv (core g) id v) b l held (delete id g.state.peers)
        (subst (Left g.state.peers (delete id g.state.peers)) (sym k)
          (delete-Left id g.state.peers))
        g'.channels distinct
        (λ j ch f. close_channels_for_backend-found g b offline j ch v (
          ap (λ x. get j x.channels) (sym left)
          ∙ teardown_where-kept (is_end_of id) ClosedReason.closed (values g₁.channels) g₁ j ch f)))

disconnected :
    (g : Gateway) (id : String) (p : PeerSession) (now : ℕ)
    → get id g.state.peers ≡ some p
    → handle_peer_disconnect id now g
      ≡ drop_peer id (finish p.backend_id p id (close_channels_for_peer id (leave_backend p now g)))
unfolding handle_peer_disconnect
disconnected g id p now h = rw (h, handle_peer_disconnect) refl

finished :
    (g : Gateway) (id : String) (p : PeerSession) (now : ℕ) (o : Option String)
    → p.backend_id ≡ o
    → get id g.state.peers ≡ some p
    → Inv (drop_peer id (finish o p id (close_channels_for_peer id (leave_backend p now g))))
    → Inv (handle_peer_disconnect id now g)
finished g id p now o q h v =
    let at = λ (x : Option String).
      Inv (drop_peer id (finish x p id (close_channels_for_peer id (leave_backend p now g)))) in
    subst Inv (sym (disconnected g id p now h)) (subst at (sym q) v)

-- When a peer of the gateway disconnects, in any state that satisfies the invariant, the state
-- after `handlePeerDisconnect` satisfies it too.
pub handle_peer_disconnect-Inv :
    (id : String) (now : ℕ) (g : Gateway) → Inv g → Inv (handle_peer_disconnect id now g)
unfolding handle_peer_disconnect
handle_peer_disconnect-Inv id now g v = elim (Option-cases (get id g.state.peers)) [
  | inl e ↦ rw (e, handle_peer_disconnect) v
  | inr (p, e) ↦ elim (Option-cases p.backend_id) [
    | inl n ↦
        let at =
          λ (x : Gateway). Inv (drop_peer id (finish none p id (close_channels_for_peer id x))) in
        finished g id p now none n e
          (subst at (sym (leave_backend-none g p now n)) (without_backend g id p v e n))
    | inr (b, q) ↦ finished g id p now (some b) q e (with_backend g id b p now v e q)
  ]
]
