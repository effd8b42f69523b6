-- ===== src/Gateway/Invariant/Topics.antt =====
-- The invariant when topics are subscribed to and published on.
use zclaudia_gateway.Prelude.{
  String, Bool, true, false, not, nat_eq, leb, ◌==◌, ◌&&◌, get_or, Option, none, some, List, [],
  ◌∷◌, ◌≡◌, refl, sym, ap, ◌∙◌, subst, Option-cases, Bool-cases, inl, inr, some-injective,
}
use zclaudia_gateway.Json.{Json}
use zclaudia_gateway.Map.{Map, get, set, has, size}
use zclaudia_gateway.Map.Laws.{set_found}
use zclaudia_gateway.State.{PeerSession, BackendLease}
use zclaudia_gateway.Gateway.{Gateway, topic_message, send_to_session}
use zclaudia_gateway.Gateway.Topics.{
  max_retained_topics_per_backend, owned_backend, unsubscribed, without, retain, retain_if,
  retained_payload, send_retained, subscribers, fan_out, handle_topic_publish,
  handle_topic_subscribe, handle_topic_unsubscribe,
}
use zclaudia_gateway.Gateway.Scope.{peer_reaches}
use zclaudia_gateway.Gateway.Frame.{Calls, Calls-trans, send_to_session-Calls}
use zclaudia_gateway.Gateway.Invariant.{Core, CoreInv, Inv, core}

-- Topics are kept for leased backends.
module _ (c : Core) (v : CoreInv c) (b : String) (l : BackendLease)
    (held : get b c.leases ≡ some l) where
  with_subs : (t : Map (List String)) → CoreInv (record c { topic_subs = set b t c.topic_subs })
  with_subs t = record {
    channels_distinct = v.channels_distinct;
    peers_keyed = v.peers_keyed;
    owners = v.owners;
    leased = v.leased;
    registered = v.registered;
    listed = v.listed;
    epochs = v.epochs;
    current = v.current;
    subscribed = λ b' t' h. elim (set_found b b' t c.topic_subs t' h) [
      | inl (same, _) ↦ (l, ap (λ x. get x c.leases) (sym same) ∙ held)
      | inr (_, f) ↦ v.subscribed b' t' f
    ];
    retained = v.retained;
  }

  with_retained :
      (t : Map Json) → CoreInv (record c { retained_topics = set b t c.retained_topics })
  with_retained t = record {
    channels_distinct = v.channels_distinct;
    peers_keyed = v.peers_keyed;
    owners = v.owners;
    leased = v.leased;
    registered = v.registered;
    listed = v.listed;
    epochs = v.epochs;
    current = v.current;
    subscribed = v.subscribed;
    retained = λ b' t' h. elim (set_found b b' t c.retained_topics t' h) [
      | inl (same, _) ↦ (l, ap (λ x. get x c.leases) (sym same) ∙ held)
      | inr (_, f) ↦ v.retained b' t' f
    ];
  }

send_retained-core :
    (peer : PeerSession) (b topic : String) (payload : Option Json) (g : Gateway)
    → core (send_retained peer b topic payload g) ≡ core g
send_retained-core peer b topic none g = refl
send_retained-core peer b topic (some payload) g = refl

pub handle_topic_subscribe-Inv :
    (peer : PeerSession) (b topic : String) (g : Gateway)
    → Inv g
    → Inv (handle_topic_subscribe peer b topic g)
unfolding handle_topic_subscribe
handle_topic_subscribe-Inv peer b topic g v = elim (Bool-cases (nat_eq peer.protocol_version 4)) [
  | inr e ↦ rw (e, handle_topic_subscribe) v
  | inl e ↦ elim (Option-cases (get b g.state.registry)) [
    | inl f ↦ rw (e, f, handle_topic_subscribe) v
    | inr (item, f) ↦ elim (Bool-cases (peer_reaches peer item)) [
      | inr t ↦ rw (e, f, t, handle_topic_subscribe) v
      | inl t ↦
          let (_, (l, held, _)) = v.registered b item f in
          rw (e, f, t, handle_topic_subscribe)
            (subst CoreInv (sym (send_retained-core peer b topic (retained_payload b topic g) _))
              (with_subs (core g) v b l held _))
    ]
  ]
]

unsubscribed-Inv :
    (b topic id : String) (g : Gateway)
    → Inv g
    → CoreInv (record (core g) { topic_subs = unsubscribed b topic id g.topic_subs })
unsubscribed-Inv b topic id g v = elim (Option-cases (get b g.topic_subs)) [
  | inl e ↦ rw (e, unsubscribed) v
  | inr (topics, e) ↦ elim (Option-cases (get topic topics)) [
    | inl f ↦ rw (e, f, unsubscribed) v
    | inr (ids, f) ↦
        let (l, held) = v.subscribed b topics e in
        rw (e, f, unsubscribed) (with_subs (core g) v b l held (set topic (without id ids) topics))
  ]
]

pub handle_topic_unsubscribe-Inv :
    (peer : PeerSession) (b topic : String) (g : Gateway)
    → Inv g
    → Inv (handle_topic_unsubscribe peer b topic g)
unfolding handle_topic_unsubscribe
handle_topic_unsubscribe-Inv peer b topic g v = unsubscribed-Inv b topic peer.peer_session_id g v

pub owned_backend-leased :
    (peer : PeerSession) (g : Gateway) (b : String)
    → owned_backend peer g ≡ some b
    → (l : BackendLease) × (get b g.state.leases ≡ some l)
unfolding owned_backend
owned_backend-leased peer g b = elim (Option-cases peer.backend_id) [
  | inl e ↦ rw (e, owned_backend) (λ h. absurd (cc))
  | inr (b', e) ↦ elim (Option-cases peer.epoch) [
    | inl f ↦ rw (e, f, owned_backend) (λ h. absurd (cc))
    | inr (n, f) ↦ elim (Option-cases (get b' g.state.leases)) [
      | inl k ↦ rw (e, f, k, owned_backend) (λ h. absurd (cc))
      | inr (l, k) ↦
          elim (Bool-cases ((l.peer_session_id == peer.peer_session_id) && nat_eq l.epoch n)) [
            | inr t ↦ rw (e, f, k, t, owned_backend) (λ h. absurd (cc))
            | inl t ↦
                rw (e, f, k, t, owned_backend)
                  (λ h. (l, ap (λ x. get x g.state.leases) (sym (some-injective b' b h)) ∙ k))
          ]
    ]
  ]
]

retain-Inv :
    (b topic : String) (payload : Json) (l : BackendLease) (g : Gateway)
    → Inv g
    → get b g.state.leases ≡ some l
    → Inv (retain b topic payload g)
unfolding retain
retain-Inv b topic payload l g v held =
    let topics = get_or [] (get b g.retained_topics) in
    elim (Bool-cases
      (leb max_retained_topics_per_backend (size topics) && not (has topic topics))) [
        | inl e ↦ rw e (with_retained (core g) v b l held topics)
        | inr e ↦ rw e (with_retained (core g) v b l held (set topic payload topics))
      ]

retain_if-Inv :
    (keep : Bool) (payload : Option Json) (b topic : String) (l : BackendLease) (g : Gateway)
    → Inv g
    → get b g.state.leases ≡ some l
    → Inv (retain_if keep payload b topic g)
unfolding retain_if
retain_if-Inv true (some payload) b topic l g v held = retain-Inv b topic payload l g v held
retain_if-Inv true none b topic l g v held = v
retain_if-Inv false none b topic l g v held = v
retain_if-Inv false (some payload) b topic l g v held = v

pub fan_out-Calls :
    (b topic : String) (payload : Option Json) (ids : List String) (g : Gateway)
    → Calls g (fan_out b topic payload ids g)
unfolding fan_out
fan_out-Calls b topic payload [] g = refl
fan_out-Calls b topic payload (id ∷ ids) g =
    let m = topic_message b topic payload in
    let g' = send_to_session id m g in
    Calls-trans g g' (fan_out b topic payload ids g') (send_to_session-Calls id m g)
      (fan_out-Calls b topic payload ids g')

pub handle_topic_publish-Inv :
    (peer : PeerSession) (topic : String) (payload : Option Json) (keep : Bool) (g : Gateway)
    → Inv g
    → Inv (handle_topic_publish peer topic payload keep g)
unfolding handle_topic_publish
handle_topic_publish-Inv peer topic payload keep g v = elim (Option-cases (owned_backend peer g)) [
  | inl e ↦ rw (e, handle_topic_publish) v
  | inr (b, e) ↦
      let (l, held) = owned_backend-leased peer g b e in
      let g' = retain_if keep payload b topic g in
      rw (e, handle_topic_publish)
        (subst CoreInv (sym (ap core (fan_out-Calls b topic payload (subscribers b topic g') g')))
          (retain_if-Inv keep payload b topic l g v held))
]
