-- ===== src/Gateway/Invariant/Channels.antt =====
-- The invariant when a channel is opened, dialled, paired or torn down.
use zclaudia_gateway.Prelude.{
  ℕ, String, Bool, true, false, not, leb, nat_eq, ◌==◌, ◌&&◌, if◌then◌else◌, Option, none, some, [],
  ◌∷◌, ◌≡◌, refl, sym, ap, ◌∙◌, subst, Option-cases, Bool-cases, inl, inr, some-injective,
}
use zclaudia_gateway.Map.{get, set, has, update}
use zclaudia_gateway.Map.Laws.{set_found, set-Distinct, update_found, map_entries-Distinct}
use zclaudia_gateway.State.{PeerSession, BackendLease}
use zclaudia_gateway.Gateway.{Gateway, Config, ChannelRecord, ClosedReason, Role, rejected, timeout}
use zclaudia_gateway.Gateway
use zclaudia_gateway.Gateway.Scope.{peer_reaches}
use zclaudia_gateway.Gateway.Channels.{
  FreshChannel, reachable_backend, count_channels_for_peer, issue_channel_ticket, opened,
  handle_channel_open, teardown_channel, handle_channel_reject, handle_channel_close,
  handle_channel_upgrade, is_end_of, take_ticket, ticket_fits, attach_socket, with_socket, paired,
  complete, pairing_timeout,
}
use zclaudia_gateway.Gateway.Frame.{teardown-Closes, teardown-Distinct, get-teardown}
use zclaudia_gateway.Gateway.Invariant.{Core, CoreInv, Inv, core, closed-CoreInv}

-- A channel of a lease's backend, owner and epoch is added.
pub opened-CoreInv :
    (c : Core) (id : String) (ch : ChannelRecord) (l : BackendLease)
    → CoreInv c
    → ch.channel_id ≡ id
    → get ch.backend_id c.leases ≡ some l
    → (l.peer_session_id ≡ ch.backend_peer_session_id) × (l.epoch ≡ ch.epoch)
    → CoreInv (record c { channels = set id ch c.channels })
opened-CoreInv c id ch l v k held (p, q) = record {
  channels_distinct = set-Distinct id ch c.channels v.channels_distinct;
  peers_keyed = v.peers_keyed;
  owners = v.owners;
  leased = v.leased;
  registered = v.registered;
  listed = v.listed;
  epochs = v.epochs;
  current = λ j d h. elim (set_found id j ch c.channels d h) [
    | inl (same, e) ↦ (
      ap (λ x. x.channel_id) (sym e) ∙ (k ∙ same),
      (
        l,
        ap (λ x. get x.backend_id c.leases) (sym e) ∙ held,
        p ∙ ap (λ x. x.backend_peer_session_id) e,
        q ∙ ap (λ x. x.epoch) e,
      ),
    )
    | inr (_, f) ↦ v.current j d f
  ];
  subscribed = v.subscribed;
  retained = v.retained;
}

-- what an update of a channel keeps
abbrev Keeps : (ChannelRecord → ChannelRecord) → Type 0
Keeps f =
    (ch : ChannelRecord)
    → ((f ch).channel_id ≡ ch.channel_id)
      × ((f ch).backend_id ≡ ch.backend_id)
      × ((f ch).backend_peer_session_id ≡ ch.backend_peer_session_id)
      × ((f ch).epoch ≡ ch.epoch)

-- A channel is changed, but not its identity.
pub changed-CoreInv :
    (c : Core) (id : String) (f : ChannelRecord → ChannelRecord)
    → CoreInv c
    → Keeps f
    → CoreInv (record c { channels = update id f c.channels })
changed-CoreInv c id f v keeps = record {
  channels_distinct =
      map_entries-Distinct (λ i ch. if i == id then f ch else ch) c.channels v.channels_distinct;
  peers_keyed = v.peers_keyed;
  owners = v.owners;
  leased = v.leased;
  registered = v.registered;
  listed = v.listed;
  epochs = v.epochs;
  current = λ j d h. elim (update_found id j f c.channels d h) [
    | inl (_, (ch, g, e)) ↦
        let (k, (l, held, p, q)) = v.current j ch g in
        let (k', b', p', q') = keeps ch in
        (
          ap (λ x. x.channel_id) (sym e) ∙ (k' ∙ k),
          (
            l,
            ap (λ x. get x c.leases) (ap (λ x. x.backend_id) (sym e) ∙ b') ∙ held,
            p ∙ (sym p' ∙ ap (λ x. x.backend_peer_session_id) e),
            q ∙ (sym q' ∙ ap (λ x. x.epoch) e),
          ),
        )
    | inr (_, g) ↦ v.current j d g
  ];
  subscribed = v.subscribed;
  retained = v.retained;
}

pub teardown-Inv :
    (id : String) (reason : ClosedReason) (g : Gateway) → Inv g → Inv (teardown_channel id reason g)
teardown-Inv id reason g v =
    let chans = (teardown_channel id reason g).channels in
    subst CoreInv
      (sym (ap (λ x. record (core x) { channels = chans }) (teardown-Closes id reason g)))
      (closed-CoreInv (core g) chans v (teardown-Distinct id reason g v.channels_distinct)
        (λ j ch h. still (id == j) (get j g.channels) ch (sym (get-teardown id j reason g) ∙ h)))
  where
    still :
        (b : Bool) (o : Option ChannelRecord) (ch : ChannelRecord)
        → (if b then none else o) ≡ some ch
        → o ≡ some ch
    still true o ch e = absurd (cc)
    still false o ch e = e

-- The lease that `handleChannelOpen` finds is the lease of the backend.
pub reachable_backend-leased :
    (peer backend_peer : PeerSession) (target : String) (g : Gateway) (l : BackendLease)
    → reachable_backend peer target g ≡ some (l, backend_peer)
    → get target g.state.leases ≡ some l
unfolding reachable_backend
reachable_backend-leased peer backend_peer target g l =
    elim (Option-cases (get target g.state.registry)) [
      | inl e ↦ rw (e, reachable_backend) (λ h. absurd (cc))
      | inr (presence, e) ↦ elim (Option-cases (get target g.state.leases)) [
        | inl f ↦ rw (e, f, reachable_backend) (λ h. absurd (cc))
        | inr (lease, f) ↦ elim (Option-cases (get lease.peer_session_id g.state.peers)) [
          | inl k ↦ rw (e, f, k, reachable_backend) (λ h. absurd (cc))
          | inr (owner, k) ↦ elim (Bool-cases (peer_reaches peer presence)) [
            | inl t ↦
                rw (e, f, k, t, reachable_backend)
                  (λ h. ap some (ap (λ x. x.0) (some-injective (lease, owner) (l, backend_peer) h)))
            | inr t ↦ rw (e, f, k, t, reachable_backend) (λ h. absurd (cc))
          ]
        ]
      ]
    ]

-- When a channel is opened, the invariant stays.
pub handle_channel_open-Inv :
    (cfg : Config) (now : ℕ) (fresh : FreshChannel) (peer : PeerSession) (target : String)
    (kind : Option String) (g : Gateway)
    → Inv g
    → Inv (handle_channel_open cfg now fresh peer target kind g)
unfolding handle_channel_open issue_channel_ticket opened
handle_channel_open-Inv cfg now fresh peer target kind g v =
    elim (Bool-cases (nat_eq peer.protocol_version 4)) [
      | inr e ↦ rw (e, handle_channel_open) v
      | inl e ↦ elim (Option-cases (reachable_backend peer target g)) [
        | inl f ↦ rw (e, f, handle_channel_open) v
        | inr ((l, backend_peer), f) ↦
            elim (Bool-cases
              (leb cfg.max_channels_per_peer (count_channels_for_peer peer.peer_session_id g))) [
                | inl t ↦ rw (e, f, t, handle_channel_open) v
                | inr t ↦
                    rw (e, f, t, handle_channel_open)
                      (opened-CoreInv (core g) fresh.channel_id
                        (record {
                          channel_id = fresh.channel_id;
                          backend_id = target;
                          epoch = l.epoch;
                          kind = kind;
                          client_peer_session_id = peer.peer_session_id;
                          backend_peer_session_id = l.peer_session_id;
                          client_socket = none;
                          backend_socket = none;
                          piped = false;
                          ticket_tokens = fresh.client_ticket ∷ fresh.backend_ticket ∷ [];
                          pairing = true;
                          internal = false;
                          internal_res = none;
                        })
                        l v refl (reachable_backend-leased peer backend_peer target g l f)
                        (refl, refl))
              ]
      ]
    ]

pub handle_channel_reject-Inv :
    (peer : PeerSession) (id : String) (g : Gateway) → Inv g → Inv (handle_channel_reject peer id g)
unfolding handle_channel_reject
handle_channel_reject-Inv peer id g v = elim (Option-cases (get id g.channels)) [
  | inl e ↦ rw (e, handle_channel_reject) v
  | inr (ch, e) ↦ elim (Bool-cases (ch.backend_peer_session_id == peer.peer_session_id)) [
    | inl f ↦ rw (e, f, handle_channel_reject) (teardown-Inv id rejected g v)
    | inr f ↦ rw (e, f, handle_channel_reject) v
  ]
]

pub handle_channel_close-Inv :
    (peer : PeerSession) (id : String) (g : Gateway) → Inv g → Inv (handle_channel_close peer id g)
unfolding handle_channel_close
handle_channel_close-Inv peer id g v = elim (Option-cases (get id g.channels)) [
  | inl e ↦ rw (e, handle_channel_close) v
  | inr (ch, e) ↦ elim (Bool-cases (is_end_of peer.peer_session_id ch)) [
    | inl f ↦ rw (e, f, handle_channel_close) (teardown-Inv id ClosedReason.closed g v)
    | inr f ↦ rw (e, f, handle_channel_close) v
  ]
]

pub pairing_timeout-Inv : (id : String) (g : Gateway) → Inv g → Inv (pairing_timeout id g)
unfolding pairing_timeout
pairing_timeout-Inv id g v = elim (Option-cases (get id g.channels)) [
  | inl e ↦ rw (e, pairing_timeout) v
  | inr (ch, e) ↦ elim (Bool-cases ch.pairing) [
    | inl f ↦ rw (e, f, pairing_timeout) (teardown-Inv id timeout g v)
    | inr f ↦ rw (e, f, pairing_timeout) v
  ]
]

take_ticket-core :
    (now : ℕ) (id token : String) (g : Gateway) → core (take_ticket now id token g).0 ≡ core g
unfolding take_ticket
take_ticket-core now id token g = elim (Option-cases (get token g.channel_tickets)) [
  | inl e ↦ rw (e, take_ticket) refl
  | inr (t, e) ↦ elim (Bool-cases (has id g.channels && ticket_fits now id t)) [
    | inl f ↦ rw (e, f, take_ticket) refl
    | inr f ↦ rw (e, f, take_ticket) refl
  ]
]

with_socket-Keeps : (role : Role) (ws : String) → Keeps (with_socket role ws)
with_socket-Keeps Role.client ws ch = (refl, refl, refl, refl)
with_socket-Keeps Role.backend ws ch = (refl, refl, refl, refl)

paired-Inv :
    (id : String) (g : Gateway)
    → Inv g
    → CoreInv (record (core g) { channels = update id paired g.channels })
paired-Inv id g v = changed-CoreInv (core g) id paired v (λ ch. (refl, refl, refl, refl))

complete-Inv :
    (ch : ChannelRecord) (a b : Option String) (g : Gateway) → Inv g → Inv (complete ch a b g)
complete-Inv ch a none g v = v
complete-Inv ch none (some b) g v = elim (Bool-cases (ch.internal && not ch.piped)) [
  | inl e ↦ rw e (paired-Inv ch.channel_id g v)
  | inr e ↦ rw e v
]
complete-Inv ch (some a) (some b) g v = elim (Bool-cases ch.piped) [
  | inl e ↦ rw e v
  | inr e ↦ rw e (elim (Bool-cases ch.internal) [
    | inl f ↦ rw f (paired-Inv ch.channel_id g v)
    | inr f ↦ rw f (paired-Inv ch.channel_id g v)
  ])
]

attach_socket-Inv :
    (id ws : String) (role : Role) (g : Gateway) → Inv g → Inv (attach_socket id ws role g)
unfolding attach_socket
attach_socket-Inv id ws role g v = elim (Option-cases (get id g.channels)) [
  | inl e ↦ rw (e, attach_socket) v
  | inr (ch, e) ↦
      let ch' = with_socket role ws ch in
      rw (e, attach_socket)
        (complete-Inv ch' ch'.client_socket ch'.backend_socket
          (Gateway.emit (Gateway.pause ws)
            (record g { channels = update id (with_socket role ws) g.channels }))
          (changed-CoreInv (core g) id (with_socket role ws) v (with_socket-Keeps role ws)))
]

-- When a data socket dials a channel, with whatever ticket, the invariant stays.
pub handle_channel_upgrade-Inv :
    (now : ℕ) (id token ws : String) (g : Gateway)
    → Inv g
    → Inv (handle_channel_upgrade now id token ws g)
unfolding handle_channel_upgrade
handle_channel_upgrade-Inv now id token ws g v =
    let g' = (take_ticket now id token g).0 in
    let v' : Inv g' = subst CoreInv (sym (take_ticket-core now id token g)) v in
    elim (Option-cases (take_ticket now id token g).1) [
      | inl e ↦ rw (e, handle_channel_upgrade) v'
      | inr (role, e) ↦ rw (e, handle_channel_upgrade) (attach_socket-Inv id ws role g' v')
    ]
