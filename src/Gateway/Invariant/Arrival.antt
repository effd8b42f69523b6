-- ===== src/Gateway/Invariant/Arrival.antt =====
-- The invariant when a hello is handled (`handlePeerHello`): a peer comes, with a backend or without.
use zclaudia_gateway.Prelude.{
  ℕ, ◌+◌, ◌≤◌, String, Option, none, some, ◌≡◌, refl, sym, ap, ◌∙◌, subst, arith, Option-cases,
  Bool-cases, inl, inr, get_or,
}
use zclaudia_gateway.Map.{get, set}
use zclaudia_gateway.Map.Laws.{get-set_self, get-set_ne, get-delete_ne}
use zclaudia_gateway.Validation.Hello.{PeerHello, BackendInfo}
use zclaudia_gateway.Storage.{Storage, CredentialInfo, allocate_epoch}
use zclaudia_gateway.Storage.Credentials.{find_valid_credential, get_credential_by_hash, is_valid}
use zclaudia_gateway.Storage.Identities.{
  get_or_create_backend_id, touch_backend_identity, backend_identity_key,
}
use zclaudia_gateway.State.{
  PeerSession, BackendLease, BackendPresence, add_peer, add_lease, registry_upsert,
}
use zclaudia_gateway.RateLimit.{record_auth_failure}
use zclaudia_gateway.Gateway.{Gateway, Config, send, emit, peer_ready}
use zclaudia_gateway.Gateway.Scope.{visible_registry, broadcast_registry_snapshot}
use zclaudia_gateway.Gateway.Hello.{
  FreshPeer, handle_peer_hello, accept_hello, admit_peer, broadcast_if, backend_part,
  register_backend, new_peer, presence_of, replace_owner, resolve_token, is_credential_token,
  resolve_backend_identity, fail_authentication, refusal, session_backend,
}
use zclaudia_gateway.Gateway.Frame.{broadcast-Calls}
use zclaudia_gateway.Gateway.Invariant.{Core, CoreInv, Inv, core}
use zclaudia_gateway.Gateway.Invariant.Registration.{registered-CoreInv, added-CoreInv}
use zclaudia_gateway.Gateway.Invariant.Replacement.{Ready, unlisted, replace_owner-Ready}

broadcast_if-core :
    (b : Option String) (id : String) (g : Gateway) → core (broadcast_if b id g) ≡ core g
unfolding broadcast_if broadcast_registry_snapshot
broadcast_if-core none id g = refl
broadcast_if-core (some b) id g = ap core (broadcast-Calls (some id) g)

-- what `admit_peer` adds
pub admit_peer-core :
    (p : PeerSession) (g : Gateway)
    → core (admit_peer p g) ≡ record (core g) { peers = set p.peer_session_id p g.state.peers }
unfolding admit_peer add_peer
admit_peer-core p g =
    let g₁ : Gateway = record g {
      state = add_peer p g.state;
      recovery_tokens = set p.recovery_token p.peer_session_id g.recovery_tokens;
    } in
    let ready =
      peer_ready p.peer_session_id p.recovery_token
        (backend_part g.state.default_lease_ttl_ms p.backend_id p.epoch)
        (visible_registry g₁.state p) in
    broadcast_if-core p.backend_id p.peer_session_id (emit (send p.ws ready) g₁)

pub resolve_token-max_epoch :
    (hash : String → String) (token : String) (now : ℕ) (s : Storage)
    → (resolve_token hash token now s).0.max_epoch ≡ s.max_epoch
unfolding resolve_token find_valid_credential
resolve_token-max_epoch hash token now s = elim (Bool-cases (is_credential_token token)) [
  | inr e ↦ rw e refl
  | inl e ↦ elim (Option-cases (get_credential_by_hash (hash token) s)) [
    | inl n ↦ rw (e, n, find_valid_credential) refl
    | inr (c, f) ↦
        rw (e, f, find_valid_credential)
          (elim (Bool-cases (is_valid now s c)) [ inl t ↦ rw t refl | inr t ↦ rw t refl ])
  ]
]

get_or_create-max_epoch :
    (namespace instance_id environment : String) (name : Option String) (uuid : String) (now : ℕ)
    (s : Storage)
    → (get_or_create_backend_id namespace instance_id environment name uuid now s).0.max_epoch
      ≡ s.max_epoch
unfolding get_or_create_backend_id
get_or_create-max_epoch namespace instance_id environment name uuid now s =
    let key = backend_identity_key namespace instance_id environment in
    elim (Option-cases (get key s.backend_identities)) [
      | inl e ↦ rw (e, get_or_create_backend_id) refl
      | inr (i, e) ↦ rw (e, get_or_create_backend_id) refl
    ]

resolve_backend_identity-max_epoch :
    (credential : CredentialInfo) (hello : PeerHello) (channel uuid : String) (now : ℕ)
    (s : Storage)
    → (resolve_backend_identity credential hello.namespace hello.identity channel uuid now
        s).0.max_epoch
      ≡ s.max_epoch
unfolding resolve_backend_identity
resolve_backend_identity-max_epoch credential hello channel uuid now s =
    elim (Option-cases credential.backend_id) [
      | inr (b, e) ↦ rw (e, resolve_backend_identity) refl
      | inl e ↦
          rw (e, resolve_backend_identity)
            (get_or_create-max_epoch hello.namespace (get_or "" hello.identity.instance_id) channel
              hello.identity.name uuid now s)
    ]

-- the counter may be ahead
ahead-CoreInv :
    (c : Core) (n : ℕ) → CoreInv c → c.max_epoch ≤ n → CoreInv (record c { max_epoch = n })
ahead-CoreInv c n v m = record {
  channels_distinct = v.channels_distinct;
  peers_keyed = v.peers_keyed;
  owners = v.owners;
  leased = v.leased;
  registered = v.registered;
  listed = v.listed;
  epochs = λ b l h. omega (arith, m, v.epochs b l h);
  current = v.current;
  subscribed = v.subscribed;
  retained = v.retained;
}

-- A gateway that is ready takes the new owner.
Ready-CoreInv :
    (g : Gateway) (b : String) (p : PeerSession) (lease : BackendLease) (item : BackendPresence)
    → Ready g b p.peer_session_id lease.epoch
    → (p.backend_id ≡ some b) × (p.epoch ≡ some lease.epoch)
    → (lease.backend_id ≡ b) × (lease.peer_session_id ≡ p.peer_session_id)
    → (item.backend_id ≡ b) × (item.epoch ≡ lease.epoch)
    → CoreInv (record (core g) {
      peers = set p.peer_session_id p g.state.peers;
      leases = set b lease g.state.leases;
      registry = set b item g.state.registry;
    })
Ready-CoreInv g b p lease item r is_owner is_lease is_item =
    let c = unlisted b (core g) in
    let with_epoch = λ (n : ℕ). CoreInv (record (core g) {
      peers = set p.peer_session_id p g.state.peers;
      leases = set b lease g.state.leases;
      registry = set b item g.state.registry;
      max_epoch = n;
    }) in
    subst with_epoch (sym r.last_epoch) (
      registered-CoreInv c r.unlisted_inv p lease item (set b item g.state.registry) b r.free r.new
        is_owner is_lease is_item (omega (arith, r.last_epoch))
        (get-set_self b item g.state.registry)
        (λ j n.
          get-set_ne b j item g.state.registry n ∙ sym (get-delete_ne b j g.state.registry n)))

module _ (now : ℕ) (ws : String) (fresh : FreshPeer) (credential : CredentialInfo)
    (hello : PeerHello) (g : Gateway) (v : Inv g)
    (new : get fresh.peer_session_id g.state.peers ≡ none) where
  -- The registration leaves the gateway so that adding the peer restores the invariant.
  registered :
      (info : BackendInfo)
      → (let (g', p) =
            register_backend now fresh credential hello info
              (new_peer ws fresh credential hello)
              g in
          CoreInv (record (core g') { peers = set p.peer_session_id p g'.state.peers }))
  unfolding register_backend new_peer presence_of add_lease registry_upsert touch_backend_identity
      allocate_epoch
  registered info =
      let peer = new_peer ws fresh credential hello in
      let (s₁, b) =
        resolve_backend_identity credential hello.namespace hello.identity peer.channel
          fresh.backend_uuid now g.storage in
      let same =
        resolve_backend_identity-max_epoch credential hello peer.channel fresh.backend_uuid now
          g.storage in
      let epoch = s₁.max_epoch + 1 in
      let g₁ : Gateway = record g { storage = record s₁ { max_epoch = epoch } } in
      let g₂ = replace_owner b fresh.peer_session_id epoch now (get b g.state.leases) g₁ in
      let ahead = ahead-CoreInv (core g) epoch v (omega (arith, same)) in
      Ready-CoreInv g₂ b (record peer { backend_id = some b; epoch = some epoch })
        (record {
          backend_id = b;
          epoch = epoch;
          peer_session_id = fresh.peer_session_id;
          lease_ttl_ms = g.state.default_lease_ttl_ms;
          last_heartbeat_at = now;
        })
        (presence_of peer info b epoch now)
        (replace_owner-Ready b fresh.peer_session_id epoch now g₁ ahead new) (refl, refl)
        (refl, refl) (refl, refl)

  accept_hello-Inv : Inv (accept_hello ws now fresh credential hello g)
  unfolding accept_hello new_peer
  accept_hello-Inv = elim (Option-cases (session_backend hello.peer_type hello.backend)) [
    | inl e ↦
        let p = new_peer ws fresh credential hello in
        rw (e, accept_hello)
          (subst CoreInv (sym (admit_peer-core p g))
            (added-CoreInv (core g) v fresh.peer_session_id p new refl refl))
    | inr (info, e) ↦
        let (g', p) =
          register_backend now fresh credential hello info (new_peer ws fresh credential hello) g in
        rw (e, accept_hello) (subst CoreInv (sym (admit_peer-core p g')) (registered info))
  ]

fail_authentication-core :
    (cfg : Config) (ws : String) (now : ℕ) (ip : String) (g : Gateway)
    → core (fail_authentication cfg ws now ip g) ≡ core g
unfolding fail_authentication
fail_authentication-core cfg ws now ip g =
    elim (Bool-cases (record_auth_failure cfg.limits now g.buckets ip).1) [
      | inl e ↦ rw e refl
      | inr e ↦ rw e refl
    ]

-- When a hello is handled with a session id that no peer has, in any state that satisfies the
-- invariant, the state after `handlePeerHello` satisfies it, whether the hello is refused, adds a
-- client, registers a free backend or takes a backend over from its owner.
pub handle_peer_hello-Inv :
    (cfg : Config) (hash : String → String) (ws ip : String) (now : ℕ) (fresh : FreshPeer)
    (hello : PeerHello) (g : Gateway)
    → get fresh.peer_session_id g.state.peers ≡ none
    → Inv g
    → Inv (handle_peer_hello cfg hash ws ip now fresh hello g).0
unfolding handle_peer_hello
handle_peer_hello-Inv cfg hash ws ip now fresh hello g new v =
    let (s, auth) = resolve_token hash hello.gateway_secret now g.storage in
    let g₁ : Gateway = record g { storage = s } in
    let v₁ : Inv g₁ =
      subst (λ n. CoreInv (record (core g) { max_epoch = n }))
        (sym (resolve_token-max_epoch hash hello.gateway_secret now g.storage)) v in
    elim (Option-cases auth) [
      | inl e ↦
          rw (e, handle_peer_hello)
            (subst CoreInv (sym (fail_authentication-core cfg ws now ip g₁)) v₁)
      | inr (credential, e) ↦ elim (Option-cases (refusal credential hello)) [
        | inr (why, f) ↦ rw (e, handle_peer_hello, f) v₁
        | inl f ↦
            rw (e, handle_peer_hello, f) (accept_hello-Inv now ws fresh credential hello g₁ v₁ new)
      ]
    ]
