-- ===== src/Http/Guarded.antt =====
-- What an admin route does for a caller who is not an admin, and what the proxy asks of its caller.
use zclaudia_gateway.Prelude.{
  ℕ, ◌<◌, String, true, leb, none, some, ◌≡◌, ◌⊎◌, inl, inr, refl, sym, ap, ◌∙◌, Bool-cases,
  Option-cases, some-injective, arith,
}
use zclaudia_gateway.Map.{get}
use zclaudia_gateway.RateLimit.{Denial, Buckets, refuse_proxy_request}
use zclaudia_gateway.Storage.{CredentialInfo}
use zclaudia_gateway.State.{PeerSession, BackendLease, BackendPresence}
use zclaudia_gateway.Gateway.{Gateway, Config}
use zclaudia_gateway.Gateway.Hello.{resolve_token}
use zclaudia_gateway.Gateway.Scope.{can_reach}
use zclaudia_gateway.Gateway.Channels.{count_channels_for_peer}
use zclaudia_gateway.Http.{Request, bearer_token}
use zclaudia_gateway.Http.Access.{Admin}
use zclaudia_gateway.Http.Admin.{AdminReply, refused, untrusted_origin}
use zclaudia_gateway.Http.Proxy.{
  bridging, FreshProxy, proxied_backend, proxy_via_channel, proxy_authenticated, handle_proxy,
}

-- the answer is a refusal, and of the gateway only the rate limits' counts have changed
abbrev pub Untouched : Gateway → Gateway × AdminReply → Type 0
Untouched g (g', reply) =
    ((b : Buckets) × (g' ≡ record g { buckets = b }))
    × (((d : Denial) × (reply ≡ refused d)) ⊎ (reply ≡ untrusted_origin))

-- The credential reaches the backend, which is online with a lease and a connected peer that has
-- fewer channels than a peer may have.
abbrev pub Reachable : Config → CredentialInfo → (backend_id : String) → Gateway → Type 0
unfolding can_reach count_channels_for_peer
Reachable cfg c backend_id g =
    (lease : BackendLease) × (presence : BackendPresence) × (peer : PeerSession) × (get backend_id
        g.state.leases
      ≡ some lease)
    × (get backend_id g.state.registry ≡ some presence)
    × (can_reach c.namespace c.allowed_backends presence.namespace presence.backend_id ≡ true)
    × (get lease.peer_session_id g.state.peers ≡ some peer)
    × (count_channels_for_peer peer.peer_session_id g < cfg.max_channels_per_peer)

-- what let the request through
abbrev pub LetThrough : Config → (String → String) → ℕ → String → Request → Gateway → Type 0
unfolding Reachable resolve_token refuse_proxy_request
LetThrough cfg hash now backend_id req g =
    (token : String) × (c : CredentialInfo) × (bearer_token req.authorization ≡ some token)
    × ((resolve_token hash token now g.storage).1 ≡ some c)
    × ((refuse_proxy_request cfg.limits now g.buckets c.id req.ip).1 ≡ none)
    × Reachable cfg c backend_id g

has_room :
    (cfg : Config) (now : ℕ) (fresh : FreshProxy) (backend_id id : String) (epoch : ℕ)
    (peer : PeerSession) (g : Gateway)
    → (proxy_via_channel cfg now fresh backend_id epoch peer g).1 ≡ bridging id
    → count_channels_for_peer peer.peer_session_id g < cfg.max_channels_per_peer
unfolding proxy_via_channel
has_room cfg now fresh backend_id id epoch peer g =
    elim (Bool-cases
      (leb cfg.max_channels_per_peer (count_channels_for_peer peer.peer_session_id g))) [
        | inl e ↦ rw (e, proxy_via_channel) (λ h. absurd (cc))
        | inr e ↦ λ h. ground arith
      ]

found_backend :
    (c : CredentialInfo) (backend_id : String) (g : Gateway) (lease : BackendLease)
    (peer : PeerSession)
    → proxied_backend c backend_id g ≡ some (lease, peer)
    → (get backend_id g.state.leases ≡ some lease)
      × ((presence : BackendPresence) × (get backend_id g.state.registry ≡ some presence)
          × (can_reach c.namespace c.allowed_backends presence.namespace presence.backend_id
              ≡ true))
      × (get lease.peer_session_id g.state.peers ≡ some peer)
unfolding proxied_backend
found_backend c backend_id g lease peer = elim (Option-cases (get backend_id g.state.leases)) [
  | inl e ↦ rw (e, proxied_backend) (λ h. absurd (cc))
  | inr (l, e) ↦ elim (Option-cases (get backend_id g.state.registry)) [
    | inl f ↦ rw (e, f, proxied_backend) (λ h. absurd (cc))
    | inr (p, f) ↦
        elim (Bool-cases (can_reach c.namespace c.allowed_backends p.namespace p.backend_id)) [
          | inr t ↦ rw (e, f, t, proxied_backend) (λ h. absurd (cc))
          | inl t ↦ elim (Option-cases (get l.peer_session_id g.state.peers)) [
            | inl u ↦ rw (e, f, t, u, proxied_backend) (λ h. absurd (cc))
            | inr (q, u) ↦
                rw (e, f, t, u, proxied_backend)
                  (λ h.
                    let same = some-injective (l, q) (lease, peer) h in
                    (
                      ap (λ x. some x.0) same,
                      (p, refl, t),
                      ap (λ x. get x.0.peer_session_id g.state.peers) (sym same)
                          ∙ (u ∙ ap (λ x. some x.1) same),
                    ))
          ]
        ]
  ]
]

authenticated_through :
    (cfg : Config) (now : ℕ) (fresh : FreshProxy) (backend_id id : String) (req : Request)
    (c : CredentialInfo) (g : Gateway)
    → (proxy_authenticated cfg now fresh backend_id req c g).1 ≡ bridging id
    → ((refuse_proxy_request cfg.limits now g.buckets c.id req.ip).1 ≡ none)
      × Reachable cfg c backend_id g
unfolding proxy_authenticated Reachable
authenticated_through cfg now fresh backend_id id req c g =
    let g' : Gateway = record g {
      buckets = (refuse_proxy_request cfg.limits now g.buckets c.id req.ip).0;
    } in
    elim (Option-cases (refuse_proxy_request cfg.limits now g.buckets c.id req.ip).1) [
      | inr (r, e) ↦ rw (e, proxy_authenticated) (λ h. absurd (cc))
      | inl e ↦ elim (Option-cases (proxied_backend c backend_id g')) [
        | inl f ↦ rw (e, f, proxy_authenticated) (λ h. absurd (cc))
        | inr ((lease, peer), f) ↦
            rw (e, f, proxy_authenticated)
              (λ h.
                let (at_lease, (presence, online, reached), at_peer) =
                  found_backend c backend_id g' lease peer f in
                (
                  refl,
                  (
                    lease,
                    presence,
                    peer,
                    at_lease,
                    online,
                    reached,
                    at_peer,
                    has_room cfg now fresh backend_id id lease.epoch peer g' h,
                  ),
                ))
      ]
    ]

-- A proxied request gets a channel to a backend only if it carries a bearer token that resolves to a
-- credential, neither the limit of this credential nor that of the request's address refuses it, and
-- the credential reaches the backend, which is online with a lease and a connected peer that has
-- fewer channels than a peer may have.
pub handle_proxy-LetThrough :
    (cfg : Config) (hash : String → String) (now : ℕ) (fresh : FreshProxy) (backend_id id : String)
    (req : Request) (g : Gateway)
    → (handle_proxy cfg hash now fresh backend_id req g).1 ≡ bridging id
    → LetThrough cfg hash now backend_id req g
unfolding handle_proxy LetThrough Reachable
handle_proxy-LetThrough cfg hash now fresh backend_id id req g =
    elim (Option-cases (bearer_token req.authorization)) [
      | inl e ↦ rw (e, handle_proxy) (λ h. absurd (cc))
      | inr (token, e) ↦
          let resolved = resolve_token hash token now g.storage in
          elim (Option-cases resolved.1) [
            | inl f ↦ rw (e, f, handle_proxy) (λ h. absurd (cc))
            | inr (c, f) ↦
                rw (e, f, handle_proxy)
                  (λ h.
                    let g' : Gateway = record g { storage = resolved.0 } in
                    let (within, there) =
                      authenticated_through cfg now fresh backend_id id req c g' h in
                    (token, c, refl, f, within, there))
          ]
    ]
