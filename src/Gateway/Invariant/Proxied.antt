-- ===== src/Gateway/Invariant/Proxied.antt =====
-- The invariant when a request is proxied, and when a bridge makes its calls.
use zclaudia_gateway.Prelude.{
  ℕ, String, leb, none, some, List, [], ◌∷◌, ◌≡◌, refl, sym, ap, ◌∙◌, subst, Option-cases,
  Bool-cases, inl, inr, some-injective,
}
use zclaudia_gateway.Map.{get}
use zclaudia_gateway.RateLimit.{refuse_proxy_request}
use zclaudia_gateway.Storage.{CredentialInfo}
use zclaudia_gateway.State.{PeerSession, BackendLease}
use zclaudia_gateway.Gateway.{Gateway, Config}
use zclaudia_gateway.Gateway.Hello.{resolve_token}
use zclaudia_gateway.Gateway.Scope.{can_reach}
use zclaudia_gateway.Gateway.Channels.{count_channels_for_peer, issue_channel_ticket}
use zclaudia_gateway.Gateway.Invariant.{CoreInv, Inv, core}
use zclaudia_gateway.Gateway.Invariant.Arrival.{resolve_token-max_epoch}
use zclaudia_gateway.Gateway.Invariant.Channels.{opened-CoreInv, changed-CoreInv, teardown-Inv}
use zclaudia_gateway.Http.{Request, bearer_token}
use zclaudia_gateway.Http.Bridge.{
  BridgeCall, perform, tear_down, write, send_frame, pause_request, resume_request, pause_socket,
  resume_socket, throws, set_header, set_status, end_response, forget_response,
}
use zclaudia_gateway.Http.Proxy.{
  FreshProxy, internal_channel, offer_internal, proxy_via_channel, proxied_backend,
  proxy_authenticated, handle_proxy,
}

-- the lease and the peer that the route finds are the backend's, and belong together
abbrev Online : String → BackendLease → PeerSession → Gateway → Type 0
Online b l p g = (get b g.state.leases ≡ some l) × (get l.peer_session_id g.state.peers ≡ some p)

proxied_backend-Online :
    (c : CredentialInfo) (b : String) (g : Gateway) (l : BackendLease) (p : PeerSession)
    → proxied_backend c b g ≡ some (l, p)
    → Online b l p g
unfolding proxied_backend
proxied_backend-Online c b g l p = elim (Option-cases (get b g.state.leases)) [
  | inl e ↦ rw (e, proxied_backend) (λ h. absurd (cc))
  | inr (l', e) ↦ elim (Option-cases (get b g.state.registry)) [
    | inl f ↦ rw (e, f, proxied_backend) (λ h. absurd (cc))
    | inr (item, f) ↦
        elim (Bool-cases
          (can_reach c.namespace c.allowed_backends item.namespace item.backend_id)) [
            | inr t ↦ rw (e, f, t, proxied_backend) (λ h. absurd (cc))
            | inl t ↦ elim (Option-cases (get l'.peer_session_id g.state.peers)) [
              | inl q ↦ rw (e, f, t, q, proxied_backend) (λ h. absurd (cc))
              | inr (p', q) ↦
                  rw (e, f, t, q, proxied_backend)
                    (λ h.
                      let same = some-injective (l', p') (l, p) h in
                      (
                        ap (λ x. some x.0) same,
                        ap (λ x. get x g.state.peers) (ap (λ x. x.0.peer_session_id) (sym same))
                            ∙ (q ∙ ap (λ x. some x.1) same),
                      ))
            ]
          ]
  ]
]

proxy_via_channel-Inv :
    (cfg : Config) (now : ℕ) (fresh : FreshProxy) (b : String) (l : BackendLease) (p : PeerSession)
    (g : Gateway)
    → Online b l p g
    → Inv g
    → Inv (proxy_via_channel cfg now fresh b l.epoch p g).0
unfolding proxy_via_channel offer_internal issue_channel_ticket
proxy_via_channel-Inv cfg now fresh b l p g (held, here) v =
    elim (Bool-cases
      (leb cfg.max_channels_per_peer (count_channels_for_peer p.peer_session_id g))) [
        | inl e ↦ rw (e, proxy_via_channel) v
        | inr e ↦
            rw (e, proxy_via_channel)
              (opened-CoreInv (core g) fresh.channel_id (internal_channel fresh b l.epoch p) l v
                refl held (sym (v.peers_keyed l.peer_session_id p here), refl))
      ]

proxy_authenticated-Inv :
    (cfg : Config) (now : ℕ) (fresh : FreshProxy) (b : String) (req : Request) (c : CredentialInfo)
    (g : Gateway)
    → Inv g
    → Inv (proxy_authenticated cfg now fresh b req c g).0
unfolding proxy_authenticated
proxy_authenticated-Inv cfg now fresh b req c g v =
    let (buckets, refusal) = refuse_proxy_request cfg.limits now g.buckets c.id req.ip in
    let g' : Gateway = record g { buckets = buckets } in
    elim (Option-cases refusal) [
      | inr (r, e) ↦ rw (e, proxy_authenticated) v
      | inl e ↦ elim (Option-cases (proxied_backend c b g')) [
        | inl f ↦ rw (e, f, proxy_authenticated) v
        | inr ((l, p), f) ↦
            rw (e, f, proxy_authenticated)
              (proxy_via_channel-Inv cfg now fresh b l p g' (proxied_backend-Online c b g' l p f) v)
      ]
    ]

pub handle_proxy-Inv :
    (cfg : Config) (hash : String → String) (now : ℕ) (fresh : FreshProxy) (b : String)
    (req : Request) (g : Gateway)
    → Inv g
    → Inv (handle_proxy cfg hash now fresh b req g).0
unfolding handle_proxy
handle_proxy-Inv cfg hash now fresh b req g v =
    elim (Option-cases (bearer_token req.authorization)) [
      | inl e ↦ rw (e, handle_proxy) v
      | inr (token, e) ↦
          let s = (resolve_token hash token now g.storage).0 in
          let g' : Gateway = record g { storage = s } in
          let v' : Inv g' =
            subst (λ n. CoreInv (record (core g) { max_epoch = n }))
              (sym (resolve_token-max_epoch hash token now g.storage)) v in
          elim (Option-cases (resolve_token hash token now g.storage).1) [
            | inl f ↦ rw (e, f, handle_proxy) v'
            | inr (c, f) ↦
                rw (e, f, handle_proxy) (proxy_authenticated-Inv cfg now fresh b req c g' v')
          ]
    ]

pub perform-Inv :
    (id response : String) (calls : List BridgeCall) (g : Gateway)
    → Inv g
    → Inv (perform id response calls g)
unfolding perform
perform-Inv id response [] g v = v
perform-Inv id response (tear_down reason ∷ calls) g v =
    perform-Inv id response calls _ (teardown-Inv id reason g v)
perform-Inv id response (write bytes ∷ calls) g v = perform-Inv id response calls _ v
perform-Inv id response (end_response ∷ calls) g v = perform-Inv id response calls _ v
perform-Inv id response (forget_response ∷ calls) g v = perform-Inv id response calls _ (
    changed-CoreInv (core g) id (λ ch. record ch { internal_res = none }) v
      (λ ch. (refl, refl, refl, refl)))
perform-Inv id response (send_frame f ∷ calls) g v = perform-Inv id response calls g v
perform-Inv id response (pause_request ∷ calls) g v = perform-Inv id response calls g v
perform-Inv id response (resume_request ∷ calls) g v = perform-Inv id response calls g v
perform-Inv id response (pause_socket ∷ calls) g v = perform-Inv id response calls g v
perform-Inv id response (resume_socket ∷ calls) g v = perform-Inv id response calls g v
perform-Inv id response (throws ∷ calls) g v = perform-Inv id response calls g v
perform-Inv id response (set_header name value ∷ calls) g v = perform-Inv id response calls g v
perform-Inv id response (set_status n ∷ calls) g v = perform-Inv id response calls g v
