-- ===== src/Http/Proxy.antt =====
-- src/server.ts, the HTTP proxy: the route `/api/proxy/:backendId/*` and `proxyViaChannel`. The
-- response of the request is named by a text, under which the gateway keeps its state.
use zclaudia_gateway.Prelude.{
  ℕ, String, true, false, leb, if◌then◌else◌, Option, none, some, [], ◌∷◌,
}
use zclaudia_gateway.Map.{get, set}
use zclaudia_gateway.RateLimit.{
  Denial, Refusal, by_ip, by_tenant, Buckets, refuse_proxy_request, retry_after, rate_window,
  deny_unauthorized,
}
use zclaudia_gateway.Storage.{CredentialInfo}
use zclaudia_gateway.State.{PeerSession, BackendLease}
use zclaudia_gateway.Gateway.{
  Gateway, Config, ChannelRecord, Role, closed, send, channel_offer, emit,
}
use zclaudia_gateway.Gateway.Hello.{resolve_token}
use zclaudia_gateway.Gateway.Scope.{can_reach}
use zclaudia_gateway.Gateway.Channels.{
  count_channels_for_peer, issue_channel_ticket, data_path, teardown_channel,
}
use zclaudia_gateway.Http.{Request, bearer_token}

-- how the route ends: the 429 of a limit with its Retry-After, 502, the 429 of too many channels,
-- or the request waits for the backend on a channel
pub data ProxyReply : Type 0 where
  refused : Denial → ProxyReply
  limited : (retry_after : ℕ) → ProxyReply
  offline : ProxyReply
  too_many_channels : ProxyReply
  bridging : (channel_id : String) → ProxyReply

-- the random values of one proxied request, and the name of its response
pub record FreshProxy : Type 0 where
  pub channel_id : String
  pub ticket : String
  pub response : String

-- the internal channel
abbrev pub internal_channel :
    FreshProxy → (backend_id : String) (epoch : ℕ) → PeerSession → ChannelRecord
internal_channel fresh backend_id epoch backend_peer = record {
  channel_id = fresh.channel_id;
  backend_id = backend_id;
  epoch = epoch;
  kind = some "http";
  client_peer_session_id = "";
  backend_peer_session_id = backend_peer.peer_session_id;
  client_socket = none;
  backend_socket = none;
  piped = false;
  ticket_tokens = fresh.ticket ∷ [];
  pairing = true;
  internal = true;
  internal_res = some fresh.response;
}

-- the channel with its ticket and response, and the offer to the backend
unfoldable pub offer_internal :
    Config
    → (now : ℕ) → FreshProxy
    → (backend_id : String) (epoch : ℕ) → PeerSession
    → Gateway
    → Gateway
unfolding issue_channel_ticket
offer_internal cfg now fresh backend_id epoch backend_peer g =
    let id = fresh.channel_id in
    let g' = issue_channel_ticket cfg fresh.ticket id Role.backend now g in
    emit (send backend_peer.ws (channel_offer id (some "http") none fresh.ticket (data_path id)))
      (record g' {
        channels = set id (internal_channel fresh backend_id epoch backend_peer) g'.channels;
        responses =
            set fresh.response (record { headers_sent = false; ended = false }) g'.responses;
      })

unfoldable pub proxy_via_channel :
    Config
    → (now : ℕ) → FreshProxy
    → (backend_id : String) (epoch : ℕ) → PeerSession
    → Gateway
    → Gateway × ProxyReply
unfolding count_channels_for_peer offer_internal
proxy_via_channel cfg now fresh backend_id epoch backend_peer g =
    if leb cfg.max_channels_per_peer (count_channels_for_peer backend_peer.peer_session_id g)
    then (g, too_many_channels)
    else (offer_internal cfg now fresh backend_id epoch backend_peer g, bridging fresh.channel_id)

-- `res.once('close')` of a proxied request, which the client's abort fires too
unfoldable pub response_closed : (channel_id : String) → Gateway → Gateway
unfolding teardown_channel
response_closed channel_id g = teardown_channel channel_id closed g

-- the backend's lease and peer, if it is online and the credential reaches it
unfoldable pub proxied_backend :
    CredentialInfo → (backend_id : String) → Gateway → Option (BackendLease × PeerSession)
unfolding can_reach
proxied_backend c backend_id g = elim (get backend_id g.state.leases) [
  | none ↦ none
  | some lease ↦ elim (get backend_id g.state.registry) [
    | none ↦ none
    | some presence ↦
        if can_reach c.namespace c.allowed_backends presence.namespace presence.backend_id
        then elim (get lease.peer_session_id g.state.peers) [
          | none ↦ none
          | some backend_peer ↦ some (lease, backend_peer)
        ]
        else none
  ]
]

-- the Retry-After of the bucket that refused
abbrev pub refused_until : ℕ → Buckets → Refusal → ℕ
unfolding retry_after
refused_until now b (by_ip ip) = retry_after now b.proxy_ip_requests ip rate_window
refused_until now b (by_tenant id) = retry_after now b.proxy_requests id rate_window

-- the route after authentication
unfoldable pub proxy_authenticated :
    Config
    → (now : ℕ) → FreshProxy
    → (backend_id : String) → Request
    → CredentialInfo
    → Gateway
    → Gateway × ProxyReply
unfolding refuse_proxy_request retry_after proxied_backend proxy_via_channel
proxy_authenticated cfg now fresh backend_id req c g =
    let (b, refusal) = refuse_proxy_request cfg.limits now g.buckets c.id req.ip in
    let g' : Gateway = record g { buckets = b } in
    elim refusal [
      | some r ↦ (g', limited (refused_until now b r))
      | none ↦ elim (proxied_backend c backend_id g') [
        | none ↦ (g', offline)
        | some (lease, backend_peer) ↦
            proxy_via_channel cfg now fresh backend_id lease.epoch backend_peer g'
      ]
    ]

-- `denyUnauthorized` for this request
abbrev deny_proxy : Config → (now : ℕ) → Request → Gateway → Gateway × ProxyReply
unfolding deny_unauthorized
deny_proxy cfg now req g =
    let (b, denial) = deny_unauthorized cfg.limits now g.buckets req.ip in
    (record g { buckets = b }, refused denial)

unfoldable pub handle_proxy :
    (cfg : Config) (hash : String → String) (now : ℕ)
    → FreshProxy
    → (backend_id : String) → Request
    → Gateway
    → Gateway × ProxyReply
unfolding bearer_token resolve_token deny_unauthorized proxy_authenticated
handle_proxy cfg hash now fresh backend_id req g = elim (bearer_token req.authorization) [
  | none ↦ deny_proxy cfg now req g
  | some token ↦
      let (s, auth) = resolve_token hash token now g.storage in
      let g' : Gateway = record g { storage = s } in
      elim auth [
        | none ↦ deny_proxy cfg now req g'
        | some c ↦ proxy_authenticated cfg now fresh backend_id req c g'
      ]
]
