-- ===== src/Gateway/Channels.antt =====
-- src/server.ts, Channels: tickets, opening, dialling and pairing, teardown. The relay of frames
-- between two paired sockets is the action `relay`.
use zclaudia_gateway.Prelude.{
  ℕ, suc, ◌+◌, String, Bool, true, false, not, ltb, leb, nat_eq, ◌==◌, ◌<>◌, ◌&&◌, ◌||◌,
  if◌then◌else◌, Option, none, some, List, [], ◌∷◌,
}
use zclaudia_gateway.Map.{Map, get, set, delete, values, keep, has, update}
use zclaudia_gateway.State.{PeerSession, BackendLease}
use zclaudia_gateway.Gateway.{
  Gateway, Config, Ticket, ChannelRecord, Role, ClosedReason, send, respond, destroy_response,
  close_data_socket, channel_closed, channel_ready, channel_offer, gateway_error, invalid_message,
  backend_offline, rate_limited, closed, rejected, timeout, emit, send_to_session, reject_upgrade,
  terminate, pause, resume, bridge, relay, ResponseState,
}
use zclaudia_gateway.Gateway.Scope.{peer_reaches}

unfoldable pub issue_channel_ticket :
    Config → (token channel_id : String) → Role → ℕ → Gateway → Gateway
issue_channel_ticket cfg token channel_id role now g = record g {
  channel_tickets =
      set token
        (record {
          channel_id = channel_id;
          role = role;
          expires_at = now + cfg.channel_ticket_ttl_ms;
        })
        g.channel_tickets;
}

abbrev pub is_end_of : String → ChannelRecord → Bool
is_end_of id c = (c.client_peer_session_id == id) || (c.backend_peer_session_id == id)

unfoldable pub count_channels_from : String → List ChannelRecord → ℕ
count_channels_from id [] = 0
count_channels_from id (c ∷ cs) =
    let rest = count_channels_from id cs in if is_end_of id c then suc rest else rest

unfoldable pub count_channels_for_peer : String → Gateway → ℕ
unfolding count_channels_from
count_channels_for_peer id g = count_channels_from id (values g.channels)

unfoldable pub delete_tickets : List String → Map Ticket → Map Ticket
delete_tickets [] m = m
delete_tickets (t ∷ ts) m = delete_tickets ts (delete t m)

abbrev pub is_timeout : ClosedReason → Bool
is_timeout timeout = true
is_timeout _ = false

-- the teardown's reason on the HTTP response of an internal channel
abbrev pub fail_with : ClosedReason → String → ResponseState → Gateway → Gateway
fail_with reason res state g =
    if not state.headers_sent
    then emit
        (if is_timeout reason
          then respond res 504 "GATEWAY_TIMEOUT"
          else respond res 502 "BACKEND_OFFLINE")
        (record g {
          responses = set res (record { headers_sent = true; ended = true }) g.responses;
        })
    else if not state.ended
    then emit (destroy_response res) (record g {
      responses = set res (record { headers_sent = true; ended = true }) g.responses;
    })
    else g

unfoldable pub fail_response : ClosedReason → Option String → Gateway → Gateway
fail_response reason none g = g
fail_response reason (some res) g = elim (get res g.responses) [
  | none ↦ g
  | some state ↦ fail_with reason res state g
]

unfoldable pub close_socket : Option String → ClosedReason → Gateway → Gateway
close_socket none reason g = g
close_socket (some ws) reason g = emit (close_data_socket ws reason) g

unfoldable pub teardown_channel : String → ClosedReason → Gateway → Gateway
unfolding delete_tickets fail_response close_socket send_to_session
teardown_channel channel_id reason g = elim (get channel_id g.channels) [
  | none ↦ g
  | some ch ↦
      let g₁ : Gateway = record g {
        channels = delete channel_id g.channels;
        channel_tickets = delete_tickets ch.ticket_tokens g.channel_tickets;
      } in
      let g₂ = fail_response reason ch.internal_res g₁ in
      let g₃ = close_socket ch.backend_socket reason (close_socket ch.client_socket reason g₂) in
      let message = channel_closed channel_id reason in
      send_to_session ch.backend_peer_session_id message
        (send_to_session ch.client_peer_session_id message g₃)
]

-- the loops that tear down the channels which pass a test, over a copy of the values
unfoldable pub teardown_where :
    (ChannelRecord → Bool) → ClosedReason → List ChannelRecord → Gateway → Gateway
unfolding teardown_channel
teardown_where test reason [] g = g
teardown_where test reason (c ∷ cs) g =
    teardown_where test reason cs (if test c then teardown_channel c.channel_id reason g else g)

unfoldable pub close_channels_for_backend : String → ClosedReason → Gateway → Gateway
unfolding teardown_where
close_channels_for_backend backend_id reason g =
    teardown_where (λ c. c.backend_id == backend_id) reason (values g.channels) g

unfoldable pub close_channels_for_peer : String → Gateway → Gateway
unfolding teardown_where
close_channels_for_peer id g = teardown_where (is_end_of id) closed (values g.channels) g

-- the random values of one `channel_open`
pub record FreshChannel : Type 0 where
  pub channel_id : String
  pub client_ticket : String
  pub backend_ticket : String

abbrev pub data_path : String → String
data_path channel_id = "/channel/" <> channel_id

unfoldable pub opened :
    (cfg : Config) (now : ℕ) (fresh : FreshChannel) (kind : Option String) (target : String)
    → PeerSession
    → BackendLease
    → PeerSession
    → Gateway
    → Gateway
unfolding issue_channel_ticket
opened cfg now fresh kind target peer lease backend_peer g =
    let id = fresh.channel_id in
    let g₁ = issue_channel_ticket cfg fresh.client_ticket id Role.client now g in
    let g₂ = issue_channel_ticket cfg fresh.backend_ticket id Role.backend now g₁ in
    let ch : ChannelRecord = record {
      channel_id = id;
      backend_id = target;
      epoch = lease.epoch;
      kind = kind;
      client_peer_session_id = peer.peer_session_id;
      backend_peer_session_id = lease.peer_session_id;
      client_socket = none;
      backend_socket = none;
      piped = false;
      ticket_tokens = fresh.client_ticket ∷ fresh.backend_ticket ∷ [];
      pairing = true;
      internal = false;
      internal_res = none;
    } in
    emit (send peer.ws (channel_ready id fresh.client_ticket (data_path id))) (
      emit
        (send backend_peer.ws
          (channel_offer id kind (some peer.peer_session_id) fresh.backend_ticket (data_path id)))
        (record g₂ { channels = set id ch g₂.channels }))

-- the backend that `handleChannelOpen` finds online and reachable: its lease and its peer
unfoldable pub reachable_backend :
    PeerSession → String → Gateway → Option (BackendLease × PeerSession)
reachable_backend peer target g = elim (get target g.state.registry) [
  | none ↦ none
  | some presence ↦ elim (get target g.state.leases) [
    | none ↦ none
    | some lease ↦ elim (get lease.peer_session_id g.state.peers) [
      | none ↦ none
      | some backend_peer ↦ if peer_reaches peer presence then some (lease, backend_peer) else none
    ]
  ]
]

unfoldable pub handle_channel_open :
    (cfg : Config) (now : ℕ) (fresh : FreshChannel)
    → PeerSession
    → (target : String) → (kind : Option String) → Gateway
    → Gateway
unfolding reachable_backend opened
handle_channel_open cfg now fresh peer target kind g =
    if not (nat_eq peer.protocol_version 4)
    then emit (send peer.ws (gateway_error invalid_message "channel_open requires protocol v4")) g
    else elim (reachable_backend peer target g) [
      | none ↦
          emit
            (send peer.ws
              (gateway_error backend_offline ("Backend " <> target <> " not found or offline")))
            g
      | some (lease, backend_peer) ↦
          if leb cfg.max_channels_per_peer (count_channels_for_peer peer.peer_session_id g)
          then emit (send peer.ws (gateway_error rate_limited "Too many open channels")) g
          else opened cfg now fresh kind target peer lease backend_peer g
    ]

unfoldable pub handle_channel_reject : PeerSession → String → Gateway → Gateway
unfolding teardown_channel
handle_channel_reject peer channel_id g = elim (get channel_id g.channels) [
  | none ↦ g
  | some ch ↦
      if ch.backend_peer_session_id == peer.peer_session_id
      then teardown_channel channel_id rejected g
      else g
]

unfoldable pub handle_channel_close : PeerSession → String → Gateway → Gateway
unfolding teardown_channel
handle_channel_close peer channel_id g = elim (get channel_id g.channels) [
  | none ↦ g
  | some ch ↦ if is_end_of peer.peer_session_id ch then teardown_channel channel_id closed g else g
]

-- the ticket is right for the channel that is dialled, and not too old
abbrev pub ticket_fits : ℕ → String → Ticket → Bool
ticket_fits now channel_id ticket =
    (ticket.channel_id == channel_id) && not (ltb ticket.expires_at now)

-- The first part of `handleChannelUpgrade`: the ticket is consumed before any other check. `some`
-- is the role in which the upgrade is accepted.
unfoldable pub take_ticket : ℕ → (channel_id token : String) → Gateway → Gateway × Option Role
take_ticket now channel_id token g = elim (get token g.channel_tickets) [
  | none ↦ (g, none)
  | some ticket ↦
      let g' : Gateway = record g { channel_tickets = delete token g.channel_tickets } in
      if has channel_id g.channels && ticket_fits now channel_id ticket
      then (g', some ticket.role)
      else (g', none)
]

abbrev pub with_socket : Role → String → ChannelRecord → ChannelRecord
with_socket Role.client ws ch = record ch { client_socket = some ws }
with_socket Role.backend ws ch = record ch { backend_socket = some ws }

abbrev pub paired : ChannelRecord → ChannelRecord
paired ch = record ch { piped = true; pairing = false }

-- what the accepted socket completes: the bridge of an internal channel, or the pair
abbrev pub complete : ChannelRecord → Option String → Option String → Gateway → Gateway
complete ch client none g = g
complete ch none (some b) g =
    if ch.internal && not ch.piped
    then emit (resume b) (
        emit (bridge ch.channel_id b)
          (record g { channels = update ch.channel_id paired g.channels }))
    else g
complete ch (some a) (some b) g =
    if ch.piped
    then g
    else if ch.internal
    then emit (resume b) (
        emit (bridge ch.channel_id b)
          (record g { channels = update ch.channel_id paired g.channels }))
    else emit (resume b) (
        emit (resume a) (
          emit (relay ch.channel_id a b)
            (record g { channels = update ch.channel_id paired g.channels })))

-- The callback of `handleUpgrade`, with the new data socket.
unfoldable pub attach_socket : (channel_id ws : String) → Role → Gateway → Gateway
attach_socket channel_id ws role g = elim (get channel_id g.channels) [
  | none ↦ emit (terminate ws) g
  | some ch ↦
      let ch' = with_socket role ws ch in
      let g' : Gateway = record g {
        channels = update channel_id (with_socket role ws) g.channels;
      } in
      complete ch' ch'.client_socket ch'.backend_socket (emit (pause ws) g')
]

unfoldable pub handle_channel_upgrade : (now : ℕ) (channel_id token ws : String) → Gateway → Gateway
unfolding take_ticket attach_socket
handle_channel_upgrade now channel_id token ws g =
    let (g', role) = take_ticket now channel_id token g in
    elim role [ none ↦ emit (reject_upgrade ws) g' | some r ↦ attach_socket channel_id ws r g' ]

-- `pairingTimeout` fires
unfoldable pub pairing_timeout : String → Gateway → Gateway
unfolding teardown_channel
pairing_timeout channel_id g = elim (get channel_id g.channels) [
  | none ↦ g
  | some ch ↦ if ch.pairing then teardown_channel channel_id timeout g else g
]

-- the loop of `rateLimitCleanup` over the tickets
unfoldable pub cleanup_tickets : ℕ → Gateway → Gateway
cleanup_tickets now g = record g {
  channel_tickets = keep (λ _ t. not (ltb t.expires_at now)) g.channel_tickets;
}
