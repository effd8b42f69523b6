-- ===== src/Tests/Gateways.antt =====
-- A run of the gateway, and its theorems there, with a request for the registry.
use zclaudia_gateway.Prelude.{ℕ, ◌<>◌, none, some, List, [], ◌∷◌, ◌≡◌, ◌⊎◌, inr, refl}
use zclaudia_gateway.Json.{member, members, elements}
use zclaudia_gateway.Map.{get, set, delete, map_entries}
use zclaudia_gateway.Validation.Hello.{validate_peer_hello, read_peer_hello}
use zclaudia_gateway.Storage.{allocate_epoch, token_prefix}
use zclaudia_gateway.Storage.Credentials.{find_valid_credential, get_credential_by_hash}
use zclaudia_gateway.Storage.Identities.{touch_backend_identity}
use zclaudia_gateway.State.{
  PeerSession, initial, add_peer, add_lease, registry_upsert, get_registry_snapshot,
}
use zclaudia_gateway.Gateway.{
  Gateway, Role, emit, send, gateway_error, backend_offline, reject_upgrade,
}
use zclaudia_gateway.Gateway.Scope.{
  visible_registry, peer_reaches, can_reach, broadcast_from, broadcast_registry_snapshot,
}
use zclaudia_gateway.Gateway.Hello.{
  handle_peer_hello, resolve_token, is_credential_token, refusal, accept_hello, new_peer,
  register_backend, resolve_backend_identity, replace_owner, presence_of, admit_peer, broadcast_if,
}
use zclaudia_gateway.Gateway.Events.{
  Event, connected, received, leases_checked, start, step, run, connect, receive, first_message,
  check_leases,
}
use zclaudia_gateway.Gateway.Invariant.{Inv}
use zclaudia_gateway.Gateway.Invariant.Runs.{NewSessions, reachable-Inv}
use zclaudia_gateway.Gateway.Invariant.Arrival.{handle_peer_hello-Inv}
use zclaudia_gateway.Gateway.Invariant.Disconnect.{handle_peer_disconnect-Inv}
use zclaudia_gateway.Gateway.Invariant.Expiry.{handle_backend_lease_expired-Inv}
use zclaudia_gateway.Gateway.Invariant.Steps.{handle_peer_message-Inv}
use zclaudia_gateway.Gateway.Ownership.{handle_peer_disconnect, handle_backend_lease_expired}
use zclaudia_gateway.Gateway.Messages.{handle_peer_message}
use zclaudia_gateway.Gateway.Channels.{handle_channel_open, handle_channel_upgrade}
use zclaudia_gateway.Gateway.Isolation.{
  Answered, Opened, handle_channel_open-Permitted, handle_channel_open-Hidden,
}
use zclaudia_gateway.Http.{Request, bearer_token, recovered_peer, require_recovery_token}
use zclaudia_gateway.Http.Reads.{sync_registry}
use zclaudia_gateway.Http.Synced.{Synced, sync_registry-Permitted}
use zclaudia_gateway.Gateway.Tickets.{handle_channel_upgrade-once}
use zclaudia_gateway.Tests.Data.{
  takeover, peer, presence, hash, config, storage, client_hello, backend_hello, open_message, fresh,
}

-- A backend registers, and a client connects.
abbrev arrivals : List (ℕ × Event)
arrivals =
    (1, connected "w1" "ip1")
    ∷ (2, received "w1" (fresh "s1") (some backend_hello))
    ∷ (3, connected "w2" "ip2")
    ∷ (4, received "w2" (fresh "s2") (some client_hello))
    ∷ (5, leases_checked)
    ∷ []

new_sessions : NewSessions config hash (start 30_000 storage) arrivals
unfolding NewSessions step start initial get set delete map_entries members member elements connect
    receive first_message validate_peer_hello read_peer_hello handle_peer_hello resolve_token
    is_credential_token token_prefix find_valid_credential get_credential_by_hash refusal
    accept_hello new_peer register_backend resolve_backend_identity allocate_epoch replace_owner
    add_lease touch_backend_identity registry_upsert presence_of admit_peer add_peer
    visible_registry get_registry_snapshot peer_reaches can_reach broadcast_if
    broadcast_registry_snapshot broadcast_from
new_sessions = (tt, (refl, (tt, (refl, (tt, tt)))))

reachable-Inv_example : Inv (run config hash (start 30_000 storage) arrivals)
reachable-Inv_example = reachable-Inv config hash 30_000 storage arrivals new_sessions

abbrev site : Gateway
unfolding run start
site = run config hash (start 30_000 storage) arrivals

site-Inv : Inv site
unfolding site run start
site-Inv = reachable-Inv config hash 30_000 storage arrivals new_sessions

-- the backend is taken over
handle_peer_hello-Inv_example :
    Inv (handle_peer_hello config hash "w3" "ip1" 6 (fresh "s3").peer takeover site).0
unfolding site run step start initial get set delete map_entries members member elements connect
    receive first_message validate_peer_hello read_peer_hello handle_peer_hello resolve_token
    is_credential_token token_prefix find_valid_credential get_credential_by_hash refusal
    accept_hello new_peer register_backend resolve_backend_identity allocate_epoch replace_owner
    add_lease touch_backend_identity registry_upsert presence_of admit_peer add_peer
    visible_registry get_registry_snapshot peer_reaches can_reach broadcast_if
    broadcast_registry_snapshot broadcast_from check_leases
handle_peer_hello-Inv_example =
    handle_peer_hello-Inv config hash "w3" "ip1" 6 (fresh "s3").peer takeover site refl site-Inv

handle_peer_disconnect-Inv_example : Inv (handle_peer_disconnect "s1" 50 site)
handle_peer_disconnect-Inv_example = handle_peer_disconnect-Inv "s1" 50 site site-Inv

handle_backend_lease_expired-Inv_example : Inv (handle_backend_lease_expired "b1" 90_000 site)
handle_backend_lease_expired-Inv_example =
    handle_backend_lease_expired-Inv "b1" 90_000 site site-Inv

handle_peer_message-Inv_example :
    Inv (handle_peer_message config 60 (fresh "s4").channel "s2" open_message site)
handle_peer_message-Inv_example =
    handle_peer_message-Inv config 60 (fresh "s4").channel "s2" open_message site site-Inv

abbrev listed : Gateway
unfolding start initial
listed =
    let g = start 30_000 storage in
    record g { state = record (g.state) { registry = ("b1", presence) ∷ [] } }

-- a device that is not scoped to the backend
abbrev stranger : PeerSession
stranger = peer "s2" "w2" (some ("b2" ∷ []))

handle_channel_open-Hidden_example :
    handle_channel_open config 9 (fresh "s4").channel stranger "b1" none listed
    ≡ emit
        (send "w2" (gateway_error backend_offline ("Backend " <> "b1" <> " not found or offline")))
        listed
unfolding listed start initial get presence presence_of peer_reaches can_reach
handle_channel_open-Hidden_example =
    handle_channel_open-Hidden config 9 (fresh "s4").channel stranger "b1" none listed refl
      (inr (presence, refl, refl))

abbrev client : PeerSession
client = peer "s2" "w2" none

-- the client asks for the registry with its recovery token
abbrev recovery : Request
recovery = record {
  ip = "ip1";
  method = "GET";
  authorization = some "Bearer r";
  origin = none;
  host = none;
  cookie = none;
}

abbrev recovering : Gateway
unfolding listed start initial
recovering = record listed {
  state = record (listed.state) { peers = ("s2", client) ∷ [] };
  recovery_tokens = ("r", "s2") ∷ [];
}

sync_registry-Permitted_example : Synced recovery recovering (presence ∷ [])
unfolding sync_registry require_recovery_token recovered_peer visible_registry get_registry_snapshot
    recovering listed start initial get presence presence_of peer_reaches can_reach bearer_token
sync_registry-Permitted_example =
    sync_registry-Permitted config 9 recovery recovering (presence ∷ []) refl

handle_channel_open-Permitted_example :
    Answered client site (handle_channel_open config 9 (fresh "s4").channel client "b1" none site)
    ⊎ Opened client "b1"
        (fresh "s4").channel
        site
        (handle_channel_open config 9 (fresh "s4").channel client "b1" none site)
handle_channel_open-Permitted_example =
    handle_channel_open-Permitted config 9 (fresh "s4").channel client "b1" none site

-- a ticket of a channel that is open
abbrev dialable : Gateway
unfolding start initial
dialable = record (start 30_000 storage) {
  channel_tickets = ("t1", record { channel_id = "c1"; role = Role.client; expires_at = 99 }) ∷ [];
}

handle_channel_upgrade-once_example :
    (let g = handle_channel_upgrade 10 "c1" "t1" "w5" dialable in
      handle_channel_upgrade 11 "c1" "t1" "w6" g ≡ emit (reject_upgrade "w6") g)
handle_channel_upgrade-once_example =
    handle_channel_upgrade-once 10 11 "c1" "c1" "t1" "w5" "w6" dialable
