-- ===== src/Tests/Runs.antt =====
-- A run of the gateway in which a channel is opened, and a publication that is retained.
use zclaudia_gateway.Prelude.{ℕ, none, some, List, [], ◌∷◌, ◌≡◌, refl}
use zclaudia_gateway.Json.{member, members, elements}
use zclaudia_gateway.Map.{get, set, delete, map_entries}
use zclaudia_gateway.Validation.Hello.{validate_peer_hello, read_peer_hello}
use zclaudia_gateway.Storage.{allocate_epoch, token_prefix}
use zclaudia_gateway.Storage.Credentials.{find_valid_credential, get_credential_by_hash}
use zclaudia_gateway.Storage.Identities.{touch_backend_identity}
use zclaudia_gateway.State.{
  PeerSession, initial, add_peer, add_lease, registry_upsert, get_registry_snapshot,
}
use zclaudia_gateway.Gateway.{Gateway}
use zclaudia_gateway.Gateway.Scope.{
  visible_registry, peer_reaches, can_reach, broadcast_from, broadcast_registry_snapshot,
}
use zclaudia_gateway.Gateway.Hello.{
  handle_peer_hello, resolve_token, is_credential_token, refusal, accept_hello, new_peer,
  register_backend, resolve_backend_identity, replace_owner, presence_of, admit_peer, broadcast_if,
}
use zclaudia_gateway.Gateway.Events.{
  Event, connected, received, start, step, run, connect, receive, first_message,
}
use zclaudia_gateway.Gateway.Invariant.Runs.{NewSessions}
use zclaudia_gateway.Validation.{
  validate_gateway_message, message_type, validate_fields, check_field, check_kind,
}
use zclaudia_gateway.Validation.Decode.{read_message}
use zclaudia_gateway.Gateway.Messages.{handle_peer_message, route, dispatch, dispatch_read}
use zclaudia_gateway.Gateway.Channels.{
  handle_channel_open, reachable_backend, count_channels_for_peer, count_channels_from, opened,
  issue_channel_ticket,
}
use zclaudia_gateway.Gateway.Topics.{retain, max_retained_topics_per_backend}
use zclaudia_gateway.Gateway.Retained.{retained_of, retain-bound}
use zclaudia_gateway.Gateway.Invariant.Owners.{one_owner, channel_fenced}
use zclaudia_gateway.Gateway.{ChannelRecord}
use zclaudia_gateway.Validation.Hello.{client_backend}
use zclaudia_gateway.Map.{size}
use zclaudia_gateway.Prelude.{◌≤◌, arith, false, true, String}
use zclaudia_gateway.Tests.Data.{
  peer, hash, config, storage, client_hello, backend_hello, open_message, fresh,
}

-- A backend registers, and a client connects and opens a channel to it.
abbrev events : List (ℕ × Event)
events =
    (1, connected "w1" "ip1")
    ∷ (2, received "w1" (fresh "s1") (some backend_hello))
    ∷ (3, connected "w2" "ip2")
    ∷ (4, received "w2" (fresh "s2") (some client_hello))
    ∷ (5, received "w2" (fresh "s4") (some open_message))
    ∷ []

new_sessions : NewSessions config hash (start 30_000 storage) events
unfolding NewSessions step start initial get set delete map_entries members member elements connect
    receive first_message validate_peer_hello read_peer_hello handle_peer_hello resolve_token
    is_credential_token token_prefix find_valid_credential get_credential_by_hash refusal
    accept_hello new_peer register_backend resolve_backend_identity allocate_epoch replace_owner
    add_lease touch_backend_identity registry_upsert presence_of admit_peer add_peer
    visible_registry get_registry_snapshot peer_reaches can_reach broadcast_if
    broadcast_registry_snapshot broadcast_from handle_peer_message route validate_gateway_message
    message_type validate_fields check_field check_kind read_message dispatch_read dispatch
    handle_channel_open reachable_backend count_channels_for_peer count_channels_from opened
    issue_channel_ticket
new_sessions = (tt, (refl, (tt, (refl, (refl, tt)))))

abbrev owner : PeerSession
owner = record (peer "s1" "w1" none) {
  peer_type = client_backend;
  credential_id = some "zgb_1";
  recovery_token = "rs1";
  backend_id = some "b1";
  epoch = some 5;
}

abbrev channel : ChannelRecord
channel = record {
  channel_id = "cs4";
  backend_id = "b1";
  epoch = 5;
  kind = none;
  client_peer_session_id = "s2";
  backend_peer_session_id = "s1";
  client_socket = none;
  backend_socket = none;
  piped = false;
  ticket_tokens = "tcs4" ∷ "tbs4" ∷ [];
  pairing = true;
  internal = false;
  internal_res = none;
}

one_owner_example : ◌≡◌ {A = String} "s1" "s1"
unfolding run NewSessions step start initial get set delete map_entries members member elements
    connect receive first_message validate_peer_hello read_peer_hello handle_peer_hello
    resolve_token is_credential_token token_prefix find_valid_credential get_credential_by_hash
    refusal accept_hello new_peer register_backend resolve_backend_identity allocate_epoch
    replace_owner add_lease touch_backend_identity registry_upsert presence_of admit_peer add_peer
    visible_registry get_registry_snapshot peer_reaches can_reach broadcast_if
    broadcast_registry_snapshot broadcast_from handle_peer_message route validate_gateway_message
    message_type validate_fields check_field check_kind read_message dispatch_read dispatch
    handle_channel_open reachable_backend count_channels_for_peer count_channels_from opened
    issue_channel_ticket
one_owner_example =
    one_owner config hash 30_000 storage events new_sessions "b1" "s1" "s1" owner owner refl refl
      refl refl

channel_fenced_example :
    (p : PeerSession) × (get "s1" (run config hash (start 30_000 storage) events).state.peers
      ≡ some p)
    × (p.backend_id ≡ some "b1")
    × (p.epoch ≡ some 5)
unfolding run NewSessions step start initial get set delete map_entries members member elements
    connect receive first_message validate_peer_hello read_peer_hello handle_peer_hello
    resolve_token is_credential_token token_prefix find_valid_credential get_credential_by_hash
    refusal accept_hello new_peer register_backend resolve_backend_identity allocate_epoch
    replace_owner add_lease touch_backend_identity registry_upsert presence_of admit_peer add_peer
    visible_registry get_registry_snapshot peer_reaches can_reach broadcast_if
    broadcast_registry_snapshot broadcast_from handle_peer_message route validate_gateway_message
    message_type validate_fields check_field check_kind read_message dispatch_read dispatch
    handle_channel_open reachable_backend count_channels_for_peer count_channels_from opened
    issue_channel_ticket
channel_fenced_example =
    channel_fenced config hash 30_000 storage events new_sessions "cs4" channel refl

-- a third payload
abbrev retaining : Gateway
unfolding start initial
retaining = record (start 30_000 storage) {
  retained_topics = ("b1", ("a", open_message) ∷ ("b", client_hello) ∷ []) ∷ [];
}

retain-bound_example :
    size (retained_of "b1" (retain "b1" "c" backend_hello retaining))
    ≤ max_retained_topics_per_backend
unfolding get retaining start
retain-bound_example = retain-bound "b1" "c" backend_hello retaining (omega arith)
