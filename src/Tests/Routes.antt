-- ===== src/Tests/Routes.antt =====
-- The HTTP routes, the relay and the client's close at concrete inputs.
use zclaudia_gateway.Prelude.{
  ℕ, ◌++◌, String, Bool, true, false, Option, none, some, List, [], ◌∷◌, ◌≡◌, refl,
}
use zclaudia_gateway.Map.{get, set, map_entries}
use zclaudia_gateway.AdminSession.{SessionStore}
use zclaudia_gateway.RateLimit.{check_limit, refuse_proxy_request}
use zclaudia_gateway.Storage.{
  Storage, BackendIdentity, CredentialInfo, device, backend, token_prefix, newest_first, insert_by,
}
use zclaudia_gateway.Storage.Credentials.{
  Fresh, find_valid_credential, used_at, get_credential_by_hash, list_credentials,
}
use zclaudia_gateway.Storage.Identities.{
  get_backend_identity, list_backend_identities, new_identity,
}
use zclaudia_gateway.Storage.Revocation.{revoked, purge_revoked_credentials}
use zclaudia_gateway.Storage.Purging.{purge_revoked_credentials-Resolves}
use zclaudia_gateway.State.{BackendLease, initial}
use zclaudia_gateway.Gateway.{Gateway, respond}
use zclaudia_gateway.Gateway.Channels.{
  issue_channel_ticket, count_channels_for_peer, count_channels_from,
}
use zclaudia_gateway.Gateway.Events.{start}
use zclaudia_gateway.Gateway.Hello.{resolve_token, is_credential_token, presence_of}
use zclaudia_gateway.Gateway.Scope.{can_reach}
use zclaudia_gateway.Gateway.Relay.{RelayEvent, frame, resume_timer, ended}
use zclaudia_gateway.Http.{Request, bearer_token}
use zclaudia_gateway.Http.Backends.{
  forget_backend, in_use, bound_credential_counts, count_bindings, last_credential,
}
use zclaudia_gateway.Http.Bridge.{Bridge, response_timed_out, socket_closed, bridge_step, perform}
use zclaudia_gateway.Http.Failing.{Answered, bridge_step-Answered}
use zclaudia_gateway.Http.Forgetting.{Unused, forget_backend-Unused}
use zclaudia_gateway.Http.Guarded.{LetThrough, handle_proxy-LetThrough}
use zclaudia_gateway.Http.Proxy.{
  FreshProxy, offer_internal, internal_channel, proxied_backend, proxy_via_channel,
  proxy_authenticated, handle_proxy,
}
use zclaudia_gateway.SdkMessages.{subscribe_topic, open_channel}
use zclaudia_gateway.ClientSdk.Session.{
  Options, Op, Client, connected, opening_channel, subscribing, op_rejected, connection_closed,
}
use zclaudia_gateway.ClientSdk.Ops.{close_channels}
use zclaudia_gateway.ClientSdk.Steps.{new_client, handle_close, go_down}
use zclaudia_gateway.ClientSdk.Closing.{Settled, lost, rejections, handle_close-rejects}
use zclaudia_gateway.Tests.Data.{config, credential, hash, storage, peer, presence}

abbrev anonymous : Request
anonymous = record {
  ip = "ip1";
  method = "DELETE";
  authorization = none;
  origin = none;
  host = some "gw";
  cookie = none;
}

abbrev sessions : SessionStore
sessions = record { sessions = ("s", 50) ∷ []; ttl_ms = 100 }

abbrev url_host : String → Option String
url_host origin = some "gw"

abbrev fraction_ms : String → Option ℕ
fraction_ms t = none

abbrev fresh : Fresh
fresh = record { id = "n1"; secret = "x"; backend_uuid = "u1" }

abbrev lease : BackendLease
lease = record {
  backend_id = "b1";
  epoch = 5;
  peer_session_id = "s1";
  lease_ttl_ms = 30_000;
  last_heartbeat_at = 2;
}

-- a gateway with the backend b1 online
unfoldable online : Gateway
unfolding start initial presence presence_of
online =
    let g = start 30_000 storage in
    record g {
      state = record (g.state) {
        peers = ("s1", peer "s1" "w1" none) ∷ [];
        leases = ("b1", lease) ∷ [];
        registry = ("b1", presence) ∷ [];
      };
    }

abbrev proxied : Request
proxied = record {
  ip = "ip1";
  method = "GET";
  authorization = some "Bearer zgd_1";
  origin = none;
  host = some "gw";
  cookie = none;
}

abbrev fresh_proxy : FreshProxy
fresh_proxy = record { channel_id = "c9"; ticket = "t9"; response = "r9" }

handle_proxy-LetThrough_example : LetThrough config hash 20 "b1" proxied online
unfolding handle_proxy bearer_token resolve_token is_credential_token token_prefix
    find_valid_credential get_credential_by_hash proxy_authenticated refuse_proxy_request
    check_limit proxied_backend can_reach proxy_via_channel count_channels_for_peer
    count_channels_from presence presence_of get set start initial map_entries online
handle_proxy-LetThrough_example =
    handle_proxy-LetThrough config hash 20 fresh_proxy "b1" "c9" proxied online refl

unfoldable waiting : Gateway
unfolding offer_internal issue_channel_ticket online set
waiting = offer_internal config 20 fresh_proxy "b1" 5 (peer "s1" "w1" none) online

abbrev bridge : Bridge
bridge = record {
  request = record { method = "GET"; path = "/"; headers = [] };
  meta_received = false;
  response_timer = true;
  idle_timer = false;
  draining = false;
}

abbrev same_text : String → String
same_text s = s

abbrev any_header : String → String → Bool
any_header name value = true

bridge_step-Answered_example :
    Answered "c9"
      (respond "r9" 504 "GATEWAY_TIMEOUT")
      (perform "c9" "r9" (bridge_step same_text any_header response_timed_out bridge).1 waiting)
    × Answered "c9" (respond "r9" 502 "BACKEND_OFFLINE") (
        perform "c9" "r9" (bridge_step same_text any_header (socket_closed false) bridge).1 waiting)
unfolding waiting offer_internal issue_channel_ticket online set get start initial
bridge_step-Answered_example =
    bridge_step-Answered same_text any_header "c9" "r9" bridge false waiting refl refl (
      internal_channel fresh_proxy "b1" 5 (peer "s1" "w1" none),
      record { headers_sent = false; ended = false },
      refl,
      refl,
      refl,
      refl,
    )

abbrev old_identity : BackendIdentity
old_identity = new_identity "b0" "app" "i0" "prod" "old" 1

abbrev with_identity : Storage
with_identity = record storage { backend_identities = ("k0", old_identity) ∷ [] }

forget_backend-Unused_example :
    (identity : BackendIdentity) × Unused "b0" identity (start 30_000 with_identity)
unfolding forget_backend get_backend_identity list_backend_identities newest_first insert_by in_use
    bound_credential_counts count_bindings list_credentials last_credential get set start initial
forget_backend-Unused_example = forget_backend-Unused "b0" (start 30_000 with_identity) refl

abbrev with_revoked : Storage
with_revoked = record storage {
  credentials =
      ("zgb_0", revoked 5 (credential "zgb_0" backend none (some "b0") none)) ∷ storage.credentials;
}

-- what the device's token resolves to
abbrev used : CredentialInfo
used = (used_at 20 (credential "zgd_1" device none none (some ("b1" ∷ [])))).info

purge_revoked_credentials-Resolves_example :
    (find_valid_credential hash "zgd_1" 20 (purge_revoked_credentials none with_revoked).0).1
    ≡ some used
unfolding find_valid_credential get_credential_by_hash get
purge_revoked_credentials-Resolves_example =
    purge_revoked_credentials-Resolves hash "zgd_1" 20 none with_revoked used
      (refl, (refl, (refl, tt))) (refl, (refl, (refl, tt))) refl

-- two frames overdraw the first window; the timer is due at its end, and another frame comes
abbrev relayed : List RelayEvent
relayed =
    frame 10 true 0 600
    ∷ (resume_timer 500 ∷ (resume_timer 1_005 ∷ (frame 1_100 true 0 200 ∷ (ended ∷ []))))

abbrev first_op : Op
first_op = record {
  id = "o1";
  message = subscribe_topic "b1" "runs";
  expect = "topic_subscribed" ∷ [];
  purpose = subscribing "b1 runs" "h1";
}

abbrev second_op : Op
second_op = record {
  id = "o2";
  message = open_channel "b1" none;
  expect = "channel_ready" ∷ [];
  purpose = opening_channel none;
}

unfoldable busy : Client
unfolding new_client
busy = record new_client {
  socket = some "w1";
  state = connected;
  pending = some first_op;
  queue = second_op ∷ [];
}

abbrev options : Options
options = record { reconnect = true; reconnect_min_ms = 1_000; reconnect_max_ms = 30_000 }

handle_close-rejects_example :
    Settled (handle_close options busy).0
    × ((handle_close options busy).1
        ≡ op_rejected first_op connection_closed
          ∷ (close_channels busy
              ++ ((go_down options busy.state (lost busy)).1 ++ rejections busy.queue)))
unfolding busy
handle_close-rejects_example = handle_close-rejects options busy first_op refl
