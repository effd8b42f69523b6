-- ===== src/Tests/Data.antt =====
-- A storage with two credentials, two hellos, and a gateway with a backend and a client.
use zclaudia_gateway.Prelude.{◌<>◌, String, true, Option, none, some, List, [], ◌∷◌}
use zclaudia_gateway.Json.{Json, text, number, boolean, array, object, nil, end, field, natural}
use zclaudia_gateway.Storage.{Storage, CredentialRecord, CredentialType, device, backend}
use zclaudia_gateway.Gateway.{Config}
use zclaudia_gateway.State.{PeerSession, BackendPresence}
use zclaudia_gateway.Validation.Hello.{
  PeerHello, PeerIdentity, BackendInfo, client_only, client_backend,
}
use zclaudia_gateway.Gateway.Hello.{presence_of}
use zclaudia_gateway.Gateway.Events.{Fresh}

-- the digest of a token, for these tests
abbrev pub hash : String → String
hash token = "#" <> token

abbrev pub config : Config
config = record {
  limits = record { auth_fail_limit = 10; proxy_rate_limit = 1200; proxy_ip_rate_limit = 0 };
  channel_ticket_ttl_ms = 30_000;
  max_channels_per_peer = 32;
}

abbrev pub credential :
    String
    → CredentialType
    → Option String
    → Option String
    → Option (List String)
    → CredentialRecord
credential id type parent_id backend_id scope = record {
  info = record {
    id = id;
    type = type;
    namespace = "app";
    name = "";
    parent_id = parent_id;
    created_at = 1;
    expires_at = some 9_000;
    revoked_at = none;
    last_used_at = none;
    backend_id = backend_id;
    allowed_backends = scope;
  };
  token_hash = "#" <> id;
}

abbrev pub storage : Storage
storage = record {
  credentials =
      ("zgb_1", credential "zgb_1" backend none (some "b1") none)
      ∷ ("zgd_1", credential "zgd_1" device none none (some ("b1" ∷ [])))
      ∷ [];
  backend_identities = [];
  max_epoch = 4;
}

abbrev pub client_hello : Json
client_hello = object (
    field "type" (text "peer_hello") (
      field "gatewaySecret" (text "zgd_1") (
        field "protocolVersion" (number (natural 4)) (
          field "namespace" (text "app") (
            field "clientProtocolVersion" (number (natural 1))
              (field "peerType" (text "client-only") end))))))

abbrev pub backend_hello : Json
backend_hello = object (
    field "type" (text "peer_hello") (
      field "gatewaySecret" (text "zgb_1") (
        field "protocolVersion" (number (natural 4)) (
          field "namespace" (text "app") (
            field "clientProtocolVersion" (number (natural 1)) (
              field "peerType" (text "client+backend") (
                field "backend"
                  (object (
                    field "visible" (boolean true) (
                      field "capabilities" (array nil)
                        (field "backendProtocolVersion" (number (natural 1)) end))))
                  end)))))))

abbrev pub open_message : Json
open_message = object (field "type" (text "channel_open") (field "target" (text "b1") end))

abbrev pub fresh : String → Fresh
fresh id = record {
  peer = record { peer_session_id = id; recovery_token = "r" <> id; backend_uuid = "u" <> id };
  channel = record {
    channel_id = "c" <> id;
    client_ticket = "tc" <> id;
    backend_ticket = "tb" <> id;
  };
}

abbrev pub identity : String → PeerIdentity
identity name = record { device_id = none; instance_id = none; channel = none; name = some name }

abbrev pub backend_info : BackendInfo
backend_info = record {
  visible = true;
  capabilities = [];
  backend_protocol_version = natural 1;
  min_client_protocol_version = none;
}

abbrev pub takeover : PeerHello
takeover = record {
  gateway_secret = "zgb_1";
  protocol_version = natural 4;
  client_protocol_version = natural 1;
  namespace = "app";
  peer_type = client_backend;
  identity = identity "again";
  backend = some backend_info;
}

abbrev pub peer : String → String → Option (List String) → PeerSession
peer id ws scope = record {
  peer_session_id = id;
  ws = ws;
  protocol_version = 4;
  peer_type = client_only;
  namespace = "app";
  credential_id = some "zgd_1";
  allowed_backends = scope;
  device_id = "";
  instance_id = "";
  channel = "prod";
  name = "";
  recovery_token = "r" <> id;
  is_alive = true;
  backend_id = none;
  epoch = none;
}

unfoldable pub presence : BackendPresence
unfolding presence_of
presence = presence_of (peer "s1" "w1" none) backend_info "b1" 5 2
