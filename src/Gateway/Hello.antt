-- ===== src/Gateway/Hello.antt =====
-- src/server.ts, Peer Hello: authenticating a control connection and registering its backend.
-- `hash` is SHA-256.
use text.Mathlib.Text.{starts_with}
use zclaudia_gateway.Prelude.{
  ℕ, String, Bool, true, false, not, ◌==◌, ◌&&◌, ◌||◌, if◌then◌else◌, is_some, is_none, is_empty,
  get_or, nat_eq, Option, none, some, List,
}
use zclaudia_gateway.Json.{number_eq}
use zclaudia_gateway.Map.{get, set}
use zclaudia_gateway.Validation.Hello.{
  PeerHello, PeerIdentity, BackendInfo, PeerType, client_only, client_backend,
}
use zclaudia_gateway.RateLimit.{record_auth_failure}
use zclaudia_gateway.Storage.{
  Storage, CredentialType, device, backend, backend_access, CredentialInfo, allocate_epoch,
  token_prefix,
}
use zclaudia_gateway.Storage.Credentials.{find_valid_credential}
use zclaudia_gateway.Storage.Identities.{get_or_create_backend_id, touch_backend_identity}
use zclaudia_gateway.State.{
  PeerSession, BackendLease, BackendPresence, add_peer, add_lease, registry_upsert,
}
use zclaudia_gateway.Gateway.{
  Gateway, Config, send, close_plain, gateway_error, peer_ready, unauthorized, rate_limited,
  protocol_version_mismatch, invalid_message, ErrorCode, emit,
}
use zclaudia_gateway.Gateway.Scope.{visible_registry, broadcast_registry_snapshot}
use zclaudia_gateway.Gateway.Ownership.{note_owner_replaced, handle_backend_owner_replaced}

-- the random values of one hello
pub record FreshPeer : Type 0 where
  pub peer_session_id : String
  pub recovery_token : String
  pub backend_uuid : String

unfoldable pub is_credential_token : String → Bool
unfolding token_prefix
is_credential_token token =
    starts_with token (token_prefix device)
    || (starts_with token (token_prefix backend) || starts_with token (token_prefix backend_access))

unfoldable pub resolve_token :
    (String → String) → String → ℕ → Storage → Storage × Option CredentialInfo
unfolding is_credential_token find_valid_credential
resolve_token hash token now s =
    if is_credential_token token then find_valid_credential hash token now s else (s, none)

-- the backend that the credential is, or that a legacy credential's hello names
unfoldable pub resolve_backend_identity :
    CredentialInfo
    → (namespace : String) → PeerIdentity
    → (channel uuid : String) → ℕ
    → Storage
    → Storage × String
unfolding get_or_create_backend_id
resolve_backend_identity credential namespace identity channel uuid now s =
    elim credential.backend_id [
      | some b ↦ (s, b)
      | none ↦
          get_or_create_backend_id namespace (get_or "" identity.instance_id) channel identity.name
            uuid now s
    ]

abbrev pub may_register : CredentialType → Bool
may_register device = false
may_register _ = true

abbrev pub is_client_backend : PeerType → Bool
is_client_backend client_backend = true
is_client_backend client_only = false

-- why a hello is refused after its credential was accepted
unfoldable pub refusal : CredentialInfo → PeerHello → Option (ErrorCode × String)
refusal credential hello =
    if not (credential.namespace == hello.namespace)
    then some (unauthorized, "Namespace not permitted by credential")
    else if is_client_backend hello.peer_type && not (may_register credential.type)
    then some (unauthorized, "This credential cannot register a backend")
    else if not (number_eq hello.protocol_version 4)
    then some (protocol_version_mismatch, "Expected protocol version 4")
    else if (is_client_backend hello.peer_type && is_some hello.backend)
        && (is_none credential.backend_id && is_none hello.identity.instance_id)
    then some (
      invalid_message,
      "peer_hello.identity.instanceId is required for legacy (unbound) backend credentials",
    )
    else none

-- `identity.channel || 'prod'`
abbrev pub channel_of : Option String → String
channel_of none = "prod"
channel_of (some c) = if is_empty c then "prod" else c

abbrev pub device_scope : CredentialInfo → CredentialType → Option (List String)
device_scope credential device = credential.allowed_backends
device_scope credential _ = none

unfoldable pub new_peer : (ws : String) → FreshPeer → CredentialInfo → PeerHello → PeerSession
new_peer ws fresh credential hello = record {
  peer_session_id = fresh.peer_session_id;
  ws = ws;
  protocol_version = 4;
  peer_type = hello.peer_type;
  namespace = hello.namespace;
  credential_id = some credential.id;
  allowed_backends = device_scope credential credential.type;
  device_id = get_or "" hello.identity.device_id;
  instance_id = get_or "" hello.identity.instance_id;
  channel = channel_of hello.identity.channel;
  name = get_or "" hello.identity.name;
  recovery_token = fresh.recovery_token;
  is_alive = true;
  backend_id = none;
  epoch = none;
}

unfoldable pub presence_of :
    PeerSession → BackendInfo → (backend_id : String) (epoch now : ℕ) → BackendPresence
presence_of peer backend_info backend_id epoch now = record {
  namespace = peer.namespace;
  backend_id = backend_id;
  instance_id = peer.instance_id;
  device_id = peer.device_id;
  name = peer.name;
  channel = peer.channel;
  visible = backend_info.visible;
  capabilities = backend_info.capabilities;
  backend_protocol_version = backend_info.backend_protocol_version;
  min_client_protocol_version = backend_info.min_client_protocol_version;
  epoch = epoch;
  connected_at = now;
  last_seen_at = now;
  gateway_protocol_version = peer.protocol_version;
}

-- The newest connection wins: the previous owner of the backend is replaced.
unfoldable pub replace_owner :
    (backend_id session : String) (epoch now : ℕ) → Option BackendLease → Gateway → Gateway
unfolding note_owner_replaced handle_backend_owner_replaced
replace_owner backend_id session epoch now none g = g
replace_owner backend_id session epoch now (some previous) g =
    if not (previous.peer_session_id == session) || not (nat_eq previous.epoch epoch)
    then handle_backend_owner_replaced backend_id previous.peer_session_id
        (note_owner_replaced backend_id now g).0
    else g

-- The root of the credential, for the identity's record.
abbrev pub root_credential : CredentialInfo → String
root_credential credential = get_or credential.id credential.parent_id

-- The registration of the backend: the peer with its backend and epoch, and the state after.
unfoldable pub register_backend :
    (now : ℕ)
    → FreshPeer
    → CredentialInfo
    → PeerHello
    → BackendInfo
    → PeerSession
    → Gateway
    → Gateway × PeerSession
unfolding resolve_backend_identity allocate_epoch replace_owner add_lease touch_backend_identity
    registry_upsert presence_of
register_backend now fresh credential hello backend_info peer g =
    let (s₁, b) =
      resolve_backend_identity credential hello.namespace hello.identity peer.channel
        fresh.backend_uuid now g.storage in
    let (s₂, epoch) = allocate_epoch s₁ in
    let g₁ : Gateway = record g { storage = s₂ } in
    let g₂ = replace_owner b peer.peer_session_id epoch now (get b g.state.leases) g₁ in
    let lease : BackendLease = record {
      backend_id = b;
      epoch = epoch;
      peer_session_id = peer.peer_session_id;
      lease_ttl_ms = g.state.default_lease_ttl_ms;
      last_heartbeat_at = now;
    } in
    let presence = presence_of peer backend_info b epoch now in
    (
      record g₂ {
        state = registry_upsert presence (add_lease lease g₂.state);
        storage =
            touch_backend_identity b (some (root_credential credential)) hello.identity.name now
              g₂.storage;
      },
      record peer { backend_id = some b; epoch = some epoch },
    )

abbrev pub backend_part : ℕ → Option String → Option ℕ → Option (String × ℕ × ℕ)
backend_part ttl none epoch = none
backend_part ttl (some b) none = none
backend_part ttl (some b) (some epoch) = some (b, epoch, ttl)

unfoldable pub broadcast_if : Option String → String → Gateway → Gateway
unfolding broadcast_registry_snapshot
broadcast_if none session g = g
broadcast_if (some b) session g = broadcast_registry_snapshot (some session) g

-- The end of `handlePeerHello`: the peer is added, told so, and a new backend is announced.
unfoldable pub admit_peer : PeerSession → Gateway → Gateway
unfolding add_peer visible_registry broadcast_if
admit_peer peer g =
    let g₁ : Gateway = record g {
      state = add_peer peer g.state;
      recovery_tokens = set peer.recovery_token peer.peer_session_id g.recovery_tokens;
    } in
    let ready =
      peer_ready peer.peer_session_id peer.recovery_token
        (backend_part g.state.default_lease_ttl_ms peer.backend_id peer.epoch)
        (visible_registry g₁.state peer) in
    broadcast_if peer.backend_id peer.peer_session_id (emit (send peer.ws ready) g₁)

abbrev pub refuse : String → ErrorCode → String → Gateway → Gateway
refuse ws code message g = emit (close_plain ws) (emit (send ws (gateway_error code message)) g)

-- a hello whose token does not resolve
unfoldable pub fail_authentication : Config → String → ℕ → String → Gateway → Gateway
unfolding record_auth_failure
fail_authentication cfg ws now ip g =
    let (b, within) = record_auth_failure cfg.limits now g.buckets ip in
    let g' : Gateway = record g { buckets = b } in
    if within
    then refuse ws unauthorized "Invalid gateway secret" g'
    else refuse ws rate_limited "Too many failed attempts" g'

abbrev pub session_backend : PeerType → Option BackendInfo → Option BackendInfo
session_backend client_only info = none
session_backend client_backend info = info

-- the session of a hello that nothing refuses
unfoldable pub accept_hello :
    (ws : String) (now : ℕ) → FreshPeer → CredentialInfo → PeerHello → Gateway → Gateway
unfolding new_peer register_backend admit_peer
accept_hello ws now fresh credential hello g =
    let peer = new_peer ws fresh credential hello in
    elim (session_backend hello.peer_type hello.backend) [
      | none ↦ admit_peer peer g
      | some info ↦
          let (g', peer') = register_backend now fresh credential hello info peer g in
          admit_peer peer' g'
    ]

unfoldable pub handle_peer_hello :
    (cfg : Config) (hash : String → String) (ws : String) (ip : String) (now : ℕ)
    → FreshPeer
    → PeerHello
    → Gateway
    → Gateway × Option String
unfolding resolve_token fail_authentication refusal accept_hello
handle_peer_hello cfg hash ws ip now fresh hello g =
    let (s, auth) = resolve_token hash hello.gateway_secret now g.storage in
    let g₁ : Gateway = record g { storage = s } in
    elim auth [
      | none ↦ (fail_authentication cfg ws now ip g₁, none)
      | some credential ↦ elim (refusal credential hello) [
        | some (code, message) ↦ (refuse ws code message g₁, none)
        | none ↦ (accept_hello ws now fresh credential hello g₁, some fresh.peer_session_id)
      ]
    ]
