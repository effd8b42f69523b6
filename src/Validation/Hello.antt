-- ===== src/Validation/Hello.antt =====
-- src/server.ts, `validatePeerHelloV4`, and the reading of a message as a `PeerHelloV4`.
use zclaudia_gateway.Prelude.{
  String, Bool, not, ◌==◌, ◌<>◌, if◌then◌else◌, is_empty, is_none, option_eq, Option, none, some,
  List, [], ◌∷◌, ◌>>=◌,
}
use zclaudia_gateway.Json.{
  Json, Number, member, is_object, is_text, as_text, as_number, as_boolean, as_array,
}

-- `typeof value[name] === 'string'`, and so on
abbrev pub text_member : String → Json → Option String
text_member name v = do x ← member name v; as_text x

abbrev pub number_member : String → Json → Option Number
number_member name v = do x ← member name v; as_number x

abbrev pub boolean_member : String → Json → Option Bool
boolean_member name v = do x ← member name v; as_boolean x

abbrev pub array_member : String → Json → Option (List Json)
array_member name v = do x ← member name v; as_array x

-- The check of an identity's text fields, in order; `some` is the error.
unfoldable pub check_identity_fields : List String → Json → Option String
check_identity_fields [] identity = none
check_identity_fields (name ∷ names) identity = elim (member name identity) [
  | none ↦ check_identity_fields names identity
  | some v ↦
      if is_text v
      then check_identity_fields names identity
      else some ("peer_hello.identity." <> name <> " must be a string")
]

abbrev pub identity_fields : List String
identity_fields = "deviceId" ∷ "instanceId" ∷ "channel" ∷ "name" ∷ []

unfoldable pub check_identity : Option Json → Option String
unfolding check_identity_fields
check_identity none = none
check_identity (some identity) =
    if is_object identity
    then check_identity_fields identity_fields identity
    else some "peer_hello.identity must be an object"

unfoldable pub check_backend : Option Json → Option String
check_backend none = some "peer_hello.backend is required for client+backend peers"
check_backend (some backend) =
    if not (is_object backend)
    then some "peer_hello.backend is required for client+backend peers"
    else if is_none (boolean_member "visible" backend)
    then some "peer_hello.backend.visible must be a boolean"
    else if is_none (array_member "capabilities" backend)
    then some "peer_hello.backend.capabilities must be an array"
    else if is_none (number_member "backendProtocolVersion" backend)
    then some "peer_hello.backend.backendProtocolVersion must be a number"
    else none

pub data PeerType : Type 0 where
  client_only client_backend : PeerType

unfoldable pub peer_type_of : Option String → Option PeerType
peer_type_of none = none
peer_type_of (some t) =
    if t == "client-only"
    then some client_only
    else if t == "client+backend"
    then some client_backend
    else none

-- what `namespace` must be: a string that is not empty
abbrev pub non_empty : Option String → Option String
non_empty none = none
non_empty (some s) = if is_empty s then none else some s

abbrev pub check_role : PeerType → Json → Option String
check_role client_only msg = none
check_role client_backend msg = check_backend (member "backend" msg)

-- the checks of the peer type, the identity and the backend
abbrev pub check_parts : Option PeerType → Option Json → Json → Option String
check_parts none identity msg = some "peer_hello.peerType must be client-only or client+backend"
check_parts (some role) identity msg = elim (check_identity identity) [
  | some e ↦ some e
  | none ↦ check_role role msg
]

unfoldable pub validate_peer_hello : Json → Option String
unfolding check_identity check_backend peer_type_of
validate_peer_hello msg =
    if not (is_object msg)
    then some "peer_hello must be an object"
    else if not (option_eq (text_member "type" msg) "peer_hello")
    then some "First message must be peer_hello"
    else if is_none (text_member "gatewaySecret" msg)
    then some "peer_hello.gatewaySecret must be a string"
    else if is_none (number_member "protocolVersion" msg)
    then some "peer_hello.protocolVersion must be a number"
    else if is_none (non_empty (text_member "namespace" msg))
    then some "peer_hello.namespace must be a non-empty string"
    else if is_none (number_member "clientProtocolVersion" msg)
    then some "peer_hello.clientProtocolVersion must be a number"
    else check_parts (peer_type_of (text_member "peerType" msg)) (member "identity" msg) msg

-- `PeerHelloV4`, once the checks have passed

pub record PeerIdentity : Type 0 where
  pub device_id : Option String
  pub instance_id : Option String
  pub channel : Option String
  pub name : Option String

pub record BackendInfo : Type 0 where
  pub visible : Bool
  pub capabilities : List Json
  pub backend_protocol_version : Number
  pub min_client_protocol_version : Option Json

pub record PeerHello : Type 0 where
  pub gateway_secret : String
  pub protocol_version : Number
  pub client_protocol_version : Number
  pub namespace : String
  pub peer_type : PeerType
  pub identity : PeerIdentity
  pub backend : Option BackendInfo

abbrev pub no_identity : PeerIdentity
no_identity = record { device_id = none; instance_id = none; channel = none; name = none }

-- a text field that may be left out: `none` where it is there with another type
abbrev pub optional_text_member : String → Json → Option (Option String)
optional_text_member name v = elim (member name v) [
  | none ↦ some none
  | some x ↦ elim (as_text x) [ none ↦ none | some s ↦ some (some s) ]
]

-- the identity of a value that has its type
abbrev pub identity_fields_of : Json → Option PeerIdentity
identity_fields_of v = do
  device_id ← optional_text_member "deviceId" v
  instance_id ← optional_text_member "instanceId" v
  channel ← optional_text_member "channel" v
  name ← optional_text_member "name" v
  some (record { device_id = device_id; instance_id = instance_id; channel = channel; name = name })

-- `message.identity ?? {}`; `none` where it is no object or a field of it has another type
abbrev pub read_identity : Option Json → Option PeerIdentity
read_identity none = some no_identity
read_identity (some v) = if is_object v then identity_fields_of v else none

abbrev pub read_backend : PeerType → Option Json → Option (Option BackendInfo)
read_backend client_only v = some none
read_backend client_backend none = none
read_backend client_backend (some v) = do
  visible ← boolean_member "visible" v
  capabilities ← array_member "capabilities" v
  version ← number_member "backendProtocolVersion" v
  some (
      some (record {
        visible = visible;
        capabilities = capabilities;
        backend_protocol_version = version;
        min_client_protocol_version = member "minClientProtocolVersion" v;
      }))

-- `message as PeerHelloV4`: `none` where a field that the gateway reads has another type
unfoldable pub read_peer_hello : Json → Option PeerHello
unfolding peer_type_of
read_peer_hello msg = do
  secret ← text_member "gatewaySecret" msg
  version ← number_member "protocolVersion" msg
  client_version ← number_member "clientProtocolVersion" msg
  namespace ← text_member "namespace" msg
  role ← peer_type_of (text_member "peerType" msg)
  backend ← read_backend role (member "backend" msg)
  identity ← read_identity (member "identity" msg)
  some (record {
    gateway_secret = secret;
    protocol_version = version;
    client_protocol_version = client_version;
    namespace = namespace;
    peer_type = role;
    identity = identity;
    backend = backend;
  })
