-- ===== src/SdkMessages/Accepted.antt =====
-- The gateway accepts what the SDKs send, and reads it as it was meant.
use zclaudia_gateway.Prelude.{
  ℕ, String, false, is_empty, Option, none, some, List, [], ◌∷◌, map, get_or, ◌≡◌, refl, ap, ◌∙◌,
  ◌>>=◌,
}
use zclaudia_gateway.Json.{Json, text, natural, member, members, elements}
use zclaudia_gateway.Map.{get}
use zclaudia_gateway.Validation.{
  validate_gateway_message, validate_fields, message_type, message_specs, check_field, check_kind,
  check_one_of,
}
use zclaudia_gateway.Validation.Hello.{
  PeerIdentity, PeerHello, PeerType, BackendInfo, client_only, client_backend, no_identity,
  validate_peer_hello, check_identity, check_identity_fields, check_backend, peer_type_of,
  read_peer_hello, read_identity, check_parts, check_role,
}
use zclaudia_gateway.Validation.Decode.{
  GatewayMessage, heartbeat as heartbeat_message, open_channel as open_message, reject_channel,
  subscribe, unsubscribe, publish, read_message,
}
use zclaudia_gateway.State.{PeerSession}
use zclaudia_gateway.Gateway.{Gateway, Config}
use zclaudia_gateway.Gateway.Channels.{FreshChannel}
use zclaudia_gateway.Gateway.Messages.{route, dispatch, dispatch_read}
use zclaudia_gateway.SdkMessages.{
  SdkMessage, heartbeat, reject_offer, publish_topic, open_channel, subscribe_topic,
  unsubscribe_topic, encode, identity_json, HelloOptions, backend_hello, client_hello,
  text_elements,
}

-- the message that the gateway's switch should see
unfoldable pub meaning : SdkMessage → GatewayMessage
meaning (heartbeat epoch observed_at) = heartbeat_message (natural epoch)
meaning (reject_offer channel_id reason) = reject_channel channel_id
meaning (publish_topic topic payload retain) = publish topic payload (get_or false retain)
meaning (open_channel target kind) = open_message target kind
meaning (subscribe_topic backend_id topic) = subscribe backend_id topic
meaning (unsubscribe_topic backend_id topic) = unsubscribe backend_id topic

-- the ids and topics are not empty
abbrev pub Sendable : SdkMessage → Type 0
Sendable (heartbeat epoch observed_at) = Unit
Sendable (reject_offer channel_id reason) = is_empty channel_id ≡ false
Sendable (publish_topic topic payload retain) = is_empty topic ≡ false
Sendable (open_channel target kind) = is_empty target ≡ false
Sendable (subscribe_topic backend_id topic) =
    (is_empty backend_id ≡ false) × (is_empty topic ≡ false)
Sendable (unsubscribe_topic backend_id topic) =
    (is_empty backend_id ≡ false) × (is_empty topic ≡ false)

-- Whatever control message an SDK sends, with no id or topic in it empty, the gateway's router
-- accepts, and handles as the operation that the SDK meant, with the same ids, topic, payload, kind,
-- epoch and retain flag.
pub route-encode :
    (cfg : Config) (now : ℕ) (fresh : FreshChannel) (peer : PeerSession) (m : SdkMessage)
    (g : Gateway)
    → Sendable m
    → route cfg now fresh peer (encode m) g ≡ dispatch cfg now fresh peer (meaning m) g
unfolding route dispatch_read encode meaning validate_gateway_message validate_fields message_type
    message_specs check_field check_kind check_one_of read_message member members get
route-encode cfg now fresh peer (heartbeat epoch observed_at) g h = refl
route-encode cfg now fresh peer (reject_offer channel_id reason) g h =
    rw (h, route, validate_gateway_message, validate_fields, check_field, check_kind) refl
route-encode cfg now fresh peer (publish_topic topic none none) g h =
    rw (h, route, validate_gateway_message, validate_fields, check_field, check_kind) refl
route-encode cfg now fresh peer (publish_topic topic (some v) none) g h =
    rw (h, route, validate_gateway_message, validate_fields, check_field, check_kind) refl
route-encode cfg now fresh peer (publish_topic topic none (some r)) g h =
    rw (h, route, validate_gateway_message, validate_fields, check_field, check_kind) refl
route-encode cfg now fresh peer (publish_topic topic (some v) (some r)) g h =
    rw (h, route, validate_gateway_message, validate_fields, check_field, check_kind) refl
route-encode cfg now fresh peer (open_channel target none) g h =
    rw (h, route, validate_gateway_message, validate_fields, check_field, check_kind) refl
route-encode cfg now fresh peer (open_channel target (some k)) g h =
    rw (h, route, validate_gateway_message, validate_fields, check_field, check_kind) refl
route-encode cfg now fresh peer (subscribe_topic backend_id topic) g (h, k) =
    rw (h, k, route, validate_gateway_message, validate_fields, check_field, check_kind) refl
route-encode cfg now fresh peer (unsubscribe_topic backend_id topic) g (h, k) =
    rw (h, k, route, validate_gateway_message, validate_fields, check_field, check_kind) refl

-- an identity passes the check and is read again
abbrev IdentityKept : PeerIdentity → Type 0
unfolding check_identity
IdentityKept i =
    (check_identity (some (identity_json i)) ≡ none)
    × (read_identity (some (identity_json i)) ≡ some i)

identity_of : (device_id instance_id channel name : Option String) → PeerIdentity
identity_of device_id instance_id channel name = record {
  device_id = device_id;
  instance_id = instance_id;
  channel = channel;
  name = name;
}

identity-kept : (d i c n : Option String) → IdentityKept (identity_of d i c n)
unfolding identity_of check_identity check_identity_fields member members get
identity-kept none none none none = (refl, refl)
identity-kept none none none (some n) = (refl, refl)
identity-kept none none (some c) none = (refl, refl)
identity-kept none none (some c) (some n) = (refl, refl)
identity-kept none (some i) none none = (refl, refl)
identity-kept none (some i) none (some n) = (refl, refl)
identity-kept none (some i) (some c) none = (refl, refl)
identity-kept none (some i) (some c) (some n) = (refl, refl)
identity-kept (some d) none none none = (refl, refl)
identity-kept (some d) none none (some n) = (refl, refl)
identity-kept (some d) none (some c) none = (refl, refl)
identity-kept (some d) none (some c) (some n) = (refl, refl)
identity-kept (some d) (some i) none none = (refl, refl)
identity-kept (some d) (some i) none (some n) = (refl, refl)
identity-kept (some d) (some i) (some c) none = (refl, refl)
identity-kept (some d) (some i) (some c) (some n) = (refl, refl)

elements-text_elements : (cs : List String) → elements (text_elements cs) ≡ map text cs
unfolding elements text_elements
elements-text_elements [] = refl
elements-text_elements (c ∷ cs) = ap (λ vs. text c ∷ vs) (elements-text_elements cs)

-- what the gateway should read of a hello
unfoldable pub hello_read :
    HelloOptions → (credential : String) → PeerType → Option BackendInfo → PeerHello
hello_read o credential type backend = record {
  gateway_secret = credential;
  protocol_version = natural 4;
  client_protocol_version = natural o.version;
  namespace = o.namespace;
  peer_type = type;
  identity = get_or no_identity o.identity;
  backend = backend;
}

unfoldable pub backend_part : HelloOptions → BackendInfo
backend_part o = record {
  visible = o.visible;
  capabilities = map text o.capabilities;
  backend_protocol_version = natural o.version;
  min_client_protocol_version = none;
}

-- The gateway passes the message and reads it as this hello.
abbrev pub Accepted : Json → PeerHello → Type 0
Accepted msg hello = (validate_peer_hello msg ≡ none) × (read_peer_hello msg ≡ some hello)

-- the capabilities are read as the texts that they were
with_capabilities :
    (o : HelloOptions) (f : BackendInfo → Option PeerHello)
    → f (record (backend_part o) { capabilities = elements (text_elements o.capabilities) })
      ≡ f (backend_part o)
unfolding backend_part
with_capabilities o f =
    ap (λ cs. f (record (backend_part o) { capabilities = cs }))
      (elements-text_elements o.capabilities)

-- the hello's own options, without the identity
abbrev plain : HelloOptions → Option PeerIdentity → HelloOptions
plain o identity = record o { identity = identity }

parts_pass :
    (type : PeerType) (identity : Option Json) (msg : Json)
    → check_identity identity ≡ none
    → check_role type msg ≡ none
    → check_parts (some type) identity msg ≡ none
unfolding check_backend
parts_pass type identity msg h k = rw (h, check_parts) k

with_identity :
    (o : HelloOptions) (credential : String) (type : PeerType) (backend : Option BackendInfo)
    (i : PeerIdentity)
    → (do
      j ← read_identity (some (identity_json i))
      some (record (hello_read (plain o none) credential type backend) { identity = j }))
      ≡ some (hello_read (plain o (some i)) credential type backend)
unfolding hello_read IdentityKept identity_of
with_identity o credential type backend i =
    ap
      (λ r. do
        j ← r
        some (record (hello_read (plain o none) credential type backend) { identity = j }))
      (identity-kept i.device_id i.instance_id i.channel i.name).1

client_hello_from :
    (o : HelloOptions) (credential : String) (identity : Option PeerIdentity)
    → is_empty o.namespace ≡ false
    → Accepted
        (client_hello (plain o identity) credential)
        (hello_read (plain o identity) credential client_only none)
unfolding client_hello hello_read validate_peer_hello read_peer_hello peer_type_of member members
    get check_identity check_identity_fields identity_of IdentityKept
client_hello_from o credential none h = rw h (refl, refl)
client_hello_from o credential (some i) h =
    let (checked, same) = identity-kept i.device_id i.instance_id i.channel i.name in
    rw h (
      parts_pass client_only (some (identity_json i)) (client_hello (plain o (some i)) credential)
          checked refl,
      with_identity o credential client_only none i,
    )

backend_hello_from :
    (o : HelloOptions) (credential : String) (identity : Option PeerIdentity)
    → is_empty o.namespace ≡ false
    → Accepted
        (backend_hello (plain o identity) credential)
        (hello_read (plain o identity) credential client_backend (some (backend_part o)))
unfolding backend_hello hello_read validate_peer_hello read_peer_hello peer_type_of member members
    get check_identity check_identity_fields identity_of IdentityKept check_backend backend_part
    elements
backend_hello_from o credential none h = rw h (
  refl,
  with_capabilities o (λ b. some (hello_read (plain o none) credential client_backend (some b))),
)
backend_hello_from o credential (some i) h =
    let (checked, same) = identity-kept i.device_id i.instance_id i.channel i.name in
    rw h (
      parts_pass client_backend (some (identity_json i))
          (backend_hello (plain o (some i)) credential) checked refl,
      with_capabilities o (λ b. do
        j ← read_identity (some (identity_json i))
        some (record (hello_read (plain o none) credential client_backend (some b)) {
          identity = j;
        }))
          ∙ with_identity o credential client_backend (some (backend_part o)) i,
    )

-- The hello of a client's SDK, with a namespace that is not empty, passes the gateway's check, and
-- the gateway reads in it the namespace, the credential, the version, the identity and the role that
-- the SDK's options gave, in protocol version 4.
pub client_hello-Accepted :
    (o : HelloOptions) (credential : String)
    → is_empty o.namespace ≡ false
    → Accepted (client_hello o credential) (hello_read o credential client_only none)
client_hello-Accepted o credential = client_hello_from o credential o.identity

-- The hello of a backend's SDK, with a namespace that is not empty, passes the gateway's check, and
-- the gateway reads in it the namespace, the credential, the identity, the visibility, the
-- capabilities and the version, as the client's and as the backend's, that the SDK's options gave, in
-- protocol version 4.
pub backend_hello-Accepted :
    (o : HelloOptions) (credential : String)
    → is_empty o.namespace ≡ false
    → Accepted
        (backend_hello o credential)
        (hello_read o credential client_backend (some (backend_part o)))
backend_hello-Accepted o credential = backend_hello_from o credential o.identity
