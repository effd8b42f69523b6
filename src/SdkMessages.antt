-- ===== src/SdkMessages.antt =====
-- packages/backend/src/index.ts and packages/client/src/index.ts: the control messages that the two
-- SDKs send, as `JSON.stringify` writes them: a member that is undefined is not there.
pub mod Accepted
use zclaudia_gateway.Prelude.{ℕ, String, Bool, true, false, Option, none, some, List, [], ◌∷◌, map}
use zclaudia_gateway.Json.{
  Json, text, number, boolean, array, object, natural, Elements, nil, cons, Members, end, field,
}
use zclaudia_gateway.Validation.Hello.{PeerIdentity}

-- a member that is there only if its value is
abbrev pub optional_member : String → Option Json → Members → Members
optional_member name none rest = rest
optional_member name (some v) rest = field name v rest

abbrev pub optional_text : String → Option String → Members → Members
optional_text name none rest = rest
optional_text name (some s) rest = field name (text s) rest

pub data SdkMessage : Type 0 where
  -- the backend's heartbeat, rejection of an offer and publication
  heartbeat : (epoch observed_at : ℕ) → SdkMessage
  reject_offer : (channel_id reason : String) → SdkMessage
  publish_topic : (topic : String) (payload : Option Json) (retain : Option Bool) → SdkMessage
  -- the client's control operations
  open_channel : (target : String) (kind : Option String) → SdkMessage
  subscribe_topic : (backend_id topic : String) → SdkMessage
  unsubscribe_topic : (backend_id topic : String) → SdkMessage

abbrev retain_member : Option Bool → Members
retain_member none = end
retain_member (some b) = field "retain" (boolean b) end

unfoldable pub encode : SdkMessage → Json
encode (heartbeat epoch observed_at) = object (
    field "type" (text "backend_heartbeat") (
      field "epoch" (number (natural epoch))
        (field "observedAt" (number (natural observed_at)) end)))
encode (reject_offer channel_id reason) = object (
    field "type" (text "channel_reject")
      (field "channelId" (text channel_id) (field "reason" (text reason) end)))
encode (publish_topic topic payload retain) = object (
    field "type" (text "topic_publish")
      (field "topic" (text topic) (optional_member "payload" payload (retain_member retain))))
encode (open_channel target kind) = object (
    field "type" (text "channel_open")
      (field "target" (text target) (optional_text "kind" kind end)))
encode (subscribe_topic backend_id topic) = object (
    field "type" (text "topic_subscribe")
      (field "backendId" (text backend_id) (field "topic" (text topic) end)))
encode (unsubscribe_topic backend_id topic) = object (
    field "type" (text "topic_unsubscribe")
      (field "backendId" (text backend_id) (field "topic" (text topic) end)))

-- the texts of an array
unfoldable pub text_elements : List String → Elements
text_elements [] = nil
text_elements (s ∷ ss) = cons (text s) (text_elements ss)

-- what the SDKs' options say of the hello
pub record HelloOptions : Type 0 where
  pub namespace : String
  pub identity : Option PeerIdentity
  -- the backend SDK's `backendProtocolVersion ?? 1`, the client SDK's `clientProtocolVersion`
  pub version : ℕ
  pub visible : Bool
  pub capabilities : List String

abbrev pub identity_json : PeerIdentity → Json
identity_json i = object (
    optional_text "deviceId" i.device_id (
      optional_text "instanceId" i.instance_id
        (optional_text "name" i.name (optional_text "channel" i.channel end))))

abbrev pub identity_member : Option PeerIdentity → Members → Members
identity_member none rest = rest
identity_member (some i) rest = field "identity" (identity_json i) rest

-- the hello of `GatewayBackend.handshake`
unfoldable pub backend_hello : HelloOptions → (credential : String) → Json
unfolding text_elements
backend_hello o credential = object (
    field "type" (text "peer_hello") (
      field "protocolVersion" (number (natural 4)) (
        field "namespace" (text o.namespace) (
          field "clientProtocolVersion" (number (natural o.version)) (
            field "peerType" (text "client+backend") (
              field "gatewaySecret" (text credential) (
                identity_member o.identity (
                  field "backend"
                    (object (
                      field "visible" (boolean o.visible) (
                        field "capabilities" (array (text_elements o.capabilities))
                          (field "backendProtocolVersion" (number (natural o.version)) end))))
                    end))))))))

-- the hello of `GatewayClient.establish`
unfoldable pub client_hello : HelloOptions → (credential : String) → Json
client_hello o credential = object (
    field "type" (text "peer_hello") (
      field "protocolVersion" (number (natural 4)) (
        field "namespace" (text o.namespace) (
          field "clientProtocolVersion" (number (natural o.version)) (
            field "peerType" (text "client-only")
              (field "gatewaySecret" (text credential) (identity_member o.identity end)))))))
