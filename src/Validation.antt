-- ===== src/Validation.antt =====
-- src/validation.ts: the runtime check of inbound protocol messages, and the header allowlists.
pub mod Hello
pub mod Decode
pub mod Headers
pub mod Soundness
pub mod Allowed
use zclaudia_gateway.Prelude.{
  String, Bool, true, false, not, ◌==◌, ◌<>◌, ◌&&◌, ◌||◌, if◌then◌else◌, includes, is_empty, Option,
  none, some, List, [], ◌∷◌,
}
use zclaudia_gateway.Map.{Map}
use zclaudia_gateway.Json.{
  Json, text, number, array, member, is_object, is_text, as_text, is_finite, integer_within,
}

pub data FieldKind : Type 0 where
  string non_empty_string finite_number status_code object array_of present : FieldKind

pub record FieldSpec : Type 0 where
  pub kind : FieldKind
  pub optional : Bool
  pub one_of : Option (List String)

-- The keys of MESSAGE_SPECS; the router's switch has the same ones.
pub data MessageType : Type 0 where
  backend_heartbeat request_registry_snapshot backend_server_message : MessageType
  push_notification_request ping channel_open channel_reject channel_close : MessageType
  topic_subscribe topic_unsubscribe topic_publish : MessageType

unfoldable pub message_type : String → Option MessageType
message_type t =
    if t == "backend_heartbeat"
    then some backend_heartbeat
    else if t == "request_registry_snapshot"
    then some request_registry_snapshot
    else if t == "backend_server_message"
    then some backend_server_message
    else if t == "push_notification_request"
    then some push_notification_request
    else if t == "ping"
    then some ping
    else if t == "channel_open"
    then some channel_open
    else if t == "channel_reject"
    then some channel_reject
    else if t == "channel_close"
    then some channel_close
    else if t == "topic_subscribe"
    then some topic_subscribe
    else if t == "topic_unsubscribe"
    then some topic_unsubscribe
    else if t == "topic_publish"
    then some topic_publish
    else none

abbrev required : FieldKind → FieldSpec
required k = record { kind = k; optional = false; one_of = none }

abbrev optional : FieldKind → FieldSpec
optional k = record { kind = k; optional = true; one_of = none }

unfoldable pub message_specs : MessageType → Map FieldSpec
message_specs backend_heartbeat =
    ("epoch", required finite_number) ∷ ("observedAt", optional finite_number) ∷ []
message_specs request_registry_snapshot = []
message_specs backend_server_message =
    ("backendId", required non_empty_string) ∷ ("targetPeerSessionId", optional string) ∷ []
message_specs push_notification_request = ("event", required present) ∷ []
message_specs ping = ("ts", optional finite_number) ∷ []
message_specs channel_open = ("target", required non_empty_string) ∷ ("kind", optional string) ∷ []
message_specs channel_reject =
    ("channelId", required non_empty_string) ∷ ("reason", optional string) ∷ []
message_specs channel_close = ("channelId", required non_empty_string) ∷ []
message_specs topic_subscribe =
    ("backendId", required non_empty_string) ∷ ("topic", required non_empty_string) ∷ []
message_specs topic_unsubscribe =
    ("backendId", required non_empty_string) ∷ ("topic", required non_empty_string) ∷ []
message_specs topic_publish = ("topic", required non_empty_string) ∷ []

-- the switch of `checkField`; `some` is the error
unfoldable pub check_kind : Json → FieldKind → Option String
check_kind v string = if is_text v then none else some "must be a string"
check_kind (text s) non_empty_string =
    if is_empty s then some "must be a non-empty string" else none
check_kind _ non_empty_string = some "must be a non-empty string"
check_kind (number n) finite_number = if is_finite n then none else some "must be a finite number"
check_kind _ finite_number = some "must be a finite number"
check_kind (number n) status_code =
    if integer_within 100 599 n then none else some "must be an integer HTTP status code (100-599)"
check_kind _ status_code = some "must be an integer HTTP status code (100-599)"
check_kind (array vs) object = some "must be an object"
check_kind v object = if is_object v then none else some "must be an object"
check_kind (array vs) array_of = none
check_kind _ array_of = some "must be an array"
check_kind _ present = none

-- `allowed.join(', ')`
unfoldable pub join : String → List String → String
join sep [] = ""
join sep (x ∷ []) = x
join sep (x ∷ y ∷ xs) = x <> sep <> join sep (y ∷ xs)

-- the `oneOf` restriction
unfoldable pub check_one_of : Json → Option (List String) → Option String
unfolding join
check_one_of (text s) (some allowed) =
    if includes allowed s then none else some ("must be one of: " <> join ", " allowed)
check_one_of v none = none
check_one_of v (some allowed) = none

unfoldable pub check_field : Json → FieldSpec → Option String
unfolding check_kind check_one_of
check_field v spec = elim (check_kind v spec.kind) [
  | some e ↦ some e
  | none ↦ check_one_of v spec.one_of
]

abbrev pub is_present : FieldKind → Bool
is_present present = true
is_present _ = false

-- the loop of `validateGatewayMessage` over the entries of the spec
unfoldable pub validate_fields : String → Json → Map FieldSpec → Option String
unfolding check_field
validate_fields type msg [] = none
validate_fields type msg ((name, spec) ∷ rest) = elim (member name msg) [
  | none ↦
      if spec.optional && not (is_present spec.kind)
      then validate_fields type msg rest
      else some (type <> "." <> name <> " is required")
  | some value ↦ elim (check_field value spec) [
    | some e ↦ some (type <> "." <> name <> " " <> e)
    | none ↦ validate_fields type msg rest
  ]
]

-- the text of `message.type`
abbrev pub type_text : Json → Option String
type_text msg = elim (member "type" msg) [ none ↦ none | some v ↦ as_text v ]

unfoldable pub validate_gateway_message : Json → Option String
unfolding validate_fields message_type message_specs
validate_gateway_message message =
    if not (is_object message) then some "message must be an object" else elim (type_text message) [
      | none ↦ some "message.type must be a string"
      | some t ↦ elim (message_type t) [
        | none ↦ none
        | some type ↦ validate_fields t message (message_specs type)
      ]
    ]
