-- ===== src/PushNotification.antt =====
-- src/push-notification.ts: `GatewayPushNotificationService`, up to the request to the ntfy server.
-- An event and a configuration are what their types say; a member of the partial configuration is
-- given or not there. `trim` is the method of texts, `base64` is `Buffer`'s encoding.
pub mod Filter
use package.text.Mathlib.Text.{starts_with}
use Prim.Native.String.{len, slice}
use zclaudia_gateway.Prelude.{
  ℕ, String, Bool, true, false, not, ◌-◌, ◌==◌, ◌<>◌, ◌&&◌, ◌||◌, ltb, if◌then◌else◌, is_empty,
  get_or, Option, none, some, List, [], ◌∷◌, any, length,
}
use zclaudia_gateway.Map.{Map, set}
use zclaudia_gateway.Validation.{join}
use zclaudia_gateway.Json.{Json, null, text, boolean, number, array, object, Elements, elements}

pub data Severity : Type 0 where
  info : Severity
  success : Severity
  warning : Severity
  error : Severity

pub data AuthMode : Type 0 where
  no_auth : AuthMode
  bearer : AuthMode
  basic : AuthMode

pub record NotificationConfig : Type 0 where
  pub enabled : Bool
  pub ntfy_url : String
  pub ntfy_topic : String
  pub ntfy_auth_mode : AuthMode
  pub ntfy_publish_token : String
  pub ntfy_subscribe_token : String
  pub ntfy_username : String
  pub ntfy_password : String
  pub event_allowlist : List String
  pub event_denylist : List String
  pub min_severity : Option Severity

pub record NotifyEvent : Type 0 where
  pub name : String
  pub severity : Option Severity
  pub title : String
  pub body : String
  pub tags : List String
  pub click_url : Option String

-- `SEVERITY_ORDER`
abbrev pub severity_order : Severity → ℕ
severity_order info = 0
severity_order success = 1
severity_order warning = 2
severity_order error = 3

-- `SEVERITY_PRIORITY`
abbrev severity_priority : Severity → String
severity_priority info = "default"
severity_priority success = "default"
severity_priority warning = "high"
severity_priority error = "urgent"

unfoldable pub matches_entry : (event_name entry : String) → Bool
matches_entry event_name entry = event_name == entry || starts_with event_name (entry <> ".")

-- the floor of `minSeverity`
unfoldable pub severe_enough : Option Severity → Option Severity → Bool
severe_enough none severity = true
severe_enough (some least) severity =
    not (ltb (severity_order (get_or info severity)) (severity_order least))

unfoldable pub should_notify : NotificationConfig → NotifyEvent → Bool
should_notify config event =
    if any (matches_entry event.name) config.event_denylist
    then false
    else if ltb 0 (length config.event_allowlist)
        && not (any (matches_entry event.name) config.event_allowlist)
    then false
    else severe_enough config.min_severity event.severity

-- `config.ntfyUrl.replace(/\/$/, '')`
unfoldable pub without_slash : String → String
without_slash url =
    if not (is_empty url) && (slice url (len url - 1) (len url) == "/")
    then slice url 0 (len url - 1)
    else url

-- `topicUrl`; an empty `backendId` counts as none
unfoldable pub topic_url : NotificationConfig → Option String → String
topic_url config none = without_slash config.ntfy_url <> "/" <> config.ntfy_topic
topic_url config (some backend_id) =
    if is_empty backend_id
    then without_slash config.ntfy_url <> "/" <> config.ntfy_topic
    else without_slash config.ntfy_url <> "/" <> config.ntfy_topic <> "-" <> backend_id

-- the request that `fetch` sends
pub record Post : Type 0 where
  pub url : String
  pub headers : Map String
  pub body : String

unfoldable pub apply_publish_auth : (String → String) → NotificationConfig → Map String → Map String
apply_publish_auth base64 config headers = elim config.ntfy_auth_mode [
  | no_auth ↦ headers
  | bearer ↦
      if is_empty config.ntfy_publish_token
      then headers
      else set "Authorization" ("Bearer " <> config.ntfy_publish_token) headers
  | basic ↦
      if not (is_empty config.ntfy_username) && not (is_empty config.ntfy_password)
      then set "Authorization"
          ("Basic " <> base64 (config.ntfy_username <> ":" <> config.ntfy_password)) headers
      else headers
]

unfoldable pub with_tags : List String → Map String → Map String
unfolding join
with_tags [] headers = headers
with_tags (tag ∷ tags) headers = set "Tags" (join "," (tag ∷ tags)) headers

unfoldable pub with_click : Option String → Map String → Map String
with_click none headers = headers
with_click (some url) headers = if is_empty url then headers else set "Click" url headers

unfoldable pub event_headers : NotifyEvent → Map String
event_headers event = with_click event.click_url (
    with_tags event.tags (
      ("Title", event.title) ∷ (("Priority", severity_priority (get_or info event.severity)) ∷ [])))

-- `notify`: the request, if there is one
unfoldable pub notify :
    (String → String) → NotificationConfig → NotifyEvent → Option String → Option Post
notify base64 config event backend_id =
    if not config.enabled || is_empty config.ntfy_topic
    then none
    else if not (should_notify config event)
    then none
    else some (record {
      url = topic_url config backend_id;
      headers = apply_publish_auth base64 config (event_headers event);
      body = event.body;
    })

-- `sendTest`; `none` is that the topic is not configured
unfoldable pub send_test : (String → String) → NotificationConfig → Option String → Option Post
send_test base64 config backend_id =
    if is_empty config.ntfy_topic
    then none
    else some (record {
      url = topic_url config backend_id;
      headers = apply_publish_auth base64 config (
          ("Title", "ZClaudia - Test Notification")
          ∷ (("Priority", "default") ∷ (("Tags", "white_check_mark") ∷ [])));
      body = "If you see this, notifications are working!";
    })

unfoldable normalize_auth_mode : Option Json → AuthMode
normalize_auth_mode (some (text mode)) =
    if mode == "bearer" then bearer else if mode == "basic" then basic else no_auth
normalize_auth_mode _ = no_auth

module _ (trim : String → String) where
  unfoldable normalize_string : Option Json → String
  normalize_string (some (text value)) = trim value
  normalize_string _ = ""

  unfoldable normalize_entries : List Json → List String
  normalize_entries (text v ∷ vs) =
      let rest = normalize_entries vs in if is_empty (trim v) then rest else trim v ∷ rest
  normalize_entries (_ ∷ vs) = normalize_entries vs
  normalize_entries [] = []

  unfoldable normalize_list : Option Json → List String
  unfolding elements
  normalize_list (some (array vs)) = normalize_entries (elements vs)
  normalize_list _ = []

-- `config.minSeverity in SEVERITY_ORDER`; the names that every object inherits are left out
unfoldable severity_of : String → Option Severity
severity_of s =
    if s == "info"
    then some info
    else if s == "success"
    then some success
    else if s == "warning"
    then some warning
    else if s == "error"
    then some error
    else none

-- `Partial<NotificationConfig>`
record PartialConfig : Type 0 where
  enabled : Option Bool
  ntfy_url : Option String
  ntfy_topic : Option String
  ntfy_auth_mode : Option Json
  ntfy_publish_token : Option Json
  ntfy_subscribe_token : Option Json
  ntfy_username : Option Json
  ntfy_password : Option Json
  event_allowlist : Option Json
  event_denylist : Option Json
  min_severity : Option String

-- `typeof config.ntfyPassword === 'string' ? config.ntfyPassword : ''`
unfoldable text_or_empty : Option Json → String
text_or_empty (some (text s)) = s
text_or_empty _ = ""

unfoldable normalize_config : (String → String) → PartialConfig → NotificationConfig
normalize_config trim c = record {
  enabled = get_or false c.enabled;
  ntfy_url = get_or "https://ntfy.sh" c.ntfy_url;
  ntfy_topic = get_or "" c.ntfy_topic;
  ntfy_auth_mode = normalize_auth_mode c.ntfy_auth_mode;
  ntfy_publish_token = normalize_string trim c.ntfy_publish_token;
  ntfy_subscribe_token = normalize_string trim c.ntfy_subscribe_token;
  ntfy_username = normalize_string trim c.ntfy_username;
  ntfy_password = text_or_empty c.ntfy_password;
  event_allowlist = normalize_list trim c.event_allowlist;
  event_denylist = normalize_list trim c.event_denylist;
  min_severity = elim c.min_severity [ none ↦ none | some s ↦ severity_of s ];
}
