-- ===== src/Http/Reads.antt =====
-- src/server.ts: the routes that read for a peer or for a credential: the registry for the holder of
-- a recovery token, the discovery, and the notification service. `trim` is the method of texts,
-- `base64` is `Buffer`'s encoding.
use zclaudia_gateway.Prelude.{ℕ, String, is_empty, if◌then◌else◌, Option, none, some, List}
use zclaudia_gateway.Json.{Json, as_text}
use zclaudia_gateway.State.{BackendPresence}
use zclaudia_gateway.Gateway.{Gateway, Config}
use zclaudia_gateway.Gateway.Scope.{visible_registry}
use zclaudia_gateway.PushNotification.{NotificationConfig, Post, send_test}
use zclaudia_gateway.Http.{
  Request, Outcome, denied, forbidden, admitted, require_gateway_auth, require_recovery_token,
}
use zclaudia_gateway.Http.Backends.{DiscoveredBackend, discover}

-- what the handler makes of the one that the guard lets through
abbrev served {ℓ κ} :
    {A : Type ℓ} {B : Type κ} → (A → Gateway → B) → Gateway × Outcome A → Gateway × Outcome B
served f (g, denied d) = (g, denied d)
served f (g, forbidden) = (g, forbidden)
served f (g, admitted a) = (g, admitted (f a g))

module _ (cfg : Config) (now : ℕ) (req : Request) where
  -- `GET /sync/registry`
  unfoldable pub sync_registry : Gateway → Gateway × Outcome (List BackendPresence)
  unfolding require_recovery_token visible_registry
  sync_registry g =
      served (λ peer g'. visible_registry g'.state peer) (require_recovery_token cfg now req g)

  -- `GET /api/discovery/backends` with its guard
  unfoldable list_discovered :
      (hash : String → String) → Gateway → Gateway × Outcome (List DiscoveredBackend)
  unfolding require_gateway_auth discover
  list_discovered hash g = served discover (require_gateway_auth cfg hash now req g)

  -- `GET /api/notifications/config`
  unfoldable notification_config :
      (hash : String → String) → NotificationConfig → Gateway → Gateway × Outcome NotificationConfig
  unfolding require_gateway_auth
  notification_config hash config g =
      served (λ _ _. config) (require_gateway_auth cfg hash now req g)

  -- `typeof rawBackendId === 'string' && rawBackendId.trim() ? rawBackendId.trim() : undefined`
  abbrev backend_asked : (trim : String → String) → Option Json → Option String
  backend_asked trim none = none
  backend_asked trim (some raw) = elim (as_text raw) [
    | none ↦ none
    | some s ↦ if is_empty (trim s) then none else some (trim s)
  ]

  -- `POST /api/notifications/test` up to its request, `none` where the answer is the 400
  unfoldable test_notification :
      (hash trim base64 : String → String)
      → NotificationConfig
      → (backend_id : Option Json) → Gateway
      → Gateway × Outcome (Option Post)
  unfolding require_gateway_auth send_test
  test_notification hash trim base64 config backend_id g =
      served (λ _ _. send_test base64 config (backend_asked trim backend_id))
        (require_gateway_auth cfg hash now req g)
