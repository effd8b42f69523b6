-- ===== src/Tests/Edges.antt =====
-- The validation, the rate limits, the admin sessions, the header filter and the notifications at
-- concrete inputs.
use zclaudia_gateway.Prelude.{
  ℕ, ◌≤◌, String, true, false, none, some, List, [], ◌∷◌, ◌≡◌, ◌≢◌, ◌==◌, ap, refl, arith, length,
  inl,
}
use zclaudia_gateway.Map.{Map, get}
use zclaudia_gateway.Map.Laws.{Every}
use zclaudia_gateway.Json.{text, null}
use zclaudia_gateway.Validation.Headers.{filter_proxy_response_headers}
use zclaudia_gateway.Validation.Allowed.{Allowed, filter_proxy_response_headers-Allowed}
use zclaudia_gateway.RateLimit.{
  cleanup, RateEntry, check_limit, retry_after, seconds_up, Buckets, refuse_proxy_request,
}
use zclaudia_gateway.RateLimit.Window.{
  admitted, minimum, window_admits_limit, Counted, retry_after_suffices,
  refuse_proxy_request_buckets,
}
use zclaudia_gateway.RateLimit.Sweeping.{Attempt, proxied, verdicts, cleanup-verdicts}
use zclaudia_gateway.AdminSession.{SessionStore, create, validate, destroy}
use zclaudia_gateway.AdminSession.Lifetime.{
  validates, sweeps, destroys, run, session_accepted, session_expires, destroyed_session,
}
use zclaudia_gateway.PushNotification.{NotificationConfig, NotifyEvent, Post, warning, error, basic}
use zclaudia_gateway.Tests.Data.{config}

abbrev rest : List ℕ
rest = 6 ∷ 7 ∷ []

-- three attempts in a window of two
window_admits_limit_example :
    admitted [] "ip" 2 60_000 (5 ∷ rest) ≡ minimum (length {A = ℕ} (5 ∷ rest)) 2
unfolding get
window_admits_limit_example =
    window_admits_limit [] "ip" 2 60_000 5 rest refl (omega arith) (omega arith, (omega arith, tt))

abbrev spent : Map RateEntry
spent = ("ip", record { count = 10; reset_at = 61_500 }) ∷ []

retry_after_suffices_example :
    (1 ≤ retry_after 2_000 spent "ip" 60_000)
    × (retry_after 2_000 spent "ip" 60_000 ≤ seconds_up 60_000)
    × ((check_limit 62_001 spent "ip" 10 60_000).1 ≡ true)
unfolding get retry_after
retry_after_suffices_example =
    retry_after_suffices 2_000 62_001 spent "ip" 10 60_000
      (record { count = 10; reset_at = 61_500 }) refl (omega arith) (omega arith) (omega arith)
      (omega arith)

abbrev buckets : Buckets
buckets = record { auth_failures = []; proxy_requests = spent; proxy_ip_requests = [] }

refuse_proxy_request_buckets_example :
    Counted config.limits 2_000 buckets "t" "ip"
      (refuse_proxy_request config.limits 2_000 buckets "t" "ip")
refuse_proxy_request_buckets_example =
    refuse_proxy_request_buckets config.limits 2_000 buckets "t" "ip"

-- two requests of one tenant after a sweep that takes out its entry
abbrev attempts : List (ℕ × Attempt)
attempts = (70_000, proxied "ip" "ip1") ∷ ((70_001, proxied "ip" "ip1") ∷ [])

cleanup-verdicts_example :
    verdicts config.limits attempts (cleanup 65_000 buckets)
    ≡ verdicts config.limits attempts buckets
unfolding verdicts get
cleanup-verdicts_example =
    cleanup-verdicts config.limits 65_000 buckets attempts tt (refl, tt) tt
      (omega arith, (omega arith, tt))

abbrev sessions : SessionStore
sessions = record { sessions = ("old", 50) ∷ []; ttl_ms = 100 }

apart : ◌≢◌ {A = String} "old" "s"
apart h = absurd (ground (arith, ap (λ x. x == "s") h))

session_accepted_example :
    (validate "s" 105
      (run (create "s" 10 sessions).0 (validates "s" 20 ∷ sweeps 60 ∷ destroys "old" ∷ []))).1
    ≡ true
unfolding get
session_accepted_example =
    session_accepted sessions "s" 10 105 (validates "s" 20 ∷ sweeps 60 ∷ destroys "old" ∷ [])
      (refl, tt) (inl (omega arith), (omega arith, ((λ h. apart h), tt))) (omega arith)

session_expires_example :
    (validate "s" 111 (run (create "s" 10 sessions).0 (validates "s" 20 ∷ []))).1 ≡ false
unfolding get
session_expires_example =
    session_expires sessions "s" 10 111 (validates "s" 20 ∷ []) (refl, tt) (tt, tt) (omega arith)

destroyed_session_example :
    (validate "old" 20 (run (destroy "old" sessions) (sweeps 15 ∷ []))).1 ≡ false
unfolding get
destroyed_session_example = destroyed_session sessions "old" 20 (sweeps 15 ∷ []) (refl, tt) (tt, tt)

filter_proxy_response_headers-Allowed_example : Every (Allowed (λ s. s)) (
    filter_proxy_response_headers
      (λ s. s)
      (some (("etag", text "x") ∷ ("set-cookie", text "y") ∷ ("vary", null) ∷ [])))
filter_proxy_response_headers-Allowed_example =
    filter_proxy_response_headers-Allowed (λ s. s)
      (some (("etag", text "x") ∷ ("set-cookie", text "y") ∷ ("vary", null) ∷ []))

abbrev notifications : NotificationConfig
notifications = record {
  enabled = true;
  ntfy_url = "https://ntfy.sh/";
  ntfy_topic = "runs";
  ntfy_auth_mode = basic;
  ntfy_publish_token = "";
  ntfy_subscribe_token = "";
  ntfy_username = "me";
  ntfy_password = "secret";
  event_allowlist = "app.run" ∷ [];
  event_denylist = "app.runner" ∷ ("app.run.started" ∷ []);
  min_severity = some warning;
}

abbrev failed_run : NotifyEvent
failed_run = record {
  name = "app.run.failed";
  severity = some error;
  title = "Failed";
  body = "the run failed";
  tags = "a" ∷ ("b" ∷ []);
  click_url = none;
}

abbrev failed_post : Post
failed_post = record {
  url = "https://ntfy.sh/runs-b1";
  headers =
      ("Title", "Failed")
      ∷ (("Priority", "urgent") ∷ (("Tags", "a,b") ∷ (("Authorization", "Basic me:secret") ∷ [])));
  body = "the run failed";
}
