-- ===== src/PushNotification/Filter.antt =====
-- Which events are posted to the ntfy server, and where.
use mathlib.Core.List.{Memᴰ}
use zclaudia_gateway.Prelude.{
  String, Bool, not, ◌<>◌, ◌&&◌, ltb, get_or, some, List, [], any, length, ◌≡◌, ◌⊎◌, ◌≤◌,
}
use zclaudia_gateway.PushNotification.{
  NotificationConfig, NotifyEvent, Severity, info, severity_order, matches_entry,
}

-- the event's name is the entry, or continues it after a dot
abbrev pub Under : (entry event_name : String) → Type 0
Under entry event_name =
    (event_name ≡ entry) ⊎ ((rest : String) × ((entry <> ".") <> rest ≡ event_name))

-- what a posted event has to satisfy
abbrev pub Wanted : NotificationConfig → NotifyEvent → Type 0
Wanted config event =
    ((entry : String) → Memᴰ entry config.event_denylist → ¬ (Under entry event.name))
    × ((config.event_allowlist ≡ [])
        ⊎ ((entry : String) × (Memᴰ entry config.event_allowlist × Under entry event.name)))
    × ((least : Severity)
        → config.min_severity ≡ some least
        → severity_order least ≤ severity_order (get_or info event.severity))

-- the test of the allow list
abbrev left_out : NotificationConfig → NotifyEvent → Bool
left_out config event =
    ltb 0 (length config.event_allowlist)
    && not (any (matches_entry event.name) config.event_allowlist)
