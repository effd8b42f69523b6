-- ===== src/RateLimit.antt =====
-- src/server.ts, the fixed-window rate limits: `checkLimit`, `rateLimited`, `recordAuthFailure`,
-- `refuseProxyRequest` and the cleanup of their buckets. Times are in milliseconds and given as
-- `now`. The cleanup's other loop, over the channel tickets, is in Channels.
pub mod Window
pub mod Sweeping
use zclaudia_gateway.Prelude.{
  ℕ, ◌+◌, ◌-◌, ◌*◌, ◌/◌, String, Bool, true, false, not, ltb, leb, nat_eq, ◌&&◌, if◌then◌else◌,
  Option, none, some,
}
use zclaudia_gateway.Map.{Map, get, set, keep}

pub record RateEntry : Type 0 where
  pub count : ℕ
  pub reset_at : ℕ

abbrev pub rate_window : ℕ
rate_window = 60_000

-- `{ count: 1, resetAt: now + window }`
abbrev pub fresh_entry : ℕ → ℕ → RateEntry
fresh_entry now window = record { count = 1; reset_at = now + window }

-- The entry counts a refused attempt too.
abbrev pub count_up : RateEntry → RateEntry
count_up e = record e { count = e.count + 1 }

unfoldable pub check_limit : ℕ → Map RateEntry → String → ℕ → ℕ → Map RateEntry × Bool
check_limit now buckets key limit window = elim (get key buckets) [
  | none ↦ (set key (fresh_entry now window) buckets, true)
  | some e ↦
      if ltb e.reset_at now
      then (set key (fresh_entry now window) buckets, true)
      else (set key (count_up e) buckets, not (ltb limit (e.count + 1)))
]

-- `Math.ceil(ms / 1000)`
abbrev pub seconds_up : ℕ → ℕ
seconds_up ms = (ms + 999) / 1000

-- `Math.max(1, …)`; a time of reset before `now` gives 0 seconds, and so 1
abbrev pub at_least_one : ℕ → ℕ
at_least_one n = if ltb n 1 then 1 else n

-- The Retry-After of the 429 that `rateLimited` sends. A `resetAt` of 0 counts as missing.
unfoldable pub retry_after : ℕ → Map RateEntry → String → ℕ → ℕ
retry_after now buckets key window = elim (get key buckets) [
  | none ↦ seconds_up window
  | some e ↦
      if nat_eq e.reset_at 0
      then seconds_up window
      else at_least_one (seconds_up (e.reset_at - now))
]

pub record Limits : Type 0 where
  pub auth_fail_limit : ℕ
  pub proxy_rate_limit : ℕ
  pub proxy_ip_rate_limit : ℕ

pub record Buckets : Type 0 where
  pub auth_failures : Map RateEntry
  pub proxy_requests : Map RateEntry
  pub proxy_ip_requests : Map RateEntry

unfoldable pub record_auth_failure : Limits → ℕ → Buckets → String → Buckets × Bool
record_auth_failure limits now b ip =
    let (failures, within) =
      check_limit now b.auth_failures ip limits.auth_fail_limit rate_window in
    (record b { auth_failures = failures }, within)

-- what `denyUnauthorized` answers
pub data Denial : Type 0 where
  unauthorized : Denial
  too_many : (retry_after : ℕ) → Denial

unfoldable pub deny_unauthorized : Limits → ℕ → Buckets → String → Buckets × Denial
unfolding record_auth_failure
deny_unauthorized limits now b ip =
    let (b', within) = record_auth_failure limits now b ip in
    if within
    then (b', unauthorized)
    else (b', too_many (retry_after now b'.auth_failures ip rate_window))

-- The bucket that refused: the IP ceiling's or the tenant's.
pub data Refusal : Type 0 where
  by_ip : String → Refusal
  by_tenant : String → Refusal

-- the tenant's part of `refuseProxyRequest`
abbrev pub refuse_tenant : Limits → ℕ → Buckets → String → Buckets × Option Refusal
refuse_tenant limits now b credential_id =
    let (requests, within) =
      check_limit now b.proxy_requests credential_id limits.proxy_rate_limit rate_window in
    (
      record b { proxy_requests = requests },
      if within then none else some (by_tenant credential_id),
    )

unfoldable pub refuse_proxy_request :
    Limits → ℕ → Buckets → String → String → Buckets × Option Refusal
refuse_proxy_request limits now b credential_id ip =
    if ltb 0 limits.proxy_ip_rate_limit
    then (let (requests, within) =
          check_limit now b.proxy_ip_requests ip limits.proxy_ip_rate_limit rate_window in
        let b' : Buckets = record b { proxy_ip_requests = requests } in
        if within then refuse_tenant limits now b' credential_id else (b', some (by_ip ip)))
    else refuse_tenant limits now b credential_id

abbrev pub live_at : ℕ → String → RateEntry → Bool
live_at now key e = not (ltb e.reset_at now)

-- the loop of `rateLimitCleanup` over the three maps
unfoldable pub cleanup : ℕ → Buckets → Buckets
cleanup now b = record {
  auth_failures = keep (live_at now) b.auth_failures;
  proxy_requests = keep (live_at now) b.proxy_requests;
  proxy_ip_requests = keep (live_at now) b.proxy_ip_requests;
}
