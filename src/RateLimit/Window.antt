-- ===== src/RateLimit/Window.antt =====
-- What one window admits, and what the cleanup and the Retry-After header leave of it.
use zclaudia_gateway.Prelude.{
  ℕ, suc, ◌+◌, ◌-◌, ◌*◌, ◌≤◌, ◌<◌, String, Bool, true, ltb, if◌then◌else◌, List, [], ◌∷◌, length,
  Option, none, some, ◌≡◌, ◌≢◌, inl, inr, arith, All, Option-cases, Bool-cases, not, ◌&&◌,
}
use zclaudia_gateway.Map.{Map, get, set}
use zclaudia_gateway.Map.Laws.{get-set_self, get-set_ne}
use zclaudia_gateway.RateLimit.{
  RateEntry, check_limit, count_up, fresh_entry, retry_after, seconds_up, Buckets, Limits, Refusal,
  refuse_proxy_request, by_ip, by_tenant, rate_window,
}

-- Attempts by one key at the given times: how many were admitted.
unfoldable pub admitted : Map RateEntry → String → ℕ → ℕ → List ℕ → ℕ
admitted m key limit window [] = 0
admitted m key limit window (t ∷ ts) =
    let (m', within) = check_limit t m key limit window in
    let rest = admitted m' key limit window ts in if within then suc rest else rest

abbrev pub minimum : ℕ → ℕ → ℕ
minimum a b = if ltb a b then a else b

-- While the window lasts, attempts are admitted up to the limit, counting those before.
admitted_within :
    (m : Map RateEntry) (key : String) (limit window : ℕ) (e : RateEntry) (ts : List ℕ)
    → get key m ≡ some e
    → All (λ t. t ≤ e.reset_at) ts
    → admitted m key limit window ts ≡ minimum (length ts) (limit - e.count)
unfolding admitted check_limit
admitted_within m key limit window e [] h a = ground arith
admitted_within m key limit window e (t ∷ ts) h (now, later) =
    let ih =
      admitted_within (set key (count_up e) m) key limit window (count_up e) ts
        (get-set_self key (count_up e) m) later in
    ground (arith, ih)

-- In one window a key has exactly its limit admitted, and everything as long as there is less:
-- from a key with no entry, attempts at `t` and at any later times up to the end of the window.
pub window_admits_limit :
    (m : Map RateEntry) (key : String) (limit window t : ℕ) (ts : List ℕ)
    → get key m ≡ none
    → 0 < limit
    → All (λ u. u ≤ t + window) ts
    → admitted m key limit window (t ∷ ts) ≡ minimum (length (t ∷ ts)) limit
unfolding admitted check_limit
window_admits_limit m key limit window t ts h pos later =
    let e = fresh_entry t window in
    let rest = admitted_within (set key e m) key limit window e ts (get-set_self key e m) later in
    ground (arith, rest)

-- An attempt by one key changes no other key's entry: tenants do not spend one another's budget.
check_limit-other_key :
    (now : ℕ) (m : Map RateEntry) (k j : String) (limit window : ℕ)
    → k ≢ j
    → get j (check_limit now m k limit window).0 ≡ get j m
unfolding check_limit
check_limit-other_key now m k j limit window n = elim (Option-cases (get k m)) [
  | inl e ↦ rw (e, check_limit) (get-set_ne k j _ m n)
  | inr (v, e) ↦
      ground (arith, get-set_ne k j (fresh_entry now window) m n, get-set_ne k j (count_up v) m n)
]

-- what `check_limit` decides, from the entry alone
abbrev pub decision : ℕ → ℕ → Option RateEntry → Bool
decision now limit none = true
decision now limit (some e) = if ltb e.reset_at now then true else not (ltb limit (e.count + 1))

-- the entry after an attempt: a first one, or one more in the window that lasts
abbrev pub counted : ℕ → Option RateEntry → RateEntry
counted now none = fresh_entry now rate_window
counted now (some e) = if ltb e.reset_at now then fresh_entry now rate_window else count_up e

check_limit-decision :
    (now : ℕ) (m : Map RateEntry) (k : String) (limit window : ℕ)
    → (check_limit now m k limit window).1 ≡ decision now limit (get k m)
unfolding check_limit
check_limit-decision now m k limit window = ground arith

check_limit-counted :
    (now : ℕ) (m : Map RateEntry) (k : String) (limit : ℕ)
    → get k (check_limit now m k limit rate_window).0 ≡ some (counted now (get k m))
unfolding check_limit
check_limit-counted now m k limit = elim (Option-cases (get k m)) [
  | inl e ↦ rw (e, check_limit) (get-set_self k (fresh_entry now rate_window) m)
  | inr (v, e) ↦ elim (Bool-cases (ltb v.reset_at now)) [
    | inl f ↦ rw (e, f, check_limit) (get-set_self k (fresh_entry now rate_window) m)
    | inr f ↦ rw (e, f, check_limit) (get-set_self k (count_up v) m)
  ]
]

-- For a key whose entry resets within one window from now, the retry time tells how long to wait:
-- at least one second, at most the window, and an attempt more than that many seconds later is
-- admitted.
pub retry_after_suffices :
    (now later : ℕ) (m : Map RateEntry) (k : String) (limit window : ℕ) (e : RateEntry)
    → get k m ≡ some e
    → 0 < e.reset_at
    → e.reset_at ≤ now + window
    → 0 < window
    → now + retry_after now m k window * 1000 < later
    → (1 ≤ retry_after now m k window)
      × (retry_after now m k window ≤ seconds_up window)
      × ((check_limit later m k limit window).1 ≡ true)
unfolding retry_after check_limit
retry_after_suffices now later m k limit window e g pos within w h = ground arith

-- the answer by the entries of the address and of the tenant, in this order
abbrev pub refusal_of : Limits → ℕ → Buckets → String → String → Option Refusal
refusal_of limits now b tenant ip =
    if ltb 0 limits.proxy_ip_rate_limit
      && not (decision now limits.proxy_ip_rate_limit (get ip b.proxy_ip_requests))
    then some (by_ip ip)
    else if decision now limits.proxy_rate_limit (get tenant b.proxy_requests)
    then none
    else some (by_tenant tenant)

-- the buckets after a request and its answer, by the buckets before it
abbrev pub Counted : Limits → ℕ → Buckets → String → String → Buckets × Option Refusal → Type 0
Counted limits now b tenant ip (b', refused) =
    (refused ≡ refusal_of limits now b tenant ip)
    × ((other : String) → tenant ≢ other → get other b'.proxy_requests ≡ get other b.proxy_requests)
    × ((other : String)
        → ip ≢ other
        → get other b'.proxy_ip_requests ≡ get other b.proxy_ip_requests)
    × (0 < limits.proxy_ip_rate_limit
        → get ip b'.proxy_ip_requests ≡ some (counted now (get ip b.proxy_ip_requests)))
    × (refused ≡ some (by_ip ip) → b'.proxy_requests ≡ b.proxy_requests)
    × (refused ≢ some (by_ip ip)
        → get tenant b'.proxy_requests ≡ some (counted now (get tenant b.proxy_requests)))

-- An authenticated request is refused by its address when the ceiling is set and the entry of the
-- address is beyond it, else by its tenant when the entry of the tenant is beyond the limit, and
-- else not at all. The entries of other tenants and of other addresses stay as they are. With the
-- ceiling set the attempt is counted for the address. It is counted for the tenant, unless the
-- address refused it: then all the tenants' entries stay as they are.
pub refuse_proxy_request_buckets :
    (limits : Limits) (now : ℕ) (b : Buckets) (tenant ip : String)
    → Counted limits now b tenant ip (refuse_proxy_request limits now b tenant ip)
unfolding refuse_proxy_request
refuse_proxy_request_buckets limits now b tenant ip =
    let ceiling = limits.proxy_ip_rate_limit in
    let by_address = check_limit-decision now b.proxy_ip_requests ip ceiling rate_window in
    let by_credential =
      check_limit-decision now b.proxy_requests tenant limits.proxy_rate_limit rate_window in
    (
      ground (arith, by_address, by_credential),
      λ other n. ground (
        arith,
        check_limit-other_key now b.proxy_requests tenant other limits.proxy_rate_limit rate_window
            n,
      ),
      λ other n.
          ground
            (arith, check_limit-other_key now b.proxy_ip_requests ip other ceiling rate_window n),
      λ pos. ground (arith, check_limit-counted now b.proxy_ip_requests ip ceiling),
      λ e. ground (arith),
      λ n. ground (arith, check_limit-counted now b.proxy_requests tenant limits.proxy_rate_limit),
    )
