-- ===== src/RateLimit/Sweeping.antt =====
-- What the cleanup of the buckets leaves of the decisions that follow it.
use zclaudia_gateway.Prelude.{
  ℕ, ◌≤◌, ◌<◌, String, Bool, true, ltb, if◌then◌else◌, List, [], ◌∷◌, Option, none, some, ◌⊎◌, ◌≡◌,
  refl, sym, inl, inr, ◌∙◌, ap, subst, arith, All, Option-cases, Bool-cases, text-cases,
}
use zclaudia_gateway.Map.{Map, get, set, keep, Distinct}
use zclaudia_gateway.Map.Laws.{get-set_self, get-set_ne, get-keep, passing}
use zclaudia_gateway.RateLimit.{
  RateEntry, check_limit, count_up, fresh_entry, live_at, Buckets, Limits, Refusal, by_tenant,
  refuse_proxy_request, refuse_tenant, record_auth_failure, cleanup, rate_window,
}

-- an attempt that one of the limits decides on
pub data Attempt : Type 0 where
  failed_auth : (ip : String) → Attempt
  proxied : (tenant ip : String) → Attempt

pub data Verdict : Type 0 where
  within_limit : Bool → Verdict
  proxy_refusal : Option Refusal → Verdict

unfoldable pub attempt : Limits → ℕ → Attempt → Buckets → Buckets × Verdict
unfolding record_auth_failure refuse_proxy_request
attempt limits now (failed_auth ip) b =
    let (b', within) = record_auth_failure limits now b ip in (b', within_limit within)
attempt limits now (proxied tenant ip) b =
    let (b', refusal) = refuse_proxy_request limits now b tenant ip in (b', proxy_refusal refusal)

-- what is decided of the attempts, in their order
unfoldable pub verdicts : Limits → List (ℕ × Attempt) → Buckets → List Verdict
unfolding attempt
verdicts limits [] b = []
verdicts limits ((now, a) ∷ rest) b =
    let (b', v) = attempt limits now a b in v ∷ verdicts limits rest b'

-- an entry that was swept out, or the same
abbrev Swept : ℕ → Map RateEntry → Map RateEntry → Type 0
Swept swept m m' =
    (k : String)
    → (get k m ≡ get k m')
      ⊎ ((get k m ≡ none) × ((e : RateEntry) × ((get k m' ≡ some e) × (e.reset_at < swept))))

set-Swept :
    (swept : ℕ) (k : String) (e : RateEntry) (m m' : Map RateEntry)
    → Swept swept m m'
    → Swept swept (set k e m) (set k e m')
set-Swept swept k e m m' r j = elim (text-cases k j) [
  | inl (same, _) ↦ inl (
      subst (λ x. get x (set k e m) ≡ get x (set k e m')) same
        (get-set_self k e m ∙ sym (get-set_self k e m')))
  | inr (other, _) ↦ elim (r j) [
    | inl p ↦ inl (get-set_ne k j e m other ∙ (p ∙ sym (get-set_ne k j e m' other)))
    | inr (p, (v, (q, h))) ↦
        inr (get-set_ne k j e m other ∙ p, (v, (get-set_ne k j e m' other ∙ q, h)))
  ]
]

-- the two maps after one attempt are alike, and the decisions the same
abbrev Alike : ℕ → Map RateEntry × Bool → Map RateEntry × Bool → Type 0
Alike swept r r' = Swept swept r.0 r'.0 × (r.1 ≡ r'.1)

check_limit-Alike :
    (swept now : ℕ) (k : String) (limit window : ℕ) (m m' : Map RateEntry)
    → swept ≤ now
    → Swept swept m m'
    → Alike swept (check_limit now m k limit window) (check_limit now m' k limit window)
unfolding check_limit
check_limit-Alike swept now k limit window m m' h r = elim (r k) [
  | inl p ↦ elim (Option-cases (get k m')) [
    | inl e ↦ rw (p ∙ e, e, check_limit) (set-Swept swept k (fresh_entry now window) m m' r, refl)
    | inr (v, e) ↦ elim (Bool-cases (ltb v.reset_at now)) [
      | inl f ↦
          rw (p ∙ e, e, f, check_limit) (set-Swept swept k (fresh_entry now window) m m' r, refl)
      | inr f ↦ rw (p ∙ e, e, f, check_limit) (set-Swept swept k (count_up v) m m' r, refl)
    ]
  ]
  | inr (p, (v, (q, old))) ↦
      let f : ltb v.reset_at now ≡ true = ground arith in
      rw (p, q, f, check_limit) (set-Swept swept k (fresh_entry now window) m m' r, refl)
]

-- the buckets, one by one
abbrev SweptBuckets : ℕ → Buckets → Buckets → Type 0
SweptBuckets swept b b' =
    Swept swept b.auth_failures b'.auth_failures
    × Swept swept b.proxy_requests b'.proxy_requests
    × Swept swept b.proxy_ip_requests b'.proxy_ip_requests

refuse_tenant-Swept :
    (swept now : ℕ) (limits : Limits) (tenant : String) (b b' : Buckets)
    → swept ≤ now
    → SweptBuckets swept b b'
    → SweptBuckets swept
        (refuse_tenant limits now b tenant).0
        (refuse_tenant limits now b' tenant).0
      × ((refuse_tenant limits now b tenant).1 ≡ (refuse_tenant limits now b' tenant).1)
refuse_tenant-Swept swept now limits tenant b b' h (r, s, t) =
    let (u, v) =
      check_limit-Alike swept now tenant limits.proxy_rate_limit rate_window b.proxy_requests
        b'.proxy_requests h s in
    ((r, u, t), ap (λ x. if x then none else some (by_tenant tenant)) v)

refuse_proxy_request-Swept :
    (swept now : ℕ) (limits : Limits) (tenant ip : String) (b b' : Buckets)
    → swept ≤ now
    → SweptBuckets swept b b'
    → SweptBuckets swept
        (refuse_proxy_request limits now b tenant ip).0
        (refuse_proxy_request limits now b' tenant ip).0
      × ((refuse_proxy_request limits now b tenant ip).1
          ≡ (refuse_proxy_request limits now b' tenant ip).1)
unfolding refuse_proxy_request
refuse_proxy_request-Swept swept now limits tenant ip b b' h (r, s, t) =
    let ceiling = limits.proxy_ip_rate_limit in
    let (u, v) =
      check_limit-Alike swept now ip ceiling rate_window b.proxy_ip_requests b'.proxy_ip_requests h
        t in
    elim (Bool-cases (ltb 0 ceiling)) [
      | inr e ↦
          rw (e, refuse_proxy_request)
            (refuse_tenant-Swept swept now limits tenant b b' h (r, s, t))
      | inl e ↦ elim (Bool-cases (check_limit now b'.proxy_ip_requests ip ceiling rate_window).1) [
        | inl f ↦
            rw (e, v ∙ f, f, refuse_proxy_request)
              (refuse_tenant-Swept swept now limits tenant
                (record b {
                  proxy_ip_requests =
                      (check_limit now b.proxy_ip_requests ip ceiling rate_window).0;
                })
                (record b' {
                  proxy_ip_requests =
                      (check_limit now b'.proxy_ip_requests ip ceiling rate_window).0;
                })
                h (r, s, u))
        | inr f ↦ rw (e, v ∙ f, f, refuse_proxy_request) ((r, s, u), refl)
      ]
    ]

attempt-Swept :
    (swept now : ℕ) (limits : Limits) (a : Attempt) (b b' : Buckets)
    → swept ≤ now
    → SweptBuckets swept b b'
    → SweptBuckets swept (attempt limits now a b).0 (attempt limits now a b').0
      × ((attempt limits now a b).1 ≡ (attempt limits now a b').1)
unfolding attempt record_auth_failure
attempt-Swept swept now limits (failed_auth ip) b b' h (r, s, t) =
    let (u, v) =
      check_limit-Alike swept now ip limits.auth_fail_limit rate_window b.auth_failures
        b'.auth_failures h r in
    ((u, s, t), ap within_limit v)
attempt-Swept swept now limits (proxied tenant ip) b b' h r =
    let (u, v) = refuse_proxy_request-Swept swept now limits tenant ip b b' h r in
    (u, ap proxy_refusal v)

verdicts-Swept :
    (swept : ℕ) (limits : Limits) (attempts : List (ℕ × Attempt)) (b b' : Buckets)
    → All (λ x. swept ≤ x.0) attempts
    → SweptBuckets swept b b'
    → verdicts limits attempts b ≡ verdicts limits attempts b'
unfolding verdicts
verdicts-Swept swept limits [] b b' h r = refl
verdicts-Swept swept limits ((now, a) ∷ rest) b b' (h, hs) r =
    let (u, v) = attempt-Swept swept now limits a b b' h r in
    let later =
      verdicts-Swept swept limits rest (attempt limits now a b).0 (attempt limits now a b').0 hs
        u in
    ap (λ x. x ∷ verdicts limits rest (attempt limits now a b).0) v
    ∙ ap (λ xs. (attempt limits now a b').1 ∷ xs) later

kept-Swept : (swept : ℕ) (m : Map RateEntry) → Distinct m → Swept swept (keep (live_at swept) m) m
kept-Swept swept m d k = elim (Option-cases (get k m)) [
  | inl e ↦ inl (get-keep (live_at swept) k m d ∙ (ap (passing (live_at swept k)) e ∙ sym e))
  | inr (v, e) ↦
      let kept = get-keep (live_at swept) k m d ∙ ap (passing (live_at swept k)) e in
      elim (Bool-cases (ltb v.reset_at swept)) [
        | inl f ↦ inr (ground (arith, kept), (v, (e, ground arith)))
        | inr f ↦ inl (ground (arith, kept))
      ]
]

-- When the buckets have one entry for each key, as JavaScript maps have, a cleanup changes no later
-- decision: whatever attempts follow at the time of the cleanup or later, failed authentications
-- and proxied requests, of any addresses and tenants, are decided as they were without the cleanup.
pub cleanup-verdicts :
    (limits : Limits) (swept : ℕ) (b : Buckets) (attempts : List (ℕ × Attempt))
    → Distinct b.auth_failures
    → Distinct b.proxy_requests
    → Distinct b.proxy_ip_requests
    → All (λ x. swept ≤ x.0) attempts
    → verdicts limits attempts (cleanup swept b) ≡ verdicts limits attempts b
unfolding cleanup
cleanup-verdicts limits swept b attempts d d' d'' h =
    verdicts-Swept swept limits attempts (cleanup swept b) b h (
      kept-Swept swept b.auth_failures d,
      kept-Swept swept b.proxy_requests d',
      kept-Swept swept b.proxy_ip_requests d'',
    )
