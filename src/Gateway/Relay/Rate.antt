-- ===== src/Gateway/Relay/Rate.antt =====
-- How many bytes the relay of a channel lets through in a span of time.
use zclaudia_gateway.Prelude.{
  ℕ, suc, true, ◌+◌, ◌-◌, ◌*◌, ◌≤◌, ◌<◌, leb, if◌then◌else◌, List, [], ◌∷◌, ◌≡◌, refl, ap, arith,
  subst, inl, inr, Bool-cases,
}
use zclaudia_gateway.Gateway.Relay.{Bucket, empty_bucket, spend}

-- frames as pairs of a time and a length
abbrev pub total : List (ℕ × ℕ) → ℕ
total [] = 0
total ((now, length) ∷ fs) = length + total fs

unfoldable pub spend_all : (limit : ℕ) → List (ℕ × ℕ) → Bucket → Bucket
unfolding spend
spend_all limit [] b = b
spend_all limit ((now, length) ∷ fs) b = spend_all limit fs (spend limit now length b)

-- The frames come when the sender is not paused: after a frame that overdrew the bucket, the next
-- comes no sooner than the window ends. No frame is longer than `longest`, or comes after `until`.
unfoldable pub Paced : (limit longest until : ℕ) → List (ℕ × ℕ) → Bucket → Type 0
unfolding spend
Paced limit longest until [] b = Unit
Paced limit longest until ((now, length) ∷ fs) b =
    (limit < b.used → b.reset_at ≤ now)
    × (length ≤ longest)
    × (now ≤ until)
    × Paced limit longest until fs (spend limit now length b)

-- the windows that these frames open
unfoldable pub windows : (limit : ℕ) → List (ℕ × ℕ) → Bucket → ℕ
unfolding spend
windows limit [] b = 0
windows limit ((now, length) ∷ fs) b =
    let rest = windows limit fs (spend limit now length b) in
    if leb b.reset_at now then suc rest else rest

one_more :
    (limit longest length sum used w : ℕ)
    → sum + ((used - limit) + length) ≤ limit + longest + limit * w
    → length + sum + used ≤ limit + longest + limit * suc w
one_more limit longest length sum used w h = omega arith

rate_from :
    (limit longest until : ℕ) (fs : List (ℕ × ℕ)) (b : Bucket)
    → longest ≤ limit
    → b.used ≤ limit + longest
    → b.reset_at ≤ until + 1000
    → Paced limit longest until fs b
    → (total fs + b.used ≤ limit + longest + limit * windows limit fs b)
      × (b.reset_at + 1000 * windows limit fs b ≤ until + 1000)
unfolding Paced windows spend
rate_from limit longest until [] b short used reset p = (omega arith, omega arith)
rate_from limit longest until ((now, length) ∷ fs) b short used reset (pace, fits, soon, p) =
    elim (Bool-cases (leb b.reset_at now)) [
      | inl e ↦
          let b' : Bucket = record { used = (b.used - limit) + length; reset_at = now + 1000 } in
          let same : spend limit now length b ≡ b' = rw (e, spend) refl in
          let over : b.reset_at ≤ now = ground arith in
          let (bytes, time) =
            rate_from limit longest until fs b' short (omega arith) (omega arith)
              (subst (Paced limit longest until fs) same p) in
          rw (e, windows)
            (
              one_more limit longest length (total fs) b.used (windows limit fs b') bytes,
              omega arith,
            )
      | inr e ↦
          let b' : Bucket = record b { used = b.used + length } in
          let same : spend limit now length b ≡ b' = rw (e, spend) refl in
          let within : b.used ≤ limit = ground (arith, pace) in
          let (bytes, time) =
            rate_from limit longest until fs b' short (omega arith) reset
              (subst (Paced limit longest until fs) same p) in
          rw (e, windows) (omega arith, time)
    ]

nothing_carried : (limit length : ℕ) → (0 - limit) + length ≡ length
nothing_carried limit length = omega arith

all_in :
    (limit longest length sum w : ℕ)
    → sum + length ≤ limit + longest + limit * w
    → length + sum ≤ limit * (1 + w) + longest
all_in limit longest length sum w h = omega arith

-- Let no frame be longer than `longest`, and `longest` be within the limit; let the frames be paced,
-- from an empty bucket on. Then they have at most limit * (1 + w) + longest bytes in all, where the w
-- windows after the first last 1000 ms each: now + 1000 * w is at most `until`.
pub spend-rate :
    (limit longest until now length : ℕ) (fs : List (ℕ × ℕ))
    → longest ≤ limit
    → Paced limit longest until ((now, length) ∷ fs) empty_bucket
    → (w : ℕ) × (total ((now, length) ∷ fs) ≤ limit * (1 + w) + longest) × (now + 1000 * w ≤ until)
unfolding Paced spend
spend-rate limit longest until now length fs short (pace, fits, soon, p) =
    let b : Bucket = record { used = length; reset_at = now + 1000 } in
    let begun : leb 0 now ≡ true = ground arith in
    let first : spend limit now length empty_bucket ≡ b =
      rw (begun, spend)
        (ap (λ x. record { used = x; reset_at = now + 1000 }) (nothing_carried limit length)) in
    let (bytes, time) =
      rate_from limit longest until fs b short (omega arith) (omega arith)
        (subst (Paced limit longest until fs) first p) in
    (
      windows limit fs b,
      all_in limit longest length (total fs) (windows limit fs b) bytes,
      omega arith,
    )
