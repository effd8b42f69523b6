-- ===== src/Gateway/Relay.antt =====
-- src/server.ts, `wireChannel`: one direction of the relay between the two sockets of a channel. A
-- frame is its length. `buffered` is the receiver's `bufferedAmount`, `is_open` its
-- `readyState === OPEN`. A timer is kept with the time when it is due, the
-- drain intervals are counted; either lets the sender go on.
pub mod Rate
pub mod Pacing
use zclaudia_gateway.Prelude.{
  ℕ, zero, suc, ◌+◌, ◌-◌, ◌*◌, ◌/◌, Bool, true, false, not, ltb, leb, ◌||◌, if◌then◌else◌, Option,
  none, some, List, [], ◌∷◌, ◌++◌,
}

pub record Bucket : Type 0 where
  pub used : ℕ
  pub reset_at : ℕ

abbrev pub empty_bucket : Bucket
empty_bucket = record { used = 0; reset_at = 0 }

-- `bucket.used` and `bucket.resetAt` after a frame; `Math.max(0, used - limit)` is `-` on ℕ
unfoldable pub spend : (limit now length : ℕ) → Bucket → Bucket
spend limit now length b =
    if leb b.reset_at now
    then record { used = (b.used - limit) + length; reset_at = now + 1000 }
    else record b { used = b.used + length }

pub record Leg : Type 0 where
  pub bucket : Bucket
  pub paused : Bool
  -- when the timers that resume the sender are due, the first that was set first
  pub resume_timers : List ℕ
  pub drains : ℕ

pub data RelayEvent : Type 0 where
  frame : (now : ℕ) (is_open : Bool) (buffered length : ℕ) → RelayEvent
  resume_timer : (now : ℕ) → RelayEvent
  drain_tick : (is_open : Bool) (buffered : ℕ) → RelayEvent
  -- the sender's close or error
  ended : RelayEvent

pub data RelayCall : Type 0 where
  forward : (length : ℕ) → RelayCall
  pause resume tear_down : RelayCall
  set_resume_timer : (delay : ℕ) → RelayCall

abbrev pub high_water : ℕ
high_water = 4 * 1024 * 1024

-- the byte rate limit; a limit of 0 is none
unfoldable pub limit_rate : (limit now length : ℕ) → Leg → Leg × List RelayCall
unfolding spend
limit_rate zero now length leg = (leg, [])
limit_rate (suc n) now length leg =
    let b = spend (suc n) now length leg.bucket in
    if ltb (suc n) b.used
    then (
      record leg {
        bucket = b;
        paused = true;
        resume_timers = leg.resume_timers ++ (b.reset_at ∷ []);
      },
      pause ∷ set_resume_timer (b.reset_at - now) ∷ [],
    )
    else (record leg { bucket = b }, [])

-- the backpressure of the receiver
abbrev pub hold_back : (buffered : ℕ) → Leg → Leg × List RelayCall
hold_back buffered leg =
    if ltb high_water buffered
    then (record leg { paused = true; drains = suc leg.drains }, pause ∷ [])
    else (leg, [])

-- the timers without the first that is due
unfoldable pub fire_due : (now : ℕ) → List ℕ → Option (List ℕ)
fire_due now [] = none
fire_due now (due ∷ rest) =
    if leb due now
    then some rest
    else elim (fire_due now rest) [ none ↦ none | some left ↦ some (due ∷ left) ]

unfoldable pub relay_step : (limit : ℕ) → RelayEvent → Leg → Leg × List RelayCall
unfolding limit_rate fire_due
relay_step limit (frame now false buffered length) leg = (leg, [])
relay_step limit (frame now true buffered length) leg =
    let (leg₁, limited) = limit_rate limit now length leg in
    let (leg₂, held) = hold_back buffered leg₁ in (leg₂, forward length ∷ (limited ++ held))
relay_step limit (resume_timer now) leg = elim (fire_due now leg.resume_timers) [
  | none ↦ (leg, [])
  | some left ↦ (record leg { resume_timers = left; paused = false }, resume ∷ [])
]
relay_step limit (drain_tick is_open buffered) leg = elim leg.drains [
  | zero ↦ (leg, [])
  | suc n ↦
      if leb buffered (high_water / 4) || not is_open
      then (record leg { drains = n; paused = false }, resume ∷ [])
      else (leg, [])
]
relay_step limit ended leg = (leg, tear_down ∷ [])

-- a direction of a channel that was just paired
unfoldable pub new_leg : Leg
new_leg = record { bucket = empty_bucket; paused = false; resume_timers = []; drains = 0 }

-- the events of a direction, in their order
unfoldable pub relay_run : (limit : ℕ) → List RelayEvent → Leg → Leg × List RelayCall
unfolding relay_step
relay_run limit [] leg = (leg, [])
relay_run limit (e ∷ es) leg =
    let (leg', calls) = relay_step limit e leg in
    let (leg'', rest) = relay_run limit es leg' in (leg'', calls ++ rest)
