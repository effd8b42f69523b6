-- ===== src/Gateway/Relay/Pacing.antt =====
-- The byte rate of a direction of a channel, by the events of its sockets and timers.
use zclaudia_gateway.Prelude.{ℕ, suc, ◌+◌, ◌≤◌, ◌<◌, true, false, List, [], ◌∷◌, ◌≡◌}
use zclaudia_gateway.Gateway.Relay.{
  spend, Leg, RelayEvent, frame, resume_timer, drain_tick, ended, RelayCall, forward, high_water,
  relay_step, relay_run,
}
use zclaudia_gateway.Gateway.Relay.Rate.{total, Paced}

-- the bytes that the calls hand on
abbrev pub forwarded : List RelayCall → ℕ
forwarded [] = 0
forwarded (forward length ∷ calls) = length + forwarded calls
forwarded (_ ∷ calls) = forwarded calls

-- The events of a direction as they come: their times do not go back, a paused sender delivers no
-- frame, the receiver keeps up (no frame finds it behind the high-water mark), no frame is longer than
-- `longest`, and none comes after `until`.
unfoldable pub Delivered : (limit longest until since : ℕ) → List RelayEvent → Leg → Type 0
unfolding relay_step
Delivered limit longest until since [] leg = Unit
Delivered limit longest until since (frame now true buffered length ∷ es) leg =
    (since ≤ now)
    × (leg.paused ≡ false)
    × (buffered ≤ high_water)
    × (length ≤ longest)
    × (now ≤ until)
    × Delivered limit longest until now es (relay_step limit (frame now true buffered length) leg).0
Delivered limit longest until since (frame now false buffered length ∷ es) leg =
    Delivered limit longest until since es leg
Delivered limit longest until since (resume_timer now ∷ es) leg =
    (since ≤ now) × Delivered limit longest until now es (relay_step limit (resume_timer now) leg).0
Delivered limit longest until since (drain_tick is_open buffered ∷ es) leg =
    Delivered limit longest until since es (relay_step limit (drain_tick is_open buffered) leg).0
Delivered limit longest until since (ended ∷ es) leg = Delivered limit longest until since es leg

-- the frames that are handed on
abbrev frames : List RelayEvent → List (ℕ × ℕ)
frames [] = []
frames (frame now true buffered length ∷ es) = (now, length) ∷ frames es
frames (_ ∷ es) = frames es

-- A direction with no drain interval: one timer is set while the sender is paused, for the end of the
-- window; a sender that is not paused has not overdrawn the bucket of a window that lasts.
data Steady (limit since : ℕ) (leg : Leg) : Type 0 where
  flowing :
      leg.drains ≡ 0
      → leg.paused ≡ false
      → leg.resume_timers ≡ []
      → (limit < leg.bucket.used → leg.bucket.reset_at ≤ since)
      → Steady limit since leg
  waiting :
      leg.drains ≡ 0
      → leg.paused ≡ true
      → leg.resume_timers ≡ leg.bucket.reset_at ∷ []
      → Steady limit since leg

module _ (n longest until : ℕ) where
  -- what a frame makes of a direction that is not paused
  abbrev Passed : (now length : ℕ) → Leg → Leg × List RelayCall → Type 0
  Passed now length leg (leg', calls) =
      Steady (suc n) now leg'
      × (leg'.bucket ≡ spend (suc n) now length leg.bucket)
      × (forwarded calls ≡ length)

  -- what a timer makes of a direction, and a drain's tick
  abbrev Still : (since : ℕ) → Leg → Leg × List RelayCall → Type 0
  Still since leg (leg', calls) =
      Steady (suc n) since leg' × (leg'.bucket ≡ leg.bucket) × (forwarded calls ≡ 0)

  -- the frames of the events are paced, and are the bytes that are handed on
  abbrev PacedRun : List RelayEvent → Leg → Type 0
  PacedRun es leg =
      Paced (suc n) longest until (frames es) leg.bucket
      × (forwarded (relay_run (suc n) es leg).1 ≡ total (frames es))
