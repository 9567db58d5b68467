-- ===== src/Relay/Restarts.antt =====
-- How transmuxLoop of backend/internal/relay/manager.go restarts ffmpeg: the waits between the
-- attempts, and when it gives a source up. The clock reads at the end of one attempt are one time.
pub mod Series
mod Tests
use xrestream.Base.{if◌then◌else◌, ℕ, ◌&&◌, ◌*◌, ◌-◌, Bool, Option, false, ltb, none, some}
use xrestream.Base.Int.{ℤ, pos, ◌*ℤ◌, ltb_ℤ, wrap64}
use xrestream.Store.{Time}

abbrev pub second : ℕ
second = 1000000000

pub next_backoff : ℕ → ℕ
next_backoff current =
    if ltb (30 * second) (current * 2)
    then 30 * second
    else if ltb (current * 2) second
    then second
    else current * 2

-- ffmpeg does not start, or it starts and exits.
pub data Attempt : Type 0 where
  start_fails : Time → Attempt
  exits : Time → Time → Attempt

-- The variables that transmuxLoop keeps from one attempt to the next; the zero time is none.
pub record Loop : Type 0 where
  pub backoff : ℕ
  pub first_failure_at : Option Time

pub first_loop : Loop
first_loop = record { backoff = second; first_failure_at = none }

-- sourceErrorAfter
pub source_error_after : ℤ → ℤ
source_error_after secs = wrap64 (secs *ℤ pos second)

pub gave_up : ℤ → Option Time → Time → Bool
gave_up limit none now = false
gave_up limit (some t) now = ltb_ℤ (pos 0) limit && ltb_ℤ limit (pos (now - t))

-- if firstFailureAt.IsZero()
abbrev pub or_now : Option Time → Time → Option Time
or_now none now = some now
or_now (some t) now = some t

pub failure_window : Option Time → Attempt → Option Time
failure_window first (start_fails now) = or_now first now
failure_window first (exits started now) =
    if ltb (30 * second) (now - started) then none else or_now first started

abbrev pub end_of : Attempt → Time
end_of (start_fails now) = now
end_of (exits started now) = now

-- A start sets the backoff back before ffmpeg runs.
backoff_at_end : ℕ → Attempt → ℕ
backoff_at_end backoff (start_fails now) = backoff
backoff_at_end backoff (exits started now) = second

-- One round of the loop: none if the loop gives up, or the variables after the wait, which takes
-- the backoff before it is doubled.
pub attempt : ℤ → Loop → Attempt → Option Loop
unfolding gave_up failure_window backoff_at_end next_backoff
attempt limit s a =
    let first = failure_window s.first_failure_at a in
    if gave_up limit first (end_of a)
    then none
    else some
        (record { backoff = next_backoff (backoff_at_end s.backoff a); first_failure_at = first })
