-- ===== src/Relay/Restarts/Series.antt =====
-- The waits and the giving up, from the attempts themselves.
use xrestream.Base.{
  if◌then◌else◌, ℕ, ◌*◌, ◌-◌, ◌↔◌, ◌∙◌, ◌∷◌, ◌≡◌, ◌≤◌, Bool, List, Option, Option-cases, [], ap,
  arith, inl, inr, ltb, none, not, refl, some, suc, text_eq, true, zero,
}
use xrestream.Base.Int.{ℤ, pos, ◌<ℤ◌}
use xrestream.Store.{Time}
use xrestream.Relay.Restarts.{
  second, next_backoff, Attempt, start_fails, exits, Loop, first_loop, gave_up, or_now,
  failure_window, end_of, backoff_at_end, attempt,
}

-- The loop after some attempts, the newest first; none if it has given up.
unfoldable pub run : ℤ → List Attempt → Option Loop
run limit [] = some first_loop
run limit (a ∷ past) = elim (run limit past) [ none ↦ none | some s ↦ attempt limit s a ]

-- ffmpeg was not up for more than half a minute.
abbrev pub is_bad : Attempt → Bool
is_bad (start_fails now) = true
is_bad (exits started now) = not (ltb (30 * second) (now - started))

-- The newest attempts up to the first good one.
abbrev pub bad_series : List Attempt → List Attempt
bad_series [] = []
bad_series (a ∷ past) = if is_bad a then a ∷ bad_series past else []

abbrev pub begin_of : Attempt → Time
begin_of (start_fails now) = now
begin_of (exits started now) = started

-- When the oldest of some attempts began.
abbrev pub oldest : List Attempt → Option Time
oldest [] = none
oldest (a ∷ past) = or_now (oldest past) (begin_of a)

failure_window-series :
    (a : Attempt) (past : List Attempt)
    → failure_window (oldest (bad_series past)) a ≡ oldest (bad_series (a ∷ past))
unfolding failure_window
failure_window-series (start_fails now) past = refl
failure_window-series (exits started now) past = ground arith

-- The doublings since the last time ffmpeg was up.
abbrev pub doublings : List Attempt → ℕ
doublings [] = 0
doublings (start_fails now ∷ past) = suc (doublings past)
doublings (exits started now ∷ past) = 1

-- A second, doubled a number of times.
abbrev pub doubled : ℕ → ℕ
doubled zero = second
doubled (suc n) = doubled n * 2

abbrev pub capped : ℕ → ℕ
capped n = if ltb (30 * second) n then 30 * second else n

-- What the loop's variables are, from the attempts.
abbrev Follows : List Attempt → Loop → Type 0
Follows past s =
    (s.first_failure_at ≡ oldest (bad_series past))
    × (s.backoff ≡ capped (doubled (doublings past)))

doubled_ge : (n : ℕ) → second ≤ doubled n
doubled_ge zero = omega arith
doubled_ge (suc n) = omega (arith, doubled_ge n)

next_backoff-capped : (n : ℕ) → next_backoff (capped (doubled n)) ≡ capped (doubled (suc n))
unfolding next_backoff
next_backoff-capped n = ground (arith, doubled_ge n)

attempt-Follows :
    (limit : ℤ) (s s' : Loop) (a : Attempt) (past : List Attempt)
    → Follows past s
    → attempt limit s a ≡ some s'
    → Follows (a ∷ past) s'
unfolding attempt backoff_at_end
attempt-Follows limit s s' a past (first, backoff) e =
    ground (arith, failure_window-series a past, next_backoff-capped (doublings past))

run-Follows :
    (limit : ℤ) (past : List Attempt) (s : Loop) → run limit past ≡ some s → Follows past s
unfolding run first_loop
run-Follows limit [] s e = ground arith
run-Follows limit (a ∷ past) s e = elim (Option-cases (run limit past)) [
  | inl ended ↦
      let none_left : ◌≡◌ {A = Option Loop} none (some s) = (rw (ended, run) at e) in absurd (cc)
  | inr (before, going) ↦
      attempt-Follows limit before s a past (run-Follows limit past before going)
        (rw (going, run) at e)
]

gave_up_iff :
    (limit : ℤ) (first : Option Time) (now : Time)
    → (gave_up limit first now ≡ true)
      ↔ ((pos 0 <ℤ limit) × ((t : Time) × (first ≡ some t) × (limit <ℤ pos (now - t))))
unfolding gave_up
gave_up_iff limit none now = (λ h. absurd (cc), λ (_, (_, e, _)). absurd (cc))
gave_up_iff limit (some t) now =
    (λ h. (ground arith, (t, refl, ground arith)), λ (p, (t', e, l)). ground arith)

attempt-none_iff :
    (limit : ℤ) (s : Loop) (a : Attempt)
    → (attempt limit s a ≡ none)
      ↔ (gave_up limit (failure_window s.first_failure_at a) (end_of a) ≡ true)
unfolding attempt
attempt-none_iff limit s a = ground arith

-- While transmuxLoop goes on, its backoff is a second, doubled at each failed start since ffmpeg
-- was up last and once where it was up at all, and at most thirty seconds; and an attempt makes it
-- give up exactly when a positive limit is exceeded, at the attempt's end, by the time since the
-- begin of the oldest attempt of the unbroken series of bad ones that the attempt ends, a bad one
-- being one in which ffmpeg was not up for more than thirty seconds.
pub restarts_lem :
    (limit : ℤ) (past : List Attempt) (s : Loop) (a : Attempt)
    → run limit past ≡ some s
    → (s.backoff ≡ capped (doubled (doublings past)))
      × ((run limit (a ∷ past) ≡ none) ↔ (
          (pos 0 <ℤ limit)
          × ((t : Time) × (oldest (bad_series (a ∷ past)) ≡ some t)
              × (limit <ℤ pos (end_of a - t)))))
unfolding run
restarts_lem limit past s a e =
    let (first, backoff) = run-Follows limit past s e in
    let series : failure_window s.first_failure_at a ≡ oldest (bad_series (a ∷ past)) =
      ap (λ f. failure_window f a) first ∙ failure_window-series a past in
    let ends = attempt-none_iff limit s a in
    let exceeded = gave_up_iff limit (oldest (bad_series (a ∷ past))) (end_of a) in
    (
      backoff,
      rw (e, run)
          (λ h. exceeded.0 (rw series at (ends.0 h)), λ h. ends.1 (rw series (exceeded.1 h))),
    )
