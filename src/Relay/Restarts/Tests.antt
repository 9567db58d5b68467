-- ===== src/Relay/Restarts/Tests.antt =====
-- A source that fails to start twice, runs for a minute, and then keeps dropping out.
use xrestream.Base.{◌*◌, ◌-◌, ◌↔◌, ◌∷◌, ◌≡◌, List, [], none, refl, some}
use xrestream.Base.Int.{ℤ, pos, ◌<ℤ◌, ◌*ℤ◌, wrap64}
use xrestream.Store.{Time}
use xrestream.Relay.Restarts.{
  second, next_backoff, Attempt, start_fails, exits, Loop, first_loop, gave_up, failure_window,
  source_error_after, backoff_at_end, attempt,
}
use xrestream.Relay.Restarts.Series.{
  run, bad_series, oldest, doubled, doublings, capped, restarts_lem,
}

abbrev limit : ℤ
limit = pos (60 * second)

abbrev past : List Attempt
past =
    exits (95 * second) (100 * second)
    ∷ exits (10 * second) (90 * second)
    ∷ start_fails (3 * second)
    ∷ start_fails (1 * second)
    ∷ []

machine : Unit {0}
unfolding run attempt gave_up failure_window backoff_at_end next_backoff first_loop
    source_error_after wrap64 ◌*ℤ◌
machine = tt

limit_of_config : source_error_after (pos 60) ≡ limit
unfolding machine
limit_of_config = refl

kept : Loop
kept = record { backoff = 2 * second; first_failure_at = some (95 * second) }

goes_on : run limit past ≡ some kept
unfolding machine kept
goes_on = refl

ends : run limit (exits (150 * second) (156 * second) ∷ past) ≡ none
unfolding machine
ends = refl

restarts_lem_example :
    (kept.backoff ≡ capped (doubled (doublings past)))
    × ((run limit (exits (150 * second) (156 * second) ∷ past) ≡ none) ↔ (
        (pos 0 <ℤ limit)
        × ((t : Time) × (oldest (bad_series (exits (150 * second) (156 * second) ∷ past)) ≡ some t)
            × (limit <ℤ pos (156 * second - t)))))
restarts_lem_example = restarts_lem limit past kept (exits (150 * second) (156 * second)) goes_on
