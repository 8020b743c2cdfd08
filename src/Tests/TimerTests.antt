-- ===== src/Tests/TimerTests.antt =====
-- The timer wheel at concrete entries.
use mathlib.Core.List.Memᴰ.{head, not-nil}
use tsf4g.Prelude.{ℕ, ◌≡◌, refl, List, [], none, some, arith, length, ◌<◌}
use tsf4g.Timer.{
  Entry, Timer, init, push, place, tick, Ticked, tv1, cascade_all, cascade_from, cascade, push_all,
}
use tsf4g.Timer.Drain.{due}
use tsf4g.Timer.Slots.{at}
use tsf4g.Timer.Place.{IsPlaced, place-IsPlaced}
use tsf4g.Timer.Cascade.{IsWheel, init-IsWheel, push-IsWheel, IsIn}
use tsf4g.Timer.Expire.{Expired, tick_lem}
use tsf4g.Timer.Rearm.{rearm, Rearms, tick-rearm}
use tsf4g.Prelude.{if◌then◌else◌, ◌==◌, Bool-cases, inl, inr}

abbrev now : Entry
now = record { name = 1; expires = 0 }

abbrev in_a_while : Entry
in_a_while = record { name = 2; expires = 300 }

abbrev two_timers : Timer
two_timers = push (push init now) in_a_while

two_timers-IsWheel : IsWheel 0 two_timers
two_timers-IsWheel =
    push-IsWheel (push init now) in_a_while (omega arith)
      (push-IsWheel init now (omega arith) init-IsWheel)

abbrev quiet : Entry → ℕ → List Entry
quiet e i = []

two_timers-short : length (at (cascade_all two_timers) (due tv1 0)) < 5
unfolding push init place cascade_all cascade_from cascade push_all
two_timers-short = omega arith

now-IsIn : IsIn two_timers now
unfolding push init place
now-IsIn = (record { level = tv1; index = 0 }, head refl)

tick_lem_example : (t : Ticked) × (tick 5 quiet two_timers ≡ some t) × Expired 0 quiet two_timers t
tick_lem_example =
    tick_lem two_timers (omega arith) two_timers-IsWheel 5 quiet (λ e y m. absurd (not-nil m))
      two_timers-short

place-IsPlaced_example : IsPlaced 1000 (place 1000 5000000000) 5000000000
place-IsPlaced_example = place-IsPlaced 1000 5000000000 (omega arith)

push-IsWheel_example : IsWheel 0 (push init in_a_while)
push-IsWheel_example = push-IsWheel init in_a_while (omega arith) init-IsWheel

-- Only the first of the two entries is pushed again.
abbrev rearm_first : Entry → ℕ → List Entry
rearm_first e i = if e.name == 1 then rearm e i else []

rearm_first-Rearms : Rearms 1 rearm_first
rearm_first-Rearms e i = elim (Bool-cases (e.name == 1)) [
  | inl h ↦ inl (rw h refl)
  | inr h ↦ inr (rw h refl, ground arith)
]

tick-rearm_example : tick 100 rearm_first two_timers ≡ none
tick-rearm_example =
    tick-rearm two_timers now rearm_first 100 (omega arith) two_timers-IsWheel now-IsIn
      (omega arith) rearm_first-Rearms
