-- ===== src/Entry/Signals/Ended.antt =====
-- That the process ends once the goroutine has received a signal, whatever else happens.
use dynamic_annotation_contr.Base.{
  ℕ, ◌+◌, ◌≡◌, ◌≤◌, ◌<◌, Bool, true, false, none, some, List, [], ◌∷◌, arith,
}
use dynamic_annotation_contr.Api.{Time}
use dynamic_annotation_contr.Entry.Signals.{
  awaiting, in_grace, Process, grace_period, notify, cancel, elapse, force, return_from_start,
  Event, signalled, cancelled, forcing, elapsed, returned, next,
}

abbrev pub run : List Event → Process → Process
run [] p = p
run (event ∷ events) p = run events (next event p)

-- the time that passes in the events
abbrev duration_of : Event → ℕ
duration_of (elapsed duration) = duration
duration_of event = 0

abbrev time_of : List Event → ℕ
time_of [] = 0
time_of (event ∷ events) = duration_of event + time_of events

abbrev pub has_ended : Process → Bool
has_ended p = elim p.ending [ none ↦ false | some e ↦ true ]

-- The process has ended, or it is in the grace that began at `t` and its clock is at `now` or later.
abbrev IsEnding : Time → Time → Process → Type 0
IsEnding t now p = has_ended p ≡ false → (p.handler ≡ in_grace t) × (now ≤ p.clock)

module _ (t now : Time) (p : Process) where
  next-IsEnding :
      (event : Event) → IsEnding t now p → IsEnding t (now + duration_of event) (next event p)
  unfolding next notify cancel elapse force return_from_start
  next-IsEnding signalled h = grind arith
  next-IsEnding cancelled h = grind arith
  next-IsEnding forcing h = grind arith
  next-IsEnding (elapsed duration) h = grind arith
  next-IsEnding (returned fails) h = grind arith

run-IsEnding :
    (events : List Event) (t now : Time) (p : Process)
    → IsEnding t now p
    → IsEnding t (now + time_of events) (run events p)
run-IsEnding [] t now p h = grind arith
run-IsEnding (event ∷ events) t now p h = grind (
  arith,
  run-IsEnding events t (now + duration_of event) (next event p) (next-IsEnding t now p event h),
)

-- When a signal waits for the goroutine, the process has ended once the goroutine has received it,
-- a period of grace has passed and the goroutine has had its turn, whatever signals come and
-- whatever the manager does meanwhile.
pub signal_ends_process :
    (events : List Event) (p : Process)
    → p.handler ≡ awaiting
    → 0 < p.signals
    → grace_period ≤ time_of events
    → has_ended (force (run events (cancel p))) ≡ true
unfolding cancel force
signal_ends_process events p ha hs hg =
    grind (arith, run-IsEnding events p.clock p.clock (cancel p))
