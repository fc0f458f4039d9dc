-- ===== src/Entry/Signals/Grace.antt =====
-- How the process ends once it has handled a signal, and when it may.
use dynamic_annotation_contr.Base.{◌+◌, ◌≡◌, ◌≤◌, true, false, Option, none, some, arith, refl}
use dynamic_annotation_contr.Api.{Time}
use dynamic_annotation_contr.Entry.Signals.{
  Handler, awaiting, in_grace, Ending, forced, stopped_gracefully, stopped_with_error, Process,
  signal_capacity, grace_period, setup_signal_handler, notify, cancel, elapse, force,
  return_from_start, Event, signalled, cancelled, forcing, elapsed, returned, next, Reachable,
  initial, after,
}

-- The context is cancelled by the goroutine alone, at a time that has come.
abbrev IsCancelledBy : Handler → Process → Type 0
IsCancelledBy awaiting p = p.context_done ≡ false
IsCancelledBy (in_grace t) p = (p.context_done ≡ true) × (t ≤ p.clock)

-- The goroutine ends the process only when it has waited for the period of grace.
abbrev HasWaited : Handler → Time → Type 0
HasWaited awaiting now = ⊥
HasWaited (in_grace t) now = t + grace_period ≤ now

-- what an end says of the process
abbrev IsDue : Option Ending → Process → Type 0
IsDue none p = Unit
IsDue (some forced) p = HasWaited p.handler p.clock
IsDue (some stopped_gracefully) p = p.context_done ≡ true
IsDue (some stopped_with_error) p = Unit

abbrev IsOrderly : Process → Type 0
IsOrderly p = (p.signals ≤ signal_capacity) × IsCancelledBy p.handler p × IsDue p.ending p

next-IsOrderly : (event : Event) (p : Process) → IsOrderly p → IsOrderly (next event p)
unfolding next notify cancel elapse force return_from_start
next-IsOrderly signalled p h = grind arith
next-IsOrderly cancelled p h = grind arith
next-IsOrderly forcing p h = grind arith
next-IsOrderly (elapsed duration) p h = grind arith
next-IsOrderly (returned fails) p h = grind arith

-- In every state that is reached, at most two signals wait, the context is cancelled exactly once
-- the goroutine has received one, a forced exit comes a period of grace after that or later, and
-- the manager stops without an error only with the context cancelled.
Reachable-IsOrderly : (start : Time) (p : Process) → Reachable start p → IsOrderly p
unfolding setup_signal_handler
Reachable-IsOrderly start _ initial = (omega arith, refl, tt)
Reachable-IsOrderly start _ (after event p r) =
    next-IsOrderly event p (Reachable-IsOrderly start p r)
