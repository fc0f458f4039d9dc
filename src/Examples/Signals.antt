-- ===== src/Examples/Signals.antt =====
-- Applications of the theorems on the signals of the process.
use dynamic_annotation_contr.Base.{◌+◌, List, refl, ◌≡◌, ◌*◌, ◌^◌, true, some, [], ◌∷◌, arith}
use dynamic_annotation_contr.Entry.Signals.{
  Process, forced, setup_signal_handler, next, Event, signalled, forcing, elapsed, notify, cancel,
  elapse, force,
}
use dynamic_annotation_contr.Entry.Signals.Ended.{run, has_ended, signal_ends_process}

-- one signal has come
abbrev interrupted : Process
interrupted = next signalled (setup_signal_handler 7)

-- a second signal in the grace, which is over after two waits
abbrev waits : List Event
waits = elapsed (2 * 10 ^ 9) ∷ signalled ∷ forcing ∷ elapsed (3 * 10 ^ 9) ∷ []

-- The second signal does not shorten the grace.
forced_at :
    ((force (run waits (cancel interrupted))).ending ≡ some forced)
    × ((force (run waits (cancel interrupted))).clock ≡ 5 * 10 ^ 9 + 7)
unfolding setup_signal_handler next notify cancel elapse force
forced_at = (refl, refl)

signal_ends_process_example : has_ended (force (run waits (cancel interrupted))) ≡ true
unfolding setup_signal_handler next notify
signal_ends_process_example = signal_ends_process waits interrupted refl (omega arith) (omega arith)
