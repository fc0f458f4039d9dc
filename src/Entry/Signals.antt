-- ===== src/Entry/Signals.antt =====
-- setupSignalHandler of cmd/main.go and the wait of `main` for the manager: a signal, the goroutine
-- that cancels the context, its period of grace, and the two ways in which mgr.Start returns. The
-- Go runtime gives a signal to the channel unless two are in it, and mgr.Start returns without an
-- error only when the context is cancelled.
pub mod Grace
pub mod Ended
use dynamic_annotation_contr.Base.{
  ℕ, ◌+◌, ◌*◌, ◌-◌, ◌^◌, ◌≡◌, Bool, true, false, not, ◌&&◌, ◌||◌, Option, none, some, if◌then◌else◌,
  ltb, leb,
}
use dynamic_annotation_contr.Api.{Time}

-- Where the goroutine stands: before `<-c`, or in the wait that began when it cancelled the context.
pub data Handler : Type 0 where
  awaiting : Handler
  in_grace : Time → Handler

-- How the process ends: os.Exit(1) of the goroutine, or the two ends of `main`.
pub data Ending : Type 0 where
  forced stopped_gracefully stopped_with_error : Ending

pub record Process : Type 0 where
  pub handler : Handler
  pub signals : ℕ
  pub context_done : Bool
  pub clock : Time
  pub ending : Option Ending

-- make(chan os.Signal, 2)
abbrev signal_capacity : ℕ
signal_capacity = 2

-- 5 * time.Second
abbrev grace_period : ℕ
grace_period = 5 * 10 ^ 9

-- what setupSignalHandler leaves at this time
unfoldable pub setup_signal_handler : Time → Process
setup_signal_handler now = record {
  handler = awaiting;
  signals = 0;
  context_done = false;
  clock = now;
  ending = none;
}

-- A process that has ended does nothing.
abbrev while_running : (Process → Process) → Process → Process
while_running step p = elim p.ending [ none ↦ step p | some e ↦ p ]

-- os.Interrupt or syscall.SIGTERM
unfoldable pub notify : Process → Process
notify =
    while_running
      λ p. if ltb p.signals signal_capacity then record p { signals = p.signals + 1 } else p

-- the receive and cancel()
unfoldable pub cancel : Process → Process
cancel = while_running λ p. elim p.handler [
  | in_grace t ↦ p
  | awaiting ↦
      if ltb 0 p.signals
      then record p { handler = in_grace p.clock; signals = p.signals - 1; context_done = true }
      else p
]

unfoldable pub elapse : ℕ → Process → Process
elapse duration = while_running λ p. record p { clock = p.clock + duration }

-- the end of the wait, and os.Exit(1)
unfoldable pub force : Process → Process
force = while_running λ p. elim p.handler [
  | awaiting ↦ p
  | in_grace t ↦ if leb (t + grace_period) p.clock then record p { ending = some forced } else p
]

-- mgr.Start returns, with an error or without one.
pub return_from_start : Bool → Process → Process
return_from_start fails = while_running λ p.
    if fails
    then record p { ending = some stopped_with_error }
    else if p.context_done
    then record p { ending = some stopped_gracefully }
    else p

pub data Event : Type 0 where
  signalled cancelled forcing : Event
  elapsed : ℕ → Event
  returned : Bool → Event

unfoldable pub next : Event → Process → Process
next signalled p = notify p
next cancelled p = cancel p
next forcing p = force p
next (elapsed duration) p = elapse duration p
next (returned fails) p = return_from_start fails p

pub data Reachable (start : Time) : Process → Type 0 where
  initial : Reachable start (setup_signal_handler start)
  after : (event : Event) (p : Process) → Reachable start p → Reachable start (next event p)
