-- ===== src/Scheduler/Restarts.antt =====
-- internal/scheduler/scheduler.go: Start and Stop with the two channels that NewTimeScheduler makes
-- once. A close of a closed channel panics, which is `none` here.
use dynamic_annotation_contr.Base.{
  ℕ, ◌+◌, ◌-◌, ◌≡◌, ◌≢◌, Bool, true, false, Option, none, some, if◌then◌else◌, arith,
}

-- `loops` counts the loops that run; Stop holds the lock while `stopping`.
pub record Channels : Type 0 where
  pub started : Bool
  pub stopping : Bool
  pub stop_closed : Bool
  pub done_closed : Bool
  pub loops : ℕ

pub new_channels : Channels
new_channels = record {
  started = false;
  stopping = false;
  stop_closed = false;
  done_closed = false;
  loops = 0;
}

-- Start: whether it starts, and the channels
unfoldable pub start : Channels → Bool × Channels
start c = if c.started then (false, c) else (true, record c { started = true; loops = c.loops + 1 })

-- a loop returns, and closes doneCh
pub end_loop : Channels → Option Channels
end_loop c =
    if c.done_closed then none else some (record c { done_closed = true; loops = c.loops - 1 })

-- Stop of a scheduler that is started, up to the receive from doneCh
pub close_stop : Channels → Option Channels
close_stop c =
    if c.stop_closed then none else some (record c { stop_closed = true; stopping = true })

-- the rest of it
pub end_stop : Channels → Channels
end_stop c = record c { started = false; stopping = false }

-- One step that does not panic. A loop may return at any time, since its context may be cancelled.
pub data Turn : Channels → Channels → Type 0 where
  starts : (c : Channels) → c.stopping ≡ false → Turn c (start c).1
  ends : (c c' : Channels) → c.loops ≢ 0 → end_loop c ≡ some c' → Turn c c'
  stops :
      (c c' : Channels) → c.stopping ≡ false → c.started ≡ true → close_stop c ≡ some c' → Turn c c'
  stopped : (c : Channels) → c.stopping ≡ true → c.done_closed ≡ true → Turn c (end_stop c)

pub data Turns : Channels → Type 0 where
  made : Turns new_channels
  turn : (c c' : Channels) → Turns c → Turn c c' → Turns c'

-- Once stopCh is closed, Stop waits or the loop has ended.
abbrev IsAwaited : Channels → Type 0
IsAwaited c = c.stop_closed ≡ true → c.stopping ≡ false → c.done_closed ≡ true

-- Start leaves the channels as they are.
start-channels :
    (c : Channels)
    → ((start c).1.stop_closed ≡ c.stop_closed) × ((start c).1.done_closed ≡ c.done_closed)
unfolding start
start-channels c = ground arith

Turn-IsAwaited : (c c' : Channels) → Turn c c' → IsAwaited c → IsAwaited c'
unfolding start end_loop close_stop end_stop
Turn-IsAwaited c c' (starts d h) i = λ e f. ground (arith, start-channels d, i)
Turn-IsAwaited c c' (ends d d' l h) i = λ e f. ground arith
Turn-IsAwaited c c' (stops d d' s t h) i = λ e f. ground arith
Turn-IsAwaited c c' (stopped d s h) i = λ e f. h

Turns-IsAwaited : (c : Channels) → Turns c → IsAwaited c
unfolding new_channels
Turns-IsAwaited c made = λ e f. ground arith
Turns-IsAwaited c (turn d e turns t) = Turn-IsAwaited d c t (Turns-IsAwaited d turns)

-- After a Stop has returned, a Start succeeds, but the loop that it starts panics when it returns,
-- and another Stop panics at once.
restart_panics :
    (c : Channels)
    → Turns c
    → c.started ≡ false
    → c.stopping ≡ false
    → c.stop_closed ≡ true
    → let (success, c') = start c in
      (success ≡ true) × (end_loop c' ≡ none) × (close_stop c' ≡ none)
unfolding start end_loop close_stop
restart_panics c turns h hs hc = ground (arith, Turns-IsAwaited c turns hc hs)
