-- ===== src/Scheduler/Lifecycle.antt =====
-- internal/scheduler/scheduler.go: the loop and one call of Stop, with the lock that both take. A
-- position is the next statement that waits; what other callers do with the lock is left out, since
-- they give it back.
use dynamic_annotation_contr.Base.{inr, inl, ◌⊎◌, ◌≡◌, ◌≢◌, refl, Bool, true, false, arith}

-- schedulerLoop: at its `select`, at the lock in checkAndQueueTasks, with the lock, and returned,
-- with doneCh closed
pub data LoopAt : Type 0 where
  selecting at_read_lock reading loop_done : LoopAt

-- Stop: not called, at the lock, with the lock and stopCh closed at the receive from doneCh, and
-- returned
pub data StopAt : Type 0 where
  not_called at_lock waiting stop_done : StopAt

pub record Lifecycle : Type 0 where
  pub loop : LoopAt
  pub stop : StopAt

pub begun : Lifecycle
begun = record { loop = selecting; stop = not_called }

-- whether stopCh is closed
pub stop_closed : StopAt → Bool
stop_closed waiting = true
stop_closed stop_done = true
stop_closed at = false

pub data LifecycleStep : Lifecycle → Lifecycle → Type 0 where
  -- the ticker fires, whatever else is ready at the `select`
  tick :
      (stop : StopAt)
      → LifecycleStep
          (record { loop = selecting; stop = stop })
          (record { loop = at_read_lock; stop = stop })
  -- RLock, which waits as long as Stop holds the lock
  read_lock :
      (stop : StopAt)
      → stop ≢ waiting
      → LifecycleStep
          (record { loop = at_read_lock; stop = stop })
          (record { loop = reading; stop = stop })
  read_unlock :
      (stop : StopAt)
      → LifecycleStep
          (record { loop = reading; stop = stop })
          (record { loop = selecting; stop = stop })
  -- the receive from stopCh
  end_loop :
      (stop : StopAt)
      → stop_closed stop ≡ true
      → LifecycleStep
          (record { loop = selecting; stop = stop })
          (record { loop = loop_done; stop = stop })
  call_stop :
      (loop : LoopAt)
      → LifecycleStep
          (record { loop = loop; stop = not_called })
          (record { loop = loop; stop = at_lock })
  -- Lock, which waits as long as the loop reads
  lock :
      (loop : LoopAt)
      → loop ≢ reading
      → LifecycleStep
          (record { loop = loop; stop = at_lock })
          (record { loop = loop; stop = waiting })
  return_stop :
      LifecycleStep
        (record { loop = loop_done; stop = waiting })
        (record { loop = loop_done; stop = stop_done })

-- the context is cancelled
pub data Cancellation : Lifecycle → Lifecycle → Type 0 where
  cancel_loop :
      (stop : StopAt)
      → Cancellation
          (record { loop = selecting; stop = stop })
          (record { loop = loop_done; stop = stop })

pub data Runs : Lifecycle → Type 0 where
  start : Runs begun
  next : (s t : Lifecycle) → Runs s → LifecycleStep s t → Runs t
  next_cancelled : (s t : Lifecycle) → Runs s → Cancellation s t → Runs t

-- a state in which nothing can happen, and the loop has not ended
abbrev pub IsStuck : Lifecycle → Type 0
IsStuck s =
    (s.loop ≢ loop_done)
    × ((t : Lifecycle) → ¬ LifecycleStep s t)
    × ((t : Lifecycle) → ¬ Cancellation s t)

-- the loop at the lock that Stop holds
abbrev pub stuck : Lifecycle
stuck = record { loop = at_read_lock; stop = waiting }

no_step : (s t : Lifecycle) → LifecycleStep s t → s.loop ≡ at_read_lock → s.stop ≡ waiting → ⊥
no_step s t (tick stop) hl hs = ground arith
no_step s t (read_lock stop h) hl hs = h hs
no_step s t (read_unlock stop) hl hs = ground arith
no_step s t (end_loop stop h) hl hs = ground arith
no_step s t (call_stop loop) hl hs = ground arith
no_step s t (lock loop h) hl hs = ground arith
no_step s t return_stop hl hs = ground arith

no-Cancellation : (s t : Lifecycle) → Cancellation s t → s.loop ≡ at_read_lock → ⊥
no-Cancellation s t (cancel_loop stop) hl = ground arith

-- the loop is where Stop leaves it
abbrev IsQuiet : Lifecycle → Type 0
IsQuiet s = (s.stop ≡ stop_done → s.loop ≡ loop_done) × (s.stop ≡ waiting → s.loop ≢ reading)

step-IsQuiet : (s t : Lifecycle) → LifecycleStep s t → IsQuiet s → IsQuiet t
step-IsQuiet s t (tick stop) h = ground arith
step-IsQuiet s t (read_lock stop e) h = ground arith
step-IsQuiet s t (read_unlock stop) h = ground arith
step-IsQuiet s t (end_loop stop e) h = ground arith
step-IsQuiet s t (call_stop loop) h = ground arith
step-IsQuiet s t (lock loop e) h = ground arith
step-IsQuiet s t return_stop h = ground arith

Cancellation-IsQuiet : (s t : Lifecycle) → Cancellation s t → IsQuiet s → IsQuiet t
Cancellation-IsQuiet s t (cancel_loop stop) h = ground arith

-- In every state that is reached: once Stop has returned the loop has ended, and while Stop waits
-- for it the loop does not read the tasks.
Runs-IsQuiet : (s : Lifecycle) → Runs s → IsQuiet s
unfolding begun
Runs-IsQuiet s start = ground arith
Runs-IsQuiet s (next r t run step) = step-IsQuiet r t step (Runs-IsQuiet r run)
Runs-IsQuiet s (next_cancelled r t run step) = Cancellation-IsQuiet r t step (Runs-IsQuiet r run)

-- One step after the other, without the context being cancelled.
pub data Reaches : Lifecycle → Lifecycle → Type 0 where
  here : (s : Lifecycle) → Reaches s s
  move : (s t u : Lifecycle) → LifecycleStep s t → Reaches t u → Reaches s u

abbrev at : LoopAt → StopAt → Lifecycle
at loop stop = record { loop = loop; stop = stop }

-- Stop has returned
abbrev pub ended : Lifecycle
ended = at loop_done stop_done

-- from a loop that has ended
waiting-Reaches : Reaches (at loop_done waiting) ended
waiting-Reaches = move _ _ _ return_stop (here ended)

at_lock-Reaches : Reaches (at loop_done at_lock) ended
at_lock-Reaches = move _ _ _ (lock loop_done (ground arith)) waiting-Reaches

loop_done-Reaches : (stop : StopAt) → Reaches (at loop_done stop) ended
loop_done-Reaches not_called = move _ _ _ (call_stop loop_done) at_lock-Reaches
loop_done-Reaches at_lock = at_lock-Reaches
loop_done-Reaches waiting = waiting-Reaches
loop_done-Reaches stop_done = here ended

-- from the `select`, by the stop channel
selecting_locked : Reaches (at selecting at_lock) ended
unfolding stop_closed
selecting_locked =
    move _ _ _ (lock selecting (ground arith))
      (move _ _ _ (end_loop waiting (ground arith)) waiting-Reaches)

selecting-Reaches : (stop : StopAt) → Reaches (at selecting stop) ended
unfolding stop_closed
selecting-Reaches not_called = move _ _ _ (call_stop selecting) selecting_locked
selecting-Reaches at_lock = selecting_locked
selecting-Reaches waiting = move _ _ _ (end_loop waiting (ground arith)) waiting-Reaches
selecting-Reaches stop_done = move _ _ _ (end_loop stop_done (ground arith)) (here ended)

reading-Reaches : (stop : StopAt) → Reaches (at reading stop) ended
reading-Reaches stop = move _ _ _ (read_unlock stop) (selecting-Reaches stop)

ends_or_stuck :
    (loop : LoopAt) (stop : StopAt)
    → Reaches (at loop stop) ended ⊎ ((at loop stop ≡ stuck) × IsStuck (at loop stop))
ends_or_stuck selecting stop = inl (selecting-Reaches stop)
ends_or_stuck reading stop = inl (reading-Reaches stop)
ends_or_stuck loop_done stop = inl (loop_done-Reaches stop)
ends_or_stuck at_read_lock waiting = inr (
  refl,
  (
    ground arith,
    λ t step. no_step stuck t step refl refl,
    λ t step. no-Cancellation stuck t step refl,
  ),
)
ends_or_stuck at_read_lock not_called =
    inl (move _ _ _ (read_lock not_called (ground arith)) (reading-Reaches not_called))
ends_or_stuck at_read_lock at_lock =
    inl (move _ _ _ (read_lock at_lock (ground arith)) (reading-Reaches at_lock))
ends_or_stuck at_read_lock stop_done =
    inl (move _ _ _ (read_lock stop_done (ground arith)) (reading-Reaches stop_done))

-- a call of Stop that meets the loop at the lock
locked_out : Reaches (at at_read_lock not_called) stuck
locked_out =
    move _ _ _ (call_stop at_read_lock) (move _ _ _ (lock at_read_lock (ground arith)) (here stuck))

deadlocks :
    (loop : LoopAt) (stop : StopAt)
    → (stop ≢ not_called) ⊎ (loop ≡ loop_done) ⊎ Reaches (at loop stop) stuck
deadlocks selecting not_called = inr (inr (move _ _ _ (tick not_called) locked_out))
deadlocks at_read_lock not_called = inr (inr locked_out)
deadlocks reading not_called =
    inr (inr (move _ _ _ (read_unlock not_called) (move _ _ _ (tick not_called) locked_out)))
deadlocks loop_done not_called = inr (inl refl)
deadlocks loop at_lock = inl (ground arith)
deadlocks loop waiting = inl (ground arith)
deadlocks loop stop_done = inl (ground arith)

-- From every state Stop can come to its end by steps of the loop and of Stop alone, without the
-- context being cancelled, but for one state: there Stop holds the lock and waits for the loop, the
-- loop waits for the lock, and no step is left, nor is the cancellation seen. As long as the loop
-- runs and Stop has not been called, that deadlock can be reached by such steps.
pub stop_lem :
    (s : Lifecycle)
    → (Reaches s ended ⊎ ((s ≡ stuck) × IsStuck s))
      × ((s.stop ≢ not_called) ⊎ (s.loop ≡ loop_done) ⊎ Reaches s stuck)
stop_lem s = (ends_or_stuck s.loop s.stop, deadlocks s.loop s.stop)
