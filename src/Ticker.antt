-- ===== src/Ticker.antt =====
-- The loop of the background routines, as in StartCleanupRoutine of internal/resource/cache.go: a
-- `select` over the end of a context and the channel of a ticker.
use dynamic_annotation_contr.Base.{◌≡◌, refl, List, [], ◌∷◌, ◌++◌}
use dynamic_annotation_contr.Api.{Time}

pub data TickerEvent : Type 0 where
  done : TickerEvent
  ticked : Time → TickerEvent

pub run_ticker : {S : Type 0} → (Time → S → S) → List TickerEvent → S → S
run_ticker operation [] s = s
run_ticker operation (done ∷ events) s = s
run_ticker operation (ticked now ∷ events) s = run_ticker operation events (operation now s)

module _ {S : Type 0} (operation : Time → S → S) where
  -- What every run of the operation keeps, the routine keeps.
  run_ticker-keeps :
      (P : S → Type 0)
      → ((now : Time) (s : S) → P s → P (operation now s))
      → (events : List TickerEvent) (s : S) → P s
      → P (run_ticker operation events s)
  unfolding run_ticker
  run_ticker-keeps P keeps [] s h = h
  run_ticker-keeps P keeps (done ∷ events) s h = h
  run_ticker-keeps P keeps (ticked now ∷ events) s h =
      run_ticker-keeps P keeps events (operation now s) (keeps now s h)

  -- After the end of the context the routine does nothing.
  run_ticker-done :
      (before after : List TickerEvent) (s : S)
      → run_ticker operation (before ++ done ∷ after) s ≡ run_ticker operation before s
  unfolding run_ticker
  run_ticker-done [] after s = refl
  run_ticker-done (done ∷ before) after s = refl
  run_ticker-done (ticked now ∷ before) after s = run_ticker-done before after (operation now s)
