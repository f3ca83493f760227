-- ===== src/Feeds/Rules/Run.antt =====
-- What every event keeps, every run keeps.
use feeds_service.Prelude.{List, [], ◌∷◌}
use feeds_service.Prelude.Tests.{if_keeps}
use feeds_service.Feeds.State.{Server}
use feeds_service.Feeds.Dispatch.{Event, handle, step, run}

module _ {κ} (P : Server → Type κ) (keep : (e : Event) (s : Server) → P s → P (handle e s)) where
  pub step_keeps : (e : Event) (s : Server) → P s → P (step e s)
  unfolding step
  step_keeps e s h = if_keeps P s.aborted s (handle e s) h (keep e s h)

  pub run_keeps : (es : List Event) (s : Server) → P s → P (run es s)
  unfolding run
  run_keeps [] s h = h
  run_keeps (e ∷ es) s h = run_keeps es (step e s) (step_keeps e s h)
