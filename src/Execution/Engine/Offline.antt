-- ===== src/Execution/Engine/Offline.antt =====
-- execution/engine.py: a dry run, and a run that a configuration error stops.
use execution_auto.Base.{
  ℕ, ◌≡◌, true, ◌||◌, Option, none, some, List, Text, refl, sym, inl, inr, Bool-cases, Result, ok,
  err, arith,
}
use execution_auto.Models.{RunMode}
use execution_auto.Execution.Report.{Report}
use execution_auto.Execution.Outcomes.{Services, Setting}
use execution_auto.Execution.World.{Clock, Executors}
use execution_auto.Execution.Engine.{
  Plan, Passes, RunFailure, stops_before_databases, run_passes, close_connections, finish,
  setting_of, run_plan,
}

module _ {W : Type 0} (clock : Clock W) (executors : Option (Executors W)) (P : W → Type 0)
    (now_keeps : (w : W) → P w → P (clock.now w).1)
    (close_keeps : (x : Executors W) (w : W) → executors ≡ some x → P w → P (x.close_all w)) where
  -- The passes return, and leave the world as it was.
  abbrev Idle : Result RunFailure Passes × List Text × W → Type 0
  Idle (ok passes, c, w) = P w
  Idle (err e, c, w) = ⊥

  -- The run returns a report, and the world has the property.
  abbrev pub Returned : Result RunFailure Report × W → Type 0
  Returned (ok r, w) = P w
  Returned (err e, w) = ⊥

  run_passes-Idle :
      (s : Setting) (p : Plan) (mode : RunMode) (w : W)
      → (p.control.dry_run || stops_before_databases p) ≡ true
      → P w
      → Idle (run_passes clock s p mode executors w)
  unfolding run_passes
  run_passes-Idle s p mode w offline h = elim (Bool-cases p.control.dry_run) [
    | inl dry ↦ rw (dry, Idle) h
    | inr wet ↦
        let stopped : stops_before_databases p ≡ true = ground arith in rw (wet, stopped, Idle) h
  ]

  close-keeps : (s : Setting) (w : W) → P w → P (close_connections clock s executors w)
  unfolding close_connections
  close-keeps s w h =
      elim executors as (λ e. e ≡ executors → P (close_connections clock s e w)) [
        | none ↦ λ same. h
        | some x ↦ λ same. close_keeps x w (sym same) h
      ]
        refl

  finish-Returned :
      (s : Setting) (p : Plan) (started : ℕ) (q : Result RunFailure Passes × List Text × W)
      → Idle q
      → Returned (finish clock s p started q executors)
  finish-Returned s p started (ok passes, c, w) h =
      now_keeps (close_connections clock s executors w) (close-keeps s w h)
  finish-Returned s p started (err e, c, w) h = h

  -- A dry run, or one with configuration errors that are to stop it, returns a report, and keeps
  -- any property of the world that the clock and closing the connections keep: it opens no
  -- connection, and neither checks nor executes a query, whether it is given connections or none.
  pub run_plan-offline-keeps :
      (services : Services) (run_id : Text) (p : Plan) (mode : RunMode) (started : ℕ) (w : W)
      → (p.control.dry_run || stops_before_databases p) ≡ true
      → P w
      → Returned (run_plan clock services run_id p mode executors started w)
  unfolding run_plan
  run_plan-offline-keeps services run_id p mode started w offline h =
      let s = setting_of services run_id p in
      finish-Returned s p started (run_passes clock s p mode executors w)
        (run_passes-Idle s p mode w offline h)
