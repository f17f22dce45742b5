-- ===== src/Health/Degraded.antt =====
-- What the health check reports.
use paquitobot_rag.Prelude.{◌≡◌, refl, String, Bool, false, Option, none, some}
use paquitobot_rag.Exec.{Exn, Result, ok, err}
use paquitobot_rag.Metrics.{Prometheus}
use paquitobot_rag.Rag.Answer.{Patterns, Evidence}
use paquitobot_rag.Rag.Post.{Desk, probe_store, get_rag_service, default_router}
use paquitobot_rag.Health.{
  Report, HealthReport, Engine, healthz, probe_ollama, probe_db, probe_scheduler, disposed,
}

-- An engine that is disposed of without an exception, or with one that is passed over
abbrev pub IsDisposed : Result (Option Engine) → Type 0
IsDisposed (ok (some engine)) =
    (class_of : Exn → String) (report : Report)
    → disposed class_of engine.dispose report ≡ ok report
IsDisposed (ok none) = Unit {0}
IsDisposed (err e) = Unit {0}

module _ (class_of : Exn → String) where
  probe_db_returns :
      (engine : Result (Option Engine))
      → IsDisposed engine
      → (db : Report) × (probe_db class_of engine ≡ ok db)
  unfolding probe_db
  probe_db_returns (err e) mild = (_, refl)
  probe_db_returns (ok none) mild = (_, refl)
  probe_db_returns (ok (some engine)) mild = (_, mild class_of _)

  -- Where the engine is disposed of quietly, the check returns a report; and as it asks a service
  -- without a vector store whether Ollama answers, the report says degraded, however the database
  -- and the scheduler are.
  pub healthz_degraded :
      {R : Type 0} (no_rows : R) (str_of : Evidence R → String) (patterns : Patterns)
      (prometheus : Prometheus) (s : Desk) (engine : Result (Option Engine))
      (scheduler : Option (Option Bool)) (rag_disabled : Bool)
      → IsDisposed engine
      → let service = get_rag_service no_rows str_of in
        let embedding =
          (probe_store service (default_router patterns) prometheus service.vector_store s).0 in
        (report : HealthReport) × (healthz class_of embedding engine scheduler rag_disabled
          ≡ ok report)
        × (report.status ≡ "degraded")
        × (report.rag_routes_disabled ≡ rag_disabled)
  unfolding healthz probe_ollama probe_store get_rag_service
  healthz_degraded no_rows str_of patterns prometheus s engine scheduler rag_disabled mild =
      let (db, e) = probe_db_returns engine mild in
      let report : HealthReport = record {
        status = "degraded";
        ollama = record { available = false; error_class = none };
        db = db;
        scheduler = probe_scheduler class_of scheduler;
        rag_routes_disabled = rag_disabled;
      } in
      (report, rw (e) refl, refl, refl)
