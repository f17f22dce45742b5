-- ===== src/Health.antt =====
-- app/controllers/health.py. The settings, the engine and the scheduler of a request are parameters,
-- by what their calls give.
pub mod Degraded
pub mod Examples
use paquitobot_rag.Prelude.{String, Bool, true, false, Option, none, some, ◌&&◌, if◌then◌else◌}
use paquitobot_rag.Exec.{Exn, Result, ok, err, runtime_error, os_error}
use paquitobot_rag.Rag.Answer.{Router, Assistant}
use paquitobot_rag.Metrics.{Prometheus}
use paquitobot_rag.Rag.Post.{Desk, probe_store}

pub record Report : Type 0 where
  pub available : Bool
  pub error_class : Option String

pub record SchedulerReport : Type 0 where
  pub running : Bool
  pub enabled : Bool

pub record HealthReport : Type 0 where
  pub status : String
  pub ollama : Report
  pub db : Report
  pub scheduler : SchedulerReport
  pub rag_routes_disabled : Bool

-- `SELECT 1` on a connection, and `dispose`, by the exception that each raises
pub record Engine : Type 0 where
  pub select_one : Option Exn
  pub dispose : Option Exn

module _ (class_of : Exn → String) where
  abbrev pub down : Exn → Report
  down e = record { available = false; error_class = some (class_of e) }

  -- `_probe_ollama`, of what `RAGService().provider_health()` gives
  unfoldable pub probe_ollama : Result Bool → Report
  probe_ollama (ok embedding) = record { available = embedding; error_class = none }
  probe_ollama (err e) = down e

  abbrev pub select_report : Option Exn → Report
  select_report none = record { available = true; error_class = none }
  select_report (some e) = down e

  -- The `finally`: an exception of `dispose` that is neither a RuntimeError nor an OSError takes the
  -- report's place.
  abbrev pub disposed : Option Exn → Report → Result Report
  disposed none report = ok report
  disposed (some runtime_error) report = ok report
  disposed (some os_error) report = ok report
  disposed (some e) report = err e

  -- `_probe_db`, of what `make_engine_from_settings` gives
  unfoldable pub probe_db : Result (Option Engine) → Result Report
  probe_db (err e) = ok (down e)
  probe_db (ok none) = ok (record { available = false; error_class = some "no_engine" })
  probe_db (ok (some engine)) = disposed engine.dispose (select_report engine.select_one)

  abbrev pub running_of : Option Bool → Bool
  running_of none = false
  running_of (some running) = running

  -- `_probe_scheduler`, of the scheduler of the state and its attribute `running`
  unfoldable pub probe_scheduler : Option (Option Bool) → SchedulerReport
  probe_scheduler none = record { running = false; enabled = false }
  probe_scheduler (some running) = record { running = running_of running; enabled = true }

  abbrev pub report_of : Report → SchedulerReport → Bool → Result Report → Result HealthReport
  report_of ollama scheduler rag_disabled (err e) = err e
  report_of ollama scheduler rag_disabled (ok db) =
      let healthy = ollama.available && db.available && scheduler.running in
      ok (record {
        status = if healthy then "ok" else "degraded";
        ollama = ollama;
        db = db;
        scheduler = scheduler;
        rag_routes_disabled = rag_disabled;
      })

  -- `healthz`
  unfoldable pub healthz :
      Result Bool → Result (Option Engine) → Option (Option Bool) → Bool → Result HealthReport
  unfolding probe_ollama probe_db probe_scheduler
  healthz embedding engine scheduler rag_disabled =
      report_of (probe_ollama embedding) (probe_scheduler scheduler) rag_disabled (probe_db engine)
