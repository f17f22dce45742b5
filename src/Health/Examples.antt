-- ===== src/Health/Examples.antt =====
-- A check where the database and the scheduler are well.
use paquitobot_rag.Prelude.{ℕ, ◌≡◌, refl, String, true, false, Option, none, some, []}
use paquitobot_rag.Exec.{Result, ok}
use paquitobot_rag.Rag.Answer.{Patterns, Evidence}
use paquitobot_rag.Rag.Post.{Desk, probe_store, get_rag_service, default_router}
use paquitobot_rag.Health.{HealthReport, Engine, healthz}
use paquitobot_rag.Health.Degraded.{healthz_degraded}

abbrev patterns : Patterns
patterns = record {
  asks_value = λ _. true;
  asks_both = λ _. false;
  asks_meaning = λ _. false;
  names_row = λ _. false;
  is_spanish = λ _. false;
}

abbrev desk : Desk
desk = record {
  store = record { last_health = false; hashes = []; searched = []; executed = []; added = [] };
  embedding_available = false;
  samples = [];
}

abbrev well : Result (Option Engine)
well = ok (some (record { select_one = none; dispose = none }))

abbrev str_of : Evidence ℕ → String
str_of evidence = "[]"

healthz_degraded_example :
    let service = get_rag_service 0 str_of in
    let embedding =
      (probe_store service (default_router patterns) (λ _. none) service.vector_store desk).0 in
    (report : HealthReport) × (healthz (λ _. "OSError") embedding well (some (some true)) false
      ≡ ok report)
    × (report.status ≡ "degraded")
    × (report.rag_routes_disabled ≡ false)
healthz_degraded_example =
    healthz_degraded (λ _. "OSError") 0 str_of patterns (λ _. none) desk well (some (some true))
      false (λ _ _. refl)
