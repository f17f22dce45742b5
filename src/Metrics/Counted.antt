-- ===== src/Metrics/Counted.antt =====
-- What a helper leaves of the counters.
use paquitobot_rag.Prelude.{◌≡◌, refl, ◌⊎◌, inl, inr, some, List, ◌∷◌, Option-cases}
use paquitobot_rag.Exec.{Exn, ok}
use paquitobot_rag.Metrics.{Sample, Prometheus, pass_over, safe_sample}

-- prometheus_client refuses a sample with no exception but those that the helpers pass over.
abbrev pub IsMild : Prometheus → Type 0
IsMild prometheus = (sample : Sample) (e : Exn) → prometheus sample ≡ some e → pass_over e ≡ ok tt

-- Then a helper returns, and has counted the sample or nothing.
pub safe_sample_cases :
    (prometheus : Prometheus) (sample : Sample) (s : List Sample)
    → IsMild prometheus
    → (safe_sample prometheus sample s ≡ (ok tt, sample ∷ s))
      ⊎ (safe_sample prometheus sample s ≡ (ok tt, s))
unfolding safe_sample
safe_sample_cases prometheus sample s mild = elim (Option-cases (prometheus sample)) [
  | inl taken ↦ inl (rw (taken) refl)
  | inr (e, refused) ↦ inr (rw (refused, mild sample e refused) refl)
]
