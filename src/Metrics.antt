-- ===== src/Metrics.antt =====
-- app/observability/metrics.py: the helpers that count. prometheus_client is a parameter, which may
-- refuse a sample with an exception; the state is the samples that it took, last first.
pub mod Counted
use paquitobot_rag.Prelude.{
  ℕ, zero, suc, String, Option, none, some, List, [], ◌∷◌, str_eq, if◌then◌else◌,
}
use paquitobot_rag.Text.{prefix}
use paquitobot_rag.Exec.{Exn, Result, ok, err, runtime_error, value_error, type_error, Exec}

-- A counter's name and the values of its labels; a gauge's value beside its sample.
pub record Sample : Type 0 where
  pub metric : String
  pub labels : List (String × String)
  pub value : Option ℕ

abbrev pub Prometheus : Type 0
Prometheus = Sample → Option Exn

-- `str(value or "unknown")`
unfoldable pub or_unknown : String → String
or_unknown value = if str_eq value "" then "unknown" else value

-- `_hash_tenant_id`, with `sha256(…).hexdigest()` as a parameter; its exceptions are `none`.
unfoldable pub hash_tenant_id : (String → Option String) → Option String → String
unfolding prefix
hash_tenant_id hexdigest none = "unknown"
hash_tenant_id hexdigest (some tenant_id) = elim (hexdigest tenant_id) [
  | none ↦ "unknown"
  | some digest ↦ prefix 16 digest
]

-- `except (RuntimeError, ValueError, TypeError): pass`
abbrev pub pass_over : Exn → Result (Unit {0})
pass_over runtime_error = ok tt
pass_over value_error = ok tt
pass_over type_error = ok tt
pass_over e = err e

abbrev pub sampled : Sample → List Sample → Option Exn → Result (Unit {0}) × List Sample
sampled sample s none = (ok tt, sample ∷ s)
sampled sample s (some e) = (pass_over e, s)

-- The sample of `record_rag_request`
abbrev pub rag_sample : String → String → String → Sample
rag_sample route lang outcome = record {
  metric = "rag_requests_total";
  labels =
      ("route", or_unknown route)
      ∷ ("lang", or_unknown lang)
      ∷ ("outcome", or_unknown outcome)
      ∷ [];
  value = none;
}

module _ (prometheus : Prometheus) where
  -- `_safe_inc` and `_safe_set_gauge`, with labels
  unfoldable pub safe_sample : Sample → Exec (List Sample) (Unit {0})
  safe_sample sample s = sampled sample s (prometheus sample)

  unfoldable pub record_rag_request : String → String → String → Exec (List Sample) (Unit {0})
  record_rag_request route lang outcome = safe_sample (rag_sample route lang outcome)

  unfoldable pub record_sql_validation : String → Exec (List Sample) (Unit {0})
  record_sql_validation result = safe_sample (record {
    metric = "sql_validations_total";
    labels = ("result", or_unknown result) ∷ [];
    value = none;
  })

  unfoldable pub record_canvas_request : String → String → Exec (List Sample) (Unit {0})
  record_canvas_request endpoint result = safe_sample (record {
    metric = "canvas_requests_total";
    labels = ("endpoint", or_unknown endpoint) ∷ ("result", or_unknown result) ∷ [];
    value = none;
  })

  unfoldable pub record_token_decrypt : String → Exec (List Sample) (Unit {0})
  record_token_decrypt result = safe_sample (record {
    metric = "token_decrypt_failures_total";
    labels = ("result", or_unknown result) ∷ [];
    value = none;
  })

  module _ (hexdigest : String → Option String) where
    unfoldable pub record_sync_run : Option String → String → Exec (List Sample) (Unit {0})
    record_sync_run tenant_id result = safe_sample (record {
      metric = "sync_runs_total";
      labels =
          ("tenant_id_hash", hash_tenant_id hexdigest tenant_id)
          ∷ ("result", or_unknown result)
          ∷ [];
      value = none;
    })

    -- `set_sync_lag`, of whole seconds; a lag that `float` does not take is `none`.
    unfoldable pub set_sync_lag : Option String → Option ℕ → Exec (List Sample) (Unit {0})
    set_sync_lag tenant_id none s = (ok tt, s)
    set_sync_lag tenant_id (some lag_seconds) s =
        safe_sample
          (record {
            metric = "sync_lag_seconds";
            labels = ("tenant_id_hash", hash_tenant_id hexdigest tenant_id) ∷ [];
            value = some lag_seconds;
          })
          s
