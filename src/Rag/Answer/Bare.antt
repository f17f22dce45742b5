-- ===== src/Rag/Answer/Bare.antt =====
-- What a service answers that has no store, no executor and no model.
use paquitobot_rag.Prelude.{◌≡◌, refl, ap, false, ◌⊎◌, inl, inr, String, Option, none, some}
use paquitobot_rag.Exec.{ok, lift, pure, ◌>>=◌}
use paquitobot_rag.Rag.{VectorStore}
use paquitobot_rag.Rag.Answer.{
  Route, relational, semantic, hybrid, unsupported, Patterns, Router, Evidence, rows, Assistant,
  Answer, answer, answer_by, bounded_refusal, deterministic_rule, available, chosen, routed, route,
  refuse, respond, execute_if, say, language_or,
}

module _ {R : Type 0} (no_rows : R) (str_of : Evidence R → String) (patterns : Patterns) where
  abbrev pub assistant : Assistant R
  assistant = record {
    sql_executor = none;
    no_rows = no_rows;
    llm = none;
    str_of = str_of;
    vector_store = none;
  }

  abbrev pub keeping : Router
  keeping = record { patterns = patterns; classifier = none; embedding_available = false }

  -- Only the two routes without embeddings are taken.
  route_cases :
      (question : String)
      → (route keeping question ≡ ok relational) ⊎ (route keeping question ≡ ok unsupported)
  unfolding route available
  route_cases question = go (deterministic_rule patterns question)
    where
      go :
          (o : Option Route)
          → (routed false (chosen keeping question o) ≡ ok relational)
            ⊎ (routed false (chosen keeping question o) ≡ ok unsupported)
      go none = inl refl
      go (some relational) = inl refl
      go (some hybrid) = inl refl
      go (some semantic) = inr refl
      go (some unsupported) = inr refl

  -- The text without evidence, or the refusal.
  abbrev pub IsFixed : String → Answer → Type 0
  IsFixed lang a = (a.answer ≡ str_of (rows no_rows)) ⊎ (a.answer ≡ bounded_refusal lang)

  -- Whatever the question, it returns one of the two texts, and asks nothing of a store.
  pub answer-IsFixed :
      (question tenant_id language : String) (s : VectorStore)
      → language_or patterns question (some language) ≡ language
      → (a : Answer) × IsFixed language a
        × (answer assistant keeping question tenant_id none (some language) s ≡ (ok a, s))
  unfolding answer answer_by refuse respond say execute_if ◌>>=◌ lift pure
  answer-IsFixed question tenant_id language s idem =
      let lang = language_or patterns question (some language) in
      elim (route_cases question) [
        | inl e ↦ (
          record { answer = str_of (rows no_rows); lang = lang; route = relational },
          inl refl,
          rw (e) refl,
        )
        | inr e ↦ (
          record { answer = bounded_refusal lang; lang = lang; route = unsupported },
          inr (ap bounded_refusal idem),
          rw (e) refl,
        )
      ]
