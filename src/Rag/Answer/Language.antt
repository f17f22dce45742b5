-- ===== src/Rag/Answer/Language.antt =====
-- The language of an answer.
use paquitobot_rag.Prelude.{◌≡◌, sym, ap, ◌∙◌, String, Option, none, some}
use paquitobot_rag.Exec.{ok, Exec, pure, ◌>>=◌}
use paquitobot_rag.Exec.Inversion.{>>=-ok}
use paquitobot_rag.Rag.{VectorStore, Backend}
use paquitobot_rag.Rag.Answer.{
  Route, relational, semantic, hybrid, unsupported, Router, Evidence, documents, rows, Assistant,
  Answer, answer, answer_by, language_or, respond, refuse, search_and_respond,
}

-- What is returned is in the language `lang`.
pub record Speaks (lang : String) (m : Exec VectorStore Answer) : Type 0 where
  pub in_lang : (s : VectorStore) (a : Answer) → (m s).0 ≡ ok a → a.lang ≡ lang

Speaks-bind :
    {A : Type 0} (lang : String) (m : Exec VectorStore A) (f : A → Exec VectorStore Answer)
    → ((x : A) → Speaks lang (f x))
    → Speaks lang (m >>= f)
Speaks-bind lang m f speaks = record {
  in_lang = λ s a e.
      let (x, found, rest) = >>=-ok m f s a e in
      (speaks x).in_lang (m s).1 a (sym (ap (λ p. p.0) rest) ∙ e);
}

module _ {R : Type 0} (assistant : Assistant R) (router : Router) where
  respond-Speaks :
      (lang : String) (decision : Route) (evidence : Evidence R)
      → Speaks lang (respond assistant router lang decision evidence)
  unfolding respond pure
  respond-Speaks lang decision evidence =
      Speaks-bind lang _ _ (λ text. record { in_lang = λ s a e. cc })

  search_and_respond-Speaks :
      (question tenant_id lang : String) (decision : Route) (k : _) (store : Option Backend)
      → Speaks lang (search_and_respond assistant router question tenant_id lang decision k store)
  unfolding search_and_respond refuse pure
  search_and_respond-Speaks question tenant_id lang decision k none = record {
    in_lang = λ s a e. cc;
  }
  search_and_respond-Speaks question tenant_id lang decision k (some backend) =
      Speaks-bind lang _ _ (λ docs. respond-Speaks lang decision (documents docs))

  answer_by-Speaks :
      (question tenant_id : String) (sql : Option String) (lang : String) (decision : Route)
      → Speaks lang (answer_by assistant router question tenant_id sql lang decision)
  unfolding answer_by refuse pure
  answer_by-Speaks question tenant_id sql lang unsupported = record { in_lang = λ s a e. cc }
  answer_by-Speaks question tenant_id sql lang relational =
      Speaks-bind lang _ _ (λ found. respond-Speaks lang relational (rows found))
  answer_by-Speaks question tenant_id sql lang semantic =
      search_and_respond-Speaks question tenant_id lang semantic 8 assistant.vector_store
  answer_by-Speaks question tenant_id sql lang hybrid =
      search_and_respond-Speaks question tenant_id lang hybrid 20 assistant.vector_store

  -- An answer that is returned is in the language that was asked for, or detected.
  pub answer-Speaks :
      (question tenant_id : String) (sql language : Option String)
      → Speaks
          (language_or router.patterns question language)
          (answer assistant router question tenant_id sql language)
  unfolding answer
  answer-Speaks question tenant_id sql language = Speaks-bind _ _ _ (λ decision.
      answer_by-Speaks question tenant_id sql (language_or router.patterns question language)
        decision)
