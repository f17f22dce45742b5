-- ===== src/Rag/Post/Probe.antt =====
-- What `provider_health` of app/services/rag_service.py raises, and what it leaves alone.
use paquitobot_rag.Prelude.{
  ◌≡◌, ◌≢◌, refl, sym, ap, ◌∙◌, inl, inr, String, Bool, false, false≢true, Option, none, some,
  if◌then◌else◌, Bool-cases,
}
use mathlib.Core.Path.{subst}
use paquitobot_rag.Exec.{Exn, Result, ok, err, runtime_error, value_error, os_error}
use paquitobot_rag.Metrics.{Prometheus}
use paquitobot_rag.Rag.{VectorStore, Backend, is_probe_error, probed, provider_health}
use paquitobot_rag.Rag.Answer.{Router, Assistant}
use paquitobot_rag.Rag.Answer.Own.{IsOwn, provider_health-Keeps}
use paquitobot_rag.Rag.Post.{Desk, probe_store, available_after}

-- What a probe lets through is none of what it catches.
probed-err :
    (backend : Backend) (outcome : Result Bool) (s : VectorStore) (e : Exn)
    → (probed backend outcome s).0 ≡ err e
    → is_probe_error e ≡ false
probed-err backend (ok health) s e h = cc
probed-err backend (err x) s e h = elim (Bool-cases (is_probe_error x)) [
  | inl caught ↦ let returned : ok false ≡ err e = rw (caught) at h in cc
  | inr other ↦
      let raised : ◌≡◌ {A = Result Bool} (err x) (err e) = rw (other) at h in
      let same : x ≡ e = cc in subst (λ y. is_probe_error y ≡ false) same other
]

provider_health-err :
    (backend : Backend) (s : VectorStore) (e : Exn)
    → (provider_health backend s).0 ≡ err e
    → is_probe_error e ≡ false
unfolding provider_health
provider_health-err backend s e h = elim (Bool-cases backend.has_embedder) [
  | inl has ↦ probed-err backend backend.probe s e (
      sym (
        ap (λ b. (if b then probed backend backend.probe s else probed backend (ok false) s).0) has)
      ∙ h)
  | inr lacks ↦ let returned : ok false ≡ err e = rw (lacks) at h in cc
]

pub escaped_kinds :
    (e : Exn) → is_probe_error e ≡ false → (e ≢ runtime_error) × (e ≢ value_error) × (e ≢ os_error)
escaped_kinds e other = (
  λ h. false≢true (sym other ∙ ap is_probe_error h),
  λ h. false≢true (sym other ∙ ap is_probe_error h),
  λ h. false≢true (sym other ∙ ap is_probe_error h),
)

module _ (prometheus : Prometheus) where
  available_after-err :
      {R : Type 0} (assistant : Assistant R) (router : Router) (health : Result Bool) (s : Desk)
      (e : Exn)
      → (available_after assistant router prometheus health s).0 ≡ err e
      → health ≡ err e
  available_after-err assistant router (ok health) s e h = cc
  available_after-err assistant router (err x) s e h = h

  available_after-samples :
      {R : Type 0} (assistant : Assistant R) (router : Router) (health : Result Bool) (s : Desk)
      → let s' = (available_after assistant router prometheus health s).1 in
        (s'.samples ≡ s.samples) × (s'.store ≡ s.store)
  available_after-samples assistant router (ok health) s = (refl, refl)
  available_after-samples assistant router (err e) s = (refl, refl)

  pub probe_store-err :
      {R : Type 0} (assistant : Assistant R) (router : Router) (o : Option Backend) (s : Desk)
      (e : Exn)
      → (probe_store assistant router prometheus o s).0 ≡ err e
      → is_probe_error e ≡ false
  unfolding probe_store
  probe_store-err assistant router none s e h = cc
  probe_store-err assistant router (some backend) s e h =
      let (health, store) = provider_health backend s.store in
      provider_health-err backend s.store e
        (available_after-err assistant router health (record s { store = store }) e h)

  -- A probe counts nothing, and asks the store and the executor nothing.
  pub probe_store_keeps :
      {R : Type 0} (assistant : Assistant R) (router : Router) (o : Option Backend)
      (tenant_id : String) (s : Desk)
      → IsOwn tenant_id s.store
      → let s' = (probe_store assistant router prometheus o s).1 in
        (s'.samples ≡ s.samples) × IsOwn tenant_id s'.store
  unfolding probe_store
  probe_store_keeps assistant router none tenant_id s own = (refl, own)
  probe_store_keeps assistant router (some backend) tenant_id s own =
      let (health, store) = provider_health backend s.store in
      let (samples, stored) =
        available_after-samples assistant router health (record s { store = store }) in
      (
        samples,
        subst (IsOwn tenant_id) (sym stored)
            ((provider_health-Keeps tenant_id backend).run s.store own),
      )
