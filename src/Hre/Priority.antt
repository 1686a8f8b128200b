-- ===== src/Hre/Priority.antt =====
-- hre/engine.py: the priority of direct matches, R1, over all other methods.
use ai_compute_intelligence.Prelude.{
  ℕ, ◌≡◌, ◌⊎◌, refl, sym, ap, ◌∙◌, arith, true, [], ◌∷◌, String, some, inl, inr,
}
use ai_compute_intelligence.Floats.{Floats, Float, lit, fle}
use ai_compute_intelligence.Combination.{CombinationConfig}
use ai_compute_intelligence.Hre.{
  Python, ReconciliationSignal, HreExecutionConfig, ReconciliationContext,
}
use ai_compute_intelligence.Hre.Methods.{resolve_r1}
use ai_compute_intelligence.Hre.Engine.{Readings, build_result, reconcile}

module _ ⦃F : Floats⦄ (P : Python) where
  resolve_r1-confidence :
      (entity_id : String) (ctx : ReconciliationContext) (s : ReconciliationSignal)
      → resolve_r1 P entity_id ctx.identity_mappings ≡ some s
      → (s.confidence ≡ lit 1 1) ⊎ (s.confidence ≡ lit 98 100)
  unfolding resolve_r1
  resolve_r1-confidence entity_id ctx s h = ground arith

  module _ (round4 : Float → Float) (config : CombinationConfig) (limits : HreExecutionConfig) where
    pub reconcile-r1 :
        fle (lit 98 100) (lit 98 100) ≡ true
        → fle (lit 98 100) (lit 1 1) ≡ true
        → (clock : Readings) (entity_id : String) (event_time : ℕ) (ctx : ReconciliationContext)
        → (s : ReconciliationSignal) → resolve_r1 P entity_id ctx.identity_mappings ≡ some s
        → reconcile P round4 config limits clock entity_id event_time ctx
          ≡ build_result entity_id s (s ∷ []) s.confidence [] []
    unfolding reconcile
    reconcile-r1 self_le one_le clock entity_id event_time ctx s h =
        let sure : fle (lit 98 100) s.confidence ≡ true =
          elim (resolve_r1-confidence entity_id ctx s h) [
            | inl exact ↦ rw exact one_le
            | inr near ↦ rw near self_le
          ] in
        rw (h, sure, reconcile) refl

    -- A match of R1, exact or normalized, decides alone: the result is the same for any other data
    -- with the same identity mappings, any event time and any clock, so a signal of R1 is never
    -- combined with others. The literals must compare as 0.98 <= 0.98 and 0.98 <= 1.
    pub reconcile-identified :
        fle (lit 98 100) (lit 98 100) ≡ true
        → fle (lit 98 100) (lit 1 1) ≡ true
        → (clock clock' : Readings) (entity_id : String) (time time' : ℕ)
          (ctx ctx' : ReconciliationContext)
        → (s : ReconciliationSignal) → resolve_r1 P entity_id ctx.identity_mappings ≡ some s
        → ctx'.identity_mappings ≡ ctx.identity_mappings
        → reconcile P round4 config limits clock entity_id time ctx
          ≡ reconcile P round4 config limits clock' entity_id time' ctx'
    reconcile-identified self_le one_le clock clock' entity_id time time' ctx ctx' s h same =
        reconcile-r1 self_le one_le clock entity_id time ctx s h
        ∙ sym (
            reconcile-r1 self_le one_le clock' entity_id time' ctx' s
              (ap (resolve_r1 P entity_id) same ∙ h))
