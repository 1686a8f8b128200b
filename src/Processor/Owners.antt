-- ===== src/Processor/Owners.antt =====
-- core/processor.py, `_handle_inference`: whom the engine resolves an inference to, with its cache.
use ai_compute_intelligence.Prelude.{ℕ, ◌≡◌, refl, sym, subst, List, String, some, none}
use ai_compute_intelligence.Prelude.Every.{Every}
use ai_compute_intelligence.Floats.{Floats, Float}
use ai_compute_intelligence.Combination.{CombinationConfig}
use ai_compute_intelligence.Graph.{empty_store}
use ai_compute_intelligence.Graph.Scan.{Change, change_all}
use ai_compute_intelligence.Hre.{Python, HreExecutionConfig, ReconciliationContext}
use ai_compute_intelligence.Hre.Engine.{Readings, Cache, reconcile, get_cached, cache_key, resolve}
use ai_compute_intelligence.Processor.{Texts, build_context}
use ai_compute_intelligence.Processor.Context.{OwnedIn, reconcile-owned}

module _ ⦃F : Floats⦄ where
  resolve_uncached :
      (P : Python) (round4 : Float → Float) (config : CombinationConfig)
      (limits : HreExecutionConfig) (clock : Readings) (w entity_type : String) (event_time : ℕ)
      (ctx : ReconciliationContext) (cache : Cache P round4 config limits)
      → (get_cached P round4 config limits clock.looked_up
          (cache_key P round4 config limits ctx.tenant_id entity_type w)
          cache).0
        ≡ none
      → (resolve P round4 config limits clock w entity_type event_time ctx cache).0
        ≡ reconcile P round4 config limits clock w event_time ctx
  unfolding resolve
  resolve_uncached P round4 config limits clock w entity_type event_time ctx cache missed =
      rw (missed, resolve) refl

  -- An inference event for whose workload the engine finds no result in its cache, or only one that
  -- has expired, is resolved to nobody, or to a team or a person that the graph stores at that time:
  -- in the graph that a new store has become through any calls, the context of the workload is always
  -- built, and what the engine resolves from it names no other owner. The iteration over a set must
  -- meet elements of the set only.
  pub resolve-owned :
      (T : Texts) (P : Python) (round4 : Float → Float) (config : CombinationConfig)
      (limits : HreExecutionConfig)
      → ((Q : String → Type 0) (xs : List String) → Every Q xs → Every Q (P.set_order xs))
      → (changes : List Change) (now event_time : ℕ) (w tenant_id : String) (clock : Readings)
        (cache : Cache P round4 config limits)
      → (get_cached P round4 config limits clock.looked_up
          (cache_key P round4 config limits tenant_id "inference_endpoint" w)
          cache).0
        ≡ none
      → (ctx : ReconciliationContext) × (build_context T now w event_time tenant_id
            (change_all changes empty_store)
          ≡ some ctx)
        × OwnedIn
            (change_all changes empty_store)
            w
            (resolve P round4 config limits clock w "inference_endpoint" event_time ctx cache).0
  resolve-owned T P round4 config limits order changes now event_time w tenant_id clock cache
        missed =
      let (ctx, built, same, owned) =
        reconcile-owned T P round4 config limits order changes now event_time w tenant_id clock in
      let missed' =
        subst
          (λ t.
            (get_cached P round4 config limits clock.looked_up
              (cache_key P round4 config limits t "inference_endpoint" w) cache).0
            ≡ none)
          (sym same) missed in
      (
        ctx,
        built,
        subst (OwnedIn (change_all changes empty_store) w)
            (sym (
              resolve_uncached P round4 config limits clock w "inference_endpoint" event_time ctx
                cache missed'))
            owned,
      )
