-- ===== src/Hre/Cache.antt =====
-- hre/engine.py: the cache of `HeuristicReconciliationEngine.resolve`.
use ai_compute_intelligence.Prelude.{
  ℕ, ◌-◌, ◌≤◌, ◌<◌, ◌≡◌, refl, ap, ◌∙◌, arith, false, List, [], ◌∷◌, ◌++◌, String, none, some,
  length, drop, length-append, length-drop, Bool-cases, Option-cases, inl, inr, eq_refl,
}
use ai_compute_intelligence.Prelude.Dict.{
  lookup, remove, lookup-append, lookup-remove, length-remove-le, length-remove_present,
}
use ai_compute_intelligence.Prelude.Ordered.{
  Distinct, drop-append, lookup-drop_absent, Distinct-drop, Distinct-remove, Distinct-append,
}
use ai_compute_intelligence.Floats.{Floats, Float, flt, fsub}
use ai_compute_intelligence.Combination.{CombinationConfig}
use ai_compute_intelligence.Index.{AttributionResult}
use ai_compute_intelligence.Hre.{Python, HreExecutionConfig, ReconciliationContext}
use ai_compute_intelligence.Hre.Engine.{
  Cache, Readings, get_cached, cache_result, cache_key, reconcile, resolve,
}

module _ ⦃F : Floats⦄ (P : Python) (round4 : Float → Float) (config : CombinationConfig)
    (limits : HreExecutionConfig) where
  -- no key twice, and no more entries than the limit
  pub record IsBounded (cache : Cache P round4 config limits) : Type 0 where
    pub distinct : Distinct cache
    pub bounded : length cache ≤ limits.cache_max_entries

  get_cached-IsBounded :
      (now : Float) (key : String) (cache : Cache P round4 config limits)
      → IsBounded cache
      → IsBounded (get_cached P round4 config limits now key cache).1
  unfolding get_cached
  get_cached-IsBounded now key cache v =
      let distinct = Distinct-remove key cache v.distinct in
      let bounded : length cache ≤ limits.cache_max_entries = v.bounded in
      let absent : lookup key (remove key cache) ≡ none =
        ground (arith, lookup-remove key key cache, eq_refl key) in
      elim (Option-cases (lookup key cache)) [
        | inl missing ↦ rw (missing, get_cached) v
        | inr ((at, result), found) ↦
            elim (Bool-cases (flt limits.cache_ttl_seconds (fsub now at))) [
              | inl old ↦
                  rw (found, old, get_cached)
                    (record {
                      distinct = distinct;
                      bounded = omega (arith, length-remove-le key cache, bounded);
                    })
              | inr fresh ↦
                  rw (found, fresh, get_cached)
                    (record {
                      distinct =
                          Distinct-append key (at, result) (remove key cache) absent distinct;
                      bounded = omega (
                        arith,
                        length-append (remove key cache) ((key, (at, result)) ∷ []),
                        length-remove_present key (at, result) cache found,
                        bounded,
                      );
                    })
            ]
      ]

  cache_result-IsBounded :
      (now : Float) (key : String) (result : AttributionResult)
      (cache : Cache P round4 config limits)
      → IsBounded cache
      → IsBounded (cache_result P round4 config limits now key result cache)
  unfolding cache_result
  cache_result-IsBounded now key result cache v =
      let longer : Cache P round4 config limits = remove key cache ++ (key, (now, result)) ∷ [] in
      let absent : lookup key (remove key cache) ≡ none =
        ground (arith, lookup-remove key key cache, eq_refl key) in
      record {
        distinct = Distinct-drop (length longer - limits.cache_max_entries) longer (
            Distinct-append key (now, result) (remove key cache) absent
              (Distinct-remove key cache v.distinct));
        bounded = omega (arith, length-drop (length longer - limits.cache_max_entries) longer);
      }

  resolve-IsBounded :
      (clock : Readings) (entity_id entity_type : String) (event_time : ℕ)
      (ctx : ReconciliationContext) (cache : Cache P round4 config limits)
      → IsBounded cache
      → IsBounded
          (resolve P round4 config limits clock entity_id entity_type event_time ctx cache).1
  unfolding resolve
  resolve-IsBounded clock entity_id entity_type event_time ctx cache v =
      let key = cache_key P round4 config limits ctx.tenant_id entity_type entity_id in
      let result = reconcile P round4 config limits clock entity_id event_time ctx in
      let w = get_cached-IsBounded clock.looked_up key cache v in
      elim (Option-cases (get_cached P round4 config limits clock.looked_up key cache).0) [
        | inl missed ↦ rw (missed, resolve) (cache_result-IsBounded clock.stored key result _ w)
        | inr (r, hit) ↦ rw (hit, resolve) w
      ]

  -- one call of `resolve`
  pub record Call : Type 0 where
    pub clock : Readings
    pub entity_id : String
    pub entity_type : String
    pub event_time : ℕ
    pub context : ReconciliationContext

  unfoldable pub resolve_all :
      List Call → Cache P round4 config limits → Cache P round4 config limits
  unfolding resolve
  resolve_all [] cache = cache
  resolve_all (c ∷ calls) cache =
      resolve_all calls
        (resolve P round4 config limits c.clock c.entity_id c.entity_type c.event_time c.context
          cache).1

  -- Through any calls of the engine, whatever they resolve, a cache of at most `cache_max_entries`
  -- entries in which no key stands twice stays one.
  pub resolve_all-IsBounded :
      (calls : List Call) (cache : Cache P round4 config limits)
      → IsBounded cache
      → IsBounded (resolve_all calls cache)
  unfolding resolve_all
  resolve_all-IsBounded [] cache v = v
  resolve_all-IsBounded (c ∷ calls) cache v =
      resolve_all-IsBounded calls _
        (resolve-IsBounded c.clock c.entity_id c.entity_type c.event_time c.context cache v)

  -- what `cache_result` has stored is found
  lookup-cache_result :
      (now : Float) (key : String) (result : AttributionResult)
      (cache : Cache P round4 config limits)
      → length cache ≤ limits.cache_max_entries
      → 0 < limits.cache_max_entries
      → lookup key (cache_result P round4 config limits now key result cache) ≡ some (now, result)
  unfolding cache_result lookup
  lookup-cache_result now key result cache bounded positive =
      let rest = remove key cache in
      let last : Cache P round4 config limits = (key, (now, result)) ∷ [] in
      let n = length (rest ++ last) - limits.cache_max_entries in
      let fits : n ≤ length rest = omega (arith, length-append rest last) in
      let absent : lookup key rest ≡ none =
        ground (arith, lookup-remove key key cache, eq_refl key) in
      ap (lookup key) (drop-append n rest last fits)
      ∙ ground (
        arith,
        lookup-append key (drop n rest) last,
        lookup-drop_absent key n rest absent,
        eq_refl key,
      )

  pub resolve-missed :
      (clock : Readings) (entity_id entity_type : String) (event_time : ℕ)
      (ctx : ReconciliationContext) (cache : Cache P round4 config limits)
      → lookup (cache_key P round4 config limits ctx.tenant_id entity_type entity_id) cache ≡ none
      → resolve P round4 config limits clock entity_id entity_type event_time ctx cache ≡ (
        reconcile P round4 config limits clock entity_id event_time ctx,
        cache_result P round4 config limits clock.stored
            (cache_key P round4 config limits ctx.tenant_id entity_type entity_id)
            (reconcile P round4 config limits clock entity_id event_time ctx)
            cache,
      )
  unfolding resolve get_cached
  resolve-missed clock entity_id entity_type event_time ctx cache missing =
      let key = cache_key P round4 config limits ctx.tenant_id entity_type entity_id in
      let result = reconcile P round4 config limits clock entity_id event_time ctx in
      let missed : get_cached P round4 config limits clock.looked_up key cache ≡ (none, cache) =
        rw (missing, get_cached) refl in
      rw (missed, resolve)
        (ap (λ p. (result, cache_result P round4 config limits clock.stored key result p.1)) missed)

  resolve-hit :
      (clock : Readings) (entity_id entity_type : String) (event_time : ℕ)
      (ctx : ReconciliationContext) (cache : Cache P round4 config limits) (at : Float)
      (r : AttributionResult)
      → lookup (cache_key P round4 config limits ctx.tenant_id entity_type entity_id) cache
        ≡ some (at, r)
      → flt limits.cache_ttl_seconds (fsub clock.looked_up at) ≡ false
      → (resolve P round4 config limits clock entity_id entity_type event_time ctx cache).0 ≡ r
  unfolding resolve get_cached
  resolve-hit clock entity_id entity_type event_time ctx cache at r found fresh =
      rw (found, resolve, get_cached, fresh) refl

  -- A result that `resolve` has computed and stored is what the next call for the same tenant, entity
  -- and type returns while the entry is not older than `cache_ttl_seconds`, whatever the event time
  -- and the data of that call are. The cache must be bounded and its limit not 0.
  pub resolve-repeated :
      (clock later : Readings) (entity_id entity_type : String) (event_time other_time : ℕ)
      (ctx other_ctx : ReconciliationContext) (cache : Cache P round4 config limits)
      → IsBounded cache
      → 0 < limits.cache_max_entries
      → lookup (cache_key P round4 config limits ctx.tenant_id entity_type entity_id) cache ≡ none
      → other_ctx.tenant_id ≡ ctx.tenant_id
      → flt limits.cache_ttl_seconds (fsub later.looked_up clock.stored) ≡ false
      → (resolve P round4 config limits later entity_id entity_type other_time other_ctx
          (resolve P round4 config limits clock entity_id entity_type event_time ctx cache).1).0
        ≡ reconcile P round4 config limits clock entity_id event_time ctx
  resolve-repeated clock later entity_id entity_type event_time other_time ctx other_ctx cache v
        positive missing tenant fresh =
      let key = cache_key P round4 config limits ctx.tenant_id entity_type entity_id in
      let result = reconcile P round4 config limits clock entity_id event_time ctx in
      let bounded : length cache ≤ limits.cache_max_entries = v.bounded in
      let cache' =
        (resolve P round4 config limits clock entity_id entity_type event_time ctx cache).1 in
      resolve-hit later entity_id entity_type other_time other_ctx cache' clock.stored result
        (ap (λ t. lookup (cache_key P round4 config limits t entity_type entity_id) cache') tenant
          ∙ (ap (λ p. lookup key p.1)
                (resolve-missed clock entity_id entity_type event_time ctx cache missing)
              ∙ lookup-cache_result clock.stored key result cache bounded positive))
        fresh
