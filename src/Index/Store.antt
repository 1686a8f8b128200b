-- ===== src/Index/Store.antt =====
-- index/materializer.py: the operations of `AttributionIndexStore`, each with its locked section
-- as a function of its own. The Redis server and the JSON codec are not the program's: they are
-- the parameter `Redis`. What expires is the server's, and the client without Lua scripts is left out.
use ai_compute_intelligence.Prelude.{
  ℕ, ◌+◌, Bool, ltb, if◌then◌else◌, List, [], ◌∷◌, ◌++◌, String, Option, none, some, concat,
}
use ai_compute_intelligence.Prelude.Dict
use ai_compute_intelligence.Prelude.Dict.{Dict}
use ai_compute_intelligence.Floats.{Floats}
use ai_compute_intelligence.Index.{AttributionIndexEntry, AttributionIndexStore, insert_local}

module _ ⦃F : Floats⦄ where
  pub record Redis : Type 1 where
    pub Server : Type 0
    pub reachable : Server → Bool
    -- the field `payload` of the hash at a key, and the field `version`, 0 if there is none
    pub hget_payload : Server → String → Option String
    pub hget_version : Server → String → ℕ
    pub get : Server → String → Option String
    pub hset : Server → String → String → ℕ → Server
    -- PEXPIRE of a key by `ttl_ms`
    pub pexpire : Server → String → Server
    pub ttl_ms : ℕ
    pub delete : Server → String → Server
    -- deletes what `scan_iter` finds under a prefix
    pub delete_prefix : Server → String → Server
    pub dumps : AttributionIndexEntry → String
    pub loads : String → Option AttributionIndexEntry
    pub redis_prefix : String

  -- the first `with self._lock` of `lookup`
  unfoldable pub lookup_local :
      String → AttributionIndexStore → AttributionIndexStore × Option AttributionIndexEntry
  lookup_local workload_id s = elim (Dict.lookup workload_id s.index) [
    | some e ↦ (
      record s {
        hit_count = s.hit_count + 1;
        index = Dict.remove workload_id s.index ++ (workload_id, e) ∷ [];
      },
      some e,
    )
    | none ↦ (record s { miss_count = s.miss_count + 1 }, none)
  ]

  -- the `with self._lock` of `materialize`
  unfoldable pub materialize_local :
      ℕ
      → AttributionIndexEntry
      → AttributionIndexStore
      → AttributionIndexStore × AttributionIndexEntry
  materialize_local now e s =
      let new_version = Dict.get_or e.workload_id 0 s.versions + 1 in
      let versioned = record e { version = new_version; materialized_at = now } in
      let t = insert_local versioned s in
      (
        record t {
          materialization_count = t.materialization_count + 1;
          versions = Dict.insert e.workload_id new_version t.versions;
        },
        versioned,
      )

module _ ⦃F : Floats⦄ ⦃R : Redis⦄ where
  -- The index with its server, if there is one.
  pub record Tiers : Type 0 where
    pub store : AttributionIndexStore
    pub redis : Option R.Server

  unfoldable pub redis_key : String → String
  redis_key workload_id = concat (R.redis_prefix ∷ ":" ∷ workload_id ∷ [])

  -- `if ttl_ms > 0 then redis.call('PEXPIRE', key, ttl_ms) end`
  unfoldable pub renew : String → R.Server → R.Server
  renew key r = if ltb 0 R.ttl_ms then R.pexpire r key else r

  -- `self._redis_upsert_script`
  unfoldable pub redis_upsert_script : R.Server → String → String → ℕ → R.Server
  redis_upsert_script r key payload incoming_version =
      if ltb incoming_version (R.hget_version r key)
      then renew key r
      else renew key (R.hset r key payload incoming_version)

  parsed :
      AttributionIndexStore
      → Option AttributionIndexEntry
      → AttributionIndexStore × Option AttributionIndexEntry
  parsed s none = (record s { durable_errors = s.durable_errors + 1 }, none)
  parsed s (some e) = (s, some e)

  legacy :
      AttributionIndexStore → Option String → AttributionIndexStore × Option AttributionIndexEntry
  legacy s none = (record s { durable_misses = s.durable_misses + 1 }, none)
  legacy s (some raw) = parsed s (R.loads raw)

  unfoldable pub load_durable_entry :
      String
      → R.Server
      → AttributionIndexStore
      → AttributionIndexStore × Option AttributionIndexEntry
  unfolding parsed legacy
  load_durable_entry workload_id r s =
      let key = redis_key workload_id in
      if R.reachable r
      then elim (R.hget_payload r key) [
        | none ↦ legacy s (R.get r key)
        | some raw ↦ parsed s (R.loads raw)
      ]
      else (record s { durable_errors = s.durable_errors + 1 }, none)

  -- the second `with self._lock` of `lookup`
  unfoldable pub promote :
      AttributionIndexStore × Option AttributionIndexEntry
      → AttributionIndexStore × Option AttributionIndexEntry
  promote (s, none) = (s, none)
  promote (s, some e) = (insert_local e (record s { durable_hits = s.durable_hits + 1 }), some e)

  unfoldable pub fall_back :
      String
      → Option R.Server
      → AttributionIndexStore × Option AttributionIndexEntry
      → AttributionIndexStore × Option AttributionIndexEntry
  unfolding promote
  fall_back workload_id redis (s, some e) = (s, some e)
  fall_back workload_id none (s, none) = (s, none)
  fall_back workload_id (some r) (s, none) = promote (load_durable_entry workload_id r s)

  unfoldable pub lookup : String → Tiers → Tiers × Option AttributionIndexEntry
  unfolding fall_back
  lookup workload_id t =
      let (s, found) = fall_back workload_id t.redis (lookup_local workload_id t.store) in
      (record t { store = s }, found)

  unfoldable pub lookup_batch_from :
      List String
      → Tiers
      → Dict (Option AttributionIndexEntry)
      → Tiers × Dict (Option AttributionIndexEntry)
  lookup_batch_from [] t found = (t, found)
  lookup_batch_from (w ∷ ws) t found =
      let (t', e) = lookup w t in lookup_batch_from ws t' (Dict.insert w e found)

  unfoldable pub lookup_batch : List String → Tiers → Tiers × Dict (Option AttributionIndexEntry)
  unfolding lookup_batch_from
  lookup_batch workload_ids t = lookup_batch_from workload_ids t []

  unfoldable pub write_durable_entry : AttributionIndexEntry → Tiers → Tiers
  write_durable_entry e t = elim t.redis [
    | none ↦ t
    | some r ↦
        if R.reachable r
        then record t {
          redis = some (redis_upsert_script r (redis_key e.workload_id) (R.dumps e) e.version);
          store = record (t.store) { durable_writes = t.store.durable_writes + 1 };
        }
        else record t { store = record (t.store) { durable_errors = t.store.durable_errors + 1 } }
  ]

  unfoldable pub materialize : ℕ → AttributionIndexEntry → Tiers → Tiers
  materialize now e t =
      let (s, versioned) = materialize_local now e t.store in
      write_durable_entry versioned (record t { store = s })

  -- `self._redis.delete(...)` in its `try`
  unfoldable pub drop_durable : (R.Server → R.Server) → Tiers → Tiers
  drop_durable change t = elim t.redis [
    | none ↦ t
    | some r ↦
        if R.reachable r
        then record t { redis = some (change r) }
        else record t { store = record (t.store) { durable_errors = t.store.durable_errors + 1 } }
  ]

  unfoldable pub evict : String → Tiers → Tiers × Bool
  unfolding drop_durable
  evict workload_id t =
      let removed = Dict.contains workload_id t.store.index in
      let s =
        if removed
        then record (t.store) {
          index = Dict.remove workload_id t.store.index;
          versions = Dict.remove workload_id t.store.versions;
        }
        else t.store in
      (drop_durable (λ r. R.delete r (redis_key workload_id)) (record t { store = s }), removed)

  unfoldable pub clear : Tiers → Tiers
  unfolding drop_durable
  clear t =
      drop_durable (λ r. R.delete_prefix r (concat (R.redis_prefix ∷ ":*" ∷ [])))
        (record t { store = record (t.store) { index = []; versions = [] } })
