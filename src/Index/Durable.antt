-- ===== src/Index/Durable.antt =====
-- index/materializer.py: the durable tier, and what becomes of it when the local tier has forgotten
-- the version of an entry.
use ai_compute_intelligence.Prelude.{ℕ, ◌+◌, ◌<◌, ◌≡◌, ap, arith, String, none, some, true, false}
use ai_compute_intelligence.Prelude.Dict
use ai_compute_intelligence.Floats.{Floats}
use ai_compute_intelligence.Index.{AttributionIndexEntry, AttributionIndexStore, insert_local}
use ai_compute_intelligence.Index.Store.{
  Redis, redis_key, renew, redis_upsert_script, lookup, materialize, materialize_local,
  write_durable_entry, lookup_local, load_durable_entry,
}
use ai_compute_intelligence.Index.Lru.{IsCoherent}

module _ ⦃F : Floats⦄ ⦃R : Redis⦄ where
  -- A key that is not in a coherent index starts again at version 1.
  materialize_local-version :
      (now : ℕ) (e : AttributionIndexEntry) (s : AttributionIndexStore)
      → IsCoherent s
      → Dict.lookup e.workload_id s.index ≡ none
      → (materialize_local now e s).1 ≡ record e { version = 1; materialized_at = now }
  unfolding materialize_local Dict.get_or
  materialize_local-version now e s c absent = ground (arith, c.agree e.workload_id)

  renew-hget_payload :
      (r : R.Server) (key : String)
      → ((q : R.Server) (k : String) → R.hget_payload (R.pexpire q k) k ≡ R.hget_payload q k)
      → R.hget_payload (renew key r) key ≡ R.hget_payload r key
  unfolding renew
  renew-hget_payload r key kept = ground (arith, kept r key)

  -- A materialisation of an entry that the local index has evicted does not reach the durable
  -- tier if Redis still holds a later version than 1 of it: the new entry gets version 1, the
  -- upsert script takes it for a stale write and only renews the key's time to live, the payload
  -- that Redis holds stays the old one, and the write is counted as done all the same. The index
  -- must be coherent and the server reachable, and PEXPIRE must leave the payload of its key alone.
  pub materialize-discarded :
      ((q : R.Server) (k : String) → R.hget_payload (R.pexpire q k) k ≡ R.hget_payload q k)
      → (now : ℕ) (e : AttributionIndexEntry) (s : AttributionIndexStore) (r : R.Server)
      → IsCoherent s
      → Dict.lookup e.workload_id s.index ≡ none
      → R.reachable r ≡ true
      → 1 < R.hget_version r (redis_key e.workload_id)
      → ((materialize_local now e s).1.version ≡ 1)
        × ((materialize now e (record { store = s; redis = some r })).redis
            ≡ some (renew (redis_key e.workload_id) r))
        × (R.hget_payload (renew (redis_key e.workload_id) r) (redis_key e.workload_id)
            ≡ R.hget_payload r (redis_key e.workload_id))
        × ((materialize now e (record { store = s; redis = some r })).store.durable_writes
            ≡ (materialize_local now e s).0.durable_writes + 1)
  unfolding materialize write_durable_entry redis_upsert_script
  materialize-discarded kept now e s r c absent up later =
      let key = redis_key e.workload_id in
      let first = materialize_local-version now e s c absent in
      (
        ap (λ entry. entry.version) first,
        ground (arith, first),
        renew-hget_payload r key kept,
        ground (arith, first),
      )

  -- A lookup that misses the local index returns what the durable tier holds, puts it into the
  -- local index, and counts one miss and one durable hit.
  pub lookup-durable :
      (k raw : String) (e : AttributionIndexEntry) (s : AttributionIndexStore) (r : R.Server)
      → Dict.lookup k s.index ≡ none
      → R.reachable r ≡ true
      → R.hget_payload r (redis_key k) ≡ some raw
      → R.loads raw ≡ some e
      → lookup k (record { store = s; redis = some r }) ≡ (
        record {
          store =
              insert_local e
                (record s { miss_count = s.miss_count + 1; durable_hits = s.durable_hits + 1 });
          redis = some r;
        },
        some e,
      )
  unfolding lookup lookup_local load_durable_entry
  lookup-durable k raw e s r miss up stored parsed = ground (arith, miss, up, stored, parsed)

  -- With the server down, a lookup that misses the local index answers `None`, leaves the index
  -- as it was and counts a miss and an error.
  pub lookup-degrades :
      (k : String) (s : AttributionIndexStore) (r : R.Server)
      → Dict.lookup k s.index ≡ none
      → R.reachable r ≡ false
      → lookup k (record { store = s; redis = some r }) ≡ (
        record {
          store = record s { miss_count = s.miss_count + 1; durable_errors = s.durable_errors + 1 };
          redis = some r;
        },
        none,
      )
  unfolding lookup lookup_local load_durable_entry
  lookup-degrades k s r miss down = ground (arith, miss, down)
