-- ===== src/Bus/Batch.antt =====
-- core/event_bus.py: publications one after another: batches, repeated events, and events that the
-- keys of the deduplication do not tell apart.
use text.Mathlib.TextLemmas.{append_assoc as text_append_assoc, nil-append as text_nil_append}
use ai_compute_intelligence.Prelude.{
  ℕ, ◌+◌, ◌≡◌, refl, ap, arith, Bool, true, false, List, [], ◌∷◌, String, mem, Option, some, length,
  concat, Option-cases, Bool-cases, inl, inr,
}
use ai_compute_intelligence.Bus.{
  Schemas, DomainEvent, InMemoryEventBus, BatchCounts, validate_domain_event, dedup_key, dispatch,
  append_event, publish, publish_all, publish_batch,
}
use ai_compute_intelligence.Bus.Delivery.{
  IsValid, subscribed, publish_fresh, publish_seen, publish-IsValid, dispatch-Dispatched,
}

module _ ⦃S : Schemas⦄ where
  abbrev pub AllValid : List DomainEvent → Type 0
  AllValid [] = Unit
  AllValid (e ∷ events) = (validate_domain_event e ≡ true) × AllValid events

  -- A batch of any events, published in any state that the code keeps, leaves such a state: the
  -- set of keys and their order agree, no key stands twice, and neither they nor the log exceed
  -- their limits.
  pub publish_all-IsValid :
      (raises : String → Bool) (events : List DomainEvent) (b : InMemoryEventBus) (c : BatchCounts)
      → IsValid b
      → IsValid (publish_all raises events b c).0
  unfolding publish_all
  publish_all-IsValid raises [] b c v = v
  publish_all-IsValid raises (e ∷ events) b c v =
      let w = publish-IsValid raises e b v in
      let more : (c' : BatchCounts)
          → IsValid (publish_all raises events (publish raises e b).0 c').0 =
        λ c'. publish_all-IsValid raises events (publish raises e b).0 c' w in
      elim (Option-cases (publish raises e b).1) [
        | inl bad ↦ rw (bad, publish_all) w
        | inr (fresh, ok) ↦ elim (Bool-cases fresh) [
          | inl taken ↦ rw (ok, taken, publish_all) (more _)
          | inr dropped ↦ rw (ok, dropped, publish_all) (more _)
        ]
      ]

  -- An event is accepted only if it is valid and its key is new.
  pub publish-accepted :
      (raises : String → Bool) (e : DomainEvent) (b : InMemoryEventBus)
      → (publish raises e b).1 ≡ some true
      → (validate_domain_event e ≡ true) × (mem (dedup_key e) b.keys.seen_keys ≡ false)
  unfolding publish
  publish-accepted raises e b h = ground (arith, h)

  -- what a batch reports
  pub record Reported (b : InMemoryEventBus) (c : BatchCounts) (n : ℕ)
      (r : InMemoryEventBus × Option BatchCounts) : Type 0 where
    pub counts : BatchCounts
    pub answered : r.1 ≡ some counts
    pub every : counts.published + counts.deduplicated ≡ c.published + c.deduplicated + n
    pub published : counts.published + b.published_count ≡ c.published + r.0.published_count
    pub deduplicated :
        counts.deduplicated + b.deduplicated_count ≡ c.deduplicated + r.0.deduplicated_count

  publish_all-published :
      (raises : String → Bool) (e : DomainEvent) (events : List DomainEvent)
      (b t : InMemoryEventBus) (c : BatchCounts)
      → publish raises e b ≡ (t, some true)
      → publish_all raises (e ∷ events) b c
        ≡ publish_all raises events t (record c { published = c.published + 1 })
  unfolding publish_all
  publish_all-published raises e events b t c h =
      rw (ap (λ p. p.1) h, ap (λ p. p.0) h, publish_all) refl

  publish_all-deduplicated :
      (raises : String → Bool) (e : DomainEvent) (events : List DomainEvent)
      (b t : InMemoryEventBus) (c : BatchCounts)
      → publish raises e b ≡ (t, some false)
      → publish_all raises (e ∷ events) b c
        ≡ publish_all raises events t (record c { deduplicated = c.deduplicated + 1 })
  unfolding publish_all
  publish_all-deduplicated raises e events b t c h =
      rw (ap (λ p. p.1) h, ap (λ p. p.0) h, publish_all) refl

  publish_all-Reported :
      (raises : String → Bool) (events : List DomainEvent) (b : InMemoryEventBus) (c : BatchCounts)
      → AllValid events
      → Reported b c (length events) (publish_all raises events b c)
  unfolding publish_all append_event
  publish_all-Reported raises [] b c v = record {
    counts = c;
    answered = refl;
    every = omega arith;
    published = refl;
    deduplicated = refl;
  }
  publish_all-Reported raises (e ∷ events) b c v =
      elim (Bool-cases (mem (dedup_key e) b.keys.seen_keys)) [
        | inl seen ↦
            rw (publish_all-deduplicated raises e events b _ c (publish_seen raises e b v.0 seen)) (
              let t = record b { deduplicated_count = b.deduplicated_count + 1 } in
              let r =
                publish_all-Reported raises events t
                  (record c { deduplicated = c.deduplicated + 1 }) v.1 in
              record {
                counts = r.counts;
                answered = r.answered;
                every = omega (arith, r.every);
                published = r.published;
                deduplicated = omega (arith, r.deduplicated);
              })
        | inr new ↦
            rw (publish_all-published raises e events b _ c (publish_fresh raises e b v.0 new)) (
              let accepted = append_event e b in
              let d = dispatch-Dispatched raises e (subscribed e b) accepted in
              let r =
                publish_all-Reported raises events (dispatch raises e (subscribed e b) accepted)
                  (record c { published = c.published + 1 }) v.1 in
              record {
                counts = r.counts;
                answered = r.answered;
                every = omega (arith, r.every);
                published = omega (arith, r.published, d.published);
                deduplicated = omega (arith, r.deduplicated, d.deduplicated);
              })
      ]

  -- A batch of valid events is published to its end, and its report counts every event once: as
  -- published where the counter of publications went up, and as a duplicate where that of
  -- duplicates did.
  pub publish_batch-Reported :
      (raises : String → Bool) (events : List DomainEvent) (b : InMemoryEventBus)
      → AllValid events
      → Reported b
          (record { published = 0; deduplicated = 0 })
          (length events)
          (publish_batch raises events b)
  unfolding publish_batch
  publish_batch-Reported raises events b v = publish_all-Reported raises events b _ v

  -- Two events of different tenants have one key in the deduplication if the first tenant's name
  -- goes on, after a colon, where the second event's source begins.
  pub dedup_key-collides :
      (e : DomainEvent) (tenant rest source : String)
      → dedup_key (record e { tenant_id = concat (tenant ∷ ":" ∷ rest ∷ []); source = source })
        ≡ dedup_key (record e { tenant_id = tenant; source = concat (rest ∷ ":" ∷ source ∷ []) })
  unfolding dedup_key
  dedup_key-collides e tenant rest source = simp (text_append_assoc, text_nil_append)
