-- ===== src/Bus/Delivery.antt =====
-- core/event_bus.py: what `publish` and `publish_batch` of the in-memory bus do on every branch.
use ai_compute_intelligence.Prelude.{
  ℕ, ◌+◌, ◌-◌, ◌≤◌, ◌≡◌, refl, sym, subst, ◌∙◌, arith, Bool, true, false, List, [], ◌∷◌, ◌++◌,
  append_assoc, append-nil, String, mem, none, some, length, length-drop, Bool-cases, inl, inr,
  if◌then◌else◌,
}
use ai_compute_intelligence.Bus.{
  Schemas, DomainEvent, InMemoryEventBus, validate_domain_event, dedup_key, dispatch, append_event,
  publish, handlers_for, type_value,
}
use ai_compute_intelligence.Bus.Dedup.{IsTracked, remember-IsTracked}

module _ ⦃S : Schemas⦄ where
  pub record IsValid (b : InMemoryEventBus) : Type 0 where
    pub tracked : IsTracked b.keys
    pub bounded : length b.log ≤ b.max_events

  -- the calls of the handlers, in order
  abbrev pub calls : DomainEvent → List String → List (String × String)
  calls e [] = []
  calls e (handler ∷ handlers) = (handler, e.event_id) ∷ calls e handlers

  abbrev pub failures : (String → Bool) → List String → ℕ
  failures raises [] = 0
  failures raises (handler ∷ handlers) =
      let rest = failures raises handlers in if raises handler then 1 + rest else rest

  -- What calling handlers changes, and what it leaves.
  pub record Dispatched (raises : String → Bool) (e : DomainEvent) (handlers : List String)
      (b c : InMemoryEventBus) : Type 0 where
    pub delivered : c.delivered ≡ b.delivered ++ calls e handlers
    pub errors : c.dispatch_errors ≡ b.dispatch_errors + failures raises handlers
    pub keys : c.keys ≡ b.keys
    pub log : c.log ≡ b.log
    pub max_events : c.max_events ≡ b.max_events
    pub published : c.published_count ≡ b.published_count
    pub deduplicated : c.deduplicated_count ≡ b.deduplicated_count

  pub dispatch-Dispatched :
      (raises : String → Bool) (e : DomainEvent) (handlers : List String) (b : InMemoryEventBus)
      → Dispatched raises e handlers b (dispatch raises e handlers b)
  unfolding dispatch
  dispatch-Dispatched raises e [] b = record {
    delivered = sym (append-nil b.delivered);
    errors = omega arith;
    keys = refl;
    log = refl;
    max_events = refl;
    published = refl;
    deduplicated = refl;
  }
  dispatch-Dispatched raises e (handler ∷ handlers) b =
      let called = b.delivered ++ (handler, e.event_id) ∷ [] in
      let errors = if raises handler then b.dispatch_errors + 1 else b.dispatch_errors in
      let d =
        dispatch-Dispatched raises e handlers
          (record b { delivered = called; dispatch_errors = errors }) in
      record {
        delivered =
            d.delivered ∙ append_assoc b.delivered ((handler, e.event_id) ∷ []) (calls e handlers);
        errors = ground (arith, d.errors);
        keys = d.keys;
        log = d.log;
        max_events = d.max_events;
        published = d.published;
        deduplicated = d.deduplicated;
      }

  append_event-IsValid :
      (e : DomainEvent) (b : InMemoryEventBus)
      → IsValid b
      → mem (dedup_key e) b.keys.seen_keys ≡ false
      → IsValid (append_event e b)
  unfolding append_event
  append_event-IsValid e b v h = record {
    tracked = remember-IsTracked (dedup_key e) b.keys v.tracked h;
    bounded =
        omega (arith, length-drop (length (b.log ++ e ∷ []) - b.max_events) (b.log ++ e ∷ []));
  }

  -- the handlers that `publish` calls for an event
  abbrev pub subscribed : DomainEvent → InMemoryEventBus → List String
  subscribed e b = handlers_for (type_value e.event_type) b.handlers

  pub publish_fresh :
      (raises : String → Bool) (e : DomainEvent) (b : InMemoryEventBus)
      → validate_domain_event e ≡ true
      → mem (dedup_key e) b.keys.seen_keys ≡ false
      → publish raises e b ≡ (dispatch raises e (subscribed e b) (append_event e b), some true)
  unfolding publish append_event
  publish_fresh raises e b v h = rw (v, h, publish) refl

  pub publish_seen :
      (raises : String → Bool) (e : DomainEvent) (b : InMemoryEventBus)
      → validate_domain_event e ≡ true
      → mem (dedup_key e) b.keys.seen_keys ≡ true
      → publish raises e b
        ≡ (record b { deduplicated_count = b.deduplicated_count + 1 }, some false)
  unfolding publish
  publish_seen raises e b v h = rw (v, h, publish) refl

  pub publish_invalid :
      (raises : String → Bool) (e : DomainEvent) (b : InMemoryEventBus)
      → validate_domain_event e ≡ false
      → publish raises e b ≡ (b, none)
  unfolding publish
  publish_invalid raises e b v = rw (v, publish) refl

  -- An accepted event reaches the handlers of its topic and then those of "*", each once, whichever
  -- of them raise; each raise is counted, and so is the event.
  pub publish-calls :
      (raises : String → Bool) (e : DomainEvent) (b : InMemoryEventBus)
      → validate_domain_event e ≡ true
      → mem (dedup_key e) b.keys.seen_keys ≡ false
      → ((publish raises e b).1 ≡ some true)
        × ((publish raises e b).0.delivered ≡ b.delivered ++ calls e (subscribed e b))
        × ((publish raises e b).0.dispatch_errors
            ≡ b.dispatch_errors + failures raises (subscribed e b))
        × ((publish raises e b).0.published_count ≡ b.published_count + 1)
  unfolding append_event
  publish-calls raises e b v h =
      let d = dispatch-Dispatched raises e (subscribed e b) (append_event e b) in
      rw (publish_fresh raises e b v h) (refl, d.delivered, d.errors, d.published)

  IsValid-Dispatched :
      (raises : String → Bool) (e : DomainEvent) (handlers : List String) (b c : InMemoryEventBus)
      → Dispatched raises e handlers b c
      → IsValid b
      → IsValid c
  IsValid-Dispatched raises e handlers b c d v = record {
    tracked = subst IsTracked (sym d.keys) v.tracked;
    bounded = rw (d.log, d.max_events) v.bounded;
  }

  pub publish-IsValid :
      (raises : String → Bool) (e : DomainEvent) (b : InMemoryEventBus)
      → IsValid b
      → IsValid (publish raises e b).0
  publish-IsValid raises e b v = elim (Bool-cases (validate_domain_event e)) [
    | inr bad ↦ rw (publish_invalid raises e b bad) v
    | inl good ↦ elim (Bool-cases (mem (dedup_key e) b.keys.seen_keys)) [
      | inl seen ↦
          rw (publish_seen raises e b good seen)
            (record { tracked = v.tracked; bounded = v.bounded })
      | inr new ↦ rw (publish_fresh raises e b good new) (
          IsValid-Dispatched raises e _ _ _
            (dispatch-Dispatched raises e (subscribed e b) (append_event e b))
            (append_event-IsValid e b v new))
    ]
  ]
