-- ===== src/Pricing/Resolution.antt =====
-- pricing/catalog.py: which rule prices a request, as rules are registered.
use ai_compute_intelligence.Prelude.{
  ℕ, ◌≡◌, refl, sym, ap, ◌∙◌, arith, ltb, true, false, if◌then◌else◌, List, [], ◌∷◌, ◌++◌, String,
  Option, none, some, keep, Bool-cases, inl, inr, eq_iff,
}
use ai_compute_intelligence.Floats.{Floats}
use ai_compute_intelligence.Finops.{Trim}
use ai_compute_intelligence.Pricing.{
  PricingRule, rule_before, insert_rule, sort_rules, is_candidate, latest, latest_of, resolve_rule,
  normalized, register_rule,
}
use ai_compute_intelligence.Pricing.Order.{rule_before_trans, rule_before_irrefl}

module _ ⦃F : Floats⦄ where
  -- the second rule, if there is one and its time is later or there is no first
  abbrev pub prefer : Option PricingRule → Option PricingRule → Option PricingRule
  prefer none b = b
  prefer (some a) none = some a
  prefer (some a) (some b) = some (if ltb a.effective_from b.effective_from then b else a)

  prefer_assoc : (a b c : Option PricingRule) → prefer (prefer a b) c ≡ prefer a (prefer b c)
  prefer_assoc none b c = refl
  prefer_assoc (some a) none c = refl
  prefer_assoc (some a) (some b) none = refl
  prefer_assoc (some a) (some b) (some c) = ground arith

  prefer-none : (a : Option PricingRule) → prefer a none ≡ a
  prefer-none none = refl
  prefer-none (some a) = refl

  -- No rule of the list comes before the given one.
  abbrev NoneBefore : PricingRule → List PricingRule → Type 0
  NoneBefore x [] = Unit
  NoneBefore x (y ∷ rules) = (rule_before y x ≡ false) × NoneBefore x rules

  abbrev Sorted : List PricingRule → Type 0
  Sorted [] = Unit
  Sorted (x ∷ rules) = NoneBefore x rules × Sorted rules

  NoneBefore-trans :
      (r x : PricingRule) (rules : List PricingRule)
      → rule_before r x ≡ true
      → NoneBefore x rules
      → NoneBefore r rules
  NoneBefore-trans r x [] h n = tt
  NoneBefore-trans r x (y ∷ rules) h n =
      (ground (arith, n.0, rule_before_trans y r x), NoneBefore-trans r x rules h n.1)

  NoneBefore-insert_rule :
      (r x : PricingRule) (rules : List PricingRule)
      → rule_before r x ≡ false
      → NoneBefore x rules
      → NoneBefore x (insert_rule r rules)
  unfolding insert_rule
  NoneBefore-insert_rule r x [] h n = (h, tt)
  NoneBefore-insert_rule r x (y ∷ rules) h n = elim (Bool-cases (rule_before r y)) [
    | inl before ↦ rw (before, insert_rule) (h, n)
    | inr behind ↦ rw (behind, insert_rule) (n.0, NoneBefore-insert_rule r x rules h n.1)
  ]

  insert_rule-Sorted :
      (r : PricingRule) (rules : List PricingRule) → Sorted rules → Sorted (insert_rule r rules)
  unfolding insert_rule
  insert_rule-Sorted r [] s = (tt, tt)
  insert_rule-Sorted r (x ∷ rules) s = elim (Bool-cases (rule_before r x)) [
    | inl before ↦
        rw (before, insert_rule)
          (
            (
              ground (arith, rule_before_trans x r x, rule_before_irrefl x),
              NoneBefore-trans r x rules before s.0,
            ),
            s,
          )
    | inr behind ↦
        rw (behind, insert_rule)
          (NoneBefore-insert_rule r x rules behind s.0, insert_rule-Sorted r rules s.1)
  ]

  module _ (provider model : String) (at : ℕ) where
    -- a rule, if it prices these requests
    abbrev pub offer : PricingRule → Option PricingRule
    offer r = if is_candidate provider model at r then some r else none

    -- the first of the latest rules that do
    abbrev first_latest : List PricingRule → Option PricingRule
    first_latest [] = none
    first_latest (r ∷ rules) = prefer (offer r) (first_latest rules)

    latest-first :
        (r : PricingRule) (rules : List PricingRule)
        → some (latest r (keep (is_candidate provider model at) rules))
          ≡ prefer (some r) (first_latest rules)
    unfolding latest
    latest-first r [] = refl
    latest-first r (x ∷ rules) = elim (Bool-cases (is_candidate provider model at x)) [
      | inr other ↦ rw other (latest-first r rules)
      | inl candidate ↦
          rw (candidate, latest)
            (latest-first (if ltb r.effective_from x.effective_from then x else r) rules
              ∙ prefer_assoc (some r) (some x) (first_latest rules))
    ]

    resolve_rule-first :
        (rules : List PricingRule) → resolve_rule provider model at rules ≡ first_latest rules
    unfolding resolve_rule latest_of
    resolve_rule-first [] = refl
    resolve_rule-first (r ∷ rules) = elim (Bool-cases (is_candidate provider model at r)) [
      | inl candidate ↦ rw (candidate, resolve_rule) (latest-first r rules)
      | inr other ↦ rw (other, resolve_rule) (resolve_rule-first rules)
    ]

    later_candidate :
        (r x y : PricingRule)
        → rule_before r x ≡ true
        → rule_before y x ≡ false
        → is_candidate provider model at r ≡ true
        → is_candidate provider model at y ≡ true
        → ltb r.effective_from y.effective_from ≡ true
    unfolding rule_before
    later_candidate r x y h n c d = ground (
      arith,
      eq_iff r.provider provider,
      eq_iff r.model model,
      eq_iff y.provider provider,
      eq_iff y.model model,
    )

    -- no rule, or one that is later than the given one
    abbrev IsLater : PricingRule → Option PricingRule → Type 0
    IsLater r none = Unit
    IsLater r (some y) = ltb r.effective_from y.effective_from ≡ true

    prefer-IsLater :
        (r : PricingRule) (a b : Option PricingRule)
        → IsLater r a
        → IsLater r b
        → IsLater r (prefer a b)
    prefer-IsLater r none b h k = k
    prefer-IsLater r (some a) none h k = h
    prefer-IsLater r (some a) (some b) h k = ground arith

    first_latest-IsLater :
        (r x : PricingRule) (rules : List PricingRule)
        → rule_before r x ≡ true
        → is_candidate provider model at r ≡ true
        → NoneBefore x rules
        → IsLater r (first_latest rules)
    first_latest-IsLater r x [] h c n = tt
    first_latest-IsLater r x (y ∷ rules) h c n =
        let rest = first_latest-IsLater r x rules h c n.1 in
        elim (Bool-cases (is_candidate provider model at y)) [
          | inr other ↦ rw other rest
          | inl d ↦ rw d (
              prefer-IsLater r (some y) (first_latest rules) (later_candidate r x y h n.0 c d) rest)
        ]

    prefer_later :
        (r : PricingRule) (a : Option PricingRule)
        → IsLater r a
        → prefer (some r) a ≡ prefer a (some r)
    prefer_later r none h = refl
    prefer_later r (some y) h = ground arith

    first_latest-insert_rule :
        (r : PricingRule) (rules : List PricingRule)
        → Sorted rules
        → first_latest (insert_rule r rules) ≡ prefer (first_latest rules) (offer r)
    unfolding insert_rule
    first_latest-insert_rule r [] s = prefer-none (offer r)
    first_latest-insert_rule r (x ∷ rules) s = elim (Bool-cases (rule_before r x)) [
      | inr behind ↦
          rw (behind, insert_rule)
            (ap (prefer (offer x)) (first_latest-insert_rule r rules s.1)
              ∙ sym (prefer_assoc (offer x) (first_latest rules) (offer r)))
      | inl before ↦
          rw (before, insert_rule)
            (elim (Bool-cases (is_candidate provider model at r)) [
              | inr other ↦ rw other (sym (prefer-none (first_latest (x ∷ rules))))
              | inl c ↦ rw c (
                  prefer_later r (first_latest (x ∷ rules))
                    (first_latest-IsLater r x (x ∷ rules) before c (rule_before_irrefl x, s.0)))
            ])
    ]

    first_latest-sort_rules :
        (sorted rules : List PricingRule)
        → Sorted sorted
        → first_latest (sort_rules sorted rules) ≡ prefer (first_latest sorted) (first_latest rules)
    unfolding sort_rules
    first_latest-sort_rules sorted [] s = sym (prefer-none (first_latest sorted))
    first_latest-sort_rules sorted (r ∷ rules) s =
        first_latest-sort_rules (insert_rule r sorted) rules (insert_rule-Sorted r sorted s)
        ∙ (ap (λ o. prefer o (first_latest rules)) (first_latest-insert_rule r sorted s)
            ∙ prefer_assoc (first_latest sorted) (offer r) (first_latest rules))

    first_latest-append :
        (rules : List PricingRule) (r : PricingRule)
        → first_latest (rules ++ r ∷ []) ≡ prefer (first_latest rules) (offer r)
    first_latest-append [] r = prefer-none (offer r)
    first_latest-append (x ∷ rules) r =
        ap (prefer (offer x)) (first_latest-append rules r)
        ∙ sym (prefer_assoc (offer x) (first_latest rules) (offer r))

  -- After the registration of a rule a request is priced by that rule, if it is for this provider and
  -- model and in force, and the rule that applied before is missing or has an earlier time; in every
  -- other case by the rule that applied before, if there was one. This holds in whatever order the
  -- rules have been registered.
  pub register_rule-resolve_rule :
      ⦃T : Trim⦄
      → (provider model : String) (at : ℕ) (rule : PricingRule) (rules : List PricingRule)
      → resolve_rule provider model at (register_rule rule rules)
        ≡ prefer (resolve_rule provider model at rules) (offer provider model at (normalized rule))
  unfolding register_rule
  register_rule-resolve_rule ⦃T⦄ provider model at rule rules =
      resolve_rule-first provider model at (register_rule rule rules)
      ∙ (first_latest-sort_rules provider model at [] (rules ++ normalized rule ∷ []) tt
          ∙ (first_latest-append provider model at rules (normalized rule)
              ∙ ap (λ o. prefer o (offer provider model at (normalized rule)))
                  (sym (resolve_rule-first provider model at rules))))
