-- ===== src/Gateway/Restraint.antt =====
-- interceptor/gateway.py: when `intercept` stops or redirects a request, and when it leaves it alone.
use ai_compute_intelligence.Prelude.{
  ◌+◌, ◌≡◌, refl, arith, Bool, true, false, String, none, some, Option-cases, Bool-cases, inl, inr,
  is_nonempty, some-injective, subst,
}
use ai_compute_intelligence.Floats.{Floats, flt, lit}
use ai_compute_intelligence.Breaker.{is_open}
use ai_compute_intelligence.Index.{AttributionIndexEntry}
use ai_compute_intelligence.Index.Store.{Redis}
use ai_compute_intelligence.Index.Store
use ai_compute_intelligence.Gateway.{
  PyText, DeploymentMode, passive, advisory, active, InterceptionOutcome, redirected, hard_stopped,
  InterceptionRequest, InterceptionResult, Setup, Moment, is_readable, Interceptor,
}
use ai_compute_intelligence.Gateway.Headers.{resolve_workload_id}
use ai_compute_intelligence.Gateway.Policies.{evaluate_policies}
use ai_compute_intelligence.Gateway.Routing.{
  reject, reroute, let_pass, has_violation, gated, alternative, downgraded, active_routing,
  route_active, route,
}
use ai_compute_intelligence.Gateway.Intercept.{
  Reply, policy_stage, timed, miss, hit, lookup_stage, out_of_time, is_policy_fault,
  is_lookup_fault, enter, intercept_inner, handle_exception, conclude, sanitized, intercept,
}

-- the outcomes that change what happens to the request
abbrev pub is_intervention : InterceptionOutcome → Bool
is_intervention redirected = true
is_intervention hard_stopped = true
is_intervention _ = false

module _ ⦃T : PyText⦄ ⦃F : Floats⦄ ⦃R : Redis⦄ (setup : Setup) (m : Moment)
    (request : InterceptionRequest) where
  -- Why a result may be what it is: it leaves the request alone, or ACTIVE mode is on and not
  -- downgraded for the attribution, and either a gating violation stops the request or an approved
  -- alternative takes its model's place.
  pub data Restraint (r : InterceptionResult) : Type 0 where
    leaves : is_intervention r.outcome ≡ false → r.redirect_model ≡ none → Restraint r
    stops :
        (a : AttributionIndexEntry)
        → setup.mode ≡ active
        → downgraded setup m request a ≡ false
        → gated setup m request a (evaluate_policies request a) ≡ true
        → r.attribution ≡ some a
        → r.outcome ≡ hard_stopped
        → r.redirect_model ≡ none
        → Restraint r
    redirects :
        (a : AttributionIndexEntry) (alt : String)
        → setup.mode ≡ active
        → downgraded setup m request a ≡ false
        → alternative setup m request a ≡ some alt
        → r.attribution ≡ some a
        → r.outcome ≡ redirected
        → r.redirect_model ≡ some alt
        → Restraint r

  abbrev RestraintReply : Reply → Type 0
  RestraintReply (s, some r) = Restraint r
  RestraintReply (s, none) = Unit

  route_active-Restraint :
      (a : AttributionIndexEntry) (s : Interceptor)
      → setup.mode ≡ active
      → downgraded setup m request a ≡ false
      → Restraint (route_active setup m request a (evaluate_policies request a) s).1
  unfolding route_active active_routing reject reroute let_pass
  route_active-Restraint a s on up =
      let vs = evaluate_policies request a in
      elim (Bool-cases (gated setup m request a vs)) [
        | inl stop ↦ rw (stop, route_active, active_routing) (stops a on up stop refl refl refl)
        | inr go ↦ elim (Option-cases (alternative setup m request a)) [
          | inl stay ↦ elim (Bool-cases (has_violation vs)) [
            | inl bad ↦ rw (go, stay, bad, route_active, active_routing) (leaves refl refl)
            | inr good ↦ rw (go, stay, good, route_active, active_routing) (leaves refl refl)
          ]
          | inr (alt, leave) ↦
              rw (go, leave, route_active, active_routing)
                (redirects a alt on up leave refl refl refl)
        ]
      ]

  route-Restraint :
      (mode : DeploymentMode) (a : AttributionIndexEntry) (s : Interceptor)
      → setup.mode ≡ mode
      → Restraint (route setup m request mode a (evaluate_policies request a) s).1
  unfolding route
  route-Restraint passive a s e = leaves refl refl
  route-Restraint advisory a s e = elim (Bool-cases (has_violation (evaluate_policies request a))) [
    | inl bad ↦ rw (bad, route) (leaves refl refl)
    | inr good ↦ rw (good, route) (leaves refl refl)
  ]
  route-Restraint active a s e = elim (Bool-cases (downgraded setup m request a)) [
    | inl down ↦ elim (Bool-cases (has_violation (evaluate_policies request a))) [
      | inl bad ↦ rw (down, bad, route) (leaves refl refl)
      | inr good ↦ rw (down, good, route) (leaves refl refl)
    ]
    | inr up ↦ rw (up, route) (route_active-Restraint a s e up)
  ]

  hit-Restraint :
      (k : String) (a : AttributionIndexEntry) (s : Interceptor)
      → RestraintReply (hit setup m request k a s)
  unfolding hit timed policy_stage
  hit-Restraint k a s = elim (Bool-cases (out_of_time setup m request)) [
    | inl late ↦ rw (late, hit) (leaves refl refl)
    | inr ontime ↦ elim (Bool-cases (is_policy_fault m.fault)) [
      | inl raised ↦ rw (ontime, raised, hit) tt
      | inr fine ↦
          elim (Bool-cases (flt (lit setup.config.policy_timeout_ms 1) m.policy_elapsed_ms)) [
            | inl slow ↦ rw (ontime, fine, slow, hit, policy_stage) (leaves refl refl)
            | inr quick ↦
                rw (ontime, fine, quick, hit, policy_stage) (route-Restraint setup.mode a _ refl)
          ]
    ]
  ]

  lookup_stage-Restraint : (s : Interceptor) → RestraintReply (lookup_stage setup m request s)
  unfolding lookup_stage miss
  lookup_stage-Restraint s =
      let k = resolve_workload_id request in
      elim (Bool-cases (is_nonempty k)) [
        | inr empty ↦ rw (empty, lookup_stage) (leaves refl refl)
        | inl named ↦ elim (Bool-cases (is_lookup_fault m.fault)) [
          | inl raised ↦ rw (named, raised, lookup_stage) tt
          | inr fine ↦ elim (Option-cases (Store.lookup k s.index).1) [
            | inl absent ↦ rw (named, fine, absent, lookup_stage) (leaves refl refl)
            | inr (a, found) ↦ rw (named, fine, found, lookup_stage) (hit-Restraint k a _)
          ]
        ]
      ]

  enter-Restraint :
      (readable : Bool) (s t : Interceptor) (opened : Bool)
      → RestraintReply (enter setup m request readable s (t, opened))
  unfolding enter
  enter-Restraint false s t opened = tt
  enter-Restraint true s t true = leaves refl refl
  enter-Restraint true s t false = lookup_stage-Restraint t

  conclude-Restraint :
      (reply : Reply) (r : InterceptionResult)
      → RestraintReply reply
      → (conclude setup m request reply).1 ≡ some r
      → Restraint r
  unfolding conclude handle_exception
  conclude-Restraint (s, some r') r c e = subst Restraint (some-injective r' r e) c
  conclude-Restraint (s, none) r c e = leaves (ground arith) (ground arith)

module _ ⦃T : PyText⦄ ⦃F : Floats⦄ ⦃R : Redis⦄ where
  -- A request is stopped or redirected only in ACTIVE mode, by an attribution of enough confidence,
  -- in a non-production environment and with no semantic guardrail (`downgraded`), and then only by
  -- a violation that gates or to an approved alternative of its model; in every other case no model
  -- is put in its place and the outcome is none of the two.
  pub intercept-Restraint :
      (setup : Setup) (m : Moment) (request : InterceptionRequest) (s : Interceptor)
      (r : InterceptionResult)
      → (intercept setup m request s).1 ≡ some r
      → Restraint setup m (sanitized request) r
  unfolding intercept intercept_inner
  intercept-Restraint setup m request s r e =
      let begun = record s { total_requests = s.total_requests + 1 } in
      let polled = is_open setup.breaker_config m.poll_now s.circuit_breaker in
      conclude-Restraint setup m (sanitized request)
        (intercept_inner setup m (sanitized request) begun) r
        (enter-Restraint setup m (sanitized request) (is_readable m.circuit_poll) begun
          (record begun { circuit_breaker = polled.0 }) polled.1)
        e
