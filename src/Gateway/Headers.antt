-- ===== src/Gateway/Headers.antt =====
-- interceptor/gateway.py: the headers that a response carries, the check of the headers that a
-- request brings, and the identifiers that are read from a request.
use ai_compute_intelligence.Prelude.{
  ℕ, ◌+◌, ltb, leb, Bool, true, not, ◌&&◌, ◌||◌, if◌then◌else◌, List, [], ◌∷◌, ◌++◌, String, str_eq,
  mem, concat, is_nonempty, is_nonempty_list, text_or, Option, none, some, length,
}
use ai_compute_intelligence.Prelude.Dict
use ai_compute_intelligence.Prelude.Dict.{Dict}
use ai_compute_intelligence.Floats.{Floats, lit, flt, show, fdiv, fmul}
use ai_compute_intelligence.Index.{AttributionIndexEntry}
use ai_compute_intelligence.Policy.{PolicyEvaluationResult}
use ai_compute_intelligence.Gateway.{
  PyText, InterceptorConfig, InterceptionRequest, FailOpenReason, reason_value,
}

module _ ⦃T : PyText⦄ where
  unfoldable pub build_fail_open_headers : FailOpenReason → Dict String
  build_fail_open_headers reason =
      ("X-ACI-Fail-Open", "true") ∷ ("X-ACI-Fail-Open-Reason", reason_value reason) ∷ []

  unfoldable pub map_attribution_reason : String → String
  map_attribution_reason method_used =
      let method = T.upper method_used in
      if T.starts_with method "R1"
      then "DIRECT_OWNER_MAPPING"
      else if T.starts_with method "R2"
      then "CI_PROVENANCE_MATCH"
      else if T.starts_with method "R3" || (T.starts_with method "R4" || T.starts_with method "R5")
      then "HEURISTIC_MATCH"
      else if T.starts_with method "R6"
      then "GATEWAY_INHERITANCE"
      else "UNKNOWN"

  unfoldable pub estimate_header_bytes : Dict String → ℕ
  estimate_header_bytes [] = 0
  estimate_header_bytes ((key, value) ∷ headers) =
      T.len key + T.len value + 4 + estimate_header_bytes headers

  unfoldable pub priority : List String
  priority =
      "X-ACI-Est-Cost-USD" ∷ "X-ACI-Attribution-Owner-Id" ∷ "X-ACI-Attribution-Confidence"
      ∷ "X-ACI-Attribution-Reason" ∷ "X-ACI-Price-Snapshot-Id" ∷ "X-ACI-Advisory"
      ∷ "X-ACI-Advisory-Code" ∷ "X-ACI-Advisory-Detail" ∷ "X-ACI-Confidence-Flag"
      ∷ "X-ACI-Policy-Violations" ∷ "X-ACI-Budget-Remaining-Pct" ∷ "X-ACI-Alternative-Models"
      ∷ "X-ACI-Intervention-Applied" ∷ "X-ACI-Intervention-Type" ∷ "X-ACI-Intervention-Delta"
      ∷ "X-ACI-Fail-Open" ∷ "X-ACI-Fail-Open-Reason" ∷ []

  -- `trimmed[key] = clamped[key]`, if the key is there
  unfoldable pub copy_header : String → Dict String → Dict String → Dict String
  copy_header key clamped trimmed = elim (Dict.lookup key clamped) [
    | none ↦ trimmed
    | some value ↦ Dict.insert key value trimmed
  ]

  -- the loop over `priority`
  unfoldable pub trim : ℕ → Dict String → List String → Dict String → Dict String
  trim max_bytes clamped [] trimmed = trimmed
  trim max_bytes clamped (key ∷ keys) trimmed =
      let next = copy_header key clamped trimmed in
      let rest = trim max_bytes clamped keys next in
      if ltb max_bytes (estimate_header_bytes next) then Dict.remove key next else rest

  unfoldable pub clamp : ℕ → Dict String → Dict String
  clamp n [] = []
  clamp n ((key, value) ∷ headers) = (key, T.prefix n value) ∷ clamp n headers

  module _ ⦃F : Floats⦄ where
    unfoldable pub enforce_header_budget : InterceptorConfig → Dict String → Dict String
    enforce_header_budget config headers =
        let clamped = clamp config.max_header_value_length headers in
        let max_bytes = config.max_enrichment_header_bytes in
        if leb (estimate_header_bytes clamped) max_bytes
        then clamped
        else Dict.insert "X-ACI-Header-Budget-Applied" "1" (trim max_bytes clamped priority [])

    -- `str(request.metadata.get("price_snapshot_id", "")).strip()`
    abbrev snapshot_header : InterceptionRequest → Dict String → Dict String
    snapshot_header request headers =
        let id = T.strip request.metadata.price_snapshot_id in
        if is_nonempty id then Dict.insert "X-ACI-Price-Snapshot-Id" id headers else headers

    abbrev confidence_headers : InterceptionRequest → AttributionIndexEntry → Dict String
    confidence_headers request attribution =
        ("X-ACI-Est-Cost-USD", show ".6f" request.estimated_cost_usd)
        ∷ ("X-ACI-Attribution-Confidence", show ".2f" attribution.confidence)
        ∷ []

    unfoldable pub build_basic_headers :
        InterceptorConfig
        → InterceptionRequest
        → AttributionIndexEntry
        → FailOpenReason
        → Dict String
    build_basic_headers config request attribution reason = enforce_header_budget config (
        snapshot_header request (confidence_headers request attribution)
        ++ build_fail_open_headers reason)

    -- the first violation of one of the policies named, by its details
    first_details : List String → List PolicyEvaluationResult → Option String
    first_details ids [] = none
    first_details ids (v ∷ violations) =
        let rest = first_details ids violations in
        if mem v.policy_id ids then some v.details else rest

    abbrev and_then : Option (String × String) → String × String → String × String
    and_then none advice = advice
    and_then (some advice) _ = advice

    abbrev advice_for : String → Option String → Option (String × String)
    advice_for code none = none
    advice_for code (some details) = some (code, T.prefix 200 details)

    unfoldable pub build_advisory :
        InterceptionRequest → AttributionIndexEntry → List PolicyEvaluationResult → String × String
    unfolding first_details
    build_advisory request attribution violations =
        let token =
          advice_for "SUGGEST_TOKEN_CAP"
            (first_details ("token_budget" ∷ "token_budget_input" ∷ []) violations) in
        let cost = advice_for "SUGGEST_COST_CAP" (first_details ("cost_ceiling" ∷ []) violations) in
        let others = and_then token (and_then cost ("", "")) in
        elim attribution.approved_alternatives [
          | [] ↦ others
          | alt ∷ alternatives ↦ if mem request.model (alt ∷ alternatives) then others else (
            "SUGGEST_MODEL_DOWNGRADE",
            T.prefix 200 (concat ("Equivalent lower-cost alternative available: " ∷ alt ∷ [])),
          )
        ]

    abbrev when : Bool → String → String → Dict String → Dict String
    when test key value headers = if test then Dict.insert key value headers else headers

    -- `pct` of the budget header; the limit counts as absent at 0
    budget_pct : AttributionIndexEntry → Option String
    budget_pct a = elim a.budget_remaining_usd [
      | none ↦ none
      | some remaining ↦ elim a.budget_limit_usd [
        | none ↦ none
        | some limit ↦
            if flt limit (lit 0 1) || flt (lit 0 1) limit
            then some (show ".0f" (fmul (fdiv remaining limit) (lit 100 1)))
            else none
      ]
    ]

    abbrev insert_some : String → Option String → Dict String → Dict String
    insert_some key none headers = headers
    insert_some key (some value) headers = Dict.insert key value headers

    abbrev flag_of : String → Option String
    flag_of tier =
        if str_eq tier "provisional"
        then some "PROVISIONAL"
        else if str_eq tier "estimated"
        then some "ESTIMATED"
        else none

    -- the dictionary of `_build_enrichment_headers`, before the budget is enforced
    unfoldable pub all_headers :
        InterceptionRequest → AttributionIndexEntry → List PolicyEvaluationResult → Dict String
    unfolding budget_pct build_advisory
    all_headers request a violations =
        let owner_id = text_or a.team_id (text_or a.person_id a.team_name) in
        let (code, detail) = build_advisory request a violations in
        let core =
          ("X-ACI-Est-Cost-USD", show ".6f" request.estimated_cost_usd)
          ∷ ("X-ACI-Attribution-Owner-Id", owner_id)
          ∷ ("X-ACI-Attribution-Confidence", show ".2f" a.confidence)
          ∷ ("X-ACI-Attribution-Reason", map_attribution_reason a.method_used)
          ∷ ("X-ACI-Model", request.model)
          ∷ ("X-ACI-Advisory", if is_nonempty code then "true" else "false")
          ∷ [] in
        let advised =
          when (is_nonempty code) "X-ACI-Advisory-Detail" detail
            (when (is_nonempty code) "X-ACI-Advisory-Code" code (snapshot_header request core)) in
        let named = when (is_nonempty a.team_name) "X-ACI-Team-Name" a.team_name advised in
        let budgeted = insert_some "X-ACI-Budget-Remaining-Pct" (budget_pct a) named in
        let routed =
          when (is_nonempty_list a.approved_alternatives) "X-ACI-Alternative-Models"
            (T.join "," a.approved_alternatives) budgeted in
        let flagged = insert_some "X-ACI-Confidence-Flag" (flag_of a.confidence_tier) routed in
        when (is_nonempty_list violations) "X-ACI-Policy-Violations" (T.decimal (length violations))
          flagged

    unfoldable pub build_enrichment_headers :
        InterceptorConfig
        → InterceptionRequest
        → AttributionIndexEntry
        → List PolicyEvaluationResult
        → Dict String
    build_enrichment_headers config request attribution violations =
        enforce_header_budget config (all_headers request attribution violations)

  -- the header that `_sanitize_request_headers` drops
  unfoldable pub is_suspicious : String → String → Bool
  is_suspicious key value =
      let header_name = T.lower key in
      let lower_value = T.lower value in
      let looks_sensitive =
        T.is_in "api-key" header_name
        || (T.is_in "authorization" header_name
            || (T.is_in "prompt" header_name
                || (T.is_in "token" header_name
                    || (T.is_in "bearer " lower_value
                        || (T.is_in "@" value && T.is_in "." value))))) in
      let looks_prompt_like = ltb 1024 (T.len value) && (T.is_in " " value || T.is_in "\n" value) in
      looks_sensitive || looks_prompt_like

  unfoldable pub sanitize_request_headers : Dict String → Dict String
  sanitize_request_headers [] = []
  sanitize_request_headers ((key, value) ∷ headers) =
      let rest = sanitize_request_headers headers in
      if is_suspicious key value then rest else (key, value) ∷ rest

  module _ ⦃F : Floats⦄ where
    first_nonempty : List String → String
    first_nonempty [] = ""
    first_nonempty (candidate ∷ candidates) =
        let rest = first_nonempty candidates in
        if is_nonempty (T.strip candidate) then T.strip candidate else rest

    unfoldable pub resolve_workload_id : InterceptionRequest → String
    unfolding first_nonempty
    resolve_workload_id request = first_nonempty (
        request.workload_id ∷ request.service_name ∷ request.api_key_id
        ∷ request.metadata.workload_id ∷ [])

    unfoldable pub resolve_tenant_id : InterceptionRequest → String
    resolve_tenant_id request = T.strip request.metadata.tenant_id

    unfoldable pub should_downgrade_active_to_advisory : InterceptionRequest → Bool
    should_downgrade_active_to_advisory request =
        let env = T.lower (T.strip request.metadata.environment) in
        let is_non_production =
          mem env ("dev" ∷ "development" ∷ "test" ∷ "testing" ∷ "staging" ∷ []) in
        let has_semantic_guardrail =
          str_eq (T.lower (T.strip request.metadata.response_format_type)) "json_object"
          || (request.metadata.tools_present || request.metadata.strict_json_schema) in
        if not is_non_production then true else has_semantic_guardrail
