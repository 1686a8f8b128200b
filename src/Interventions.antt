-- ===== src/Interventions.antt =====
-- interventions/registry.py: the life cycle of recommendations. Times are numbers.
pub mod Counts
pub mod Lifecycle
mod Tests
use ai_compute_intelligence.Prelude.{
  ℕ, ◌+◌, Bool, true, false, ◌||◌, if◌then◌else◌, List, [], ◌∷◌, String, str_eq, mem, Option, none,
  some, length, keep, map,
}
use ai_compute_intelligence.Prelude.Dict
use ai_compute_intelligence.Prelude.Dict.{Dict}
use ai_compute_intelligence.Floats.{Floats, Float, lit, flt, fadd}

-- The values of `InterventionStatus`; a status is checked at run time only, so it is a text.
unfoldable pub allowed_status : List String
allowed_status = "recommended" ∷ "review" ∷ "approved" ∷ "implemented" ∷ "dismissed" ∷ []

-- false is the `ValueError`
unfoldable pub validate_status : String → Bool
validate_status status = mem status allowed_status

module _ ⦃F : Floats⦄ where
  pub record InterventionRecord : Type 0 where
    pub intervention_id : String
    pub title : String
    pub intervention_type : String
    pub team : String
    pub detail : String
    pub savings_usd_month : Float
    pub confidence_pct : Float
    pub risk : String
    pub equivalence_mode : String
    pub equivalence_status : String
    pub category : String
    pub threshold_condition : String
    pub rule_condition : String
    pub status : String
    pub updated_at : ℕ
    pub updated_by : String
    pub update_note : String

  -- the records of an `InterventionRegistry`
  abbrev pub Registry : Type 0
  Registry = Dict InterventionRecord

  unfoldable pub new_registry : List InterventionRecord → Registry → Registry
  new_registry [] records = records
  new_registry (r ∷ interventions) records =
      new_registry interventions (Dict.insert r.intervention_id r records)

  abbrev pub values : Registry → List InterventionRecord
  values [] = []
  values ((_, r) ∷ records) = r ∷ values records

  -- `sorted(..., reverse=True)`: stable, highest savings first
  unfoldable pub rank : InterventionRecord → List InterventionRecord → List InterventionRecord
  rank r [] = r ∷ []
  rank r (s ∷ ranked) =
      let rest = rank r ranked in
      if flt s.savings_usd_month r.savings_usd_month then r ∷ s ∷ ranked else s ∷ rest

  unfoldable pub rank_all :
      List InterventionRecord → List InterventionRecord → List InterventionRecord
  rank_all ranked [] = ranked
  rank_all ranked (r ∷ records) = rank_all (rank r ranked) records

  -- `none` is the `ValueError` of an unknown status
  unfoldable pub list_records : Option String → Registry → Option (List InterventionRecord)
  list_records none records = some (rank_all [] (values records))
  list_records (some status) records =
      if validate_status status
      then some (rank_all [] (keep (λ r. str_eq r.status status) (values records)))
      else none

  pub record InterventionSummary : Type 0 where
    pub total_count : ℕ
    pub recommended_count : ℕ
    pub review_count : ℕ
    pub approved_count : ℕ
    pub implemented_count : ℕ
    pub dismissed_count : ℕ
    pub total_potential_usd : Float
    pub captured_savings_usd : Float
    pub open_potential_usd : Float

  unfoldable pub count_status : String → List InterventionRecord → ℕ
  count_status status [] = 0
  count_status status (r ∷ records) =
      let rest = count_status status records in if str_eq r.status status then 1 + rest else rest

  unfoldable pub sum_savings : Float → List InterventionRecord → Float
  sum_savings total [] = total
  sum_savings total (r ∷ records) = sum_savings (fadd total r.savings_usd_month) records

  unfoldable pub summary : Registry → InterventionSummary
  summary registry =
      let records = rank_all [] (values registry) in
      let captured =
        keep (λ r. str_eq r.status "approved" || str_eq r.status "implemented") records in
      let pending = keep (λ r. str_eq r.status "recommended" || str_eq r.status "review") records in
      record {
        total_count = length records;
        recommended_count = count_status "recommended" records;
        review_count = count_status "review" records;
        approved_count = count_status "approved" records;
        implemented_count = count_status "implemented" records;
        dismissed_count = count_status "dismissed" records;
        total_potential_usd = sum_savings (lit 0 1) records;
        captured_savings_usd = sum_savings (lit 0 1) captured;
        open_potential_usd = sum_savings (lit 0 1) pending;
      }

  -- the errors of `transition`
  pub data Refusal : Type 0 where
    invalid_status unknown_intervention : Refusal

  pub data Outcome : Type 0 where
    refused : Refusal → Outcome
    moved : InterventionRecord → Outcome

  abbrev pub moved_record : String → String → String → ℕ → InterventionRecord → InterventionRecord
  moved_record next_status actor note now r = record r {
    status = next_status;
    updated_at = now;
    updated_by = actor;
    update_note = note;
  }

  unfoldable pub transition : String → String → String → String → ℕ → Registry → Registry × Outcome
  transition intervention_id next_status actor note now registry =
      let found = Dict.lookup intervention_id registry in
      if validate_status next_status
      then elim found [
        | none ↦ (registry, refused unknown_intervention)
        | some r ↦ (
          Dict.insert intervention_id (moved_record next_status actor note now r) registry,
          moved (moved_record next_status actor note now r),
        )
      ]
      else (registry, refused invalid_status)
