-- ===== src/Interventions/Counts.antt =====
-- interventions/registry.py: what the ranking and the statuses of records mean for counts.
use ai_compute_intelligence.Prelude.{
  ℕ, ◌+◌, ◌≡◌, refl, subst, arith, true, if◌then◌else◌, List, [], ◌∷◌, String, str_eq, mem, length,
  Bool-cases, inl, inr, eq_iff,
}
use ai_compute_intelligence.Floats.{Floats}
use ai_compute_intelligence.Interventions.{
  InterventionRecord, Registry, allowed_status, validate_status, values, rank, rank_all,
  count_status,
}

module _ ⦃F : Floats⦄ where
  abbrev pub AllAllowed : Registry → Type 0
  AllAllowed [] = Unit
  AllAllowed ((_, r) ∷ registry) = (validate_status r.status ≡ true) × AllAllowed registry

  count_status-rank :
      (status : String) (r : InterventionRecord) (ranked : List InterventionRecord)
      → count_status status (rank r ranked) ≡ count_status status (r ∷ ranked)
  unfolding count_status rank
  count_status-rank status r [] = refl
  count_status-rank status r (s ∷ ranked) = ground (arith, count_status-rank status r ranked)

  pub count_status-rank_all :
      (status : String) (ranked records : List InterventionRecord)
      → count_status status (rank_all ranked records)
        ≡ count_status status ranked + count_status status records
  unfolding count_status rank_all
  count_status-rank_all status ranked [] = omega arith
  count_status-rank_all status ranked (r ∷ records) = ground (
    arith,
    count_status-rank_all status (rank r ranked) records,
    count_status-rank status r ranked,
  )

  length-rank :
      (r : InterventionRecord) (ranked : List InterventionRecord)
      → length (rank r ranked) ≡ length ranked + 1
  unfolding rank
  length-rank r [] = refl
  length-rank r (s ∷ ranked) = ground (arith, length-rank r ranked)

  pub length-rank_all :
      (ranked records : List InterventionRecord)
      → length (rank_all ranked records) ≡ length ranked + length records
  unfolding rank_all
  length-rank_all ranked [] = omega arith
  length-rank_all ranked (r ∷ records) =
      omega (arith, length-rank_all (rank r ranked) records, length-rank r ranked)

  pub length-values : (registry : Registry) → length (values registry) ≡ length registry
  length-values [] = refl
  length-values (_ ∷ registry) = omega (arith, length-values registry)

  -- how many records have one of the five statuses
  abbrev pub in_some_status : List InterventionRecord → ℕ
  in_some_status records =
      count_status "recommended" records
      + count_status "review" records
      + count_status "approved" records
      + count_status "implemented" records
      + count_status "dismissed" records

  abbrev hit : String → String → ℕ
  hit s status = if str_eq s status then 1 else 0

  abbrev hits : String → ℕ
  hits s =
      hit s "recommended"
      + hit s "review"
      + hit s "approved"
      + hit s "implemented"
      + hit s "dismissed"

  -- a status that equals one of the five texts
  hits-known : (s status : String) → hits status ≡ 1 → str_eq status s ≡ true → hits s ≡ 1
  hits-known s status one same = subst (λ t. hits t ≡ 1) ((eq_iff status s).0 same) one

  hits-allowed : (s : String) → validate_status s ≡ true → hits s ≡ 1
  unfolding validate_status allowed_status mem
  hits-allowed s v = elim (Bool-cases (str_eq "recommended" s)) [
    | inl h ↦ hits-known s "recommended" refl h
    | inr h1 ↦ elim (Bool-cases (str_eq "review" s)) [
      | inl h ↦ hits-known s "review" refl h
      | inr h2 ↦ elim (Bool-cases (str_eq "approved" s)) [
        | inl h ↦ hits-known s "approved" refl h
        | inr h3 ↦ elim (Bool-cases (str_eq "implemented" s)) [
          | inl h ↦ hits-known s "implemented" refl h
          | inr h4 ↦ hits-known s "dismissed" refl (ground arith)
        ]
      ]
    ]
  ]

  pub in_some_status-values :
      (registry : Registry)
      → AllAllowed registry
      → in_some_status (values registry) ≡ length registry
  unfolding count_status validate_status allowed_status mem
  in_some_status-values [] a = refl
  in_some_status-values ((_, r) ∷ registry) a =
      ground (arith, hits-allowed r.status a.0, in_some_status-values registry a.1)
