-- ===== src/Gateway/HeaderBudget.antt =====
-- interceptor/gateway.py, `_enforce_header_budget`: how large the headers can be.
use ai_compute_intelligence.Prelude.{
  ℕ, ◌+◌, ◌≤◌, ◌<◌, ◌≡◌, ◌⊎◌, refl, arith, ltb, leb, leb→le, List, [], ◌∷◌, String, some,
  Bool-cases, inl, inr, eq_iff, eq_refl, Option-cases,
}
use ai_compute_intelligence.Prelude.Dict.{Dict, lookup, insert, remove, lookup-insert_self}
use ai_compute_intelligence.Floats.{Floats}
use ai_compute_intelligence.Gateway.{PyText, InterceptorConfig}
use ai_compute_intelligence.Gateway.Headers.{
  estimate_header_bytes, copy_header, trim, clamp, enforce_header_budget, priority,
}

module _ ⦃T : PyText⦄ where
  -- `s[:n]` has at most n characters.
  abbrev pub Clips : Type 0
  Clips = (n : ℕ) (s : String) → T.len (T.prefix n s) ≤ n

  -- no value longer than `n`
  abbrev pub ShortValues : ℕ → Dict String → Type 0
  ShortValues n [] = Unit
  ShortValues n ((_, value) ∷ headers) = (T.len value ≤ n) × ShortValues n headers

  bytes-insert-le :
      (key value : String) (headers : Dict String)
      → estimate_header_bytes (insert key value headers)
        ≤ estimate_header_bytes headers + (T.len key + T.len value + 4)
  unfolding estimate_header_bytes insert
  bytes-insert-le key value [] = omega arith
  bytes-insert-le key value ((k, v) ∷ headers) =
      ground (arith, eq_iff k key, bytes-insert-le key value headers)

  bytes-remove-le :
      (key : String) (headers : Dict String)
      → estimate_header_bytes (remove key headers) ≤ estimate_header_bytes headers
  unfolding estimate_header_bytes remove
  bytes-remove-le key [] = omega arith
  bytes-remove-le key ((k, v) ∷ headers) = ground (arith, bytes-remove-le key headers)

  bytes-remove-insert-le :
      (key value : String) (headers : Dict String)
      → estimate_header_bytes (remove key (insert key value headers))
        ≤ estimate_header_bytes headers
  unfolding estimate_header_bytes insert remove
  bytes-remove-insert-le key value [] = ground (arith, eq_refl key)
  bytes-remove-insert-le key value ((k, v) ∷ headers) =
      ground (arith, bytes-remove-le key headers, bytes-remove-insert-le key value headers)

  bytes-remove_copy-le :
      (key : String) (clamped trimmed : Dict String)
      → estimate_header_bytes (remove key (copy_header key clamped trimmed))
        ≤ estimate_header_bytes trimmed
  unfolding copy_header
  bytes-remove_copy-le key clamped trimmed = elim (Option-cases (lookup key clamped)) [
    | inl absent ↦ rw (absent, copy_header) (bytes-remove-le key trimmed)
    | inr (value, there) ↦ rw (there, copy_header) (bytes-remove-insert-le key value trimmed)
  ]

  bytes-trim-le :
      (max_bytes : ℕ) (clamped : Dict String) (keys : List String) (trimmed : Dict String)
      → estimate_header_bytes trimmed ≤ max_bytes
      → estimate_header_bytes (trim max_bytes clamped keys trimmed) ≤ max_bytes
  unfolding trim
  bytes-trim-le max_bytes clamped [] trimmed h = h
  bytes-trim-le max_bytes clamped (key ∷ keys) trimmed h = ground (
    arith,
    bytes-remove_copy-le key clamped trimmed,
    bytes-trim-le max_bytes clamped keys (copy_header key clamped trimmed),
  )

  ShortValues-clamp : (n : ℕ) (headers : Dict String) → Clips → ShortValues n (clamp n headers)
  unfolding clamp
  ShortValues-clamp n [] c = tt
  ShortValues-clamp n ((k, v) ∷ headers) c = (c n v, ShortValues-clamp n headers c)

  ShortValues-insert :
      (n : ℕ) (key value : String) (headers : Dict String)
      → T.len value ≤ n
      → ShortValues n headers
      → ShortValues n (insert key value headers)
  unfolding insert
  ShortValues-insert n key value [] h s = (h, tt)
  ShortValues-insert n key value ((k, v) ∷ headers) h s =
      ground (arith, ShortValues-insert n key value headers h s.1)

  ShortValues-remove :
      (n : ℕ) (key : String) (headers : Dict String)
      → ShortValues n headers
      → ShortValues n (remove key headers)
  unfolding remove
  ShortValues-remove n key [] s = tt
  ShortValues-remove n key ((k, v) ∷ headers) s =
      ground (arith, ShortValues-remove n key headers s.1)

  len-lookup-le :
      (n : ℕ) (key : String) (headers : Dict String) {value : String}
      → ShortValues n headers
      → lookup key headers ≡ some value
      → T.len value ≤ n
  unfolding lookup
  len-lookup-le n key [] {value} s h = cc
  len-lookup-le n key ((k, v) ∷ headers) {value} s h =
      ground (arith, len-lookup-le n key headers {value = value} s.1)

  ShortValues-copy :
      (n : ℕ) (key : String) (clamped trimmed : Dict String)
      → ShortValues n clamped
      → ShortValues n trimmed
      → ShortValues n (copy_header key clamped trimmed)
  unfolding copy_header
  ShortValues-copy n key clamped trimmed c s = elim (Option-cases (lookup key clamped)) [
    | inl absent ↦ rw (absent, copy_header) s
    | inr (value, there) ↦
        rw (there, copy_header)
          (ShortValues-insert n key value trimmed (len-lookup-le n key clamped c there) s)
  ]

  bytes-nil : {max_bytes : ℕ} → estimate_header_bytes [] ≤ max_bytes
  unfolding estimate_header_bytes
  bytes-nil = omega arith

  ShortValues-trim :
      (n max_bytes : ℕ) (clamped : Dict String) (keys : List String) (trimmed : Dict String)
      → ShortValues n clamped
      → ShortValues n trimmed
      → ShortValues n (trim max_bytes clamped keys trimmed)
  unfolding trim
  ShortValues-trim n max_bytes clamped [] trimmed c s = s
  ShortValues-trim n max_bytes clamped (key ∷ keys) trimmed c s =
      let next = copy_header key clamped trimmed in
      let short : ShortValues n next = ShortValues-copy n key clamped trimmed c s in
      elim (Bool-cases (ltb max_bytes (estimate_header_bytes next))) [
        | inl over ↦ rw (over, trim) (ShortValues-remove n key next short)
        | inr under ↦ rw (under, trim) (ShortValues-trim n max_bytes clamped keys next c short)
      ]

  module _ ⦃F : Floats⦄ where
    abbrev pub marker : String
    marker = "X-ACI-Header-Budget-Applied"

    -- the headers as they are, with their values cut off, or those that are kept and the marker
    abbrev pub WithinBudget : InterceptorConfig → Dict String → Dict String → Type 0
    WithinBudget config headers enforced =
        ((enforced ≡ clamp config.max_header_value_length headers)
          × (estimate_header_bytes enforced ≤ config.max_enrichment_header_bytes))
        ⊎ ((config.max_enrichment_header_bytes
              < estimate_header_bytes (clamp config.max_header_value_length headers))
            × (lookup marker enforced ≡ some "1")
            × (estimate_header_bytes enforced
                ≤ config.max_enrichment_header_bytes + (T.len marker + T.len "1" + 4)))

    -- What `_enforce_header_budget` returns, for every dictionary of headers: all headers, with their
    -- values cut off, and these fit the byte budget; or these do not fit it, the marker is set, and
    -- the result exceeds the budget by the marker at most. In both cases no value is longer than the
    -- limit. A prefix of n characters must have at most n, and the marker's value must fit the limit.
    pub enforce_header_budget-bounds :
        (config : InterceptorConfig) (headers : Dict String)
        → Clips
        → T.len "1" ≤ config.max_header_value_length
        → WithinBudget config headers (enforce_header_budget config headers)
          × ShortValues config.max_header_value_length (enforce_header_budget config headers)
    unfolding enforce_header_budget
    enforce_header_budget-bounds config headers clips one =
        let n = config.max_header_value_length in
        let max_bytes = config.max_enrichment_header_bytes in
        let clamped = clamp n headers in
        let trimmed = trim max_bytes clamped priority [] in
        let short = ShortValues-clamp n headers clips in
        elim (Bool-cases (leb (estimate_header_bytes clamped) max_bytes)) [
          | inl fits ↦ rw (fits, enforce_header_budget) (inl (refl, leb→le _ _ fits), short)
          | inr over ↦
              rw (over, enforce_header_budget)
                (
                  inr (
                    ground (arith, over),
                    lookup-insert_self marker "1" trimmed,
                    omega (
                      arith,
                      bytes-insert-le marker "1" trimmed,
                      bytes-trim-le max_bytes clamped priority [] bytes-nil,
                    ),
                  ),
                  ShortValues-insert n marker "1" trimmed one
                      (ShortValues-trim n max_bytes clamped priority [] short tt),
                )
        ]
