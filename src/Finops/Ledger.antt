-- ===== src/Finops/Ledger.antt =====
-- finops/reconciliation.py: the ledger against an abstract account of each request.
use ai_compute_intelligence.Prelude.{
  ℕ, ◌≡◌, refl, ap, ◌∙◌, arith, if◌then◌else◌, List, [], ◌∷◌, String, str_eq, Option, none, some,
  Option-cases, inl, inr, eq_iff,
}
use ai_compute_intelligence.Prelude.Dict.{lookup, lookup-insert}
use ai_compute_intelligence.Floats.{Floats, Float}
use ai_compute_intelligence.Finops.{
  Trim, CostRecord, Ledger, Estimate, first_record, re_estimated, settled, upsert_synthetic,
  reconcile,
}

module _ ⦃F : Floats⦄ where
  pub data Call : Type 0 where
    estimates : Estimate → Call
    settles : String → Float → String → ℕ → Call
    clears : Call

  -- What a client may know of one request: its estimate, and its settled cost, if there is one.
  abbrev pub Account : Type 0
  Account = Option (Float × Option Float)

  abbrev pub account_of : Option CostRecord → Account
  account_of none = none
  account_of (some r) = some (r.synthetic_cost_usd, r.reconciled_cost_usd)

  abbrev pub estimated : Float → Account → Account
  estimated cost none = some (cost, none)
  estimated cost (some (_, paid)) = some (cost, paid)

  abbrev pub paid : Float → Account → Account
  paid cost none = none
  paid cost (some (synthetic, _)) = some (synthetic, some cost)

  -- the account of one request after calls
  abbrev pub account_after : String → List Call → Account → Account
  account_after k [] a = a
  account_after k (estimates e ∷ calls) a =
      account_after k calls (if str_eq e.request_id k then estimated e.synthetic_cost_usd a else a)
  account_after k (settles request_id cost source recorded_at ∷ calls) a =
      account_after k calls (if str_eq request_id k then paid cost a else a)
  account_after k (clears ∷ calls) a = account_after k calls none

  module _ ⦃T : Trim⦄ where
    unfoldable pub apply_all : List Call → Ledger → Ledger
    apply_all [] ledger = ledger
    apply_all (estimates e ∷ calls) ledger = apply_all calls (upsert_synthetic e ledger)
    apply_all (settles request_id cost source recorded_at ∷ calls) ledger =
        apply_all calls (reconcile request_id cost source recorded_at ledger).0
    apply_all (clears ∷ calls) ledger = apply_all calls []

    upsert_synthetic-account :
        (e : Estimate) (k : String) (ledger : Ledger)
        → account_of (lookup k (upsert_synthetic e ledger)) ≡ (
            if str_eq e.request_id k
            then estimated e.synthetic_cost_usd (account_of (lookup k ledger))
            else account_of (lookup k ledger))
    unfolding upsert_synthetic
    upsert_synthetic-account e k ledger = elim (Option-cases (lookup e.request_id ledger)) [
      | inl absent ↦ ground (
        arith,
        absent,
        lookup-insert e.request_id k (first_record e) ledger,
        eq_iff e.request_id k,
      )
      | inr (current, found) ↦ ground (
        arith,
        found,
        lookup-insert e.request_id k (re_estimated e current) ledger,
        eq_iff e.request_id k,
      )
    ]

    reconcile-account :
        (request_id : String) (cost : Float) (source : String) (recorded_at : ℕ) (k : String)
        (ledger : Ledger)
        → account_of (lookup k (reconcile request_id cost source recorded_at ledger).0) ≡ (
            if str_eq request_id k
            then paid cost (account_of (lookup k ledger))
            else account_of (lookup k ledger))
    unfolding reconcile
    reconcile-account request_id cost source recorded_at k ledger =
        elim (Option-cases (lookup request_id ledger)) [
          | inl absent ↦ ground (arith, absent, eq_iff request_id k)
          | inr (r, found) ↦ ground (
            arith,
            found,
            lookup-insert request_id k (settled cost source recorded_at r) ledger,
            eq_iff request_id k,
          )
        ]

    -- The ledger keeps for every request what its own calls say, in any sequence of estimates,
    -- settlements and clears: the last estimate, and the last settlement that came after an
    -- estimate, which a later estimate does not touch.
    pub apply_all-account :
        (calls : List Call) (k : String) (ledger : Ledger)
        → account_of (lookup k (apply_all calls ledger))
          ≡ account_after k calls (account_of (lookup k ledger))
    unfolding apply_all lookup
    apply_all-account [] k ledger = refl
    apply_all-account (estimates e ∷ calls) k ledger =
        apply_all-account calls k (upsert_synthetic e ledger)
        ∙ ap (account_after k calls) (upsert_synthetic-account e k ledger)
    apply_all-account (settles request_id cost source recorded_at ∷ calls) k ledger =
        apply_all-account calls k (reconcile request_id cost source recorded_at ledger).0
        ∙ ap (account_after k calls) (reconcile-account request_id cost source recorded_at k ledger)
    apply_all-account (clears ∷ calls) k ledger = apply_all-account calls k []
