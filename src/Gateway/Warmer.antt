-- ===== src/Gateway/Warmer.antt =====
-- interceptor/shadow_warming.py: `ShadowWarmer`. A refresh awaits its function between
-- `begin_refresh` and `end_refresh`, where other tasks run.
use ai_compute_intelligence.Prelude.{
  ℕ, zero, suc, ◌+◌, ◌-◌, ◌≤◌, ◌≡◌, refl, ap, ◌∙◌, arith, ltb, Bool, true, false, if◌then◌else◌,
  List, [], ◌∷◌, ◌++◌, String, str_eq, mem, Option, none, some, length, eq_iff, Bool-cases, inl,
  inr,
}
use ai_compute_intelligence.Prelude.Dict
use ai_compute_intelligence.Prelude.Dict.{Dict}
use ai_compute_intelligence.Floats.{Floats, Float, lit, flt, fsub}
use ai_compute_intelligence.Gateway.{InterceptorConfig, ShadowWarmer}

module _ ⦃F : Floats⦄ where
  unfoldable pub should_trigger_refresh :
      InterceptorConfig → Float → Float → String → ShadowWarmer → ShadowWarmer × Bool
  should_trigger_refresh config now random workload_id w =
      let suppressed = record w { suppressed_count = w.suppressed_count + 1 } in
      let last = Dict.get_or workload_id (lit 0 1) w.last_refresh in
      if mem workload_id w.in_progress
      then (suppressed, false)
      else if flt (fsub now last) w.min_refresh_interval_s
      then (suppressed, false)
      else (w, flt random config.shadow_warm_probability)

  -- The `while` loop of `_record_refresh_locked`; one round for each entry over the limit is enough.
  unfoldable pub forget_oldest : ℕ → ℕ → Dict Float → Dict Float
  forget_oldest zero max_entries m = m
  forget_oldest (suc rounds) max_entries [] = []
  forget_oldest (suc rounds) max_entries (e ∷ m) =
      let rest = forget_oldest rounds max_entries m in
      if ltb max_entries (length (e ∷ m)) then rest else e ∷ m

  unfoldable pub record_refresh : InterceptorConfig → String → Float → Dict Float → Dict Float
  record_refresh config workload_id refreshed_at m =
      let moved = Dict.remove workload_id m ++ (workload_id, refreshed_at) ∷ [] in
      let max_entries = config.shadow_warm_max_tracked_workloads in
      forget_oldest (length moved - max_entries) max_entries moved

  -- `in_progress.discard(workload_id)`
  unfoldable pub discard : String → List String → List String
  discard workload_id [] = []
  discard workload_id (x ∷ xs) =
      let rest = discard workload_id xs in if str_eq x workload_id then rest else x ∷ rest

  -- the locked section at the start of `trigger_refresh`: whether the refresh goes ahead
  unfoldable pub begin_refresh : String → ShadowWarmer → ShadowWarmer × Bool
  begin_refresh workload_id w =
      if mem workload_id w.in_progress
      then (w, false)
      else (record w { in_progress = workload_id ∷ w.in_progress }, true)

  -- The rest of `trigger_refresh`, once the refresh function has returned at a time, or raised.
  unfoldable pub end_refresh :
      InterceptorConfig → String → Option Float → ShadowWarmer → ShadowWarmer × Bool
  end_refresh config workload_id none w =
      (record w { in_progress = discard workload_id w.in_progress }, false)
  end_refresh config workload_id (some refreshed_at) w = (
    record w {
      last_refresh = record_refresh config workload_id refreshed_at w.last_refresh;
      refresh_count = w.refresh_count + 1;
      in_progress = discard workload_id w.in_progress;
    },
    true,
  )

  -- no workload twice
  abbrev pub Single : List String → Type 0
  Single [] = Unit
  Single (x ∷ xs) = (mem x xs ≡ false) × Single xs

  -- the warmer, and the workloads whose refresh function is awaited, once for each call that does
  pub record Warming : Type 0 where
    pub warmer : ShadowWarmer
    pub running : List String

  -- A step of some task: `trigger_refresh` is called, or a refresh function that it awaits returns at
  -- a time, or raises.
  pub data Step : Type 0 where
    begins : String → Step
    ends : String → Option Float → Step

  -- one of the calls that await is over
  unfoldable pub stop : String → List String → List String
  stop workload_id [] = []
  stop workload_id (x ∷ xs) =
      let rest = stop workload_id xs in if str_eq x workload_id then xs else x ∷ rest

  -- a call that goes ahead awaits its function
  await_if : Bool → String → List String → List String
  await_if ahead workload_id running = if ahead then workload_id ∷ running else running

  -- A refresh that is not running cannot end.
  unfoldable pub step : InterceptorConfig → Step → Warming → Warming
  unfolding begin_refresh end_refresh await_if
  step config (begins k) s =
      let (w, ahead) = begin_refresh k s.warmer in
      record { warmer = w; running = await_if ahead k s.running }
  step config (ends k at) s =
      if mem k s.running
      then record { warmer = (end_refresh config k at s.warmer).0; running = stop k s.running }
      else s

  unfoldable pub run : InterceptorConfig → List Step → Warming → Warming
  run config [] s = s
  run config (x ∷ steps) s = run config steps (step config x s)

  pub record IsValid (config : InterceptorConfig) (s : Warming) : Type 0 where
    pub marked : s.warmer.in_progress ≡ s.running
    pub single : Single s.running
    pub tracked : length s.warmer.last_refresh ≤ config.shadow_warm_max_tracked_workloads

  forget_oldest-bounded :
      (n max_entries : ℕ) (m : Dict Float)
      → length m ≤ n + max_entries
      → length (forget_oldest n max_entries m) ≤ max_entries
  unfolding forget_oldest
  forget_oldest-bounded zero max_entries m h = omega arith
  forget_oldest-bounded (suc n) max_entries [] h = omega arith
  forget_oldest-bounded (suc n) max_entries (e ∷ m) h =
      ground (arith, forget_oldest-bounded n max_entries m)

  record_refresh-bounded :
      (config : InterceptorConfig) (k : String) (at : Float) (m : Dict Float)
      → length (record_refresh config k at m) ≤ config.shadow_warm_max_tracked_workloads
  unfolding record_refresh
  record_refresh-bounded config k at m = forget_oldest-bounded _ _ _ (omega arith)

  discard_absent : (k : String) (xs : List String) → mem k xs ≡ false → discard k xs ≡ xs
  unfolding mem discard
  discard_absent k [] h = refl
  discard_absent k (x ∷ xs) h = ground (arith, discard_absent k xs)

  discard-Single : (k : String) (xs : List String) → Single xs → discard k xs ≡ stop k xs
  unfolding discard stop
  discard-Single k [] s = refl
  discard-Single k (x ∷ xs) s =
      ground (arith, eq_iff x k, discard_absent k xs, discard-Single k xs s.1)

  mem-stop : (k x : String) (xs : List String) → mem x xs ≡ false → mem x (stop k xs) ≡ false
  unfolding mem stop
  mem-stop k x [] h = refl
  mem-stop k x (y ∷ ys) h = ground (arith, mem-stop k x ys)

  stop-Single : (k : String) (xs : List String) → Single xs → Single (stop k xs)
  unfolding stop
  stop-Single k [] s = tt
  stop-Single k (x ∷ xs) s = ground (arith, mem-stop k x xs s.0, stop-Single k xs s.1)

  begins-IsValid :
      (config : InterceptorConfig) (k : String) (s : Warming)
      → IsValid config s
      → IsValid config (step config (begins k) s)
  unfolding step
  begins-IsValid config k s v = ground (arith, ap (mem k) v.marked, ap (λ xs. k ∷ xs) v.marked)

  ended-IsValid :
      (config : InterceptorConfig) (k : String) (at : Option Float) (s : Warming)
      → IsValid config s
      → IsValid config
          (record { warmer = (end_refresh config k at s.warmer).0; running = stop k s.running })
  unfolding end_refresh
  ended-IsValid config k none s v = record {
    marked = ap (discard k) v.marked ∙ discard-Single k s.running v.single;
    single = stop-Single k s.running v.single;
    tracked = v.tracked;
  }
  ended-IsValid config k (some at) s v = record {
    marked = ap (discard k) v.marked ∙ discard-Single k s.running v.single;
    single = stop-Single k s.running v.single;
    tracked = record_refresh-bounded config k at s.warmer.last_refresh;
  }

  ends-IsValid :
      (config : InterceptorConfig) (k : String) (at : Option Float) (s : Warming)
      → IsValid config s
      → IsValid config (step config (ends k at) s)
  unfolding step
  ends-IsValid config k at s v = elim (Bool-cases (mem k s.running)) [
    | inr absent ↦ rw (absent, step) v
    | inl runs ↦ rw (runs, step) (ended-IsValid config k at s v)
  ]

  -- In every interleaving of calls of `trigger_refresh` and of the ends of the refreshes that they
  -- await, no workload has two refreshes running at a time, the marks of the warmer are exactly the
  -- workloads with a running refresh, and at most `shadow_warm_max_tracked_workloads` refresh times
  -- are kept, if all this holds at the beginning.
  pub run-IsValid :
      (config : InterceptorConfig) (steps : List Step) (s : Warming)
      → IsValid config s
      → IsValid config (run config steps s)
  unfolding run
  run-IsValid config [] s v = v
  run-IsValid config (begins k ∷ steps) s v =
      run-IsValid config steps (step config (begins k) s) (begins-IsValid config k s v)
  run-IsValid config (ends k at ∷ steps) s v =
      run-IsValid config steps (step config (ends k at) s) (ends-IsValid config k at s v)
