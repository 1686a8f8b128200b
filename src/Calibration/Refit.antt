-- ===== src/Calibration/Refit.antt =====
-- confidence/calibration.py: what the engine has recorded and fitted after a sequence of labels.
use ai_compute_intelligence.Prelude.{
  ◌<◌, ◌≡◌, refl, sym, ap, ◌∙◌, arith, leb, Bool, ◌&&◌, if◌then◌else◌, List, [], ◌∷◌, ◌++◌, String,
  str_eq, none, some, length, length-append, subst, keep, append_assoc, append-nil, Bool-cases, inl,
  inr, eq_iff, eq_refl,
}
use ai_compute_intelligence.Prelude.Dict.{lookup, get_or, lookup-insert}
use ai_compute_intelligence.Floats.{Floats}
use ai_compute_intelligence.Calibration.{
  CalibrationConfig, GroundTruthLabel, Fitting, CalibrationEngine, new_engine, samples_of,
  fit_isotonic, fit_bootstrap, recorded, add_ground_truth,
}

module _ ⦃F : Floats⦄ (L : Fitting) (config : CalibrationConfig) where
  abbrev pub labels_of : String → List GroundTruthLabel → List GroundTruthLabel
  labels_of method labels = keep (λ l. str_eq l.method_used method) labels

  -- The labels of a method are all of those given, in order, and its model is the one that they
  -- determine, once they are enough.
  pub record Reflects (labels : List GroundTruthLabel) (s : CalibrationEngine L) : Type 0 where
    pub all_kept : (m : String) → get_or m [] s.ground_truth ≡ labels_of m labels
    pub fitted :
        (m : String)
        → lookup m s.iso_models ≡ (
            if leb config.min_samples_full_calibration (length (labels_of m labels))
            then some (L.fit config.cap (samples_of L config (labels_of m labels)))
            else none)

  unfoldable pub add_all : List GroundTruthLabel → CalibrationEngine L → CalibrationEngine L
  add_all [] s = s
  add_all (l ∷ labels) s = add_all labels (add_ground_truth L config l s)

  keep-append :
      (p : GroundTruthLabel → Bool) (xs : List GroundTruthLabel) (l : GroundTruthLabel)
      → keep p (xs ++ l ∷ []) ≡ (keep p xs ++ (if p l then l ∷ [] else []))
  keep-append p [] l = ground arith
  keep-append p (x ∷ xs) l = ground (arith, keep-append p xs l)

  ground_truth-recorded :
      (l : GroundTruthLabel) (s : CalibrationEngine L) (m : String)
      → get_or m [] (recorded L config l s).ground_truth
        ≡ (get_or m [] s.ground_truth ++ (if str_eq l.method_used m then l ∷ [] else []))
  unfolding get_or
  ground_truth-recorded l s m = ground (
    arith,
    eq_iff l.method_used m,
    append-nil (get_or m [] s.ground_truth),
    lookup-insert l.method_used m (get_or l.method_used [] s.ground_truth ++ l ∷ []) s.ground_truth,
  )

  -- what `add_ground_truth` leaves, whichever fit it has made
  ground_truth-add_ground_truth :
      (l : GroundTruthLabel) (s : CalibrationEngine L)
      → (add_ground_truth L config l s).ground_truth ≡ (recorded L config l s).ground_truth
  unfolding add_ground_truth fit_isotonic fit_bootstrap
  ground_truth-add_ground_truth l s =
      let seen = length (get_or l.method_used [] (recorded L config l s).ground_truth) in
      elim (Bool-cases (leb config.min_samples_full_calibration seen)) [
        | inl full ↦ rw (full, add_ground_truth) refl
        | inr fewer ↦ elim (Bool-cases (leb config.min_samples_bootstrap seen)) [
          | inl some_labels ↦ rw (fewer, some_labels, add_ground_truth) refl
          | inr few ↦ rw (fewer, few, add_ground_truth) refl
        ]
      ]

  iso_models-add_ground_truth :
      (l : GroundTruthLabel) (s : CalibrationEngine L) (m : String) (labels : List GroundTruthLabel)
      → get_or l.method_used [] (recorded L config l s).ground_truth ≡ labels
      → lookup m (add_ground_truth L config l s).iso_models ≡ (
          if str_eq l.method_used m && leb config.min_samples_full_calibration (length labels)
          then some (L.fit config.cap (samples_of L config labels))
          else lookup m s.iso_models)
  unfolding add_ground_truth fit_isotonic fit_bootstrap
  iso_models-add_ground_truth l s m labels h =
      let model = L.fit config.cap (samples_of L config labels) in
      elim (Bool-cases (leb config.min_samples_full_calibration (length labels))) [
        | inl full ↦
            rw (h, full, add_ground_truth, fit_isotonic)
              (ground (arith, full, lookup-insert l.method_used m model s.iso_models))
        | inr fewer ↦ elim (Bool-cases (leb config.min_samples_bootstrap (length labels))) [
          | inl some_labels ↦
              rw (h, fewer, some_labels, add_ground_truth, fit_bootstrap) (ground arith)
          | inr few ↦ rw (h, fewer, few, add_ground_truth) (ground arith)
        ]
      ]

  add_ground_truth-Reflects :
      (l : GroundTruthLabel) (labels : List GroundTruthLabel) (s : CalibrationEngine L)
      → Reflects labels s
      → Reflects (labels ++ l ∷ []) (add_ground_truth L config l s)
  add_ground_truth-Reflects l labels s r =
      let kept : (m : String)
          → get_or m [] (recorded L config l s).ground_truth ≡ labels_of m (labels ++ l ∷ []) =
        λ m.
          ground_truth-recorded l s m
          ∙ (ap (λ ls. ls ++ (if str_eq l.method_used m then l ∷ [] else [])) (r.all_kept m)
              ∙ sym (keep-append (λ x. str_eq x.method_used m) labels l)) in
      let own = kept l.method_used in
      record {
        all_kept = λ m. ap (λ t. get_or m [] t) (ground_truth-add_ground_truth l s) ∙ kept m;
        fitted = λ m.
            let before = r.fitted m in
            let grown = keep-append (λ x. str_eq x.method_used m) labels l in
            let longer = length-append (labels_of m labels) (l ∷ []) in
            iso_models-add_ground_truth l s m (labels_of l.method_used (labels ++ l ∷ [])) own
            ∙ elim (Bool-cases (str_eq l.method_used m)) [
              | inl same ↦
                  let here : l.method_used ≡ m = (eq_iff l.method_used m).0 same in
                  rw (here, eq_refl m)
                    (ground (arith, before, grown, longer, same, append-nil (labels_of m labels)))
              | inr other ↦ ground (arith, before, grown, other, append-nil (labels_of m labels))
            ];
      }

  add_all-Reflects :
      (before labels : List GroundTruthLabel) (s : CalibrationEngine L)
      → Reflects before s
      → Reflects (before ++ labels) (add_all labels s)
  unfolding add_all
  add_all-Reflects before [] s r = subst (λ ls. Reflects ls s) (sym (append-nil before)) r
  add_all-Reflects before (l ∷ labels) s r =
      subst (λ ls. Reflects ls (add_all labels (add_ground_truth L config l s)))
        (append_assoc before (l ∷ []) labels)
        (add_all-Reflects (before ++ l ∷ []) labels _ (add_ground_truth-Reflects l before s r))

  -- From a new engine, whatever labels have been added: each method keeps exactly its own labels, in
  -- their order; it has a fitted model exactly when they are at least `min_samples_full_calibration`,
  -- and the model is the isotonic fit of all of them. That minimum must not be 0.
  pub add_all-refit :
      0 < config.min_samples_full_calibration
      → (labels : List GroundTruthLabel) → Reflects labels (add_all labels (new_engine L))
  unfolding get_or lookup
  add_all-refit h labels =
      add_all-Reflects [] labels (new_engine L)
        (record { all_kept = λ m. refl; fitted = λ m. ground arith })
