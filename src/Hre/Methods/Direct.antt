-- ===== src/Hre/Methods/Direct.antt =====
-- hre/methods.py: R1, direct matches of identifiers.
use ai_compute_intelligence.Prelude.{
  if◌then◌else◌, [], ◌∷◌, String, str_eq, concat, Option, none, some,
}
use ai_compute_intelligence.Prelude.Dict
use ai_compute_intelligence.Prelude.Dict.{Dict}
use ai_compute_intelligence.Floats.{Floats, lit}
use ai_compute_intelligence.Index.{text}
use ai_compute_intelligence.Hre.{Python, ReconciliationSignal}

module _ ⦃F : Floats⦄ where
  module _ (P : Python) where
    -- the loop of R1 over the normalized keys: the first key that matches
    unfoldable pub normalized_match : String → Dict String → Option (String × String)
    normalized_match normalized [] = none
    normalized_match normalized ((key, target) ∷ mappings) =
        let rest = normalized_match normalized mappings in
        if str_eq (P.strip (P.lower key)) normalized then some (key, target) else rest

    unfoldable pub resolve_r1 : String → Dict String → Option ReconciliationSignal
    resolve_r1 entity_id identity_mappings = elim (Dict.lookup entity_id identity_mappings) [
      | some target ↦ some (record {
        method = "R1";
        source_entity = entity_id;
        target_entity = target;
        confidence = lit 1 1;
        signals = concat ("direct_match:" ∷ entity_id ∷ []) ∷ [];
        feature_values = ("match_type", text "exact_identifier") ∷ [];
      })
      | none ↦ elim (normalized_match (P.strip (P.lower entity_id)) identity_mappings) [
        | none ↦ none
        | some (key, target) ↦ some (record {
          method = "R1";
          source_entity = entity_id;
          target_entity = target;
          confidence = lit 98 100;
          signals = concat ("normalized_match:" ∷ entity_id ∷ "->" ∷ key ∷ []) ∷ [];
          feature_values = ("match_type", text "normalized_identifier") ∷ [];
        })
      ]
    ]
