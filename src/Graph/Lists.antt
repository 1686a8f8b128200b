-- ===== src/Graph/Lists.antt =====
-- graph/store.py: the list of edges, and the positions of the edges that meet a test.
use ai_compute_intelligence.Prelude.{
  ℕ, zero, suc, ◌+◌, ◌≡◌, refl, ap, arith, Bool, ◌&&◌, if◌then◌else◌, List, [], ◌∷◌, ◌++◌, String,
  str_eq, Option, some, length, length-append, keep, append_assoc, append-nil, eq_iff, subst,
}
use ai_compute_intelligence.Prelude.Dict.{Dict, get_or, lookup-insert}
use ai_compute_intelligence.Floats.{Floats}
use ai_compute_intelligence.Graph.{
  GraphEdge, get_elem?, close_at, is_active, active_among, index_append,
}

module _ ⦃F : Floats⦄ where
  -- the indices of the edges that meet a test, from an offset on
  abbrev pub positions : (GraphEdge → Bool) → ℕ → List GraphEdge → List ℕ
  positions p i [] = []
  positions p i (e ∷ edges) = let rest = positions p (i + 1) edges in if p e then i ∷ rest else rest

  pub length-close_at :
      (i at : ℕ) (edges : List GraphEdge) → length (close_at i at edges) ≡ length edges
  length-close_at i at [] = refl
  length-close_at zero at (e ∷ edges) = refl
  length-close_at (suc i) at (e ∷ edges) = ap suc (length-close_at i at edges)

  pub positions-append :
      (p : GraphEdge → Bool) (i : ℕ) (edges : List GraphEdge) (e : GraphEdge)
      → positions p i (edges ++ e ∷ [])
        ≡ positions p i edges ++ (if p e then (i + length edges) ∷ [] else [])
  positions-append p i [] e = ground arith
  positions-append p i (x ∷ edges) e = ground (arith, positions-append p (i + 1) edges e)

  -- A test that does not look at the end of validity holds at the same places after a closing.
  pub positions-close_at :
      (p : GraphEdge → Bool)
      → ((e : GraphEdge) (v : Option ℕ) → p (record e { valid_to = v }) ≡ p e)
      → (i j at : ℕ) (edges : List GraphEdge)
      → positions p i (close_at j at edges) ≡ positions p i edges
  positions-close_at p h i j at [] = refl
  positions-close_at p h i zero at (e ∷ edges) = rw (h e (some at)) refl
  positions-close_at p h i (suc j) at (e ∷ edges) =
      ap (λ rest. if p e then i ∷ rest else rest) (positions-close_at p h (i + 1) j at edges)

  pub get_elem?-middle :
      (pre : List GraphEdge) (e : GraphEdge) (edges : List GraphEdge)
      → get_elem? (pre ++ e ∷ edges) (length pre) ≡ some e
  get_elem?-middle [] e edges = refl
  get_elem?-middle (x ∷ pre) e edges = get_elem?-middle pre e edges

  -- Reading the edges at the positions of a test is a scan of the whole list.
  pub active_among-positions :
      (at : ℕ) (p : GraphEdge → Bool) (pre edges : List GraphEdge)
      → active_among at (pre ++ edges) (positions p (length pre) edges)
        ≡ keep (λ e. p e && is_active at e) edges
  unfolding active_among
  active_among-positions at p pre [] = refl
  active_among-positions at p pre (e ∷ edges) =
      let scanned = keep (λ x. p x && is_active at x) edges in
      let here : active_among at (pre ++ e ∷ edges) (positions p (length pre + 1) edges) ≡ scanned =
        subst (λ n. active_among at (pre ++ e ∷ edges) (positions p n edges) ≡ scanned)
          (length-append pre (e ∷ []))
          (subst (λ all. active_among at all (positions p (length (pre ++ e ∷ [])) edges) ≡ scanned)
            (append_assoc pre (e ∷ []) edges)
            (active_among-positions at p (pre ++ e ∷ []) edges)) in
      ground (arith, here, get_elem?-middle pre e edges)

  pub get_or-index_append :
      (j k : String) (i : ℕ) (index : Dict (List ℕ))
      → get_or k [] (index_append j i index)
        ≡ (get_or k [] index ++ (if str_eq j k then i ∷ [] else []))
  unfolding index_append get_or
  get_or-index_append j k i index = ground (
    arith,
    lookup-insert j k (get_or j [] index ++ i ∷ []) index,
    eq_iff j k,
    append-nil (get_or k [] index),
  )
