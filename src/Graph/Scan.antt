-- ===== src/Graph/Scan.antt =====
-- graph/store.py: the indices of `InMemoryGraphStore` against a scan of all its edges.
use ai_compute_intelligence.Prelude.{
  ℕ, ◌≡◌, refl, sym, ap, ◌∙◌, arith, Bool, ◌&&◌, if◌then◌else◌, List, [], ◌∷◌, ◌++◌, String, str_eq,
  Option, none, some, length, keep, Bool-cases, Option-cases, inl, inr,
}
use ai_compute_intelligence.Prelude.Dict.{lookup, get_or}
use ai_compute_intelligence.Floats.{Floats}
use ai_compute_intelligence.Graph.{
  active_among, GraphNode, GraphEdge, EdgeKey, InMemoryGraphStore, empty_store, is_open_at,
  is_active, active_get, supersede, upsert_node, add_edge, close_edge, get_edges_from, get_edges_to,
  key_of,
}
use ai_compute_intelligence.Graph.Lists.{
  positions, length-close_at, positions-append, positions-close_at, active_among-positions,
  get_or-index_append,
}

module _ ⦃F : Floats⦄ where
  abbrev pub leaves : String → GraphEdge → Bool
  leaves k e = str_eq e.from_id k

  abbrev pub enters : String → GraphEdge → Bool
  enters k e = str_eq e.to_id k

  -- Each index has for every node exactly the places of its edges, in order.
  pub record IsIndexed (g : InMemoryGraphStore) : Type 0 where
    pub from_positions : (k : String) → get_or k [] g.from_index ≡ positions (leaves k) 0 g.edges
    pub to_positions : (k : String) → get_or k [] g.to_index ≡ positions (enters k) 0 g.edges

  -- the calls that change the store, with the clock where the code reads it
  pub data Change : Type 0 where
    upserts : ℕ → GraphNode → Change
    adds : ℕ → GraphEdge → Change
    closes : EdgeKey → ℕ → Change
    clears : Change

  unfoldable pub change : Change → InMemoryGraphStore → InMemoryGraphStore
  change (upserts now node) g = upsert_node now node g
  change (adds now e) g = add_edge now e g
  change (closes key at) g = (close_edge key at g).0
  change clears g = empty_store

  unfoldable pub change_all : List Change → InMemoryGraphStore → InMemoryGraphStore
  change_all [] g = g
  change_all (c ∷ changes) g = change_all changes (change c g)

  pub length-supersede :
      (now : ℕ) (i : Option ℕ) (edges : List GraphEdge)
      → length (supersede now i edges) ≡ length edges
  unfolding supersede
  length-supersede now none edges = refl
  length-supersede now (some i) edges = ground (arith, length-close_at i now edges)

  positions-supersede :
      (p : GraphEdge → Bool)
      → ((e : GraphEdge) (v : Option ℕ) → p (record e { valid_to = v }) ≡ p e)
      → (now : ℕ) (i : Option ℕ) (edges : List GraphEdge)
      → positions p 0 (supersede now i edges) ≡ positions p 0 edges
  unfolding supersede
  positions-supersede p h now none edges = refl
  positions-supersede p h now (some i) edges = ground (arith, positions-close_at p h 0 i now edges)

  -- the positions of a test that looks at one end, after `add_edge`
  positions-add_edge :
      (p : GraphEdge → Bool)
      → ((e : GraphEdge) (v : Option ℕ) → p (record e { valid_to = v }) ≡ p e)
      → (now : ℕ) (e : GraphEdge) (g : InMemoryGraphStore)
      → positions p 0 (add_edge now e g).edges
        ≡ positions p 0 g.edges ++ (if p e then length g.edges ∷ [] else [])
  unfolding add_edge
  positions-add_edge p h now e g =
      let before = supersede now (active_get (key_of e) g.active_edge_index) g.edges in
      let same = length-supersede now (active_get (key_of e) g.active_edge_index) g.edges in
      positions-append p 0 before e
      ∙ ground (
        arith,
        positions-supersede p h now (active_get (key_of e) g.active_edge_index) g.edges,
        same,
      )

  add_edge-IsIndexed :
      (now : ℕ) (e : GraphEdge) (g : InMemoryGraphStore)
      → IsIndexed g
      → IsIndexed (add_edge now e g)
  unfolding add_edge
  add_edge-IsIndexed now e g v = record {
    from_positions = λ k.
        get_or-index_append e.from_id k (length g.edges) g.from_index
        ∙ ap (λ l. l ++ (if leaves k e then length g.edges ∷ [] else [])) (v.from_positions k)
        ∙ sym (positions-add_edge (leaves k) (λ e' w. refl) now e g);
    to_positions = λ k.
        get_or-index_append e.to_id k (length g.edges) g.to_index
        ∙ ap (λ l. l ++ (if enters k e then length g.edges ∷ [] else [])) (v.to_positions k)
        ∙ sym (positions-add_edge (enters k) (λ e' w. refl) now e g);
  }

  close_edge-IsIndexed :
      (key : EdgeKey) (at : ℕ) (g : InMemoryGraphStore)
      → IsIndexed g
      → IsIndexed (close_edge key at g).0
  unfolding close_edge
  close_edge-IsIndexed key at g v = elim (Option-cases (active_get key g.active_edge_index)) [
    | inl absent ↦ rw (absent, close_edge) v
    | inr (i, found) ↦ elim (Bool-cases (is_open_at i g.edges)) [
      | inl still ↦
          rw (found, still, close_edge)
            (record {
              from_positions = λ k.
                  v.from_positions k
                  ∙ sym (positions-close_at (leaves k) (λ e w. refl) 0 i at g.edges);
              to_positions = λ k.
                  v.to_positions k
                  ∙ sym (positions-close_at (enters k) (λ e w. refl) 0 i at g.edges);
            })
      | inr ended ↦
          rw (found, ended, close_edge)
            (record { from_positions = v.from_positions; to_positions = v.to_positions })
    ]
  ]

  upsert_node-IsIndexed :
      (now : ℕ) (n : GraphNode) (g : InMemoryGraphStore)
      → IsIndexed g
      → IsIndexed (upsert_node now n g)
  unfolding upsert_node
  upsert_node-IsIndexed now n g v = elim (Option-cases (lookup n.node_id g.nodes)) [
    | inl absent ↦
        rw (absent, upsert_node)
          (record { from_positions = v.from_positions; to_positions = v.to_positions })
    | inr (old, found) ↦
        rw (found, upsert_node)
          (record { from_positions = v.from_positions; to_positions = v.to_positions })
  ]

  empty_store-IsIndexed : IsIndexed empty_store
  unfolding get_or lookup
  empty_store-IsIndexed = record { from_positions = λ k. refl; to_positions = λ k. refl }

  pub change_all-IsIndexed :
      (changes : List Change) (g : InMemoryGraphStore)
      → IsIndexed g
      → IsIndexed (change_all changes g)
  unfolding change_all change
  change_all-IsIndexed [] g v = v
  change_all-IsIndexed (upserts now n ∷ changes) g v =
      change_all-IsIndexed changes _ (upsert_node-IsIndexed now n g v)
  change_all-IsIndexed (adds now e ∷ changes) g v =
      change_all-IsIndexed changes _ (add_edge-IsIndexed now e g v)
  change_all-IsIndexed (closes key at ∷ changes) g v =
      change_all-IsIndexed changes _ (close_edge-IsIndexed key at g v)
  change_all-IsIndexed (clears ∷ changes) g v = change_all-IsIndexed changes _ empty_store-IsIndexed

  pub get_edges_from-scan :
      (k : String) (at : ℕ) (g : InMemoryGraphStore)
      → IsIndexed g
      → get_edges_from k at g ≡ keep (λ e. leaves k e && is_active at e) g.edges
  unfolding get_edges_from
  get_edges_from-scan k at g v =
      ap (active_among at g.edges) (v.from_positions k)
      ∙ active_among-positions at (leaves k) [] g.edges

  get_edges_to-scan :
      (k : String) (at : ℕ) (g : InMemoryGraphStore)
      → IsIndexed g
      → get_edges_to k at g ≡ keep (λ e. enters k e && is_active at e) g.edges
  unfolding get_edges_to
  get_edges_to-scan k at g v =
      ap (active_among at g.edges) (v.to_positions k)
      ∙ active_among-positions at (enters k) [] g.edges

  -- Whatever calls a new store has seen, the edges that it finds by its indices are those of a scan
  -- over all its edges: the ones that leave (or enter) the node and are valid at the time, in the
  -- order in which they were added.
  pub change_all-scan :
      (changes : List Change) (k : String) (at : ℕ)
      → (get_edges_from k at (change_all changes empty_store)
          ≡ keep (λ e. leaves k e && is_active at e) (change_all changes empty_store).edges)
        × (get_edges_to k at (change_all changes empty_store)
            ≡ keep (λ e. enters k e && is_active at e) (change_all changes empty_store).edges)
  change_all-scan changes k at =
      let v = change_all-IsIndexed changes empty_store empty_store-IsIndexed in
      (get_edges_from-scan k at _ v, get_edges_to-scan k at _ v)
