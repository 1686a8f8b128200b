-- ===== src/Graph/Open.antt =====
-- graph/store.py: the open edges of `InMemoryGraphStore`, those without an end of validity.
use ai_compute_intelligence.Prelude.{
  ℕ, zero, suc, ◌≡◌, ◌≢◌, ◌⊎◌, refl, sym, ap, ◌∙◌, arith, true, List, [], ◌∷◌, ◌++◌, Option, none,
  some, some-injective, length, Bool-cases, Option-cases, inl, inr,
}
use ai_compute_intelligence.Prelude.Dict.{lookup}
use ai_compute_intelligence.Floats.{Floats}
use ai_compute_intelligence.Graph.{
  GraphNode, GraphEdge, EdgeKey, ActiveIndex, InMemoryGraphStore, empty_store, get_elem?, close_at,
  is_open_at, active_get, active_pop, same_key, supersede, upsert_node, add_edge, close_edge,
  key_of,
}
use ai_compute_intelligence.Graph.Active.{
  same_key_refl, active_get-same, active_get-active_set, active_get-active_pop,
}
use ai_compute_intelligence.Graph.Scan.{
  Change, upserts, adds, closes, clears, change, change_all, length-supersede,
}

module _ ⦃F : Floats⦄ where
  -- the i-th edge, if it is open
  pub record OpenAt (edges : List GraphEdge) (i : ℕ) (e : GraphEdge) : Type 0 where
    pub there : get_elem? edges i ≡ some e
    pub still : e.valid_to ≡ none

  -- Every open edge is the active one of its key.
  abbrev pub AllTracked : InMemoryGraphStore → Type 0
  AllTracked g =
      (i : ℕ) (e : GraphEdge)
      → OpenAt g.edges i e
      → active_get (key_of e) g.active_edge_index ≡ some i

  OpenAt-close_at :
      (j at : ℕ) (edges : List GraphEdge) (i : ℕ) (e : GraphEdge)
      → OpenAt (close_at j at edges) i e
      → OpenAt edges i e × (i ≢ j)
  OpenAt-close_at j at [] i e o = absurd (ground arith)
  OpenAt-close_at zero at (x ∷ edges) zero e o =
      let closed : some at ≡ e.valid_to = ap (λ x'. x'.valid_to) (some-injective _ e o.there) in
      absurd (ground (arith, closed))
  OpenAt-close_at zero at (x ∷ edges) (suc i) e o =
      (record { there = o.there; still = o.still }, λ q. absurd (omega arith))
  OpenAt-close_at (suc j) at (x ∷ edges) zero e o =
      (record { there = o.there; still = o.still }, λ q. absurd (omega arith))
  OpenAt-close_at (suc j) at (x ∷ edges) (suc i) e o =
      let (before, other) =
        OpenAt-close_at j at edges i e (record { there = o.there; still = o.still }) in
      (record { there = before.there; still = before.still }, λ q. other (omega arith))

  OpenAt-append :
      (edges : List GraphEdge) (x : GraphEdge) (i : ℕ) (e : GraphEdge)
      → OpenAt (edges ++ x ∷ []) i e
      → OpenAt edges i e ⊎ ((i ≡ length edges) × (e ≡ x))
  OpenAt-append [] x zero e o = inr (refl, sym (some-injective x e o.there))
  OpenAt-append [] x (suc i) e o = absurd (ground arith)
  OpenAt-append (y ∷ edges) x zero e o = inl (record { there = o.there; still = o.still })
  OpenAt-append (y ∷ edges) x (suc i) e o =
      elim (OpenAt-append edges x i e (record { there = o.there; still = o.still })) [
        | inl before ↦ inl (record { there = before.there; still = before.still })
        | inr (last, same) ↦ inr (ap suc last, same)
      ]

  OpenAt-supersede :
      (now : ℕ) (o : Option ℕ) (edges : List GraphEdge) (i : ℕ) (e : GraphEdge)
      → OpenAt (supersede now o edges) i e
      → OpenAt edges i e × (o ≢ some i)
  unfolding supersede
  OpenAt-supersede now none edges i e o = (o, λ q. absurd (ground arith))
  OpenAt-supersede now (some j) edges i e o = elim (Bool-cases (is_open_at j edges)) [
    | inl yet ↦
        let o' : OpenAt (close_at j now edges) i e = rw (yet, supersede) at o in
        let (before, other) = OpenAt-close_at j now edges i e o' in
        (before, λ q. other (sym (some-injective j i q)))
    | inr ended ↦
        let o' : OpenAt edges i e = rw (ended, supersede) at o in
        let there : get_elem? edges i ≡ some e = o'.there in
        let still : e.valid_to ≡ none = o'.still in
        (o', λ q. absurd (ground (arith, some-injective j i q, there, still)))
  ]

  pub add_edge-AllTracked :
      (now : ℕ) (e : GraphEdge) (g : InMemoryGraphStore)
      → AllTracked g
      → AllTracked (add_edge now e g)
  unfolding add_edge
  add_edge-AllTracked now e g t i x o =
      let key = key_of e in
      let previous = active_get key g.active_edge_index in
      let before = supersede now previous g.edges in
      active_get-active_set key (key_of x) (length g.edges) g.active_edge_index
      ∙ elim (OpenAt-append before e i x o) [
        | inl old ↦
            let (was, other) = OpenAt-supersede now previous g.edges i x old in
            let tracked = t i x was in
            elim (Bool-cases (same_key key (key_of x))) [
              | inl same ↦
                  absurd (other (active_get-same key (key_of x) g.active_edge_index same ∙ tracked))
              | inr differs ↦ rw differs tracked
            ]
        | inr (last, same) ↦
            rw (same, same_key_refl key)
              (ap some (sym (last ∙ length-supersede now previous g.edges)))
      ]

  -- An edge that is tracked at another place than the active one of a key keeps its entry.
  active_pop-kept :
      (key k : EdgeKey) (i j : ℕ) (m : ActiveIndex)
      → active_get key m ≡ some j
      → active_get k m ≡ some i
      → i ≢ j
      → active_get k (active_pop key m) ≡ some i
  active_pop-kept key k i j m found tracked other =
      active_get-active_pop key k m ∙ elim (Bool-cases (same_key key k)) [
        | inl same ↦ absurd (
            other (some-injective i j (sym tracked ∙ (sym (active_get-same key k m same) ∙ found))))
        | inr differs ↦ rw differs tracked
      ]

  pub close_edge-AllTracked :
      (key : EdgeKey) (at : ℕ) (g : InMemoryGraphStore)
      → AllTracked g
      → AllTracked (close_edge key at g).0
  unfolding close_edge
  close_edge-AllTracked key at g t = elim (Option-cases (active_get key g.active_edge_index)) [
    | inl absent ↦ rw (absent, close_edge) t
    | inr (j, found) ↦ elim (Bool-cases (is_open_at j g.edges)) [
      | inl yet ↦
          rw (found, yet, close_edge)
            (λ i x o.
              let (before, other) = OpenAt-close_at j at g.edges i x o in
              active_pop-kept key (key_of x) i j g.active_edge_index found (t i x before) other)
      | inr ended ↦
          rw (found, ended, close_edge)
            (λ i x o.
              let there : get_elem? g.edges i ≡ some x = o.there in
              let still : x.valid_to ≡ none = o.still in
              active_pop-kept key (key_of x) i j g.active_edge_index found (t i x o)
                (λ q. absurd (ground (arith, q, there, still))))
    ]
  ]

  upsert_node-AllTracked :
      (now : ℕ) (n : GraphNode) (g : InMemoryGraphStore)
      → AllTracked g
      → AllTracked (upsert_node now n g)
  unfolding upsert_node
  upsert_node-AllTracked now n g t = elim (Option-cases (lookup n.node_id g.nodes)) [
    | inl absent ↦ rw (absent, upsert_node) t
    | inr (old, found) ↦ rw (found, upsert_node) t
  ]

  pub empty_store-AllTracked : AllTracked empty_store
  empty_store-AllTracked i e o = absurd (ground (arith, o.there))

  pub change_all-AllTracked :
      (changes : List Change) (g : InMemoryGraphStore)
      → AllTracked g
      → AllTracked (change_all changes g)
  unfolding change_all change
  change_all-AllTracked [] g t = t
  change_all-AllTracked (upserts now n ∷ changes) g t =
      change_all-AllTracked changes _ (upsert_node-AllTracked now n g t)
  change_all-AllTracked (adds now e ∷ changes) g t =
      change_all-AllTracked changes _ (add_edge-AllTracked now e g t)
  change_all-AllTracked (closes key at ∷ changes) g t =
      change_all-AllTracked changes _ (close_edge-AllTracked key at g t)
  change_all-AllTracked (clears ∷ changes) g t =
      change_all-AllTracked changes _ empty_store-AllTracked

  -- Whatever calls a new store has seen, no two open edges have the same ends and type: the history
  -- of a link has at most one current version.
  pub change_all-open_once :
      (changes : List Change) (i j : ℕ) (e e' : GraphEdge)
      → OpenAt (change_all changes empty_store).edges i e
      → OpenAt (change_all changes empty_store).edges j e'
      → same_key (key_of e) (key_of e') ≡ true
      → i ≡ j
  change_all-open_once changes i j e e' o o' same =
      let t = change_all-AllTracked changes empty_store empty_store-AllTracked in
      let index = (change_all changes empty_store).active_edge_index in
      some-injective i j
        (sym (t i e o) ∙ (active_get-same (key_of e) (key_of e') index same ∙ t j e' o'))
