-- ===== src/Graph/Types.antt =====
-- graph/store.py: the sets of nodes by type of `InMemoryGraphStore`.
use ai_compute_intelligence.Prelude.{
  ℕ, ◌≡◌, refl, sym, ap, ◌∙◌, subst, arith, false, if◌then◌else◌, List, [], ◌∷◌, String, str_eq,
  mem, none, some, some-injective, eq_refl, Bool-cases, Option-cases, inl, inr, eq_iff,
}
use ai_compute_intelligence.Prelude.Dict.{Dict, lookup, insert, get_or, lookup-insert}
use ai_compute_intelligence.Prelude.Every.{Every, Every-append_last, Every-weaken}
use ai_compute_intelligence.Floats.{Floats}
use ai_compute_intelligence.Graph.{
  EdgeKey, NodeType, node_type_value, GraphNode, InMemoryGraphStore, empty_store, discard, add,
  upsert_node, add_edge, close_edge, nodes_of, get_nodes_by_type, active_get, is_open_at,
}
use ai_compute_intelligence.Graph.Scan.{Change, upserts, adds, closes, clears, change, change_all}

-- the node under the id is there, and of the type
abbrev pub IsOf : Dict GraphNode → String → String → Type 0
IsOf nodes t k = (n : GraphNode) × (lookup k nodes ≡ some n) × (node_type_value n.node_type ≡ t)

Every-discard :
    (P : String → Type 0) (k : String) (xs : List String)
    → Every P xs
    → Every (λ x. P x × (str_eq x k ≡ false)) (discard k xs)
unfolding discard
Every-discard P k [] a = tt
Every-discard P k (x ∷ xs) a = elim (Bool-cases (str_eq x k)) [
  | inl same ↦ rw (same, discard) (Every-discard P k xs a.1)
  | inr other ↦ rw (other, discard) ((a.0, other), Every-discard P k xs a.1)
]

Every-add :
    (P : String → Type 0) (k : String) (xs : List String) → P k → Every P xs → Every P (add k xs)
unfolding add
Every-add P k xs p a = elim (Bool-cases (mem k xs)) [
  | inl there ↦ rw (there, add) a
  | inr new ↦ rw (new, add) (Every-append_last P xs k a p)
]

-- Each set of ids has only nodes of its type, and each node stands under its own id.
pub record IsTyped (nodes : Dict GraphNode) (by_type : Dict (List String)) : Type 0 where
  pub own_id : (k : String) (n : GraphNode) → lookup k nodes ≡ some n → n.node_id ≡ k
  pub typed : (t : String) → Every (IsOf nodes t) (get_or t [] by_type)

-- an id other than that of the node keeps its node
IsOf-insert :
    (n : GraphNode) (nodes : Dict GraphNode) (t k : String)
    → IsOf nodes t k
    → str_eq k n.node_id ≡ false
    → IsOf (insert n.node_id n nodes) t k
IsOf-insert n nodes t k (m, found, same) other = (
  m,
  lookup-insert n.node_id k n nodes ∙ ground (arith, eq_iff n.node_id k, eq_iff k n.node_id),
  same,
)

get_or-insert :
    (t t' : String) (ids : List String) (by_type : Dict (List String))
    → get_or t [] (insert t' ids by_type) ≡ (if str_eq t' t then ids else get_or t [] by_type)
unfolding get_or
get_or-insert t t' ids by_type = ground (arith, lookup-insert t' t ids by_type)

-- The sets without the id of the node, and then the node put into the set of its type.
insert-IsTyped :
    (n : GraphNode) (nodes : Dict GraphNode) (by_type : Dict (List String))
    → ((k : String) (m : GraphNode) → lookup k nodes ≡ some m → m.node_id ≡ k)
    → ((t : String)
        → Every (λ k. IsOf nodes t k × (str_eq k n.node_id ≡ false)) (get_or t [] by_type))
    → IsTyped (insert n.node_id n nodes) (
        insert
          (node_type_value n.node_type)
          (add n.node_id (get_or (node_type_value n.node_type) [] by_type))
          by_type)
insert-IsTyped n nodes by_type own free =
    let nodes' = insert n.node_id n nodes in
    let of_type = node_type_value n.node_type in
    let kept : (t : String) → Every (IsOf nodes' t) (get_or t [] by_type) = λ t.
      Every-weaken (λ k. IsOf nodes t k × (str_eq k n.node_id ≡ false)) (IsOf nodes' t)
        (λ k (is_of, other). IsOf-insert n nodes t k is_of other) (get_or t [] by_type) (free t) in
    let here : IsOf nodes' of_type n.node_id =
      (n, lookup-insert n.node_id n.node_id n nodes ∙ ground (arith, eq_refl n.node_id), refl) in
    record {
      own_id = λ k m found. elim (Bool-cases (str_eq n.node_id k)) [
        | inl same ↦
            let it : some n ≡ some m =
              sym (ap (λ b. if b then some n else lookup k nodes) same)
              ∙ (sym (lookup-insert n.node_id k n nodes) ∙ found) in
            sym (ap (λ x. x.node_id) (some-injective n m it)) ∙ (eq_iff n.node_id k).0 same
        | inr other ↦ own k m (
            sym (ap (λ b. if b then some n else lookup k nodes) other)
            ∙ (sym (lookup-insert n.node_id k n nodes) ∙ found))
      ];
      typed = λ t.
          subst (Every (IsOf nodes' t))
            (sym (get_or-insert t of_type (add n.node_id (get_or of_type [] by_type)) by_type))
            (elim (Bool-cases (str_eq of_type t)) [
              | inl same ↦ rw same (
                  subst (λ t'. Every (IsOf nodes' t') (add n.node_id (get_or of_type [] by_type)))
                    ((eq_iff of_type t).0 same)
                    (Every-add (IsOf nodes' of_type) n.node_id _ here (kept of_type)))
              | inr other ↦ rw other (kept t)
            ]);
    }

-- the sets after the id of an existing node has been taken out of the set of its type
discarded-free :
    (id : String) (old : GraphNode) (nodes : Dict GraphNode) (by_type : Dict (List String))
    → IsTyped nodes by_type
    → lookup id nodes ≡ some old
    → (t : String)
    → Every
        (λ k. IsOf nodes t k × (str_eq k id ≡ false))
        (get_or t [] (
          insert
            (node_type_value old.node_type)
            (discard old.node_id (get_or (node_type_value old.node_type) [] by_type))
            by_type))
discarded-free id old nodes by_type v found t =
    let own : old.node_id ≡ id = v.own_id id old found in
    let of_type = node_type_value old.node_type in
    let left = discard old.node_id (get_or of_type [] by_type) in
    let Free : String → String → Type 0 = λ t' k. IsOf nodes t' k × (str_eq k id ≡ false) in
    let Free' : String → String → String → Type 0 =
      λ i t' k. IsOf nodes t' k × (str_eq k i ≡ false) in
    subst (Every (Free t)) (sym (get_or-insert t of_type left by_type))
      (elim (Bool-cases (str_eq of_type t)) [
        | inl same ↦ rw same (
            subst (λ t'. Every (Free t') left) ((eq_iff of_type t).0 same)
              (subst (λ i. Every (Free' i of_type) left) own
                (Every-discard (IsOf nodes of_type) old.node_id _ (v.typed of_type))))
        | inr other ↦ rw other (
            Every-weaken (IsOf nodes t) (Free t)
              (λ k (n, at, same). (
                (n, at, same),
                elim (Bool-cases (str_eq k id)) [
                  | inr differs ↦ differs
                  | inl equal ↦
                      let here : some n ≡ some old =
                        sym at ∙ (ap (λ j. lookup j nodes) ((eq_iff k id).0 equal) ∙ found) in
                      let type : of_type ≡ t =
                        sym (ap (λ m. node_type_value m.node_type) (some-injective n old here))
                        ∙ same in
                      absurd (ground (arith, eq_iff of_type t, type, other))
                ],
              ))
              (get_or t [] by_type) (v.typed t))
      ])

absent_differs :
    (id k : String) (m : GraphNode) (nodes : Dict GraphNode)
    → lookup id nodes ≡ none
    → lookup k nodes ≡ some m
    → str_eq k id ≡ false
absent_differs id k m nodes absent at = elim (Bool-cases (str_eq k id)) [
  | inr differs ↦ differs
  | inl equal ↦
      let clash : none ≡ some m =
        sym absent ∙ (ap (λ j. lookup j nodes) (sym ((eq_iff k id).0 equal)) ∙ at) in
      absurd (ground (arith, clash))
]

module _ ⦃F : Floats⦄ where
  empty_store-IsTyped : IsTyped empty_store.nodes empty_store.nodes_by_type
  unfolding get_or lookup
  empty_store-IsTyped = record { own_id = λ k n h. absurd (ground (arith, h)); typed = λ t. tt }

  close_edge-IsTyped :
      (key : EdgeKey) (at : ℕ) (g : InMemoryGraphStore)
      → IsTyped g.nodes g.nodes_by_type
      → IsTyped (close_edge key at g).0.nodes (close_edge key at g).0.nodes_by_type
  unfolding close_edge
  close_edge-IsTyped key at g v = elim (Option-cases (active_get key g.active_edge_index)) [
    | inl absent ↦ rw (absent, close_edge) v
    | inr (i, found) ↦ elim (Bool-cases (is_open_at i g.edges)) [
      | inl still ↦ rw (found, still, close_edge) v
      | inr ended ↦ rw (found, ended, close_edge) v
    ]
  ]

  upsert_node-IsTyped :
      (now : ℕ) (n : GraphNode) (g : InMemoryGraphStore)
      → IsTyped g.nodes g.nodes_by_type
      → IsTyped (upsert_node now n g).nodes (upsert_node now n g).nodes_by_type
  unfolding upsert_node
  upsert_node-IsTyped now n g v = elim (Option-cases (lookup n.node_id g.nodes)) [
    | inl absent ↦
        rw (absent, upsert_node)
          (insert-IsTyped n g.nodes g.nodes_by_type v.own_id (λ t.
            Every-weaken (IsOf g.nodes t) (λ k. IsOf g.nodes t k × (str_eq k n.node_id ≡ false))
              (λ k (m, at, same). ((m, at, same), absent_differs n.node_id k m g.nodes absent at))
              (get_or t [] g.nodes_by_type) (v.typed t)))
    | inr (old, found) ↦
        rw (found, upsert_node)
          (insert-IsTyped (record n { updated_at = now }) g.nodes _ v.own_id
            (discarded-free n.node_id old g.nodes g.nodes_by_type v found))
  ]

  change_all-IsTyped :
      (changes : List Change) (g : InMemoryGraphStore)
      → IsTyped g.nodes g.nodes_by_type
      → IsTyped (change_all changes g).nodes (change_all changes g).nodes_by_type
  unfolding change_all change add_edge
  change_all-IsTyped [] g v = v
  change_all-IsTyped (upserts now n ∷ changes) g v =
      change_all-IsTyped changes _ (upsert_node-IsTyped now n g v)
  change_all-IsTyped (adds now e ∷ changes) g v = change_all-IsTyped changes (add_edge now e g) v
  change_all-IsTyped (closes key at ∷ changes) g v =
      change_all-IsTyped changes (close_edge key at g).0 (close_edge-IsTyped key at g v)
  change_all-IsTyped (clears ∷ changes) g v =
      change_all-IsTyped changes empty_store empty_store-IsTyped

  -- a stored node of the type
  abbrev pub IsStored : Dict GraphNode → String → GraphNode → Type 0
  IsStored nodes t n =
      (node_type_value n.node_type ≡ t) × ((k : String) × (lookup k nodes ≡ some n))

  nodes_of-typed :
      (t : String) (nodes : Dict GraphNode) (ids : List String)
      → Every (IsOf nodes t) ids
      → (found : List GraphNode) × (nodes_of ids nodes ≡ some found)
        × Every (IsStored nodes t) found
  unfolding nodes_of
  nodes_of-typed t nodes [] a = ([], refl, tt)
  nodes_of-typed t nodes (k ∷ ids) ((n, at, same), rest) =
      let (found, all, typed) = nodes_of-typed t nodes ids rest in
      (n ∷ found, rw (at, all, nodes_of) refl, ((same, (k, at)), typed))

  -- Whatever calls a new store has seen, the look-up of the nodes of a type meets no missing node, and
  -- every node that it returns is stored and of that type, also when a node has been stored again with
  -- another type.
  pub get_nodes_by_type-typed :
      (changes : List Change) (t : NodeType)
      → (found : List GraphNode) × (get_nodes_by_type t (change_all changes empty_store)
          ≡ some found)
        × Every (IsStored (change_all changes empty_store).nodes (node_type_value t)) found
  unfolding get_nodes_by_type
  get_nodes_by_type-typed changes t =
      let g = change_all changes empty_store in
      let v = change_all-IsTyped changes empty_store empty_store-IsTyped in
      nodes_of-typed (node_type_value t) g.nodes (get_or (node_type_value t) [] g.nodes_by_type)
        (v.typed (node_type_value t))
