-- ===== src/Graph.antt =====
-- models/graph.py and graph/store.py: the nodes and edges of the attribution graph, and
-- `InMemoryGraphStore` with its indices. Times are numbers, and the clock is an argument.
pub mod Lists
pub mod Scan
pub mod Active
pub mod Open
pub mod Types
pub mod Traversal
mod Tests
use ai_compute_intelligence.Prelude.{
  ℕ, zero, suc, ◌+◌, ltb, leb, Bool, true, false, not, ◌&&◌, ◌||◌, if◌then◌else◌, List, [], ◌∷◌,
  ◌++◌, String, str_eq, mem, Option, none, some, length, is_some,
}
use ai_compute_intelligence.Prelude.Dict
use ai_compute_intelligence.Prelude.Dict.{Dict}
use ai_compute_intelligence.Floats.{Floats, Float}

pub data NodeType : Type 0 where
  model cloud_resource deployment repository person team cost_center : NodeType
  service_account api_key inference_endpoint equivalence_class budget : NodeType

abbrev pub node_type_value : NodeType → String
node_type_value model = "model"
node_type_value cloud_resource = "cloud_resource"
node_type_value deployment = "deployment"
node_type_value repository = "repository"
node_type_value person = "person"
node_type_value team = "team"
node_type_value cost_center = "cost_center"
node_type_value service_account = "service_account"
node_type_value api_key = "api_key"
node_type_value inference_endpoint = "inference_endpoint"
node_type_value equivalence_class = "equivalence_class"
node_type_value budget = "budget"

pub data EdgeType : Type 0 where
  invokes deployed_on deployed_by owns_code member_of reports_to authenticates : EdgeType
  resolved_to attributed_to budgeted_under classified_as triggers : EdgeType

abbrev pub edge_type_value : EdgeType → String
edge_type_value invokes = "invokes"
edge_type_value deployed_on = "deployed_on"
edge_type_value deployed_by = "deployed_by"
edge_type_value owns_code = "owns_code"
edge_type_value member_of = "member_of"
edge_type_value reports_to = "reports_to"
edge_type_value authenticates = "authenticates"
edge_type_value resolved_to = "resolved_to"
edge_type_value attributed_to = "attributed_to"
edge_type_value budgeted_under = "budgeted_under"
edge_type_value classified_as = "classified_as"
edge_type_value triggers = "triggers"

pub record GraphNode : Type 0 where
  pub node_id : String
  pub node_type : NodeType
  pub label : String
  -- the values as texts
  pub properties : Dict String
  pub tenant_id : String
  pub created_at : ℕ
  pub updated_at : ℕ

pub record EdgeProvenance : Type 0 where
  pub source : String
  pub method : String
  pub signals : List String
  pub created_at : ℕ

module _ ⦃F : Floats⦄ where
  pub record GraphEdge : Type 0 where
    pub edge_type : EdgeType
    pub from_id : String
    pub to_id : String
    pub confidence : Float
    pub weight : Float
    pub valid_from : ℕ
    pub valid_to : Option ℕ
    pub provenance : EdgeProvenance
    pub explanation_ref : Option String

-- `(from_id, to_id, edge_type)`
abbrev pub EdgeKey : Type 0
EdgeKey = String × String × EdgeType

unfoldable pub same_key : EdgeKey → EdgeKey → Bool
same_key (a, b, t) (a', b', t') =
    str_eq a a' && (str_eq b b' && str_eq (edge_type_value t) (edge_type_value t'))

-- `_active_edge_index`: an association list whose keys are such triples
abbrev pub ActiveIndex : Type 0
ActiveIndex = List (EdgeKey × ℕ)

unfoldable pub active_get : EdgeKey → ActiveIndex → Option ℕ
active_get k [] = none
active_get k ((j, i) ∷ index) =
    let rest = active_get k index in if same_key j k then some i else rest

unfoldable pub active_pop : EdgeKey → ActiveIndex → ActiveIndex
active_pop k [] = []
active_pop k ((j, i) ∷ index) =
    let rest = active_pop k index in if same_key j k then rest else (j, i) ∷ rest

unfoldable pub active_set : EdgeKey → ℕ → ActiveIndex → ActiveIndex
active_set k i [] = (k, i) ∷ []
active_set k i ((j, old) ∷ index) =
    let rest = active_set k i index in if same_key j k then (j, i) ∷ index else (j, old) ∷ rest

-- `set.discard` and `set.add`, on a list without repetitions: a set is met in the order in which its
-- elements have been added, where Python promises none
unfoldable pub discard : String → List String → List String
discard k [] = []
discard k (x ∷ xs) = let rest = discard k xs in if str_eq x k then rest else x ∷ rest

unfoldable pub add : String → List String → List String
add k xs = if mem k xs then xs else xs ++ k ∷ []

module _ ⦃F : Floats⦄ where
  abbrev pub key_of : GraphEdge → EdgeKey
  key_of e = (e.from_id, e.to_id, e.edge_type)

  abbrev pub get_elem? : List GraphEdge → ℕ → Option GraphEdge
  get_elem? [] i = none
  get_elem? (e ∷ edges) zero = some e
  get_elem? (e ∷ edges) (suc i) = get_elem? edges i

  -- `self.edges[i] = edge.model_copy(update={"valid_to": at})`
  abbrev pub close_at : ℕ → ℕ → List GraphEdge → List GraphEdge
  close_at i at [] = []
  close_at zero at (e ∷ edges) = record e { valid_to = some at } ∷ edges
  close_at (suc i) at (e ∷ edges) = e ∷ close_at i at edges

  pub record InMemoryGraphStore : Type 0 where
    pub nodes : Dict GraphNode
    pub nodes_by_type : Dict (List String)
    pub edges : List GraphEdge
    pub from_index : Dict (List ℕ)
    pub to_index : Dict (List ℕ)
    pub active_edge_index : ActiveIndex

  -- the new store, and what `clear` leaves
  abbrev pub empty_store : InMemoryGraphStore
  empty_store = record {
    nodes = [];
    nodes_by_type = [];
    edges = [];
    from_index = [];
    to_index = [];
    active_edge_index = [];
  }

  abbrev in_type : NodeType → GraphNode → Dict (List String) → Dict (List String)
  in_type t node by_type =
      Dict.insert (node_type_value t)
        (add node.node_id (Dict.get_or (node_type_value t) [] by_type)) by_type

  unfoldable pub upsert_node : ℕ → GraphNode → InMemoryGraphStore → InMemoryGraphStore
  upsert_node now node g = elim (Dict.lookup node.node_id g.nodes) [
    | none ↦ record g {
      nodes = Dict.insert node.node_id node g.nodes;
      nodes_by_type = in_type node.node_type node g.nodes_by_type;
    }
    | some existing ↦
        let old = node_type_value existing.node_type in
        let left = discard existing.node_id (Dict.get_or old [] g.nodes_by_type) in
        record g {
          nodes = Dict.insert node.node_id (record node { updated_at = now }) g.nodes;
          nodes_by_type = in_type node.node_type node (Dict.insert old left g.nodes_by_type);
        }
  ]

  abbrev pub is_open : GraphEdge → Bool
  is_open e = not (is_some e.valid_to)

  -- An index out of range is an `IndexError`, which no index of a store is (`Scan`).
  abbrev pub is_open_at : ℕ → List GraphEdge → Bool
  is_open_at i edges = elim (get_elem? edges i) [ none ↦ false | some e ↦ is_open e ]

  -- what `add_edge` does to the edge that has been the active one of the key
  unfoldable pub supersede : ℕ → Option ℕ → List GraphEdge → List GraphEdge
  supersede now none edges = edges
  supersede now (some i) edges = if is_open_at i edges then close_at i now edges else edges

  unfoldable pub index_append : String → ℕ → Dict (List ℕ) → Dict (List ℕ)
  index_append k i index = Dict.insert k (Dict.get_or k [] index ++ i ∷ []) index

  unfoldable pub add_edge : ℕ → GraphEdge → InMemoryGraphStore → InMemoryGraphStore
  unfolding supersede index_append
  add_edge now edge g =
      let key = key_of edge in
      let new_idx = length g.edges in
      record g {
        edges = supersede now (active_get key g.active_edge_index) g.edges ++ edge ∷ [];
        from_index = index_append edge.from_id new_idx g.from_index;
        to_index = index_append edge.to_id new_idx g.to_index;
        active_edge_index = active_set key new_idx g.active_edge_index;
      }

  -- `closed_at` is `valid_to or datetime.now(UTC)`
  unfoldable pub close_edge : EdgeKey → ℕ → InMemoryGraphStore → InMemoryGraphStore × Bool
  close_edge key closed_at g =
      let popped = active_pop key g.active_edge_index in
      elim (active_get key g.active_edge_index) [
        | none ↦ (g, false)
        | some i ↦
            if is_open_at i g.edges
            then (
              record g { edges = close_at i closed_at g.edges; active_edge_index = popped },
              true,
            )
            else (record g { active_edge_index = popped }, false)
      ]

  unfoldable pub get_node : String → InMemoryGraphStore → Option GraphNode
  get_node node_id g = Dict.lookup node_id g.nodes

  -- A missing node is a `KeyError`, which `none` stands for.
  unfoldable pub nodes_of : List String → Dict GraphNode → Option (List GraphNode)
  nodes_of [] nodes = some []
  nodes_of (k ∷ ids) nodes =
      let rest = nodes_of ids nodes in
      elim (Dict.lookup k nodes) [
        | none ↦ none
        | some n ↦ elim rest [ none ↦ none | some found ↦ some (n ∷ found) ]
      ]

  unfoldable pub get_nodes_by_type : NodeType → InMemoryGraphStore → Option (List GraphNode)
  get_nodes_by_type t g = nodes_of (Dict.get_or (node_type_value t) [] g.nodes_by_type) g.nodes

  abbrev pub ends_after : ℕ → Option ℕ → Bool
  ends_after at none = true
  ends_after at (some valid_to) = ltb at valid_to

  -- `edge.valid_from <= at and (edge.valid_to is None or edge.valid_to > at)`
  abbrev pub is_active : ℕ → GraphEdge → Bool
  is_active at e = leb e.valid_from at && ends_after at e.valid_to

  -- the loop over the indices of a node
  unfoldable pub active_among : ℕ → List GraphEdge → List ℕ → List GraphEdge
  active_among at edges [] = []
  active_among at edges (i ∷ indices) =
      let rest = active_among at edges indices in
      elim (get_elem? edges i) [ none ↦ rest | some e ↦ if is_active at e then e ∷ rest else rest ]

  unfoldable pub get_edges_from : String → ℕ → InMemoryGraphStore → List GraphEdge
  get_edges_from node_id at g = active_among at g.edges (Dict.get_or node_id [] g.from_index)

  unfoldable pub get_edges_to : String → ℕ → InMemoryGraphStore → List GraphEdge
  get_edges_to node_id at g = active_among at g.edges (Dict.get_or node_id [] g.to_index)

  pub record GraphStats : Type 0 where
    pub total_nodes : ℕ
    pub total_edges : ℕ
    pub active_edges : ℕ

  -- `historical_edges` is the difference of the last two.
  unfoldable pub get_stats : InMemoryGraphStore → GraphStats
  get_stats g = record {
    total_nodes = length g.nodes;
    total_edges = length g.edges;
    active_edges = length g.active_edge_index;
  }
