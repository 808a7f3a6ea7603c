-- ===== src/Graph.antt =====
-- The in-memory contract graph (crates/mesh-core/src/contracts.rs, with the node and edge types
-- of crates/mesh-core/src/types.rs): its nodes, edges and indices, and the operations that add
-- to them. The removal of files stands in `Patch`; the proofs stand in the other modules below.
-- `lowercase` is Unicode lower-casing, which is not this repository's code.
pub mod Topics
pub mod Patch
pub mod Indices
pub mod Drop
pub mod Removal
pub mod Keeping
pub mod Histories
pub mod Ties
pub mod Tests
use causalmesh.Prelude.{
  ℕ, ◌+◌, ◌%◌, ◌^◌, Bool, true, false, ◌||◌, not, Option, none, some, List, [], ◌∷◌, ◌++◌, length,
  contains, if◌then◌else◌, PartialEq, ◌==◌, nat_eq, list_eq, ◌≡◌, ◌↔◌, arith,
}
use causalmesh.Prelude.Assoc.{Assoc, lookup, insert}
use causalmesh.Prelude.Buckets.{bucket, push_at}
use causalmesh.Prelude.Text.{Text, text}
use causalmesh.Prelude.Paths.{FilePath, component_eq}
use causalmesh.Graph.Topics.{normalize_topic_key}

pub data NodeKind : Type 0 where
  grpc_service grpc_method http_endpoint kafka_topic event_stream queue : NodeKind
  proto_message post_processor saga service_class interface source_module : NodeKind

pub record ContractNode : Type 0 where
  pub id : ℕ
  pub name : Text
  pub kind : NodeKind
  pub file_path : FilePath
  pub line_start : ℕ
  pub line_end : ℕ
  pub package_name : Text
  pub repo_id : ℕ
  pub signature : Option Text
  pub docstring : Option Text

pub data EdgeKind : Type 0 where
  produces consumes calls_rpc implements imports dispatches_to : EdgeKind

pub data EdgeConfidence : Type 0 where
  exact heuristic ambiguous : EdgeConfidence

pub record ContractEdge : Type 0 where
  pub from : ℕ
  pub to : ℕ
  pub kind : EdgeKind
  pub metadata : Option Text
  pub confidence : EdgeConfidence

pub record ContractGraph : Type 0 where
  pub nodes : Assoc ℕ ContractNode
  pub edges : List ContractEdge
  pub name_to_nodes : Assoc Text (List ℕ)
  pub package_to_nodes : Assoc Text (List ℕ)
  pub file_to_nodes : Assoc FilePath (List ℕ)
  pub fqcn_to_node : Assoc Text (List ℕ)
  pub reverse_deps : Assoc Text (List ℕ)
  pub topic_producers : Assoc Text (List ℕ)
  pub topic_consumers : Assoc Text (List ℕ)
  pub rpc_calls : List (ℕ × Text)
  pub heuristic_topic_nodes : List ℕ
  pub handler_rpc_names : Assoc ℕ Text
  pub next_node_id : ℕ

abbrev pub new : ContractGraph
new = record {
  nodes = [];
  edges = [];
  name_to_nodes = [];
  package_to_nodes = [];
  file_to_nodes = [];
  fqcn_to_node = [];
  reverse_deps = [];
  topic_producers = [];
  topic_consumers = [];
  rpc_calls = [];
  heuristic_topic_nodes = [];
  handler_rpc_names = [];
  next_node_id = 0;
}

pub node_count : ContractGraph → ℕ
node_count g = length g.nodes

pub edge_count : ContractGraph → ℕ
edge_count g = length g.edges

pub file_count : ContractGraph → ℕ
file_count g = length g.file_to_nodes

pub get_node : ContractGraph → ℕ → Option ContractNode
get_node g id = lookup id g.nodes

pub get_nodes_for_file : ContractGraph → FilePath → List ℕ
get_nodes_for_file g path = bucket path g.file_to_nodes

-- `u32` ids: the addition wraps around in a release build
abbrev pub u32_mod : ℕ
u32_mod = 2 ^ 32

abbrev pub is_stream : NodeKind → Bool
is_stream kafka_topic = true
is_stream event_stream = true
is_stream queue = true
is_stream _ = false

abbrev pub is_grpc : NodeKind → Bool
is_grpc grpc_method = true
is_grpc grpc_service = true
is_grpc _ = false

abbrev pub is_empty : Text → Bool
is_empty [] = true
is_empty (c ∷ cs) = false

-- `format!("{}/{}", node.package, node.name)`
abbrev pub fqcn : ContractNode → Text
fqcn node = node.package_name ++ (b'/' ∷ node.name)

abbrev pub has_fqcn : ContractNode → Bool
has_fqcn node = is_grpc node.kind || not (is_empty node.package_name)

abbrev set_insert : ℕ → List ℕ → List ℕ
set_insert id ids = if contains id ids then ids else ids ++ id ∷ []

module _ (lowercase : Text → Text) where
  unfoldable pub add_node : ContractNode → ContractGraph → ContractGraph × ℕ
  add_node node g =
      let id = g.next_node_id in
      let node' = record node { id = id } in
      let by_name = push_at node'.name id g.name_to_nodes in
      (
        record g {
          next_node_id = (id + 1) % u32_mod;
          package_to_nodes =
              if not (is_empty node'.package_name)
              then push_at node'.package_name id g.package_to_nodes
              else g.package_to_nodes;
          file_to_nodes = push_at node'.file_path id g.file_to_nodes;
          fqcn_to_node =
              if has_fqcn node' then push_at (fqcn node') id g.fqcn_to_node else g.fqcn_to_node;
          name_to_nodes =
              if is_stream node'.kind then push_at (lowercase node'.name) id by_name else by_name;
          nodes = insert id node' g.nodes;
        },
        id,
      )

  -- the topic index entry of a new edge, where its target is known
  unfoldable pub link_topic : EdgeKind → ℕ → Option ContractNode → ContractGraph → ContractGraph
  link_topic produces from (some to_node) g = record g {
    topic_producers = push_at (lowercase to_node.name) from g.topic_producers;
  }
  link_topic consumes from (some to_node) g = record g {
    topic_consumers = push_at (lowercase to_node.name) from g.topic_consumers;
  }
  link_topic _ from to g = g

  unfoldable pub add_edge : ContractEdge → ContractGraph → ContractGraph
  unfolding link_topic
  add_edge edge g =
      let linked = link_topic edge.kind edge.from (lookup edge.to g.nodes) g in
      record linked { edges = linked.edges ++ edge ∷ [] }

pub add_dependency : ℕ → Text → ContractGraph → ContractGraph
add_dependency consumer_node_id imported_target g = record g {
  reverse_deps = push_at imported_target consumer_node_id g.reverse_deps;
}

pub mark_heuristic_topic_node : ℕ → ContractGraph → ContractGraph
mark_heuristic_topic_node node_id g = record g {
  heuristic_topic_nodes = set_insert node_id g.heuristic_topic_nodes;
}

pub topic_confidence : ContractGraph → ℕ → EdgeConfidence
topic_confidence g node_id = if contains node_id g.heuristic_topic_nodes then heuristic else exact

pub add_rpc_call : ℕ → Text → ContractGraph → ContractGraph
add_rpc_call caller_node_id target_rpc g = record g {
  rpc_calls = g.rpc_calls ++ (caller_node_id, target_rpc) ∷ [];
}

module _ (is_whitespace : ℕ → Bool) (lowercase : Text → Text) where
  pub add_producer : ℕ → Text → ContractGraph → ContractGraph
  unfolding normalize_topic_key
  add_producer producer_node_id topic g = record g {
    topic_producers =
        push_at (normalize_topic_key is_whitespace lowercase topic) producer_node_id
          g.topic_producers;
  }

  pub add_consumer : ℕ → Text → ContractGraph → ContractGraph
  unfolding normalize_topic_key
  add_consumer consumer_node_id topic g = record g {
    topic_consumers =
        push_at (normalize_topic_key is_whitespace lowercase topic) consumer_node_id
          g.topic_consumers;
  }
