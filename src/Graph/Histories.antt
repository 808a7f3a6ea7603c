-- ===== src/Graph/Histories.antt =====
-- Any sequence of calls of the graph operations of crates/mesh-core/src/contracts.rs.
use causalmesh.Prelude.{
  Bool, ℕ, suc, ◌+◌, ◌≤◌, ◌<◌, ◌≡◌, refl, List, [], ◌∷◌, length, arith, some, Option, nat_eq,
  list_eq,
}
use causalmesh.Prelude.Assoc.{Assoc, lookup, insert-IsUnique}
use causalmesh.Prelude.Text.{Text}
use causalmesh.Prelude.Paths.{FilePath}
use causalmesh.Graph.{
  ContractGraph, ContractNode, ContractEdge, EdgeKind, produces, consumes, new, u32_mod, link_topic,
  add_node, add_edge, add_dependency, add_producer, add_consumer, mark_heuristic_topic_node,
  add_rpc_call,
}
use causalmesh.Graph.Patch.{patch_files}
use causalmesh.Graph.Indices.{IsIndexed, new-IsIndexed, add_node-IsIndexed}
use causalmesh.Graph.Removal.{HasFacts, patch_files-Forgets}
use causalmesh.Graph.Keeping.{patch_files-IsIndexed, patch_files-HasFacts}

pub data Call : Type 0 where
  node_call : ContractNode → Call
  edge_call : ContractEdge → Call
  dependency_call : ℕ → Text → Call
  producer_call : ℕ → Text → Call
  consumer_call : ℕ → Text → Call
  heuristic_call : ℕ → Call
  rpc_call : ℕ → Text → Call
  patch_call : List FilePath → Call

module _ (is_whitespace : ℕ → Bool) (lowercase : Text → Text) where
  pub step : Call → ContractGraph → ContractGraph
  step (node_call n) g = (add_node lowercase n g).0
  step (edge_call e) g = add_edge lowercase e g
  step (dependency_call id t) g = add_dependency id t g
  step (producer_call id t) g = add_producer is_whitespace lowercase id t g
  step (consumer_call id t) g = add_consumer is_whitespace lowercase id t g
  step (heuristic_call id) g = mark_heuristic_topic_node id g
  step (rpc_call id t) g = add_rpc_call id t g
  step (patch_call paths) g = patch_files lowercase paths g

  -- The graph after a history, whose newest call stands first.
  unfoldable pub run : List Call → ContractGraph
  unfolding step
  run [] = new
  run (c ∷ older) = step c (run older)

  -- The nodes and their indices are exact, the maps keyed by target have one entry to a key, and
  -- at most `n` ids were given.
  pub record IsSound (n : ℕ) (g : ContractGraph) : Type 0 where
    pub indexed : IsIndexed lowercase g
    pub facts : HasFacts g
    pub ids : g.next_node_id ≤ n

  -- A call that touches no node and no index.
  record Same (g g' : ContractGraph) : Type 0 where
    nodes : g'.nodes ≡ g.nodes
    next_id : g'.next_node_id ≡ g.next_node_id
    names : g'.name_to_nodes ≡ g.name_to_nodes
    packages : g'.package_to_nodes ≡ g.package_to_nodes
    fqcns : g'.fqcn_to_node ≡ g.fqcn_to_node
    files : g'.file_to_nodes ≡ g.file_to_nodes

  carry :
      {g : ContractGraph} (g' : ContractGraph)
      → IsIndexed lowercase g
      → Same g g'
      → IsIndexed lowercase g'
  carry g' h s = record {
    unique = rw s.nodes h.unique;
    below = rw s.nodes (rw s.next_id h.below);
    own_id = rw s.nodes h.own_id;
    names = rw s.nodes (rw s.names h.names);
    packages = rw s.nodes (rw s.packages h.packages);
    fqcns = rw s.nodes (rw s.fqcns h.fqcns);
    files = rw s.nodes (rw s.files h.files);
  }

  retarget :
      (g : ContractGraph) (p c d : Assoc Text (List ℕ)) (r : List (ℕ × Text)) (u : List ℕ)
      → Same g (record g {
        topic_producers = p;
        topic_consumers = c;
        reverse_deps = d;
        rpc_calls = r;
        heuristic_topic_nodes = u;
      })
  retarget g p c d r u = record {
    nodes = refl;
    next_id = refl;
    names = refl;
    packages = refl;
    fqcns = refl;
    files = refl;
  }

  link_topic-Same :
      (kind : EdgeKind) (from : ℕ) (to : Option ContractNode) (g : ContractGraph)
      → Same g (link_topic lowercase kind from to g)
  unfolding link_topic
  link_topic-Same produces from (some n) g = retarget g _ _ _ _ _
  link_topic-Same consumes from (some n) g = retarget g _ _ _ _ _
  link_topic-Same _ from to g = retarget g _ _ _ _ _

  link_topic-HasFacts :
      (kind : EdgeKind) (from : ℕ) (to : Option ContractNode) (g : ContractGraph)
      → HasFacts g
      → HasFacts (link_topic lowercase kind from to g)
  unfolding link_topic
  link_topic-HasFacts produces from (some n) g f = record {
    producers = insert-IsUnique _ _ g.topic_producers f.producers;
    consumers = f.consumers;
    dependencies = f.dependencies;
  }
  link_topic-HasFacts consumes from (some n) g f = record {
    producers = f.producers;
    consumers = insert-IsUnique _ _ g.topic_consumers f.consumers;
    dependencies = f.dependencies;
  }
  link_topic-HasFacts _ from to g f = f

  step-IsSound :
      (c : Call) (n : ℕ) (g : ContractGraph)
      → n + 1 < u32_mod
      → IsSound n g
      → IsSound (suc n) (step c g)
  unfolding step
  step-IsSound (node_call node) n g room s = record {
    indexed = add_node-IsIndexed lowercase node g (omega arith) s.indexed;
    facts =
        unfold add_node in
        record {
          producers = s.facts.producers;
          consumers = s.facts.consumers;
          dependencies = s.facts.dependencies;
        };
    ids = unfold add_node in omega arith;
  }
  step-IsSound (edge_call e) n g room s =
      let linked = link_topic-Same e.kind e.from (lookup e.to g.nodes) g in
      let f = link_topic-HasFacts e.kind e.from (lookup e.to g.nodes) g s.facts in
      unfold add_edge in
      record {
        indexed = carry _ s.indexed (record {
          nodes = linked.nodes;
          next_id = linked.next_id;
          names = linked.names;
          packages = linked.packages;
          fqcns = linked.fqcns;
          files = linked.files;
        });
        facts = record {
          producers = f.producers;
          consumers = f.consumers;
          dependencies = f.dependencies;
        };
        ids = omega (arith, linked.next_id, s.ids);
      }
  step-IsSound (dependency_call id t) n g room s =
      unfold add_dependency in
      record {
        indexed = carry _ s.indexed (retarget g _ _ _ _ _);
        facts = record {
          producers = s.facts.producers;
          consumers = s.facts.consumers;
          dependencies = insert-IsUnique _ _ g.reverse_deps s.facts.dependencies;
        };
        ids = omega (arith, s.ids);
      }
  step-IsSound (producer_call id t) n g room s =
      unfold add_producer in
      record {
        indexed = carry _ s.indexed (retarget g _ _ _ _ _);
        facts = record {
          producers = insert-IsUnique _ _ g.topic_producers s.facts.producers;
          consumers = s.facts.consumers;
          dependencies = s.facts.dependencies;
        };
        ids = omega (arith, s.ids);
      }
  step-IsSound (consumer_call id t) n g room s =
      unfold add_consumer in
      record {
        indexed = carry _ s.indexed (retarget g _ _ _ _ _);
        facts = record {
          producers = s.facts.producers;
          consumers = insert-IsUnique _ _ g.topic_consumers s.facts.consumers;
          dependencies = s.facts.dependencies;
        };
        ids = omega (arith, s.ids);
      }
  step-IsSound (heuristic_call id) n g room s =
      unfold mark_heuristic_topic_node in
      record {
        indexed = carry _ s.indexed (retarget g _ _ _ _ _);
        facts = record {
          producers = s.facts.producers;
          consumers = s.facts.consumers;
          dependencies = s.facts.dependencies;
        };
        ids = omega (arith, s.ids);
      }
  step-IsSound (rpc_call id t) n g room s =
      unfold add_rpc_call in
      record {
        indexed = carry _ s.indexed (retarget g _ _ _ _ _);
        facts = record {
          producers = s.facts.producers;
          consumers = s.facts.consumers;
          dependencies = s.facts.dependencies;
        };
        ids = omega (arith, s.ids);
      }
  step-IsSound (patch_call paths) n g room s = record {
    indexed = patch_files-IsIndexed lowercase paths g s.indexed;
    facts = patch_files-HasFacts lowercase paths g s.facts;
    ids = omega (arith, (patch_files-Forgets lowercase paths g s.indexed s.facts).next_id);
  }

  -- After any sequence of at most 2^32 - 2 calls from the empty graph, every index holds exactly
  -- the ids of the nodes with its key, and the maps keyed by target have one entry to a key.
  pub run-IsSound : (h : List Call) → length h + 1 < u32_mod → IsSound (length h) (run h)
  unfolding run
  run-IsSound [] room = record {
    indexed = new-IsIndexed lowercase;
    facts = record { producers = tt; consumers = tt; dependencies = tt };
    ids = omega arith;
  }
  run-IsSound (c ∷ h) room =
      step-IsSound c (length h) (run h) (omega arith) (run-IsSound h (omega arith))
