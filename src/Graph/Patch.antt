-- ===== src/Graph/Patch.antt =====
-- Forgetting the nodes of changed files: `patch_files` and `remove_nodes` of
-- crates/mesh-core/src/contracts.rs.
use causalmesh.Prelude.{
  ℕ, ◌&&◌, not, Option, none, some, List, [], ◌∷◌, ◌++◌, contains, retain, if◌then◌else◌, nat_eq,
  list_eq, PartialEq,
}
use causalmesh.Prelude.Assoc.{Assoc, lookup, remove}
use causalmesh.Prelude.Buckets.{bucket, fresh, retain_buckets, retain_ids}
use causalmesh.Prelude.Text.{Text}
use causalmesh.Prelude.Paths.{FilePath, component_eq}
use causalmesh.Graph.{ContractGraph, ContractNode, is_stream, is_empty, fqcn, has_fqcn}

-- `HashSet::extend`
unfoldable pub extend_set {ℓ} : {A : Type ℓ} ⦃e : PartialEq A⦄ → List A → List A → List A
extend_set set [] = set
extend_set set (x ∷ xs) = extend_set (if contains x set then set else set ++ x ∷ []) xs

-- the first loop of `patch_files`: the file index without the paths, and the ids found there
unfoldable pub gather :
    List FilePath → Assoc FilePath (List ℕ) × List ℕ → Assoc FilePath (List ℕ) × List ℕ
unfolding extend_set
gather [] found = found
gather (path ∷ paths) (index, stale) =
    gather paths (remove path index, extend_set stale (bucket path index))

-- The index keys of the removed nodes, and the nodes that are left.
pub record Dropped : Type 0 where
  pub nodes : Assoc ℕ ContractNode
  pub by_name : List Text
  pub by_package : List Text
  pub by_fqcn : List Text
  pub by_file : List FilePath

-- The keys under which a node is filed in each index.
abbrev pub package_keys : ContractNode → List Text
package_keys n = if not (is_empty n.package_name) then n.package_name ∷ [] else []

abbrev pub fqcn_keys : ContractNode → List Text
fqcn_keys n = if has_fqcn n then fqcn n ∷ [] else []

abbrev pub file_keys : ContractNode → List FilePath
file_keys n = n.file_path ∷ []

module _ (lowercase : Text → Text) where
  abbrev pub name_keys : ContractNode → List Text
  name_keys n = n.name ∷ (if is_stream n.kind then lowercase n.name ∷ [] else [])

  unfoldable pub drop_node : ℕ → Option ContractNode → Dropped → Dropped
  unfolding extend_set
  drop_node id none d = d
  drop_node id (some node) d = record {
    nodes = remove id d.nodes;
    by_name = extend_set d.by_name (name_keys node);
    by_package = extend_set d.by_package (package_keys node);
    by_fqcn = extend_set d.by_fqcn (fqcn_keys node);
    by_file = extend_set d.by_file (file_keys node);
  }

  unfoldable pub drop_nodes : List ℕ → Dropped → Dropped
  unfolding drop_node
  drop_nodes [] d = d
  drop_nodes (id ∷ stale) d = drop_nodes stale (drop_node id (lookup id d.nodes) d)

  unfoldable pub remove_nodes : List ℕ → ContractGraph → ContractGraph
  unfolding drop_nodes
  remove_nodes stale g =
      let d =
        drop_nodes stale
          (record { nodes = g.nodes; by_name = []; by_package = []; by_fqcn = []; by_file = [] }) in
      record g {
        nodes = d.nodes;
        name_to_nodes = retain_buckets stale d.by_name g.name_to_nodes;
        package_to_nodes = retain_buckets stale d.by_package g.package_to_nodes;
        fqcn_to_node = retain_buckets stale d.by_fqcn g.fqcn_to_node;
        file_to_nodes = retain_buckets stale d.by_file g.file_to_nodes;
      }

  -- the sweep of `patch_files` over what is keyed by target
  unfoldable pub sweep : List ℕ → ContractGraph → ContractGraph
  sweep stale g = record g {
    reverse_deps = retain_ids stale g.reverse_deps;
    topic_producers = retain_ids stale g.topic_producers;
    topic_consumers = retain_ids stale g.topic_consumers;
    rpc_calls = retain (λ c. not (contains c.0 stale)) g.rpc_calls;
    heuristic_topic_nodes = fresh stale g.heuristic_topic_nodes;
    edges = retain (λ e. not (contains e.from stale) && not (contains e.to stale)) g.edges;
  }

  unfoldable pub patch_stale : Assoc FilePath (List ℕ) × List ℕ → ContractGraph → ContractGraph
  unfolding remove_nodes sweep
  patch_stale (index, []) g = record g { file_to_nodes = index }
  patch_stale (index, id ∷ stale) g =
      sweep (id ∷ stale) (remove_nodes (id ∷ stale) (record g { file_to_nodes = index }))

  unfoldable pub patch_files : List FilePath → ContractGraph → ContractGraph
  unfolding gather patch_stale
  patch_files file_paths g = patch_stale (gather file_paths (g.file_to_nodes, [])) g

  unfoldable pub patch_file : FilePath → ContractGraph → ContractGraph
  unfolding patch_files
  patch_file file_path g = patch_files (file_path ∷ []) g
