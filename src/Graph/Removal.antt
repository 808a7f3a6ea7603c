-- ===== src/Graph/Removal.antt =====
-- What `patch_files` of crates/mesh-core/src/contracts.rs forgets.
use mathlib.Core.Path.{fun_ext, subst}
use causalmesh.Prelude.{
  ℕ, Bool, true, false, ◌&&◌, not, ◌≡◌, refl, sym, ap, ◌∙◌, Option, none, some, List, [], ◌∷◌,
  contains, retain, if◌then◌else◌, nat_eq, list_eq, list_beq_iff, PartialEq, arith, inl, inr,
  Option-cases,
}
use causalmesh.Prelude.Assoc.{Assoc, lookup, IsUnique}
use causalmesh.Prelude.Buckets.{
  bucket, retain_buckets, retain_buckets-IsUnique, contains-retain_buckets, bucket-retain_ids,
}
use causalmesh.Prelude.Text.{Text}
use causalmesh.Prelude.Paths.{FilePath, component_eq}
use causalmesh.Graph.{ContractGraph, ContractNode}
use causalmesh.Graph.Patch.{
  Dropped, file_keys, gather, remove_nodes, sweep, patch_stale, patch_files,
}
use causalmesh.Graph.Indices.{has_key, IsIndex, IsIndexed}
use causalmesh.Graph.Drop.{filed_under, contains-gather, lookup-drop_nodes}

-- The node, if there is one, is declared in one of the files.
abbrev pub declared_in : List FilePath → Option ContractNode → Bool
declared_in paths none = false
declared_in paths (some n) = contains n.file_path paths

abbrev pub is_stale : ContractGraph → List FilePath → ℕ → Bool
is_stale g paths id = declared_in paths (lookup id g.nodes)

-- What is left of a graph when the nodes that a test picks are forgotten: no such node, no edge
-- from or to one, and none of their facts; all else is as before.
pub record Forgets (stale : ℕ → Bool) (g g' : ContractGraph) : Type 0 where
  pub nodes : (id : ℕ) → lookup id g'.nodes ≡ (if stale id then none else lookup id g.nodes)
  pub edges : g'.edges ≡ retain (λ e. not (stale e.from) && not (stale e.to)) g.edges
  pub rpc_calls : g'.rpc_calls ≡ retain (λ c. not (stale c.0)) g.rpc_calls
  pub heuristics : g'.heuristic_topic_nodes ≡ retain (λ id. not (stale id)) g.heuristic_topic_nodes
  pub producers :
      (k : Text)
      → bucket k g'.topic_producers ≡ retain (λ id. not (stale id)) (bucket k g.topic_producers)
  pub consumers :
      (k : Text)
      → bucket k g'.topic_consumers ≡ retain (λ id. not (stale id)) (bucket k g.topic_consumers)
  pub dependencies :
      (k : Text)
      → bucket k g'.reverse_deps ≡ retain (λ id. not (stale id)) (bucket k g.reverse_deps)
  pub next_id : g'.next_node_id ≡ g.next_node_id

-- The maps keyed by target have one entry to a key.
pub record HasFacts (g : ContractGraph) : Type 0 where
  pub producers : IsUnique g.topic_producers
  pub consumers : IsUnique g.topic_consumers
  pub dependencies : IsUnique g.reverse_deps

retain-true {ℓ} : {A : Type ℓ} (xs : List A) → retain (λ x. true) xs ≡ xs
retain-true [] = refl
retain-true (x ∷ xs) = ap (◌∷◌ x) (retain-true xs)

any_filed :
    (id : ℕ) (nodes : Assoc ℕ ContractNode) (index : Assoc FilePath (List ℕ))
    (paths : List FilePath)
    → IsIndex file_keys nodes index
    → filed_under id index paths ≡ declared_in paths (lookup id nodes)
any_filed id nodes index [] h = elim (Option-cases (lookup id nodes)) [
  | inl e ↦ rw e
  | inr (n, e) ↦ rw e
]
any_filed id nodes index (p ∷ paths) h = elim (Option-cases (lookup id nodes)) [
  | inl e ↦ ground (arith, any_filed id nodes index paths h, h.exactly p id)
  | inr (n, e) ↦ ground (
    arith,
    any_filed id nodes index paths h,
    h.exactly p id,
    list_beq_iff p n.file_path,
    list_beq_iff n.file_path p,
  )
]

module _ {K : Type 0} ⦃e : PartialEq K⦄ (keys : ContractNode → List K) where
  -- An index from which the stale ids went, in every bucket that could hold one.
  pub IsIndex-retain :
      (stale : List ℕ) (ks : List K) (nodes nodes' : Assoc ℕ ContractNode)
      (index : Assoc K (List ℕ))
      → ((i : ℕ) → lookup i nodes' ≡ (if contains i stale then none else lookup i nodes))
      → ((i : ℕ) (k : K)
          → contains i stale ≡ true
          → has_key keys k (lookup i nodes) ≡ true
          → contains k ks ≡ true)
      → IsIndex keys nodes index
      → IsIndex keys nodes' (retain_buckets stale ks index)
  IsIndex-retain stale ks nodes nodes' index left covers h = record {
    unique = retain_buckets-IsUnique stale ks index h.unique;
    exactly = λ k i. ground (
      arith,
      contains-retain_buckets stale ks k i index h.unique,
      left i,
      covers i k,
      h.exactly k i,
    );
  }

abbrev pub start : ContractGraph → Dropped
start g = record { nodes = g.nodes; by_name = []; by_package = []; by_fqcn = []; by_file = [] }

module _ (lowercase : Text → Text) where
  forgotten :
      (stale : List ℕ) (index : Assoc FilePath (List ℕ)) (g : ContractGraph)
      → IsUnique g.nodes
      → HasFacts g
      → Forgets
          (λ id. contains id stale)
          g
          (sweep lowercase stale
            (remove_nodes lowercase stale (record g { file_to_nodes = index })))
  unfolding sweep remove_nodes
  forgotten stale index g u h = record {
    nodes = λ id. lookup-drop_nodes lowercase stale id (start g) u;
    edges = refl;
    rpc_calls = refl;
    heuristics = refl;
    producers = λ k. bucket-retain_ids stale k g.topic_producers h.producers;
    consumers = λ k. bucket-retain_ids stale k g.topic_consumers h.consumers;
    dependencies = λ k. bucket-retain_ids stale k g.reverse_deps h.dependencies;
    next_id = refl;
  }

  nothing_stale :
      (index : Assoc FilePath (List ℕ)) (g : ContractGraph)
      → Forgets (λ id. contains id []) g (record g { file_to_nodes = index })
  nothing_stale index g = record {
    nodes = λ id. refl;
    edges = sym (retain-true g.edges);
    rpc_calls = sym (retain-true g.rpc_calls);
    heuristics = sym (retain-true g.heuristic_topic_nodes);
    producers = λ k. sym (retain-true (bucket k g.topic_producers));
    consumers = λ k. sym (retain-true (bucket k g.topic_consumers));
    dependencies = λ k. sym (retain-true (bucket k g.reverse_deps));
    next_id = refl;
  }

  patch_stale-Forgets :
      (stale : List ℕ) (index : Assoc FilePath (List ℕ)) (g : ContractGraph)
      → IsUnique g.nodes
      → HasFacts g
      → Forgets (λ id. contains id stale) g (patch_stale lowercase (index, stale) g)
  unfolding patch_stale
  patch_stale-Forgets [] index g u h = nothing_stale index g
  patch_stale-Forgets (id ∷ stale) index g u h = forgotten (id ∷ stale) index g u h

  pub gathered :
      (paths : List FilePath) (g : ContractGraph)
      → IsIndexed lowercase g
      → (id : ℕ) → contains id (gather paths (g.file_to_nodes, [])).1 ≡ is_stale g paths id
  gathered paths g h id =
      contains-gather id paths g.file_to_nodes [] h.files.unique
      ∙ any_filed id g.nodes g.file_to_nodes paths h.files

  -- In a graph whose indices are exact, and whose maps keyed by target have one entry to a key,
  -- patching some files forgets exactly the nodes that are declared in them, with every edge
  -- from or to such a node and every fact about one; every other node, edge and fact stays.
  pub patch_files-Forgets :
      (paths : List FilePath) (g : ContractGraph)
      → IsIndexed lowercase g
      → HasFacts g
      → Forgets (is_stale g paths) g (patch_files lowercase paths g)
  unfolding patch_files
  patch_files-Forgets paths g h facts =
      let (index, stale) = gather paths (g.file_to_nodes, []) in
      subst (λ (t : ℕ → Bool). Forgets t g (patch_stale lowercase (index, stale) g))
        (fun_ext (gathered paths g h)) (patch_stale-Forgets stale index g h.unique facts)
