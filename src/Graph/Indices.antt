-- ===== src/Graph/Indices.antt =====
-- What the indices of crates/mesh-core/src/contracts.rs hold, and `add_node` on them.
use causalmesh.Prelude.{
  ℕ, ◌+◌, ◌<◌, Bool, true, false, not, ◌≡◌, refl, Option, none, some, List, [], ◌∷◌, contains,
  if◌then◌else◌, nat_eq, list_eq, PartialEq, arith, Option-cases, inl, inr,
}
use causalmesh.Prelude.Assoc.{Assoc, lookup, insert, IsUnique, lookup-insert, insert-IsUnique}
use causalmesh.Prelude.Buckets.{bucket, push_at, push_all, contains-push_all, push_all-IsUnique}
use causalmesh.Prelude.Text.{Text}
use causalmesh.Prelude.Paths.{component_eq}
use causalmesh.Graph.{
  ContractGraph, ContractNode, add_node, u32_mod, new, is_stream, is_empty, fqcn, has_fqcn,
}
use causalmesh.Graph.Patch.{name_keys, package_keys, fqcn_keys, file_keys}

module _ {K : Type 0} ⦃e : PartialEq K⦄ (keys : ContractNode → List K) where
  -- The key is one of the node's, if there is a node.
  abbrev pub has_key : K → Option ContractNode → Bool
  has_key k none = false
  has_key k (some n) = contains k (keys n)

  -- The bucket of a key holds exactly the ids of the nodes with that key.
  pub record IsIndex (nodes : Assoc ℕ ContractNode) (index : Assoc K (List ℕ)) : Type 0 where
    pub unique : IsUnique index
    pub exactly : (k : K) (id : ℕ) → contains id (bucket k index) ≡ has_key k (lookup id nodes)

  pub IsIndex-insert :
      (nodes : Assoc ℕ ContractNode) (index : Assoc K (List ℕ)) (id : ℕ) (n : ContractNode)
      → lookup id nodes ≡ none
      → IsIndex nodes index
      → IsIndex (insert id n nodes) (push_all (keys n) id index)
  IsIndex-insert nodes index id n absent h = record {
    unique = push_all-IsUnique (keys n) id index h.unique;
    exactly = λ k i.
        ground (
          arith,
          contains-push_all (keys n) k id i index,
          lookup-insert id i n nodes,
          h.exactly k i,
        );
  }

push_all_if :
    {K : Type 0} ⦃e : PartialEq K⦄ (b : Bool) (k : K) (id : ℕ) (m : Assoc K (List ℕ))
    → push_all (if b then k ∷ [] else []) id m ≡ (if b then push_at k id m else m)
push_all_if true k id m = refl
push_all_if false k id m = refl

module _ (lowercase : Text → Text) where
  -- Every index is exact, every node carries the id that it stands under, and ids are below the
  -- next one.
  pub record IsIndexed (g : ContractGraph) : Type 0 where
    pub unique : IsUnique g.nodes
    pub below : (id : ℕ) (n : ContractNode) → lookup id g.nodes ≡ some n → id < g.next_node_id
    pub own_id : (id : ℕ) (n : ContractNode) → lookup id g.nodes ≡ some n → n.id ≡ id
    pub names : IsIndex (name_keys lowercase) g.nodes g.name_to_nodes
    pub packages : IsIndex package_keys g.nodes g.package_to_nodes
    pub fqcns : IsIndex fqcn_keys g.nodes g.fqcn_to_node
    pub files : IsIndex file_keys g.nodes g.file_to_nodes

  pub new-IsIndexed : IsIndexed new
  new-IsIndexed = record {
    unique = tt;
    below = λ id n found. cc found;
    own_id = λ id n found. cc found;
    names = record { unique = tt; exactly = λ k id. refl };
    packages = record { unique = tt; exactly = λ k id. refl };
    fqcns = record { unique = tt; exactly = λ k id. refl };
    files = record { unique = tt; exactly = λ k id. refl };
  }

  next-absent : (g : ContractGraph) → IsIndexed g → lookup g.next_node_id g.nodes ≡ none
  next-absent g h = elim (Option-cases (lookup g.next_node_id g.nodes)) [
    | inl absent ↦ absent
    | inr (n, found) ↦ absurd (omega (arith, h.below g.next_node_id n found))
  ]

  -- Adding a node to a graph whose indices are exact keeps them so, while ids remain.
  pub add_node-IsIndexed :
      (node : ContractNode) (g : ContractGraph)
      → g.next_node_id + 1 < u32_mod
      → IsIndexed g
      → IsIndexed (add_node lowercase node g).0
  unfolding add_node
  add_node-IsIndexed node g room h =
      let id = g.next_node_id in
      let node' = record node { id = id } in
      let absent : lookup id g.nodes ≡ none = next-absent g h in
      record {
        unique = insert-IsUnique id node' g.nodes h.unique;
        below = λ i n found. ground (arith, lookup-insert id i node' g.nodes, h.below i n);
        own_id = λ i n found. ground (arith, lookup-insert id i node' g.nodes, h.own_id i n);
        names =
            rw (← push_all_if (is_stream node.kind) (lowercase node.name) id _) (
              IsIndex-insert (name_keys lowercase) g.nodes g.name_to_nodes id node' absent h.names);
        packages =
            rw (← push_all_if (not (is_empty node.package_name)) node.package_name id _)
              (IsIndex-insert package_keys g.nodes g.package_to_nodes id node' absent h.packages);
        fqcns =
            rw (← push_all_if (has_fqcn node) (fqcn node) id _)
              (IsIndex-insert fqcn_keys g.nodes g.fqcn_to_node id node' absent h.fqcns);
        files = IsIndex-insert file_keys g.nodes g.file_to_nodes id node' absent h.files;
      }
