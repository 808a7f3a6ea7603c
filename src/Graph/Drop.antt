-- ===== src/Graph/Drop.antt =====
-- The two collecting loops of `patch_files` and `remove_nodes` in
-- crates/mesh-core/src/contracts.rs: the stale ids, the nodes that are left, and the
-- index keys of the removed ones.
use causalmesh.Prelude.{
  ℕ, Bool, true, false, ◌||◌, ◌≡◌, refl, Option, none, some, List, [], ◌∷◌, ◌++◌, contains, any,
  contains-append, if◌then◌else◌, ◌==◌, nat_eq, nat_beq_iff, list_eq, list_beq_iff, PartialEq,
  arith,
}
use causalmesh.Prelude.Assoc.{Assoc, lookup, remove, IsUnique, lookup-remove, remove-IsUnique}
use causalmesh.Prelude.Buckets.{bucket}
use causalmesh.Prelude.Text.{Text}
use causalmesh.Prelude.Paths.{FilePath, component_eq}
use causalmesh.Graph.{ContractNode}
use causalmesh.Graph.Patch.{Dropped, extend_set, gather, drop_node, drop_nodes}
use causalmesh.Graph.Indices.{has_key}

pub contains-extend_set {ℓ} :
    {A : Type ℓ} ⦃e : PartialEq A⦄ (a : A) (set xs : List A)
    → contains a (extend_set set xs) ≡ (contains a set || contains a xs)
unfolding extend_set
contains-extend_set a set [] = ground arith
contains-extend_set ⦃e⦄ a set (x ∷ xs) = ground (
  arith,
  contains-extend_set a (if contains x set then set else set ++ x ∷ []) xs,
  contains-append a set (x ∷ []),
  e.eq_iff x a,
)

-- some of the paths has the id in its bucket
abbrev pub filed_under : ℕ → Assoc FilePath (List ℕ) → List FilePath → Bool
filed_under id index = any (λ f. contains id (bucket f index))

filed_under-remove :
    (id : ℕ) (p : FilePath) (index : Assoc FilePath (List ℕ)) (paths : List FilePath)
    → IsUnique index
    → contains id (bucket p index) ≡ false
    → filed_under id (remove p index) paths ≡ filed_under id index paths
filed_under-remove id p index [] u h = refl
filed_under-remove id p index (f ∷ paths) u h =
    ground
      (arith, filed_under-remove id p index paths u h, lookup-remove p f index u, list_beq_iff p f)

pub contains-gather :
    (id : ℕ) (paths : List FilePath) (index : Assoc FilePath (List ℕ)) (stale : List ℕ)
    → IsUnique index
    → contains id (gather paths (index, stale)).1
      ≡ (contains id stale || filed_under id index paths)
unfolding gather
contains-gather id [] index stale u = ground arith
contains-gather id (p ∷ paths) index stale u = ground (
  arith,
  contains-gather id paths (remove p index) (extend_set stale (bucket p index))
      (remove-IsUnique p index u),
  contains-extend_set id stale (bucket p index),
  filed_under-remove id p index paths u,
)

pub gather-IsUnique :
    (paths : List FilePath) (index : Assoc FilePath (List ℕ)) (stale : List ℕ)
    → IsUnique index
    → IsUnique (gather paths (index, stale)).0
unfolding gather
gather-IsUnique [] index stale u = u
gather-IsUnique (p ∷ paths) index stale u =
    gather-IsUnique paths (remove p index) (extend_set stale (bucket p index))
      (remove-IsUnique p index u)

pub bucket-gather :
    (f : FilePath) (paths : List FilePath) (index : Assoc FilePath (List ℕ)) (stale : List ℕ)
    → IsUnique index
    → bucket f (gather paths (index, stale)).0 ≡ (if contains f paths then [] else bucket f index)
unfolding gather
bucket-gather f [] index stale u = refl
bucket-gather f (p ∷ paths) index stale u = ground (
  arith,
  bucket-gather f paths (remove p index) (extend_set stale (bucket p index))
      (remove-IsUnique p index u),
  lookup-remove p f index u,
)

module _ (lowercase : Text → Text) where
  lookup-drop_node :
      (id i : ℕ) (d : Dropped)
      → IsUnique d.nodes
      → lookup i (drop_node lowercase id (lookup id d.nodes) d).nodes
        ≡ (if id == i then none else lookup i d.nodes)
  unfolding drop_node
  lookup-drop_node id i d u = ground (arith, lookup-remove id i d.nodes u)

  drop_node-IsUnique :
      (id : ℕ) (o : Option ContractNode) (d : Dropped)
      → IsUnique d.nodes
      → IsUnique (drop_node lowercase id o d).nodes
  unfolding drop_node
  drop_node-IsUnique id none d u = u
  drop_node-IsUnique id (some n) d u = remove-IsUnique id d.nodes u

  pub drop_nodes-IsUnique :
      (stale : List ℕ) (d : Dropped)
      → IsUnique d.nodes
      → IsUnique (drop_nodes lowercase stale d).nodes
  unfolding drop_nodes
  drop_nodes-IsUnique [] d u = u
  drop_nodes-IsUnique (id ∷ stale) d u =
      drop_nodes-IsUnique stale (drop_node lowercase id (lookup id d.nodes) d)
        (drop_node-IsUnique id (lookup id d.nodes) d u)

  pub lookup-drop_nodes :
      (stale : List ℕ) (i : ℕ) (d : Dropped)
      → IsUnique d.nodes
      → lookup i (drop_nodes lowercase stale d).nodes
        ≡ (if contains i stale then none else lookup i d.nodes)
  unfolding drop_nodes
  lookup-drop_nodes [] i d u = refl
  lookup-drop_nodes (id ∷ stale) i d u = ground (
    arith,
    lookup-drop_nodes stale i (drop_node lowercase id (lookup id d.nodes) d)
        (drop_node-IsUnique id (lookup id d.nodes) d u),
    lookup-drop_node id i d u,
  )

  -- One of the four collected key sets.
  module _ {K : Type 0} ⦃e : PartialEq K⦄ (keys : ContractNode → List K)
      (collected : Dropped → List K)
      (collects : (id : ℕ) (n : ContractNode) (d : Dropped)
        → collected (drop_node lowercase id (some n) d) ≡ extend_set (collected d) (keys n)) where
    drop_node-grows :
        (id : ℕ) (o : Option ContractNode) (d : Dropped) (k : K)
        → contains k (collected (drop_node lowercase id o d))
          ≡ (contains k (collected d) || has_key keys k o)
    drop_node-grows id none d k = unfold drop_node in ground arith
    drop_node-grows id (some n) d k =
        ground (arith, collects id n d, contains-extend_set k (collected d) (keys n))

    drop_nodes-grows :
        (stale : List ℕ) (d : Dropped) (k : K)
        → contains k (collected d) ≡ true
        → contains k (collected (drop_nodes lowercase stale d)) ≡ true
    unfolding drop_nodes
    drop_nodes-grows [] d k h = h
    drop_nodes-grows (id ∷ stale) d k h =
        drop_nodes-grows stale (drop_node lowercase id (lookup id d.nodes) d) k
          (ground (arith, drop_node-grows id (lookup id d.nodes) d k))

    pub drop_nodes-covers :
        (stale : List ℕ) (d : Dropped) (i : ℕ) (k : K)
        → IsUnique d.nodes
        → contains i stale ≡ true
        → has_key keys k (lookup i d.nodes) ≡ true
        → contains k (collected (drop_nodes lowercase stale d)) ≡ true
    unfolding drop_nodes
    drop_nodes-covers [] d i k u s h = cc s
    drop_nodes-covers (id ∷ stale) d i k u s h = ground (
      arith,
      nat_beq_iff id i,
      drop_node-grows id (lookup id d.nodes) d k,
      drop_nodes-grows stale (drop_node lowercase id (lookup id d.nodes) d) k,
      lookup-drop_node id i d u,
      drop_nodes-covers stale (drop_node lowercase id (lookup id d.nodes) d) i k
          (drop_node-IsUnique id (lookup id d.nodes) d u),
    )
