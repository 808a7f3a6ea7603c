-- ===== src/Graph/Keeping.antt =====
-- The indices and the edges after `patch_files` of crates/mesh-core/src/contracts.rs.
use causalmesh.Prelude.{
  ℕ, Bool, true, false, ◌&&◌, not, ◌≡◌, refl, Option, none, some, List, [], ◌∷◌, contains, retain,
  All, if◌then◌else◌, nat_eq, list_eq, list_beq_iff, arith,
}
use causalmesh.Prelude.Assoc.{Assoc, lookup, contains_key}
use causalmesh.Prelude.Buckets.{
  retain_buckets, retain_buckets-IsUnique, contains-retain_buckets, retain_ids-IsUnique,
}
use causalmesh.Prelude.Text.{Text}
use causalmesh.Prelude.Paths.{FilePath, component_eq}
use causalmesh.Graph.{ContractGraph, ContractNode, ContractEdge}
use causalmesh.Graph.Patch.{
  name_keys, package_keys, fqcn_keys, file_keys, gather, drop_node, drop_nodes, remove_nodes, sweep,
  patch_stale, patch_files,
}
use causalmesh.Graph.Indices.{has_key, IsIndex, IsIndexed}
use causalmesh.Graph.Drop.{
  gather-IsUnique, bucket-gather, drop_nodes-IsUnique, lookup-drop_nodes, drop_nodes-covers,
}
use causalmesh.Graph.Removal.{
  is_stale, declared_in, HasFacts, IsIndex-retain, start, gathered, patch_files-Forgets,
}

-- no file of a live node was gathered
declared_false :
    (paths : List FilePath) (f : FilePath) (o : Option ContractNode)
    → declared_in paths o ≡ false
    → contains f paths ≡ true
    → has_key file_keys f o ≡ false
declared_false paths f none d c = refl
declared_false paths f (some n) d c = ground (arith, list_beq_iff n.file_path f)

module _ (lowercase : Text → Text) (paths : List FilePath) (g : ContractGraph)
    (h : IsIndexed lowercase g) where
  abbrev gathered_index : Assoc FilePath (List ℕ)
  gathered_index = (gather paths (g.file_to_nodes, [])).0

  files-gathered :
      (stale : List ℕ) (ks : List FilePath) (nodes' : Assoc ℕ ContractNode)
      → ((i : ℕ) → contains i stale ≡ is_stale g paths i)
      → ((i : ℕ) → lookup i nodes' ≡ (if contains i stale then none else lookup i g.nodes))
      → ((i : ℕ) (k : FilePath)
          → contains i stale ≡ true
          → has_key file_keys k (lookup i g.nodes) ≡ true
          → contains k ks ≡ true)
      → IsIndex file_keys nodes' (retain_buckets stale ks gathered_index)
  files-gathered stale ks nodes' which left covers = record {
    unique =
        retain_buckets-IsUnique stale ks gathered_index
          (gather-IsUnique paths g.file_to_nodes [] h.files.unique);
    exactly = λ k i. ground (
      arith,
      contains-retain_buckets stale ks k i gathered_index
          (gather-IsUnique paths g.file_to_nodes [] h.files.unique),
      bucket-gather k paths g.file_to_nodes [] h.files.unique,
      which i,
      left i,
      covers i k,
      h.files.exactly k i,
      declared_false paths k (lookup i g.nodes),
    );
  }

  -- the collecting loop, at each of the four key sets
  left-after :
      (stale : List ℕ) (i : ℕ)
      → lookup i (drop_nodes lowercase stale (start g)).nodes
        ≡ (if contains i stale then none else lookup i g.nodes)
  left-after stale i = lookup-drop_nodes lowercase stale i (start g) h.unique

  keep_stale :
      (stale : List ℕ)
      → ((i : ℕ) → contains i stale ≡ is_stale g paths i)
      → IsIndexed lowercase (
          sweep lowercase stale
            (remove_nodes lowercase stale (record g { file_to_nodes = gathered_index })))
  unfolding sweep remove_nodes
  keep_stale stale which =
      let d = drop_nodes lowercase stale (start g) in
      record {
        unique = drop_nodes-IsUnique lowercase stale (start g) h.unique;
        below = λ i n found. ground (arith, left-after stale i, h.below i n);
        own_id = λ i n found. ground (arith, left-after stale i, h.own_id i n);
        names =
            IsIndex-retain (name_keys lowercase) stale d.by_name g.nodes d.nodes g.name_to_nodes
              (left-after stale)
              (λ i k.
                drop_nodes-covers lowercase (name_keys lowercase) (λ x. x.by_name)
                  (λ id n x. unfold drop_node in refl) stale (start g) i k h.unique)
              h.names;
        packages =
            IsIndex-retain package_keys stale d.by_package g.nodes d.nodes g.package_to_nodes
              (left-after stale)
              (λ i k.
                drop_nodes-covers lowercase package_keys (λ x. x.by_package)
                  (λ id n x. unfold drop_node in refl) stale (start g) i k h.unique)
              h.packages;
        fqcns =
            IsIndex-retain fqcn_keys stale d.by_fqcn g.nodes d.nodes g.fqcn_to_node
              (left-after stale)
              (λ i k.
                drop_nodes-covers lowercase fqcn_keys (λ x. x.by_fqcn)
                  (λ id n x. unfold drop_node in refl) stale (start g) i k h.unique)
              h.fqcns;
        files = files-gathered stale d.by_file d.nodes which (left-after stale) (λ i k.
            drop_nodes-covers lowercase file_keys (λ x. x.by_file)
              (λ id n x. unfold drop_node in refl) stale (start g) i k h.unique);
      }

  keep_none :
      ((i : ℕ) → contains i [] ≡ is_stale g paths i)
      → IsIndexed lowercase (record g { file_to_nodes = gathered_index })
  unfolding retain_buckets
  keep_none which = record {
    unique = h.unique;
    below = h.below;
    own_id = h.own_id;
    names = h.names;
    packages = h.packages;
    fqcns = h.fqcns;
    files = files-gathered [] [] g.nodes which (λ i. refl) (λ i k s. cc s);
  }

  keep_either :
      (stale : List ℕ)
      → ((i : ℕ) → contains i stale ≡ is_stale g paths i)
      → IsIndexed lowercase (patch_stale lowercase (gathered_index, stale) g)
  unfolding patch_stale
  keep_either [] which = keep_none which
  keep_either (id ∷ stale) which = keep_stale (id ∷ stale) which

  -- In a graph whose indices are exact, patching files keeps them so, whatever the files.
  pub patch_files-IsIndexed : IsIndexed lowercase (patch_files lowercase paths g)
  unfolding patch_files
  patch_files-IsIndexed =
      keep_either (gather paths (g.file_to_nodes, [])).1 (gathered lowercase paths g h)

facts_either :
    (lowercase : Text → Text) (index : Assoc FilePath (List ℕ)) (stale : List ℕ) (g : ContractGraph)
    → HasFacts g
    → HasFacts (patch_stale lowercase (index, stale) g)
unfolding patch_stale
facts_either lowercase index [] g f = record {
  producers = f.producers;
  consumers = f.consumers;
  dependencies = f.dependencies;
}
facts_either lowercase index (id ∷ stale) g f = record {
  producers = retain_ids-IsUnique (id ∷ stale) g.topic_producers f.producers;
  consumers = retain_ids-IsUnique (id ∷ stale) g.topic_consumers f.consumers;
  dependencies = retain_ids-IsUnique (id ∷ stale) g.reverse_deps f.dependencies;
}

pub patch_files-HasFacts :
    (lowercase : Text → Text) (paths : List FilePath) (g : ContractGraph)
    → HasFacts g
    → HasFacts (patch_files lowercase paths g)
unfolding patch_files
patch_files-HasFacts lowercase paths g f =
    let (index, stale) = gather paths (g.file_to_nodes, []) in
    facts_either lowercase index stale g f

-- The node of an id is there.
abbrev pub is_live : ContractGraph → ℕ → Bool
is_live g id = contains_key id g.nodes

-- No edge dangles.
abbrev pub IsAttached : ContractGraph → Type 0
IsAttached g = All (λ e. (is_live g e.from ≡ true) × (is_live g e.to ≡ true)) g.edges

retain-attached :
    (stale : ℕ → Bool) (g g' : ContractGraph)
    → ((id : ℕ) → lookup id g'.nodes ≡ (if stale id then none else lookup id g.nodes))
    → (es : List ContractEdge) → All (λ e. (is_live g e.from ≡ true) × (is_live g e.to ≡ true)) es
    → All
        (λ e. (is_live g' e.from ≡ true) × (is_live g' e.to ≡ true))
        (retain (λ e. not (stale e.from) && not (stale e.to)) es)
retain-attached stale g g' left [] a = tt
retain-attached stale g g' left (e ∷ es) a =
    ground (arith, retain-attached stale g g' left es a.1, left e.from, left e.to, a.0.0, a.0.1)

-- In a graph whose indices are exact and whose maps keyed by target have one entry to a key,
-- patching files leaves no dangling edge where there was none.
pub patch_files-IsAttached :
    (lowercase : Text → Text) (paths : List FilePath) (g : ContractGraph)
    → IsIndexed lowercase g
    → HasFacts g
    → IsAttached g
    → IsAttached (patch_files lowercase paths g)
patch_files-IsAttached lowercase paths g h f a =
    let forgets = patch_files-Forgets lowercase paths g h f in
    let g' = patch_files lowercase paths g in
    rw (forgets.edges) (retain-attached (is_stale g paths) g g' forgets.nodes g.edges a)
