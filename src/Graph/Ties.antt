-- ===== src/Graph/Ties.antt =====
-- How crates/mesh-core/src/contracts.rs breaks ties between candidates, by the importer's
-- repository or by the caller's package, and weighs the confidence of what it found.
pub mod Grading
use causalmesh.Prelude.{
  ℕ, Bool, true, false, Option, none, some, List, [], ◌∷◌, map, length, retain, leb, ltb,
  if◌then◌else◌, ◌==◌, nat_eq, list_eq,
}
use causalmesh.Prelude.Assoc.{Assoc, lookup}
use causalmesh.Prelude.Buckets.{bucket, push_at}
use causalmesh.Prelude.Text.{Text}
use causalmesh.Graph.{ContractGraph, ContractNode, EdgeConfidence, exact, heuristic, ambiguous}

abbrev pub Picked : Type 0
Picked = List (ℕ × EdgeConfidence)

abbrev pub all_ambiguous : List ℕ → Picked
all_ambiguous = map (λ id. (id, ambiguous))

-- what both `pick_or_ambiguous` do with the candidates of the caller's own group
abbrev pub pick_among : List ℕ → List ℕ → EdgeConfidence → Picked
pick_among ids [] confidence_if_unique = all_ambiguous ids
pick_among ids (only ∷ []) confidence_if_unique = (only, confidence_if_unique) ∷ []
pick_among ids (a ∷ b ∷ same) confidence_if_unique = all_ambiguous (a ∷ b ∷ same)

abbrev pub repo_of : Assoc ℕ ContractNode → ℕ → Option ℕ
repo_of nodes id = elim (lookup id nodes) [ none ↦ none | some n ↦ some n.repo_id ]

abbrev repo_beq : Option ℕ → Option ℕ → Bool
repo_beq none none = true
repo_beq (some a) (some b) = a == b
repo_beq _ _ = false

abbrev pub in_repo : Assoc ℕ ContractNode → Option ℕ → List ℕ → List ℕ
in_repo nodes importer_repo = retain (λ id. repo_beq (repo_of nodes id) importer_repo)

-- `ContractGraph::pick_or_ambiguous`
pub pick_or_ambiguous : ContractGraph → List ℕ → Option ℕ → EdgeConfidence → Picked
pick_or_ambiguous g (only ∷ []) importer_repo confidence_if_unique =
    (only, confidence_if_unique) ∷ []
pick_or_ambiguous g ids importer_repo confidence_if_unique =
    pick_among ids (in_repo g.nodes importer_repo ids) confidence_if_unique

pub record PackageBucket : Type 0 where
  pub ids : List ℕ
  pub by_package : Assoc Text (List ℕ)

pub group_ids : Assoc ℕ ContractNode → List ℕ → Assoc Text (List ℕ) → Assoc Text (List ℕ)
group_ids nodes [] groups = groups
group_ids nodes (id ∷ ids) groups =
    group_ids nodes ids
      (elim (lookup id nodes) [ none ↦ groups | some n ↦ push_at n.package_name id groups ])

-- `group_by_package`, for one key
pub package_bucket : ContractGraph → List ℕ → PackageBucket
unfolding group_ids
package_bucket g ids = record {
  ids = ids;
  by_package = if ltb 1 (length ids) then group_ids g.nodes ids [] else [];
}

-- `PackageBucket::pick_or_ambiguous`
pub pick_own : List ℕ → Assoc Text (List ℕ) → Text → EdgeConfidence → Picked
pick_own (only ∷ []) by_package caller_package confidence_if_unique =
    (only, confidence_if_unique) ∷ []
pick_own ids by_package caller_package confidence_if_unique =
    pick_among ids (bucket caller_package by_package) confidence_if_unique

pub pick_in_package : PackageBucket → Text → EdgeConfidence → Picked
unfolding pick_own
pick_in_package b caller_package confidence_if_unique =
    pick_own b.ids b.by_package caller_package confidence_if_unique

pub confidence_rank : EdgeConfidence → ℕ
confidence_rank exact = 0
confidence_rank heuristic = 1
confidence_rank ambiguous = 2

pub weakest : EdgeConfidence → EdgeConfidence → EdgeConfidence
unfolding confidence_rank
weakest a b = if leb (confidence_rank b) (confidence_rank a) then a else b
