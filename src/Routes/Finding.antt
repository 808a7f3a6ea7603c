-- ===== src/Routes/Finding.antt =====
-- The search for routes in the graph (`find_routes` of crates/mesh-core/src/routes.rs) with what it
-- reads of a node; the nodes stand in the order of their ids.
pub mod Sorting
pub mod Ranking
use causalmesh.Prelude.{
  ℕ, suc, ◌+◌, Bool, true, false, ◌&&◌, ◌||◌, not, Option, none, some, List, [], ◌∷◌, PartialEq,
  ◌==◌, nat_eq, list_eq, if◌then◌else◌, leb, get_elem?,
}
use causalmesh.Prelude.Text.{Text, text, is_nil}
use causalmesh.Prelude.Paths.{FilePath, Component, component_eq, starts_with}
use causalmesh.Prelude.Order.{path_leb}
use causalmesh.Graph.{ContractNode, NodeKind, http_endpoint}
use causalmesh.TestPaths.{is_test_node}
use causalmesh.Routes.{
  Seg, RouteRank, exact, value, leading, fragment, RouteQuery, NodeRoute, match_route,
}
use causalmesh.Routes.Query.{split_verb, path_segments, trim}

-- A prefix that is displayed and its segments.
pub record Prefix : Type 0 where
  pub shown : Text
  pub segs : List Seg

pub record HttpPrefixes : Type 0 where
  pub workspace : Option Prefix
  pub per_root : List (Option Prefix)

abbrev own_prefix : Option (Option Prefix) → Option Prefix → Option Prefix
own_prefix (some (some own)) workspace = some own
own_prefix _ workspace = workspace

unfoldable pub for_repo : HttpPrefixes → ℕ → Option Prefix
for_repo prefixes repo = own_prefix (get_elem? prefixes.per_root repo) prefixes.workspace

unfoldable pub prefix_segs : HttpPrefixes → ℕ → List Seg
unfolding for_repo
prefix_segs prefixes repo = elim (for_repo prefixes repo) [ none ↦ [] | some p ↦ p.segs ]

abbrev pub rank_index : RouteRank → ℕ
rank_index exact = 0
rank_index value = 1
rank_index leading = 2
rank_index fragment = 3

abbrev is_endpoint : NodeKind → Bool
is_endpoint http_endpoint = true
is_endpoint _ = false

pub record RouteHit : Type 0 where
  pub node : ContractNode
  pub route : NodeRoute
  pub rank : RouteRank

-- the four comparisons of the sort, each deciding where the one before is even
unfoldable pub hit_leb : RouteHit → RouteHit → Bool
hit_leb a b =
    if rank_index a.rank == rank_index b.rank
    then (if a.node.file_path == b.node.file_path
        then (if a.node.line_start == b.node.line_start
            then leb a.node.id b.node.id
            else leb a.node.line_start b.node.line_start)
        else path_leb a.node.file_path b.node.file_path)
    else leb (rank_index a.rank) (rank_index b.rank)

unfoldable pub insert_hit : RouteHit → List RouteHit → List RouteHit
unfolding hit_leb
insert_hit h [] = h ∷ []
insert_hit h (k ∷ hits) =
    let rest = insert_hit h hits in if hit_leb h k then h ∷ k ∷ hits else k ∷ rest

unfoldable pub sort_hits : List RouteHit → List RouteHit
unfolding insert_hit
sort_hits [] = []
sort_hits (h ∷ hits) = insert_hit h (sort_hits hits)

-- one node's hit, if it has one: counted if it is hidden, else kept
abbrev pub note_hit : Option RouteHit → Bool → List RouteHit × ℕ → List RouteHit × ℕ
note_hit none hide rest = rest
note_hit (some hit) true (hits, hidden) = (hits, suc hidden)
note_hit (some hit) false (hits, hidden) = (hit ∷ hits, hidden)

module _ (is_alphanumeric is_whitespace is_uppercase : ℕ → Bool) (to_lowercase : Text → Text) where
  abbrev label_of : ContractNode → Text
  label_of node = elim node.signature [
    | none ↦ node.name
    | some s ↦ elim (split_verb is_alphanumeric is_whitespace to_lowercase s) [
      | none ↦ node.name
      | some v ↦ s
    ]
  ]

  unfoldable pub node_route : ContractNode → Option NodeRoute
  unfolding split_verb path_segments
  node_route node =
      if is_endpoint node.kind
      then elim (split_verb is_alphanumeric is_whitespace to_lowercase (label_of node)) [
        | none ↦ none
        | some (verb, rest) ↦ some (record {
          verb = verb;
          segs = path_segments is_alphanumeric is_whitespace to_lowercase rest;
        })
      ]
      else none

  abbrev in_scope : Option FilePath → FilePath → Bool
  in_scope none path = true
  in_scope (some scope) path = starts_with path scope

  -- a node's hit, before tests are left out
  unfoldable pub hit_of :
      RouteQuery → HttpPrefixes → Option FilePath → RouteRank → ContractNode → Option RouteHit
  unfolding node_route match_route prefix_segs starts_with
  hit_of query prefixes scope worst_rank node =
      if not (in_scope scope node.file_path) then none else elim (node_route node) [
        | none ↦ none
        | some route ↦ elim (match_route query route (prefix_segs prefixes node.repo_id)) [
          | none ↦ none
          | some rank ↦
              if leb (rank_index rank) (rank_index worst_rank)
              then some (record { node = node; route = route; rank = rank })
              else none
        ]
      ]

  -- the loop: the hits in the order of the nodes, and the number of hidden tests
  unfoldable pub collect_hits :
      RouteQuery
      → HttpPrefixes
      → Option FilePath
      → Bool
      → List FilePath
      → RouteRank
      → List ContractNode
      → List RouteHit × ℕ
  unfolding hit_of is_test_node
  collect_hits query prefixes scope include_tests roots worst_rank [] = ([], 0)
  collect_hits query prefixes scope include_tests roots worst_rank (node ∷ nodes) =
      let rest = collect_hits query prefixes scope include_tests roots worst_rank nodes in
      note_hit (hit_of query prefixes scope worst_rank node)
        (not include_tests && is_test_node is_uppercase node roots) rest

  unfoldable pub find_routes :
      List ContractNode
      → RouteQuery
      → HttpPrefixes
      → Option FilePath
      → Bool
      → List FilePath
      → RouteRank
      → List RouteHit × ℕ
  unfolding collect_hits sort_hits
  find_routes nodes query prefixes scope include_tests roots worst_rank =
      let (hits, hidden) = collect_hits query prefixes scope include_tests roots worst_rank nodes in
      (sort_hits hits, hidden)
