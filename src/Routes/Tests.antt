-- ===== src/Routes/Tests.antt =====
-- Routes at a concrete declaration, query and graph.
use causalmesh.Prelude.{
  ℕ, ◌+◌, ◌≡◌, ◌↔◌, Bool, true, false, none, some, List, [], ◌∷◌, ◌++◌, map, retain, Among, length,
  ◌==◌, nat_eq, list_eq,
}
use causalmesh.Prelude.Text.{Text, text, to_ascii_lower, is_ascii_alphanumeric, is_ascii_upper}
use causalmesh.Prelude.Paths.{normal}
use causalmesh.Graph.{ContractNode, http_endpoint}
use causalmesh.Routes.{Seg, param, lit, fragment, RouteQuery, NodeRoute, contains_segs}
use causalmesh.Routes.Occurrence.{Occurs, contains_segs-Occurs}
use causalmesh.Routes.Finding.{HttpPrefixes, RouteHit}
use causalmesh.Routes.Finding.Sorting.{IsRanked}
use causalmesh.Routes.Finding.Ranking.{is_some, found, hit_at, IsHitOf, find_routes-IsRanked}

abbrev orders : List Seg
orders = lit (text "orders") ∷ param ∷ []

abbrev api : List Seg
api = lit (text "api") ∷ []

abbrev asked : RouteQuery
asked = record {
  verb = some (text "GET");
  segs = api ++ orders;
  root_only = false;
  verb_and_slash = true;
}

abbrev declared : NodeRoute
declared = record { verb = text "GET"; segs = orders }

contains_segs-Occurs_example :
    (contains_segs (api ++ orders) orders ≡ true) ↔ Occurs (api ++ orders) orders
contains_segs-Occurs_example = contains_segs-Occurs (api ++ orders) orders

abbrev is_space : ℕ → Bool
is_space c = c == b' '

abbrev lower : Text → Text
lower = map to_ascii_lower

abbrev node : ℕ → Text → ContractNode
node id directory = record {
  id = id;
  name = text "order";
  kind = http_endpoint;
  file_path = normal directory ∷ normal (text "app.ts") ∷ [];
  line_start = 7;
  line_end = 9;
  package_name = [];
  repo_id = 0;
  signature = some (text "GET /orders/:id");
  docstring = none;
}

abbrev nodes : List ContractNode
nodes = node 3 (text "src") ∷ node 4 (text "e2e") ∷ []

abbrev prefixes : HttpPrefixes
prefixes = record { workspace = some (record { shown = text "/api"; segs = api }); per_root = [] }

abbrev answer : List RouteHit × ℕ
answer =
    found is_ascii_alphanumeric is_space is_ascii_upper lower asked prefixes none false [] fragment
      nodes

find_routes-IsRanked_example :
    IsRanked answer.0
    × ((hit : RouteHit)
        → Among hit answer.0
          ↔ IsHitOf is_ascii_alphanumeric is_space is_ascii_upper lower asked prefixes none false []
              fragment nodes hit)
    × (length answer.0 + answer.1
        ≡ length (
            retain
              (λ n. is_some (
                hit_at is_ascii_alphanumeric is_space is_ascii_upper lower asked prefixes none false
                  [] fragment n))
              nodes))
find_routes-IsRanked_example =
    find_routes-IsRanked is_ascii_alphanumeric is_space is_ascii_upper lower asked prefixes none
      false [] fragment nodes
