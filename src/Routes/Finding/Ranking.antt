-- ===== src/Routes/Finding/Ranking.antt =====
-- What `find_routes` of crates/mesh-core/src/routes.rs returns: which hits, and in which order.
use causalmesh.Prelude.{
  ℕ, suc, ◌+◌, Bool, true, false, ◌&&◌, not, ◌≡◌, ◌↔◌, ◌⊎◌, inl, inr, refl, ap, sym, Option, none,
  some, List, [], ◌∷◌, ◌++◌, nat_eq, list_eq, if◌then◌else◌, leb, length, retain, ◌∙◌, arith,
  Bool-cases, Option-cases, Among,
}
use mathlib.Core.Path.{subst}
use causalmesh.Prelude.Text.{Text}
use causalmesh.Prelude.Paths.{FilePath, component_eq, starts_with, starts_with_to, starts_with_of}
use causalmesh.Graph.{ContractNode}
use causalmesh.TestPaths.{is_test_node}
use causalmesh.Routes.{RouteRank, RouteQuery, match_route}
use causalmesh.Routes.Finding.{
  HttpPrefixes, RouteHit, prefix_segs, rank_index, node_route, in_scope, hit_of, note_hit,
  collect_hits, find_routes,
}
use causalmesh.Routes.Finding.Sorting.{
  Better, rank-cases, rank-Better, IsRanked, sort_hits-IsRanked, Among-sort_hits, length-sort_hits,
}

some_same : (h k : RouteHit) → some h ≡ some k → h ≡ k
some_same h k e = ground (arith, e)

abbrev pub is_some : Option RouteHit → Bool
is_some none = false
is_some (some hit) = true

length-note_hit :
    (o : Option RouteHit) (hide : Bool) (rest : List RouteHit × ℕ)
    → length (note_hit o hide rest).0 + (note_hit o hide rest).1
      ≡ (if is_some o then suc (length rest.0 + rest.1) else length rest.0 + rest.1)
length-note_hit none hide rest = refl
length-note_hit (some hit) true rest = omega arith
length-note_hit (some hit) false rest = omega arith

length-retain_cons :
    (b : Bool) (node : ContractNode) (nodes : List ContractNode)
    → length (if b then node ∷ nodes else nodes) ≡ (if b then suc (length nodes) else length nodes)
length-retain_cons true node nodes = refl
length-retain_cons false node nodes = refl

-- A path lies beneath the scope, if there is one.
abbrev pub IsWithin : Option FilePath → FilePath → Type 0
IsWithin none path = Unit
IsWithin (some s) path = (rest : FilePath) × (path ≡ s ++ rest)

Among-note_hit :
    (hit : RouteHit) (o : Option RouteHit) (hide : Bool) (rest : List RouteHit × ℕ)
    → Among hit (note_hit o hide rest).0 ↔ (((o ≡ some hit) × (hide ≡ false)) ⊎ Among hit rest.0)
Among-note_hit hit none hide rest =
    (λ a. inr a, λ a. elim a [ inl new ↦ ground (arith, new.0) | inr old ↦ old ])
Among-note_hit hit (some k) true rest =
    (λ a. inr a, λ a. elim a [ inl new ↦ ground (arith, new.1) | inr old ↦ old ])
Among-note_hit hit (some k) false rest = (
  λ a. elim a [ inl here ↦ inl (ap some (sym here), refl) | inr old ↦ inr old ],
  λ a. elim a [ inl new ↦ inl (ground (arith, new.0)) | inr old ↦ inr old ],
)

module _ (is_alphanumeric is_whitespace is_uppercase : ℕ → Bool) (to_lowercase : Text → Text)
    (query : RouteQuery) (prefixes : HttpPrefixes) (scope : Option FilePath) (include_tests : Bool)
    (roots : List FilePath) (worst_rank : RouteRank) where
  -- The hit's node lies within the scope and declares the hit's route, which the query matches, under
  -- the prefix of the node's repository, with the hit's rank; and that is the worst or better.
  abbrev pub IsHit : RouteHit → Type 0
  IsHit hit =
      IsWithin scope hit.node.file_path
      × (node_route is_alphanumeric is_whitespace is_uppercase to_lowercase hit.node
          ≡ some hit.route)
      × (match_route query hit.route (prefix_segs prefixes hit.node.repo_id) ≡ some hit.rank)
      × ((hit.rank ≡ worst_rank) ⊎ Better hit.rank worst_rank)

  -- Tests are included, or the node is none.
  abbrev pub IsShown : ContractNode → Type 0
  IsShown node = (include_tests ≡ true) ⊎ (is_test_node is_uppercase node roots ≡ false)

  abbrev pub hit_at : ContractNode → Option RouteHit
  hit_at =
      hit_of is_alphanumeric is_whitespace is_uppercase to_lowercase query prefixes scope worst_rank

  abbrev collected : List ContractNode → List RouteHit × ℕ
  collected =
      collect_hits is_alphanumeric is_whitespace is_uppercase to_lowercase query prefixes scope
        include_tests roots worst_rank

  abbrev pub found : List ContractNode → List RouteHit × ℕ
  found nodes =
      find_routes is_alphanumeric is_whitespace is_uppercase to_lowercase nodes query prefixes scope
        include_tests roots worst_rank

  IsWithin-to :
      (s : Option FilePath) (path : FilePath)
      → in_scope is_alphanumeric is_whitespace is_uppercase to_lowercase s path ≡ true
      → IsWithin s path
  IsWithin-to none path h = tt
  IsWithin-to (some s) path h = starts_with_to path s h

  IsWithin-of :
      (s : Option FilePath) (path : FilePath)
      → IsWithin s path
      → in_scope is_alphanumeric is_whitespace is_uppercase to_lowercase s path ≡ true
  IsWithin-of none path h = refl
  IsWithin-of (some s) path (rest, e) = ap (λ p. starts_with p s) e ∙ starts_with_of s rest

  rank_of :
      (r : RouteRank)
      → (r ≡ worst_rank) ⊎ Better r worst_rank
      → leb (rank_index r) (rank_index worst_rank) ≡ true
  rank_of r (inl same) = subst (λ x. leb (rank_index r) (rank_index x) ≡ true) same (ground arith)
  rank_of r (inr better) = rank-Better better

  IsHit-of_to :
      (node : ContractNode) (hit : RouteHit)
      → hit_at node ≡ some hit
      → (node ≡ hit.node) × IsHit hit
  unfolding hit_of
  IsHit-of_to node hit e =
      let at = prefix_segs prefixes node.repo_id in
      let inside =
        in_scope is_alphanumeric is_whitespace is_uppercase to_lowercase scope node.file_path in
      let declared = node_route is_alphanumeric is_whitespace is_uppercase to_lowercase node in
      elim (Bool-cases inside) [
        | inr out ↦ ground (arith, e, out)
        | inl a ↦ elim (Option-cases declared) [
          | inl nothing ↦ ground (arith, e, a, nothing)
          | inr (route, b) ↦ elim (Option-cases (match_route query route at)) [
            | inl nothing ↦ ground (arith, e, a, b, nothing)
            | inr (rank, c) ↦ elim (Bool-cases (leb (rank_index rank) (rank_index worst_rank))) [
              | inr bad ↦ ground (arith, e, a, b, c, bad)
              | inl low ↦
                  let own : RouteHit = record { node = node; route = route; rank = rank } in
                  let made : some own ≡ some hit = rw (a, b, c, low) at e in
                  subst (λ x. (node ≡ x.node) × IsHit x) (some_same own hit made)
                    (
                      refl,
                      (IsWithin-to scope node.file_path a, b, c, rank-cases rank worst_rank low),
                    )
            ]
          ]
        ]
      ]

  hit_of-IsHit : (hit : RouteHit) → IsHit hit → hit_at hit.node ≡ some hit
  unfolding hit_of
  hit_of-IsHit hit (within, declared, matched, low) =
      rw (IsWithin-of scope hit.node.file_path within, declared, matched, rank_of hit.rank low) refl

  note_to :
      (node : ContractNode) (hit : RouteHit)
      → hit_at node ≡ some hit
      → (not include_tests && is_test_node is_uppercase node roots) ≡ false
      → (node ≡ hit.node) × (IsHit hit × IsShown hit.node)
  note_to node hit e shown =
      let (same, is_hit) = IsHit-of_to node hit e in
      (
        same,
        (
          is_hit,
          subst IsShown same (elim (Bool-cases include_tests) [
            | inl included ↦ inl included
            | inr left_out ↦ inr (ground (arith, shown, left_out))
          ]),
        ),
      )

  IsShown-hide :
      (node : ContractNode)
      → IsShown node
      → (not include_tests && is_test_node is_uppercase node roots) ≡ false
  IsShown-hide node (inl included) = ground (arith, included)
  IsShown-hide node (inr no_test) = ground (arith, no_test)

  -- The hits of some nodes.
  abbrev pub IsHitOf : List ContractNode → RouteHit → Type 0
  IsHitOf nodes hit = Among hit.node nodes × (IsHit hit × IsShown hit.node)

  collected-IsHitOf :
      (nodes : List ContractNode) (hit : RouteHit)
      → Among hit (collected nodes).0 ↔ IsHitOf nodes hit
  unfolding collect_hits
  collected-IsHitOf [] hit = (λ a. elim a [ ], λ a. elim a.0 [ ])
  collected-IsHitOf (node ∷ nodes) hit =
      let hide = not include_tests && is_test_node is_uppercase node roots in
      let step = Among-note_hit hit (hit_at node) hide (collected nodes) in
      let ih = collected-IsHitOf nodes hit in
      (
        λ a. elim (step.0 a) [
          | inl (e, shown) ↦ let (same, rest) = note_to node hit e shown in (inl (sym same), rest)
          | inr old ↦ let (among, rest) = ih.0 old in (inr among, rest)
        ],
        λ (among, (is_hit, shown)). step.1 (elim among [
          | inl same ↦ inl (
            ap hit_at (sym same) ∙ hit_of-IsHit hit is_hit,
            IsShown-hide node (subst IsShown same shown),
          )
          | inr there ↦ inr (ih.1 (there, (is_hit, shown)))
        ]),
      )

  length-collected :
      (nodes : List ContractNode)
      → length (collected nodes).0 + (collected nodes).1
        ≡ length (retain (λ node. is_some (hit_at node)) nodes)
  unfolding collect_hits
  length-collected [] = refl
  length-collected (node ∷ nodes) =
      let matched = is_some (hit_at node) in
      rw
        (
          length-note_hit (hit_at node) (not include_tests && is_test_node is_uppercase node roots)
              (collected nodes),
          length-collected nodes,
          length-retain_cons matched node (retain (λ n. is_some (hit_at n)) nodes),
        )
        refl

  -- The search for routes returns exactly the hits of the nodes: those that the query matches within
  -- the scope, no worse than the worst rank, and that are no test code unless tests are included.
  -- They stand best first, then by file, line and id; and with the number of hidden tests they are
  -- as many as the nodes with a hit.
  pub find_routes-IsRanked :
      (nodes : List ContractNode)
      → IsRanked (found nodes).0
        × ((hit : RouteHit) → Among hit (found nodes).0 ↔ IsHitOf nodes hit)
        × (length (found nodes).0 + (found nodes).1
            ≡ length (retain (λ node. is_some (hit_at node)) nodes))
  unfolding find_routes
  find_routes-IsRanked nodes =
      let hits = (collected nodes).0 in
      (
        sort_hits-IsRanked hits,
        λ hit.
            let sorted = Among-sort_hits hit hits in
            let kept = collected-IsHitOf nodes hit in
            (λ a. kept.0 (sorted.0 a), λ a. sorted.1 (kept.1 a)),
        omega (arith, length-sort_hits hits, length-collected nodes),
      )
