-- ===== src/Routes/Finding/Sorting.antt =====
-- The order that `find_routes` of crates/mesh-core/src/routes.rs sorts its hits by.
use causalmesh.Prelude.{
  ℕ, suc, ◌<◌, ◌≤◌, true, false, ◌≡◌, ◌↔◌, ◌⊎◌, inl, inr, refl, ap, List, [], ◌∷◌, nat_eq, list_eq,
  list_beq_iff, ◌==◌, if◌then◌else◌, leb, length, arith, Bool-cases, Among,
}
use causalmesh.Prelude.Paths.{FilePath, component_eq}
use causalmesh.Prelude.Order.{PathBefore, path_leb, path_leb-total, path_leb-cases}
use causalmesh.Routes.{RouteRank, exact, value, leading, fragment}
use causalmesh.Routes.Finding.{RouteHit, rank_index, hit_leb, insert_hit, sort_hits}

hit_leb-total : (a b : RouteHit) → hit_leb a b ≡ false → hit_leb b a ≡ true
unfolding hit_leb
hit_leb-total a b h = ground (
  arith,
  h,
  path_leb-total a.node.file_path b.node.file_path,
  list_beq_iff a.node.file_path b.node.file_path,
  list_beq_iff b.node.file_path a.node.file_path,
)

-- The ranks, the best first.
pub data Better : RouteRank → RouteRank → Type 0 where
  exact_value : Better exact value
  exact_leading : Better exact leading
  exact_fragment : Better exact fragment
  value_leading : Better value leading
  value_fragment : Better value fragment
  leading_fragment : Better leading fragment

-- Best first, then by file, line and id.
abbrev pub IsBefore : RouteHit → RouteHit → Type 0
IsBefore a b =
    Better a.rank b.rank
    ⊎ ((a.rank ≡ b.rank)
        × (PathBefore a.node.file_path b.node.file_path
            ⊎ ((a.node.file_path ≡ b.node.file_path)
                × ((a.node.line_start < b.node.line_start)
                    ⊎ ((a.node.line_start ≡ b.node.line_start) × (a.node.id ≤ b.node.id))))))

-- Every hit is before the next one.
abbrev pub IsRanked : List RouteHit → Type 0
IsRanked [] = Unit
IsRanked (h ∷ []) = Unit
IsRanked (h ∷ k ∷ hits) = IsBefore h k × IsRanked (k ∷ hits)

pub rank-cases : (a b : RouteRank) → leb (rank_index a) (rank_index b) ≡ true → (a ≡ b) ⊎ Better a b
rank-cases exact exact h = inl refl
rank-cases exact value h = inr exact_value
rank-cases exact leading h = inr exact_leading
rank-cases exact fragment h = inr exact_fragment
rank-cases value exact h = ground (arith, h)
rank-cases value value h = inl refl
rank-cases value leading h = inr value_leading
rank-cases value fragment h = inr value_fragment
rank-cases leading exact h = ground (arith, h)
rank-cases leading value h = ground (arith, h)
rank-cases leading leading h = inl refl
rank-cases leading fragment h = inr leading_fragment
rank-cases fragment exact h = ground (arith, h)
rank-cases fragment value h = ground (arith, h)
rank-cases fragment leading h = ground (arith, h)
rank-cases fragment fragment h = inl refl

pub rank-Better : {a b : RouteRank} → Better a b → leb (rank_index a) (rank_index b) ≡ true
rank-Better exact_value = refl
rank-Better exact_leading = refl
rank-Better exact_fragment = refl
rank-Better value_leading = refl
rank-Better value_fragment = refl
rank-Better leading_fragment = refl

line-cases :
    (l m i j : ℕ) → (if l == m then leb i j else leb l m) ≡ true → (l < m) ⊎ ((l ≡ m) × (i ≤ j))
line-cases l m i j h = elim (Bool-cases (l == m)) [
  | inl same ↦ inr (ground (arith, same), ground (arith, h, same))
  | inr other ↦ inl (ground (arith, h, other))
]

file-cases :
    (p q : FilePath) (l m i j : ℕ)
    → (if p == q then (if l == m then leb i j else leb l m) else path_leb p q) ≡ true
    → PathBefore p q ⊎ ((p ≡ q) × ((l < m) ⊎ ((l ≡ m) × (i ≤ j))))
file-cases p q l m i j h = elim (Bool-cases (p == q)) [
  | inl same ↦ inr ((list_beq_iff p q).0 same, line-cases l m i j (ground (arith, h, same)))
  | inr other ↦ elim (path_leb-cases p q (ground (arith, h, other))) [
    | inl same ↦ ground (arith, other, (list_beq_iff p q).1 same)
    | inr less ↦ inl less
  ]
]

pub hit_leb-IsBefore : (a b : RouteHit) → hit_leb a b ≡ true → IsBefore a b
unfolding hit_leb
hit_leb-IsBefore a b h =
    let low : leb (rank_index a.rank) (rank_index b.rank) ≡ true = ground (arith, h) in
    elim (rank-cases a.rank b.rank low) [
      | inr better ↦ inl better
      | inl same ↦ inr (
        same,
        file-cases a.node.file_path b.node.file_path a.node.line_start b.node.line_start a.node.id
            b.node.id (ground (arith, h, ap rank_index same)),
      )
    ]

tail_IsRanked : (k : RouteHit) (hits : List RouteHit) → IsRanked (k ∷ hits) → IsRanked hits
tail_IsRanked k [] r = tt
tail_IsRanked k (j ∷ hits) r = r.1

module _ (h : RouteHit) where
  insert_hit-IsBefore :
      (k : RouteHit) (hits : List RouteHit)
      → hit_leb h k ≡ false
      → IsRanked (k ∷ hits)
      → IsRanked (insert_hit h hits)
      → IsRanked (k ∷ insert_hit h hits)
  unfolding insert_hit
  insert_hit-IsBefore k [] gt r s = (hit_leb-IsBefore k h (hit_leb-total h k gt), s)
  insert_hit-IsBefore k (j ∷ hits) gt r s = elim (Bool-cases (hit_leb h j)) [
    | inl le ↦ rw le (hit_leb-IsBefore k h (hit_leb-total h k gt), (hit_leb-IsBefore h j le, r.1))
    | inr more ↦ rw more (r.0, rw more at s)
  ]

  insert_hit-IsRanked : (hits : List RouteHit) → IsRanked hits → IsRanked (insert_hit h hits)
  unfolding insert_hit
  insert_hit-IsRanked [] r = tt
  insert_hit-IsRanked (k ∷ hits) r = elim (Bool-cases (hit_leb h k)) [
    | inl le ↦ rw le (hit_leb-IsBefore h k le, r)
    | inr gt ↦
        rw gt (insert_hit-IsBefore k hits gt r (insert_hit-IsRanked hits (tail_IsRanked k hits r)))
  ]

  Among-insert_hit :
      (x : RouteHit) (hits : List RouteHit) → Among x (insert_hit h hits) ↔ ((x ≡ h) ⊎ Among x hits)
  unfolding insert_hit
  Among-insert_hit x [] = (λ a. a, λ a. a)
  Among-insert_hit x (k ∷ hits) = elim (Bool-cases (hit_leb h k)) [
    | inl le ↦ rw le (λ a. a, λ a. a)
    | inr gt ↦
        let ih = Among-insert_hit x hits in
        rw gt (
          λ a. elim a [
            | inl here ↦ inr (inl here)
            | inr there ↦ elim (ih.0 there) [ inl new ↦ inl new | inr old ↦ inr (inr old) ]
          ],
          λ a. elim a [
            | inl new ↦ inr (ih.1 (inl new))
            | inr (inl here) ↦ inl here
            | inr (inr old) ↦ inr (ih.1 (inr old))
          ],
        )
  ]

pub sort_hits-IsRanked : (hits : List RouteHit) → IsRanked (sort_hits hits)
unfolding sort_hits
sort_hits-IsRanked [] = tt
sort_hits-IsRanked (h ∷ hits) = insert_hit-IsRanked h (sort_hits hits) (sort_hits-IsRanked hits)

pub Among-sort_hits :
    (x : RouteHit) (hits : List RouteHit) → Among x (sort_hits hits) ↔ Among x hits
unfolding sort_hits
Among-sort_hits x [] = (λ a. a, λ a. a)
Among-sort_hits x (h ∷ hits) =
    let ih = Among-sort_hits x hits in
    let step = Among-insert_hit h x (sort_hits hits) in
    (
      λ a. elim (step.0 a) [ inl new ↦ inl new | inr old ↦ inr (ih.0 old) ],
      λ a. step.1 (elim a [ inl new ↦ inl new | inr old ↦ inr (ih.1 old) ]),
    )

length-insert_hit :
    (h : RouteHit) (hits : List RouteHit) → length (insert_hit h hits) ≡ suc (length hits)
unfolding insert_hit
length-insert_hit h [] = refl
length-insert_hit h (k ∷ hits) = ground (arith, length-insert_hit h hits)

pub length-sort_hits : (hits : List RouteHit) → length (sort_hits hits) ≡ length hits
unfolding sort_hits
length-sort_hits [] = refl
length-sort_hits (h ∷ hits) =
    omega (arith, length-insert_hit h (sort_hits hits), length-sort_hits hits)
