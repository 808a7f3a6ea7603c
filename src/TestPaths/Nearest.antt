-- ===== src/TestPaths/Nearest.antt =====
-- Which part of a node's path decides whether it is test code (`is_test_node` of
-- crates/mesh-core/src/test_paths.rs).
use causalmesh.Prelude.{
  ℕ, ◌≤◌, none, some, List, [], ◌∷◌, ◌++◌, get_elem?, length, ltb, ◌==◌, ◌≡◌, ◌≢◌, refl, sym, ap,
  ◌∙◌, ◌⊎◌, inl, inr, arith, Among, Bool, Bool-cases, Option-cases,
}
use causalmesh.Prelude.Paths.{FilePath, component_eq, component_beq_iff, strip_prefix}
use causalmesh.Graph.{ContractNode}
use causalmesh.TestPaths.{is_test_path, is_test_node, shorter, nearest_rel, own_rel}
use causalmesh.TestPaths.Checkouts.{strip_prefix-append, joined}

strip_prefix-of : (path r s : FilePath) → path ≡ r ++ s → strip_prefix path r ≡ some s
strip_prefix-of path r s e = ap (λ p. strip_prefix p r) e ∙ strip_prefix-append r s

strip_prefix-to : (path r s : FilePath) → strip_prefix path r ≡ some s → path ≡ r ++ s
unfolding strip_prefix
strip_prefix-to path [] s h = ground (arith, h)
strip_prefix-to [] (c ∷ r) s h = ground (arith, h)
strip_prefix-to (b ∷ path) (c ∷ r) s h = elim (Bool-cases (b == c)) [
  | inr other ↦ ground (arith, h, other)
  | inl same ↦
      let one : b ≡ c = (component_beq_iff b c).0 same in
      ap (λ l. b ∷ l) (strip_prefix-to path r s (ground (arith, h, same)))
      ∙ ap (λ d. d ∷ (r ++ s)) one
]

-- No root contains the path.
abbrev pub IsOutside : FilePath → List FilePath → Type 0
IsOutside path roots = (root rel : FilePath) → Among root roots → path ≢ root ++ rel

-- The path below a root that contains it, and no root leaves less of it.
abbrev pub IsNearest : FilePath → List FilePath → FilePath → Type 0
IsNearest path roots best =
    ((root : FilePath) × (Among root roots × (path ≡ root ++ best)))
    × ((root rel : FilePath) → Among root roots → path ≡ root ++ rel → length best ≤ length rel)

same_rel :
    (path r s t : FilePath) → strip_prefix path r ≡ some s → path ≡ r ++ t → length s ≤ length t
same_rel path r s t h e =
    let same : some s ≡ some t = sym h ∙ strip_prefix-of path r t e in ground (arith, same)

-- A bound on what one root leaves and on what the others leave is one for all.
least_cons :
    (path r : FilePath) (roots : List FilePath) (n : ℕ)
    → ((t : FilePath) → path ≡ r ++ t → n ≤ length t)
    → ((root rel : FilePath) → Among root roots → path ≡ root ++ rel → n ≤ length rel)
    → (root rel : FilePath) → Among root (r ∷ roots)
    → path ≡ root ++ rel
    → n ≤ length rel
least_cons path r roots n first others root rel (inl same) e =
    first rel (e ∙ ap (λ p. p ++ rel) same)
least_cons path r roots n first others root rel (inr there) e = others root rel there e

IsOutside-cons :
    (path r : FilePath) (roots : List FilePath)
    → strip_prefix path r ≡ none
    → IsOutside path roots
    → IsOutside path (r ∷ roots)
IsOutside-cons path r roots h out root rel (inl same) e =
    let stripped = strip_prefix-of path r rel (e ∙ ap (λ p. p ++ rel) same) in
    ground (arith, h, stripped)
IsOutside-cons path r roots h out root rel (inr there) e = out root rel there e

IsNearest-skip :
    (path r best : FilePath) (roots : List FilePath)
    → strip_prefix path r ≡ none
    → IsNearest path roots best
    → IsNearest path (r ∷ roots) best
IsNearest-skip path r best roots h ((root, (among, e)), least) = (
  (root, (inr among, e)),
  least_cons path r roots (length best)
      (λ t e'. let stripped = strip_prefix-of path r t e' in ground (arith, h, stripped)) least,
)

IsNearest-only :
    (path r rel : FilePath) (roots : List FilePath)
    → strip_prefix path r ≡ some rel
    → IsOutside path roots
    → IsNearest path (r ∷ roots) rel
IsNearest-only path r rel roots h out = (
  (r, (inl refl, strip_prefix-to path r rel h)),
  least_cons path r roots (length rel) (λ t e. same_rel path r rel t h e)
      (λ root t among e. absurd (out root t among e)),
)

module _ (is_uppercase : ℕ → Bool) where
  IsNearest-pick :
      (path r rel best : FilePath) (roots : List FilePath)
      → strip_prefix path r ≡ some rel
      → IsNearest path roots best
      → IsNearest path (r ∷ roots) (shorter is_uppercase rel (some best))
  IsNearest-pick path r rel best roots h ((root, (among, e)), least) =
      elim (Bool-cases (ltb (length best) (length rel))) [
        | inl less ↦ rw less (
          (root, (inr among, e)),
          least_cons path r roots (length best)
              (λ t e'. let le = same_rel path r rel t h e' in ground (arith, le, less)) least,
        )
        | inr more ↦ rw more (
          (r, (inl refl, strip_prefix-to path r rel h)),
          least_cons path r roots (length rel) (λ t e'. same_rel path r rel t h e')
              (λ root' t among' e'. let le = least root' t among' e' in ground (arith, le, more)),
        )
      ]

  nearest_rel-cases :
      (path : FilePath) (roots : List FilePath)
      → ((nearest_rel is_uppercase path roots ≡ none) × IsOutside path roots)
        ⊎ ((best : FilePath) × ((nearest_rel is_uppercase path roots ≡ some best)
              × IsNearest path roots best))
  unfolding nearest_rel
  nearest_rel-cases path [] = inl (refl, λ root rel a e. elim a [ ])
  nearest_rel-cases path (r ∷ roots) =
      let rest = nearest_rel is_uppercase path roots in
      elim (Option-cases (strip_prefix path r)) [
        | inl h ↦ elim (nearest_rel-cases path roots) [
          | inl (e, out) ↦
              inl (ap (λ x. joined is_uppercase x rest) h ∙ e, IsOutside-cons path r roots h out)
          | inr (best, (e, near)) ↦ inr (
            best,
            (ap (λ x. joined is_uppercase x rest) h ∙ e, IsNearest-skip path r best roots h near),
          )
        ]
        | inr (rel, h) ↦ elim (nearest_rel-cases path roots) [
          | inl (e, out) ↦ inr (
            rel,
            (
              ap (λ x. joined is_uppercase x rest) h ∙ ap (joined is_uppercase (some rel)) e,
              IsNearest-only path r rel roots h out,
            ),
          )
          | inr (best, (e, near)) ↦ inr (
            shorter is_uppercase rel (some best),
            (
              ap (λ x. joined is_uppercase x rest) h ∙ ap (joined is_uppercase (some rel)) e,
              IsNearest-pick path r rel best roots h near,
            ),
          )
        ]
      ]

  -- The root of a repository contains the path and leaves `rel` of it.
  abbrev pub IsOwn : ContractNode → List FilePath → FilePath → Type 0
  IsOwn node roots rel =
      (root : FilePath) × ((get_elem? roots node.repo_id ≡ some root)
        × (node.file_path ≡ root ++ rel))

  -- The part of a node's path that decides: what its own root leaves, if that contains it; else the
  -- least that any root leaves; else the whole path.
  abbrev pub IsDeciding : ContractNode → List FilePath → FilePath → Type 0
  IsDeciding node roots rel =
      IsOwn node roots rel
      ⊎ (((t : FilePath) → ¬ IsOwn node roots t)
          × (IsNearest node.file_path roots rel
              ⊎ (IsOutside node.file_path roots × (rel ≡ node.file_path))))

  own_rel-cases :
      (node : ContractNode) (roots : List FilePath)
      → ((rel : FilePath) × ((own_rel is_uppercase node.file_path (get_elem? roots node.repo_id)
              ≡ some rel)
            × IsOwn node roots rel))
        ⊎ ((own_rel is_uppercase node.file_path (get_elem? roots node.repo_id) ≡ none)
            × ((t : FilePath) → ¬ IsOwn node roots t))
  own_rel-cases node roots = elim (Option-cases (get_elem? roots node.repo_id)) [
    | inl gone ↦ inr (
      ap (own_rel is_uppercase node.file_path) gone,
      λ t (root, (e, below)). ground (arith, e, gone),
    )
    | inr (root, there) ↦ elim (Option-cases (strip_prefix node.file_path root)) [
      | inl h ↦ inr (
        ap (own_rel is_uppercase node.file_path) there ∙ h,
        λ t (other, (e, below)).
            let same : some root ≡ some other = sym there ∙ e in
            let one : root ≡ other = ground (arith, same) in
            let stripped =
              strip_prefix-of node.file_path root t (below ∙ ap (λ p. p ++ t) (sym one)) in
            ground (arith, h, stripped),
      )
      | inr (rel, h) ↦ inl (
        rel,
        (
          ap (own_rel is_uppercase node.file_path) there ∙ h,
          (root, (there, strip_prefix-to node.file_path root rel h)),
        ),
      )
    ]
  ]

  -- A node is test code exactly if a part of its path says so: what the root of its own repository
  -- leaves, if that contains it; else the least that any root leaves; else the whole path.
  pub is_test_node-IsDeciding :
      (node : ContractNode) (roots : List FilePath)
      → (rel : FilePath) × (IsDeciding node roots rel
          × (is_test_node is_uppercase node roots ≡ is_test_path is_uppercase rel))
  unfolding is_test_node
  is_test_node-IsDeciding node roots = elim (own_rel-cases node roots) [
    | inl (rel, (e, own)) ↦ (rel, (inl own, rw e refl))
    | inr (e, foreign) ↦ elim (nearest_rel-cases node.file_path roots) [
      | inl (e', out) ↦ (node.file_path, (inr (foreign, inr (out, refl)), rw (e, e') refl))
      | inr (best, (e', near)) ↦ (best, (inr (foreign, inl near), rw (e, e') refl))
    ]
  ]
