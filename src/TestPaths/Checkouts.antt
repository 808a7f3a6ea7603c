-- ===== src/TestPaths/Checkouts.antt =====
-- Test code wherever the workspace is checked out (`is_test_node` of
-- crates/mesh-core/src/test_paths.rs).
use causalmesh.Prelude.{
  ℕ, zero, suc, Bool, Option, none, some, List, [], ◌∷◌, ◌++◌, map, get_elem?, eq_refl, ◌≡◌, refl,
  ap, ◌∙◌, inl, inr, nat_eq, list_eq, arith, Option-cases,
}
use causalmesh.Prelude.Paths.{FilePath, component_eq, strip_prefix}
use causalmesh.Graph.{ContractNode}
use causalmesh.TestPaths.{is_test_path, is_test_node, shorter, nearest_rel, own_rel, pick_rel}

pub strip_prefix-append : (root rel : FilePath) → strip_prefix (root ++ rel) root ≡ some rel
unfolding strip_prefix
strip_prefix-append [] [] = refl
strip_prefix-append [] (c ∷ rel) = refl
strip_prefix-append (c ∷ root) rel = ground (arith, eq_refl c, strip_prefix-append root rel)

strip_prefix-below :
    (dir path root : FilePath) → strip_prefix (dir ++ path) (dir ++ root) ≡ strip_prefix path root
unfolding strip_prefix
strip_prefix-below [] path root = refl
strip_prefix-below (c ∷ dir) path root = ground (arith, eq_refl c, strip_prefix-below dir path root)

-- a checkout below another directory
abbrev pub moved : FilePath → List FilePath → List FilePath
moved dir roots = map (λ r. dir ++ r) roots

module _ (is_uppercase : ℕ → Bool) where
  -- what one root adds to the search among the others
  abbrev pub joined : Option FilePath → Option FilePath → Option FilePath
  joined o rest = elim o [ none ↦ rest | some rel ↦ some (shorter is_uppercase rel rest) ]

  nearest_rel-below :
      (dir path : FilePath) (roots : List FilePath)
      → nearest_rel is_uppercase (dir ++ path) (moved dir roots)
        ≡ nearest_rel is_uppercase path roots
  unfolding nearest_rel
  nearest_rel-below dir path [] = refl
  nearest_rel-below dir path (r ∷ roots) =
      ap (λ x. joined x (nearest_rel is_uppercase (dir ++ path) (moved dir roots)))
        (strip_prefix-below dir path r)
      ∙ ap (joined (strip_prefix path r)) (nearest_rel-below dir path roots)

  own_rel-below :
      (dir path : FilePath) (roots : List FilePath) (i : ℕ)
      → own_rel is_uppercase (dir ++ path) (get_elem? (moved dir roots) i)
        ≡ own_rel is_uppercase path (get_elem? roots i)
  own_rel-below dir path [] i = refl
  own_rel-below dir path (r ∷ roots) zero = strip_prefix-below dir path r
  own_rel-below dir path (r ∷ roots) (suc i) = own_rel-below dir path roots i

  nearest_rel-found :
      (path root rel : FilePath) (roots : List FilePath) (i : ℕ)
      → get_elem? roots i ≡ some root
      → path ≡ root ++ rel
      → (best : FilePath) × (nearest_rel is_uppercase path roots ≡ some best)
  unfolding nearest_rel
  nearest_rel-found path root rel [] i e below = ground arith
  nearest_rel-found path root rel (r ∷ roots) zero e below =
      let same : r ≡ root = ground arith in
      let stripped : strip_prefix path r ≡ some rel =
        ap (strip_prefix path) same
        ∙ ap (λ p. strip_prefix p root) below
        ∙ strip_prefix-append root rel in
      (
        shorter is_uppercase rel (nearest_rel is_uppercase path roots),
        ap (λ x. joined x (nearest_rel is_uppercase path roots)) stripped,
      )
  nearest_rel-found path root rel (r ∷ roots) (suc i) e below =
      let (best, found) = nearest_rel-found path root rel roots i e below in
      let rest = nearest_rel is_uppercase path roots in
      elim (Option-cases (strip_prefix path r)) [
        | inl outside ↦ (best, ap (λ x. joined x rest) outside ∙ found)
        | inr (here, inside) ↦ (shorter is_uppercase here rest, ap (λ x. joined x rest) inside)
      ]

  pick_rel-below :
      (path path' best : FilePath) (own : Option FilePath)
      → pick_rel is_uppercase path own (some best) ≡ pick_rel is_uppercase path' own (some best)
  pick_rel-below path path' best none = refl
  pick_rel-below path path' best (some rel) = refl

  -- A node below one of the roots is judged alike wherever the workspace is checked out: put below
  -- any directory, a test directory included, it is test code exactly if it was.
  pub is_test_node-moved :
      (dir root rel : FilePath) (node : ContractNode) (roots : List FilePath) (i : ℕ)
      → get_elem? roots i ≡ some root
      → node.file_path ≡ root ++ rel
      → is_test_node is_uppercase
          (record node { file_path = dir ++ node.file_path })
          (moved dir roots)
        ≡ is_test_node is_uppercase node roots
  unfolding is_test_node
  is_test_node-moved dir root rel node roots i e below =
      let path = node.file_path in
      let (best, found) = nearest_rel-found path root rel roots i e below in
      rw (own_rel-below dir path roots node.repo_id, nearest_rel-below dir path roots, found)
        (ap (is_test_path is_uppercase) (
          pick_rel-below (dir ++ path) path best
            (own_rel is_uppercase path (get_elem? roots node.repo_id))))
