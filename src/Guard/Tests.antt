-- ===== src/Guard/Tests.antt =====
-- The guards at a concrete content.
use causalmesh.Prelude.{◌≡◌, ◌↔◌, refl, some, [], ◌∷◌, length, nat_eq}
use causalmesh.Prelude.Text.{Text, text}
use causalmesh.Guard.{err, binary, deep_nesting, check_with_budget, looks_binary, longest_line}
use causalmesh.Guard.Scan.{scan, max_nesting_depth}
use causalmesh.Guard.Scanner.{code, deepest, max_nesting_depth-deepest}
use causalmesh.Guard.Limits.{check_with_budget_exact, Breaks}

abbrev source : Text
source = text "f(x){ /* { */ }"

max_nesting_depth-deepest_example :
    (scan (length source) source 0 0 ≡ some (max_nesting_depth source))
    × (max_nesting_depth source ≡ deepest code source 0 0)
max_nesting_depth-deepest_example = max_nesting_depth-deepest source

-- a null byte
check_with_budget_exact_example :
    (check_with_budget 1 (0 ∷ []) 100 ≡ err binary) ↔ Breaks 1 (0 ∷ []) 100 binary
check_with_budget_exact_example = check_with_budget_exact 1 (0 ∷ []) 100 binary

-- 65 brackets
deep_source : Text
deep_source = text "((((((((((((((((((((((((((((((((((((((((((((((((((((((((((((((((("

nested_too_deep : check_with_budget 65 deep_source 100 ≡ err (deep_nesting 65)
unfolding deep_source check_with_budget looks_binary longest_line max_nesting_depth
nested_too_deep = refl
