-- ===== src/TestPaths.antt =====
-- Test code told by its path (crates/mesh-core/src/test_paths.rs). Whether a character is upper
-- case is a parameter; a name that is not valid Unicode is not modelled.
pub mod Checkouts
pub mod Nearest
pub mod Tests
use causalmesh.Prelude.{
  ℕ, ◌+◌, Bool, true, false, ◌&&◌, ◌||◌, Option, none, some, List, [], ◌∷◌, ◌++◌, nat_eq, list_eq,
  if◌then◌else◌, ltb, length, get_elem?, any, contains, ◌≡◌, refl, ◌∙◌, arith, eq_refl,
}
use causalmesh.Prelude.Text.{byte_length, Text, text, split, has_prefix, eq_ignore_ascii_case}
use causalmesh.Prelude.Paths.{FilePath, Component, normal, component_eq, strip_prefix}
use causalmesh.Config.{contains_text, ends_with}
use causalmesh.Graph.{ContractNode}

abbrev pub test_dirs : List Text
test_dirs =
    text "test"
    ∷ text "tests"
    ∷ text "__tests__"
    ∷ text "__mocks__"
    ∷ text "__fixtures__"
    ∷ text "spec"
    ∷ text "specs"
    ∷ text "e2e"
    ∷ text "test-utils"
    ∷ text "test_utils"
    ∷ text "testutils"
    ∷ text "testing"
    ∷ text "fixtures"
    ∷ text "__test-utils__"
    ∷ text "__test_utils__"
    ∷ text "__testutils__"
    ∷ text "__specs__"
    ∷ text "__e2e__"
    ∷ text "__testing__"
    ∷ []

abbrev pub generated_dirs : List Text
generated_dirs =
    text "__generated__" ∷ text "generated" ∷ text "gen" ∷ text "codegen" ∷ text "proto-gen" ∷ []

abbrev pub test_parts : List Text
test_parts =
    text "spec" ∷ text "test" ∷ text "e2e-spec" ∷ text "e2e" ∷ text "int-test" ∷ text "it" ∷ []

abbrev is_named_in : List Text → Component → Bool
is_named_in dirs (normal name) = any (λ d. eq_ignore_ascii_case d name) dirs
is_named_in dirs _ = false

abbrev pub in_dir : List Text → FilePath → Bool
in_dir dirs path = any (is_named_in dirs) path

-- `Path::file_name`
abbrev pub file_name : FilePath → Option Text
file_name [] = none
file_name (normal name ∷ []) = some name
file_name (_ ∷ []) = none
file_name (c ∷ d ∷ path) = file_name (d ∷ path)

abbrev head_of : Text → List Text → Text
head_of d [] = d
head_of d (t ∷ ts) = t

abbrev tail_of : List Text → List Text
tail_of [] = []
tail_of (t ∷ ts) = ts

abbrev starts_upper : (ℕ → Bool) → Text → Bool
starts_upper is_uppercase [] = false
starts_upper is_uppercase (c ∷ s) = is_uppercase c

abbrev looks_generated : Text → Bool
looks_generated name =
    ends_with (text ".d.ts") name
    || (contains_text (text ".generated.") name
        || (contains_text (text ".gen.") name
            || (contains_text (text ".pb.") name
                || (contains_text (text "_pb.") name
                    || (contains_text (text "_pb2") name || contains_text (text "_grpc.") name)))))

unfoldable pub is_generated_path : FilePath → Bool
is_generated_path path =
    if in_dir generated_dirs path
    then true
    else elim (file_name path) [ none ↦ false | some name ↦ looks_generated name ]

module _ (is_uppercase : ℕ → Bool) where
  -- the tests on the file's name
  unfoldable pub is_test_name : Text → Bool
  is_test_name name =
      let pieces = split b'.' name in
      let stem = head_of name pieces in
      any (λ part. contains part test_parts) (tail_of pieces)
      || (ends_with (text "_test") stem
          || (ends_with (text "_spec") stem
              || (has_prefix (text "test_") stem
                  || ((ends_with (text "Test") stem
                        || (ends_with (text "Tests") stem || ends_with (text "IT") stem))
                      && (ltb 4 (byte_length stem) && starts_upper is_uppercase stem)))))

  unfoldable pub is_test_path : FilePath → Bool
  unfolding is_test_name
  is_test_path path =
      if in_dir test_dirs path
      then true
      else elim (file_name path) [ none ↦ false | some name ↦ is_test_name name ]

  -- `min_by_key` over the roots that contain the file: the first of the shortest remainders
  abbrev pub shorter : FilePath → Option FilePath → FilePath
  shorter rel none = rel
  shorter rel (some best) = if ltb (length best) (length rel) then best else rel

  unfoldable pub nearest_rel : FilePath → List FilePath → Option FilePath
  nearest_rel path [] = none
  nearest_rel path (r ∷ roots) =
      let rest = nearest_rel path roots in
      elim (strip_prefix path r) [ none ↦ rest | some rel ↦ some (shorter rel rest) ]

  abbrev pub own_rel : FilePath → Option FilePath → Option FilePath
  own_rel path none = none
  own_rel path (some root) = strip_prefix path root

  abbrev pub pick_rel : FilePath → Option FilePath → Option FilePath → FilePath
  pick_rel path (some rel) o = rel
  pick_rel path none (some rel) = rel
  pick_rel path none none = path

  unfoldable pub is_test_node : ContractNode → List FilePath → Bool
  unfolding is_test_path nearest_rel
  is_test_node node roots =
      let path = node.file_path in
      is_test_path
        (pick_rel path (own_rel path (get_elem? roots node.repo_id)) (nearest_rel path roots))
