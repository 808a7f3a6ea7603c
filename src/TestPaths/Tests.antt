-- ===== src/TestPaths/Tests.antt =====
-- Test code told by concrete paths.
use causalmesh.Prelude.{List, ◌≡◌, refl, none, [], ◌∷◌, ◌++◌}
use causalmesh.Prelude.Text.{text, is_ascii_upper}
use causalmesh.Prelude.Paths.{FilePath, root_dir, normal}
use causalmesh.Graph.{ContractNode, source_module}
use causalmesh.TestPaths.{is_test_node, is_test_path}
use causalmesh.TestPaths.Nearest.{IsDeciding, is_test_node-IsDeciding}
use causalmesh.TestPaths.Checkouts.{moved, is_test_node-moved}

abbrev checkout : FilePath
checkout = normal (text "repo") ∷ []

-- where the whole workspace may be put
abbrev elsewhere : FilePath
elsewhere = root_dir ∷ normal (text "tests") ∷ []

abbrev node : FilePath → ContractNode
node path = record {
  id = 4;
  name = text "app";
  kind = source_module;
  file_path = path;
  line_start = 1;
  line_end = 2;
  package_name = [];
  repo_id = 0;
  signature = none;
  docstring = none;
}

abbrev app : ContractNode
app = node (normal (text "repo") ∷ normal (text "app.ts") ∷ [])

is_test_node-moved_example :
    is_test_node is_ascii_upper
      (record app { file_path = elsewhere ++ app.file_path })
      (moved elsewhere (checkout ∷ []))
    ≡ is_test_node is_ascii_upper app (checkout ∷ [])
is_test_node-moved_example =
    is_test_node-moved is_ascii_upper elsewhere checkout (normal (text "app.ts") ∷ []) app
      (checkout ∷ []) 0 refl refl

-- The node's own root does not contain it, the other one does.
abbrev roots : List FilePath
roots = elsewhere ∷ checkout ∷ []

is_test_node-IsDeciding_example :
    (rel : FilePath) × (IsDeciding is_ascii_upper app roots rel
      × (is_test_node is_ascii_upper app roots ≡ is_test_path is_ascii_upper rel))
is_test_node-IsDeciding_example = is_test_node-IsDeciding is_ascii_upper app roots
