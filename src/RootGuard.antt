-- ===== src/RootGuard.antt =====
-- Which directories are refused as a workspace root (crates/mesh-core/src/root_guard.rs), as it is
-- built on Unix. What the file system makes of a path is a parameter: `none` where it fails.
pub mod Refusal
pub mod Tests
use causalmesh.Prelude.{
  Bool, true, false, Option, none, some, List, [], ◌∷◌, if◌then◌else◌, ◌==◌, nat_eq, list_eq,
}
use causalmesh.Prelude.Text.{Text, text, concat, is_nil}
use causalmesh.Prelude.Paths.{
  Component, root_dir, cur_dir, parent_dir, normal, FilePath, component_eq,
}
use causalmesh.Prelude.Results.{Result, ok, err}
use causalmesh.Config.{contains_text}
use causalmesh.Security.{path_of, to_text}

pub data DegenerateKind : Type 0 where
  filesystem_root drive_root home : DegenerateKind

abbrev describe : DegenerateKind → Text
describe filesystem_root = text "the filesystem root"
describe drive_root = text "a drive root"
describe home = text "the user's home directory"

pub record DegenerateRootError : Type 0 where
  pub dir : FilePath
  pub kind : DegenerateKind

-- the error as it is shown
abbrev pub message : DegenerateRootError → Text
message e = concat (
    text "refusing to index `"
    ∷ to_text e.dir
    ∷ text "`: the workspace resolved to "
    ∷ describe e.kind
    ∷ text
        " because no mesh-mcp.toml was found there (the MCP client was probably launched with cwd = `"
    ∷ to_text e.dir
    ∷ text
        "`). Nothing was scanned and no daemon was started. Pass `-c <path/to/mesh-mcp.toml>` (a config that lists explicit `roots`), or start the MCP server from inside your project directory."
    ∷ [])

abbrev first_set : (Text → Option Text) → List Text → Option Text
first_set env [] = none
first_set env (name ∷ names) = elim (env name) [
  | none ↦ first_set env names
  | some value ↦ if is_nil value then first_set env names else some value
]

-- The environment, or else what the operating system records.
abbrev pub home_dir_with : (Text → Option Text) → Option FilePath → Option FilePath
home_dir_with env os_home_dir = elim (first_set env (text "HOME" ∷ text "USERPROFILE" ∷ [])) [
  | some value ↦ some (path_of value)
  | none ↦ os_home_dir
]

-- the loop over the components, from whether a root was seen
abbrev bare_from : Bool → FilePath → Bool
bare_from saw_root [] = saw_root
bare_from saw_root (root_dir ∷ path) = bare_from true path
bare_from saw_root (cur_dir ∷ path) = false
bare_from saw_root (parent_dir ∷ path) = false
bare_from saw_root (normal name ∷ path) = false

abbrev pub is_bare_root : FilePath → Bool
is_bare_root path = bare_from false path

-- the kind of a bare root
abbrev pub bare_kind : FilePath → DegenerateKind
bare_kind dir = if contains_text (text ":") (to_text dir) then drive_root else filesystem_root

module _ (canonicalize : FilePath → Option FilePath) where
  unfoldable pub canonical : FilePath → FilePath
  canonical path = elim (canonicalize path) [ some real ↦ real | none ↦ path ]

  unfoldable pub classify_workspace_root : FilePath → Option FilePath → Option DegenerateKind
  classify_workspace_root dir none =
      if is_bare_root (canonical dir) then some (bare_kind (canonical dir)) else none
  classify_workspace_root dir (some home_dir) =
      if is_bare_root (canonical dir)
      then some (bare_kind (canonical dir))
      else if is_bare_root (canonical home_dir)
      then none
      else if canonical dir == canonical home_dir
      then some home
      else none

  unfoldable pub guard_workspace_root :
      FilePath → Bool → Option FilePath → Result DegenerateRootError Unit
  guard_workspace_root base_dir config_pins_roots home_dir =
      if config_pins_roots then ok tt else elim (classify_workspace_root base_dir home_dir) [
        | none ↦ ok tt
        | some kind ↦ err (record { dir = canonical base_dir; kind = kind })
      ]
