-- ===== src/RootGuard/Tests.antt =====
-- The guard of workspace roots on a file system with a link to its root.
use causalmesh.Prelude.{
  true, false, Option, none, some, [], ◌∷◌, if◌then◌else◌, ◌==◌, list_eq, ◌≡◌, ◌⊎◌,
}
use causalmesh.Prelude.Text.{text}
use causalmesh.Prelude.Paths.{FilePath, root_dir, normal, component_eq}
use causalmesh.Prelude.Results.{ok, err}
use causalmesh.RootGuard.{DegenerateKind, canonical, guard_workspace_root}
use causalmesh.RootGuard.Refusal.{IsPlain, IsRefused, guard_workspace_root-IsRefused}

abbrev link : FilePath
link = root_dir ∷ normal (text "all") ∷ []

abbrev canonicalize : FilePath → Option FilePath
canonicalize path = if path == link then some (root_dir ∷ []) else none

abbrev own : FilePath
own = root_dir ∷ normal (text "home") ∷ normal (text "me") ∷ []

guard_workspace_root-IsRefused_example :
    ((guard_workspace_root canonicalize link false (some own) ≡ ok tt)
      × ((false ≡ true) ⊎ IsPlain canonicalize link (some own)))
    ⊎ ((false ≡ false)
        × ((kind : DegenerateKind) × (guard_workspace_root canonicalize link false (some own)
              ≡ err (record { dir = canonical canonicalize link; kind = kind }))
            × IsRefused canonicalize link (some own) kind))
guard_workspace_root-IsRefused_example =
    guard_workspace_root-IsRefused canonicalize link false (some own)
