-- ===== src/RootGuard/Refusal.antt =====
-- When a workspace root is refused.
use causalmesh.Prelude.{
  Bool, true, false, Option, none, some, ◌==◌, nat_eq, list_eq, list_beq_iff, Bool-cases, ◌≡◌, ◌≢◌,
  refl, ap, ◌⊎◌, inl, inr, arith,
}
use causalmesh.Prelude.Paths.{FilePath, component_eq}
use causalmesh.Prelude.Results.{ok, err}
use causalmesh.RootGuard.{
  DegenerateKind, home, is_bare_root, bare_kind, canonical, classify_workspace_root,
  guard_workspace_root,
}

module _ (canonicalize : FilePath → Option FilePath) where
  -- A directory that is not the home directory, if that is known.
  abbrev pub IsAwayFrom : FilePath → Option FilePath → Type 0
  IsAwayFrom dir none = Unit
  IsAwayFrom dir (some home_dir) = canonical canonicalize dir ≢ canonical canonicalize home_dir

  -- Why a directory is refused that no configuration pins, or why it is not.
  abbrev pub IsRefused : FilePath → Option FilePath → DegenerateKind → Type 0
  IsRefused dir home_dir kind =
      ((is_bare_root (canonical canonicalize dir) ≡ true)
        × (kind ≡ bare_kind (canonical canonicalize dir)))
      ⊎ ((kind ≡ home)
          × ((own : FilePath) × (home_dir ≡ some own)
              × (canonical canonicalize dir ≡ canonical canonicalize own)))

  abbrev pub IsPlain : FilePath → Option FilePath → Type 0
  IsPlain dir home_dir =
      (is_bare_root (canonical canonicalize dir) ≡ false) × IsAwayFrom dir home_dir

  unpinned :
      (dir : FilePath) (home_dir : Option FilePath)
      → ((guard_workspace_root canonicalize dir false home_dir ≡ ok tt) × IsPlain dir home_dir)
        ⊎ ((kind : DegenerateKind) × (guard_workspace_root canonicalize dir false home_dir
              ≡ err (record { dir = canonical canonicalize dir; kind = kind }))
            × IsRefused dir home_dir kind)
  unfolding guard_workspace_root classify_workspace_root
  unpinned dir none = elim (Bool-cases (is_bare_root (canonical canonicalize dir))) [
    | inl b ↦ inr (bare_kind (canonical canonicalize dir), rw b refl, inl (b, refl))
    | inr o ↦ inl (rw o refl, (o, tt))
  ]
  unpinned dir (some own) = elim (Bool-cases (is_bare_root (canonical canonicalize dir))) [
    | inl b ↦ inr (bare_kind (canonical canonicalize dir), rw b refl, inl (b, refl))
    | inr o ↦ elim (Bool-cases (is_bare_root (canonical canonicalize own))) [
      | inl h ↦ inl (rw (o, h) refl, (o, λ same. ground (arith, o, h, ap is_bare_root same)))
      | inr h ↦ elim (Bool-cases (canonical canonicalize dir == canonical canonicalize own)) [
        | inl same ↦ inr (
          home,
          rw (o, h, same) refl,
          inr (
            refl,
            (
              own,
              refl,
              (list_beq_iff (canonical canonicalize dir) (canonical canonicalize own)).0 same,
            ),
          ),
        )
        | inr other ↦ inl (
          rw (o, h, other) refl,
          (
            o,
            λ same. ground (
              arith,
              other,
              (list_beq_iff (canonical canonicalize dir) (canonical canonicalize own)).1 same,
            ),
          ),
        )
      ]
    ]
  ]

  -- The guard accepts a directory if a configuration pins the roots, or if the directory, once
  -- canonical, is neither a bare root nor the canonical home; else it refuses it, and says which.
  pub guard_workspace_root-IsRefused :
      (dir : FilePath) (pins : Bool) (home_dir : Option FilePath)
      → ((guard_workspace_root canonicalize dir pins home_dir ≡ ok tt)
          × ((pins ≡ true) ⊎ IsPlain dir home_dir))
        ⊎ ((pins ≡ false)
            × ((kind : DegenerateKind) × (guard_workspace_root canonicalize dir pins home_dir
                  ≡ err (record { dir = canonical canonicalize dir; kind = kind }))
                × IsRefused dir home_dir kind))
  unfolding guard_workspace_root
  guard_workspace_root-IsRefused dir true home_dir = inl (refl, inl refl)
  guard_workspace_root-IsRefused dir false home_dir = elim (unpinned dir home_dir) [
    | inl (accepted, plain) ↦ inl (accepted, inr plain)
    | inr refused ↦ inr (refl, refused)
  ]
