-- ===== src/Security/Jail.antt =====
-- What crates/mesh-core/src/security.rs lets through: the first candidate that exists, beneath an
-- allowed root.
use mathlib.Core.Path.{subst}
use causalmesh.Prelude.{
  Bool, true, ◌≡◌, ◌↔◌, ◌⊎◌, inl, inr, refl, Option, none, some, List, [], ◌∷◌, ◌++◌, nat_eq,
  list_eq, arith, Bool-cases, Option-cases, if◌then◌else◌,
}
use causalmesh.Prelude.Assoc.{Assoc}
use causalmesh.Prelude.Text.{Text}
use causalmesh.Prelude.Paths.{FilePath, component_eq, starts_with, starts_with_to, starts_with_of}
use causalmesh.Security.{
  SecurityError, sandbox_escape_attempt, Resolved, ok, err, path_of, to_text, is_relative, join,
  to_nfc_path, translate, canonical_of, canonical_scope, is_jailed, resolve_with_aliases, resolve,
  validate_file_access,
}

Resolved-cases :
    (r : Resolved) → ((c : FilePath) × (r ≡ ok c)) ⊎ ((e : SecurityError) × (r ≡ err e))
Resolved-cases (ok c) = inl (c, refl)
Resolved-cases (err e) = inr (e, refl)

module _ (nfc : Text → Text) (clean : FilePath → FilePath)
    (canonicalize : FilePath → Option FilePath) where
  -- The paths that a scope may mean, in order: anchored, if there is an anchor and it is relative,
  -- then as it stands.
  abbrev pub candidates : Text → Assoc Text Text → Option FilePath → List FilePath
  candidates raw_scope aliases none =
      clean (path_of (translate nfc clean canonicalize (nfc raw_scope) aliases)) ∷ []
  candidates raw_scope aliases (some root) =
      let path = path_of (translate nfc clean canonicalize (nfc raw_scope) aliases) in
      if is_relative path then clean (join root path) ∷ clean path ∷ [] else clean path ∷ []

  -- The first of some paths that exists.
  abbrev pub first_found : List FilePath → Option FilePath
  first_found [] = none
  first_found (p ∷ ps) = elim (canonicalize p) [ none ↦ first_found ps | some c ↦ some c ]

  -- Beneath one of the roots, both normalised.
  abbrev pub IsBeneath : List FilePath → FilePath → Type 0
  IsBeneath [] c = ⊥
  IsBeneath (root ∷ roots) c =
      ((rest : FilePath) × (to_nfc_path nfc clean canonicalize c
          ≡ to_nfc_path nfc clean canonicalize root ++ rest))
      ⊎ IsBeneath roots c

  is_jailed_iff :
      (roots : List FilePath) (c : FilePath)
      → (is_jailed nfc clean canonicalize roots c ≡ true) ↔ IsBeneath roots c
  unfolding is_jailed
  is_jailed_iff [] c = ground arith
  is_jailed_iff (root ∷ roots) c =
      let up = to_nfc_path nfc clean canonicalize in
      (
        λ h. elim (Bool-cases (starts_with (up c) (up root))) [
          | inl here ↦ inl (starts_with_to (up c) (up root) here)
          | inr other ↦ inr ((is_jailed_iff roots c).0 ground (arith, h, other))
        ],
        λ b. elim b [
          | inl (rest, e) ↦ rw e (rw (starts_with_of (up root) rest) refl)
          | inr later ↦ ground (arith, (is_jailed_iff roots c).1 later)
        ],
      )

  canonical_scope-first :
      (raw_scope : Text) (aliases : Assoc Text Text) (anchor : Option FilePath) (c : FilePath)
      → (canonical_scope nfc clean canonicalize
            (translate nfc clean canonicalize (nfc raw_scope) aliases)
            anchor
          ≡ ok c)
        ↔ (first_found (candidates raw_scope aliases anchor) ≡ some c)
  unfolding canonical_scope canonical_of
  canonical_scope-first raw_scope aliases none c = ground arith
  canonical_scope-first raw_scope aliases (some root) c = ground arith

  -- A scope resolves to a path exactly if that is the first of its candidates that exists and lies
  -- beneath an allowed root, and it is refused as an escape exactly if that lies beneath none.
  pub resolve_with_aliases-IsBeneath :
      (raw_scope : Text) (roots : List FilePath) (aliases : Assoc Text Text)
      (anchor : Option FilePath) (c : FilePath)
      → ((resolve_with_aliases nfc clean canonicalize raw_scope roots aliases anchor ≡ ok c)
          ↔ ((first_found (candidates raw_scope aliases anchor) ≡ some c) × IsBeneath roots c))
        × ((resolve_with_aliases nfc clean canonicalize raw_scope roots aliases anchor
              ≡ err (sandbox_escape_attempt c))
            ↔ ((first_found (candidates raw_scope aliases anchor) ≡ some c) × ¬ IsBeneath roots c))
  unfolding resolve_with_aliases canonical_scope canonical_of
  resolve_with_aliases-IsBeneath raw_scope roots aliases none c =
      ground (arith, is_jailed_iff roots c)
  resolve_with_aliases-IsBeneath raw_scope roots aliases (some root) c =
      ground (arith, is_jailed_iff roots c)

  granted :
      (is_symlink : FilePath → Option Bool) (file c : FilePath) (roots : List FilePath)
      → validate_file_access nfc clean canonicalize is_symlink file roots ≡ ok c
      → (canonicalize file ≡ some c)
        × ((scope : FilePath) × (resolve nfc clean canonicalize (to_text c) roots ≡ ok scope))
  unfolding validate_file_access
  granted is_symlink file c roots h = elim (Option-cases (is_symlink file)) [
    | inl gone ↦ absurd (ground (arith, h, gone))
    | inr (link, there) ↦ elim (Option-cases (canonicalize file)) [
      | inl broken ↦ absurd (ground (arith, h, there, broken))
      | inr (c', found) ↦
          elim (Resolved-cases (resolve nfc clean canonicalize (to_text c') roots)) [
            | inl (scope, e) ↦
                let same : c' ≡ c = ground (arith, h, there, found, e) in
                (rw (← same) found, (scope, rw (← same) e))
            | inr (e, refused) ↦ absurd (ground (arith, h, there, found, refused))
          ]
    ]
  ]

  -- A file whose access is granted is what the file system makes of the path asked for, and, where
  -- that resolves to itself when it is spelled as a text again, it lies beneath an allowed root.
  pub validate_file_access-IsBeneath :
      (is_symlink : FilePath → Option Bool) (file c : FilePath) (roots : List FilePath)
      → canonicalize (clean (path_of (nfc (to_text c)))) ≡ some c
      → validate_file_access nfc clean canonicalize is_symlink file roots ≡ ok c
      → (canonicalize file ≡ some c) × IsBeneath roots c
  unfolding resolve translate
  validate_file_access-IsBeneath is_symlink file c roots settled h =
      let (found, (scope, resolved)) = granted is_symlink file c roots h in
      let (first, beneath) =
        (resolve_with_aliases-IsBeneath (to_text c) roots [] none scope).0.0 resolved in
      let same : scope ≡ c = ground (arith, first, settled) in
      (found, subst (IsBeneath roots) same beneath)
