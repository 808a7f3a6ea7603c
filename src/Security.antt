-- ===== src/Security.antt =====
-- The jail around the paths of a request (crates/mesh-core/src/security.rs), as built for Linux.
-- Parameters: Unicode normalisation (`nfc`), the lexical cleaning of a path (`clean`), and what the
-- file system answers (`canonicalize`, and for `is_symlink` whether a path is a link, if it exists).
-- The aliases stand in the order in which the map is walked.
pub mod Jail
pub mod Tests
use causalmesh.Prelude.{
  ℕ, Bool, true, false, not, Option, none, some, List, [], ◌∷◌, ◌++◌, PartialEq, ◌==◌, nat_eq,
  list_eq, any, if◌then◌else◌, map,
}
use causalmesh.Prelude.Assoc.{Assoc}
use causalmesh.Prelude.Text.{Text, text, is_nil, split, strip_text_prefix}
use causalmesh.Prelude.Paths.{
  FilePath, Component, root_dir, cur_dir, parent_dir, normal, starts_with,
}

pub data SecurityError : Type 0 where
  sandbox_escape_attempt path_not_found broken_symlink prohibited_root : FilePath → SecurityError
  normalization_failed : Text → Text → SecurityError

-- `Result<_, SecurityError>` of a path
pub data Resolved : Type 0 where
  ok : FilePath → Resolved
  err : SecurityError → Resolved

-- `Path::components` of the pieces between slashes, behind the first
abbrev pieces : List Text → FilePath
pieces [] = []
pieces (t ∷ ts) =
    let rest = pieces ts in
    if is_nil t
    then rest
    else if t == text "."
    then rest
    else if t == text ".."
    then parent_dir ∷ rest
    else normal t ∷ rest

abbrev first_piece : List Text → FilePath
first_piece [] = []
first_piece (t ∷ ts) = if t == text "." then cur_dir ∷ pieces ts else pieces (t ∷ ts)

-- `PathBuf::from`
unfoldable pub path_of : Text → FilePath
path_of [] = []
path_of (c ∷ cs) =
    if c == b'/' then root_dir ∷ pieces (split b'/' cs) else first_piece (split b'/' (c ∷ cs))

abbrev component_text : Component → Text
component_text root_dir = []
component_text cur_dir = text "."
component_text parent_dir = text ".."
component_text (normal name) = name

-- `Path::to_string_lossy`
unfoldable pub to_text : FilePath → Text
to_text [] = []
to_text (root_dir ∷ []) = text "/"
to_text (c ∷ []) = component_text c
to_text (c ∷ d ∷ path) = component_text c ++ (b'/' ∷ to_text (d ∷ path))

abbrev is_relative : FilePath → Bool
is_relative (root_dir ∷ path) = false
is_relative _ = true

abbrev behind_cur : FilePath → FilePath
behind_cur (cur_dir ∷ path) = path
behind_cur path = path

-- `Path::join` with a relative path
unfoldable pub join : FilePath → FilePath → FilePath
join [] path = path
join (c ∷ root) path = (c ∷ root) ++ behind_cur path

module _ (nfc : Text → Text) (clean : FilePath → FilePath)
    (canonicalize : FilePath → Option FilePath) where
  unfoldable pub to_nfc_path : FilePath → FilePath
  unfolding path_of to_text
  to_nfc_path path = path_of (nfc (to_text path))

  -- the loop over the aliases
  unfoldable pub translate : Text → Assoc Text Text → Text
  translate input [] = input
  translate input ((alias, target) ∷ aliases) =
      let later = translate input aliases in
      if input == nfc alias
      then nfc target
      else elim (strip_text_prefix (nfc alias ++ text "/") input) [
        | none ↦ later
        | some rest ↦ nfc target ++ (b'/' ∷ rest)
      ]

  -- the anchored path, then the plain one
  unfoldable pub canonical_of : FilePath → FilePath → Resolved
  canonical_of anchored plain = elim (canonicalize anchored) [
    | some c ↦ ok c
    | none ↦ elim (canonicalize plain) [ none ↦ err (path_not_found anchored) | some c ↦ ok c ]
  ]

  unfoldable pub canonical_scope : Text → Option FilePath → Resolved
  unfolding canonical_of path_of join
  canonical_scope scope anchor =
      let plain = clean (path_of scope) in
      elim anchor [
        | none ↦ canonical_of plain plain
        | some root ↦
            if is_relative (path_of scope)
            then canonical_of (clean (join root (path_of scope))) plain
            else canonical_of plain plain
      ]

  unfoldable pub is_jailed : List FilePath → FilePath → Bool
  unfolding to_nfc_path
  is_jailed allowed_roots canonical =
      any (λ root. starts_with (to_nfc_path canonical) (to_nfc_path root)) allowed_roots

  unfoldable pub resolve_with_aliases :
      Text → List FilePath → Assoc Text Text → Option FilePath → Resolved
  unfolding translate canonical_scope is_jailed
  resolve_with_aliases raw_scope allowed_roots mount_aliases anchor =
      elim (canonical_scope (translate (nfc raw_scope) mount_aliases) anchor) [
        | err e ↦ err e
        | ok canonical ↦
            if is_jailed allowed_roots canonical
            then ok canonical
            else err (sandbox_escape_attempt canonical)
      ]

  unfoldable pub resolve : Text → List FilePath → Resolved
  unfolding resolve_with_aliases
  resolve raw_scope allowed_roots = resolve_with_aliases raw_scope allowed_roots [] none

  module _ (is_symlink : FilePath → Option Bool) where
    unfoldable pub validate_file_access : FilePath → List FilePath → Resolved
    unfolding resolve to_text
    validate_file_access file_path allowed_roots = elim (is_symlink file_path) [
      | none ↦ err (path_not_found file_path)
      | some link ↦ elim (canonicalize file_path) [
        | none ↦ if link then err (broken_symlink file_path) else err (path_not_found file_path)
        | some canonical ↦ elim (resolve (to_text canonical) allowed_roots) [
          | err e ↦ err e
          | ok scope ↦ ok canonical
        ]
      ]
    ]
