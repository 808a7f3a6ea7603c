-- ===== src/Security/Tests.antt =====
-- The jail at a concrete file system: it has one directory of one file.
use causalmesh.Prelude.{
  ◌≡◌, ◌↔◌, refl, Bool, false, Option, none, some, [], ◌∷◌, ◌==◌, nat_eq, list_eq, if◌then◌else◌,
}
use causalmesh.Prelude.Text.{Text, text}
use causalmesh.Prelude.Paths.{FilePath, root_dir, normal, component_eq, starts_with}
use causalmesh.Security.{
  sandbox_escape_attempt, ok, err, path_of, to_text, resolve_with_aliases, validate_file_access,
}
use causalmesh.Security.Jail.{
  candidates, first_found, IsBeneath, resolve_with_aliases-IsBeneath,
  validate_file_access-IsBeneath,
}

abbrev same_text : Text → Text
same_text s = s

abbrev same_path : FilePath → FilePath
same_path path = path

abbrev shop : FilePath
shop = root_dir ∷ normal (text "shop") ∷ []

abbrev main_rs : FilePath
main_rs = root_dir ∷ normal (text "shop") ∷ normal (text "main.rs") ∷ []

abbrev exists : FilePath → Option FilePath
exists path = if path == shop then some shop else if path == main_rs then some main_rs else none

abbrev no_link : FilePath → Option Bool
no_link path = some false

resolve_with_aliases-IsBeneath_example :
    ((resolve_with_aliases same_text same_path exists (text "main.rs") (shop ∷ []) [] (some shop)
        ≡ ok main_rs)
      ↔ ((first_found same_text same_path exists
              (candidates same_text same_path exists (text "main.rs") [] (some shop))
            ≡ some main_rs)
          × IsBeneath same_text same_path exists (shop ∷ []) main_rs))
    × ((resolve_with_aliases same_text same_path exists (text "main.rs") (shop ∷ []) [] (some shop)
          ≡ err (sandbox_escape_attempt main_rs))
        ↔ ((first_found same_text same_path exists
                (candidates same_text same_path exists (text "main.rs") [] (some shop))
              ≡ some main_rs)
            × ¬ IsBeneath same_text same_path exists (shop ∷ []) main_rs))
resolve_with_aliases-IsBeneath_example =
    resolve_with_aliases-IsBeneath same_text same_path exists (text "main.rs") (shop ∷ []) []
      (some shop) main_rs

validate_file_access-IsBeneath_example :
    (exists main_rs ≡ some main_rs) × IsBeneath same_text same_path exists (shop ∷ []) main_rs
unfolding path_of to_text validate_file_access starts_with
validate_file_access-IsBeneath_example =
    validate_file_access-IsBeneath same_text same_path exists no_link main_rs main_rs (shop ∷ [])
      refl refl
