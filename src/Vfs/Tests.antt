-- ===== src/Vfs/Tests.antt =====
-- The differential file cache at concrete calls.
use causalmesh.Prelude.{
  ◌≡◌, ◌≢◌, ◌↔◌, refl, true, some, List, [], ◌∷◌, arith, nat_eq, list_eq, contains,
}
use causalmesh.Prelude.Assoc.{lookup}
use causalmesh.Prelude.Text.{Text, text}
use causalmesh.Prelude.Paths.{FilePath, root_dir, normal, component_eq}
use causalmesh.Vfs.{
  DifferentialVfs, FileSignature, Metadata, since_epoch, check_and_update, stat_parts,
}
use causalmesh.Vfs.History.{
  Call, note_call, upsert_call, retain_call, remove_call, run, indexed, refused, lookup-run,
}
use causalmesh.Vfs.Changes.{check_and_update_exact}

abbrev main_rs : FilePath
main_rs = root_dir ∷ normal (text "main.rs") ∷ []

abbrev lib_rs : FilePath
lib_rs = root_dir ∷ normal (text "lib.rs") ∷ []

-- a digest: the text itself
abbrev digest : Text → Text
digest content = content

abbrev signature : FileSignature
signature = record { mtime_nanos = 5; file_size = 2; content_hash = text "ab" }

abbrev cache : DifferentialVfs
cache = record { signatures = (main_rs, signature) ∷ (lib_rs, signature) ∷ []; rejected = [] }

abbrev touched : Metadata
touched = record { modified = some (since_epoch 7); len = 2 }

abbrev history : List Call
history =
    retain_call (λ p. contains (root_dir) p)
    ∷ note_call lib_rs (1, 4000)
    ∷ remove_call lib_rs
    ∷ upsert_call lib_rs signature
    ∷ upsert_call main_rs signature
    ∷ []

lookup-run_example :
    (lookup lib_rs (run history).signatures ≡ indexed lib_rs history)
    × (lookup lib_rs (run history).rejected ≡ refused lib_rs history)
lookup-run_example = lookup-run history lib_rs

check_and_update_exact_example :
    (((check_and_update digest main_rs (some touched) (text "cd") cache).1 ≡ true)
      ↔ (text "cd" ≢ text "ab"))
    × (lookup lib_rs (check_and_update digest main_rs (some touched) (text "cd") cache).0.signatures
        ≡ lookup lib_rs cache.signatures)
unfolding stat_parts
check_and_update_exact_example =
    check_and_update_exact digest main_rs touched (text "cd") cache signature lib_rs refl
      (λ same. ground (arith, same)) (λ same. ground (arith, same))
