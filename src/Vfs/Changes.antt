-- ===== src/Vfs/Changes.antt =====
-- When crates/mesh-core/src/vfs.rs asks for a file to be indexed again.
use causalmesh.Prelude.{true, false, ◌≡◌, ◌≢◌, ◌↔◌, some, arith, nat_eq, list_eq, list_beq_iff}
use causalmesh.Prelude.Assoc.{lookup, lookup-insert}
use causalmesh.Prelude.Text.{Text}
use causalmesh.Prelude.Paths.{FilePath, component_eq}
use causalmesh.Vfs.{
  DifferentialVfs, FileSignature, Metadata, stat_parts, compute_signature, check_and_update,
}

module _ (sha256 : Text → Text) (path : FilePath) where
  -- A file that was indexed with a signature, and whose bytes did not change unless its
  -- modification time or its size did, is reported as changed exactly when its digest differs
  -- from the recorded one; the entry of every other path is as before.
  pub check_and_update_exact :
      (metadata : Metadata) (content : Text) (vfs : DifferentialVfs) (s : FileSignature)
      (q : FilePath)
      → lookup path vfs.signatures ≡ some s
      → (stat_parts metadata ≡ (s.mtime_nanos, s.file_size) → sha256 content ≡ s.content_hash)
      → path ≢ q
      → (((check_and_update sha256 path (some metadata) content vfs).1 ≡ true)
          ↔ (sha256 content ≢ s.content_hash))
        × (lookup q (check_and_update sha256 path (some metadata) content vfs).0.signatures
            ≡ lookup q vfs.signatures)
  unfolding check_and_update
  check_and_update_exact metadata content vfs s q tracked honest ne = (
    (
      λ p e. ground (
        arith,
        list_beq_iff (sha256 content) s.content_hash,
        list_beq_iff s.content_hash (sha256 content),
      ),
      λ differs. ground (arith, list_beq_iff s.content_hash (sha256 content)),
    ),
    ground (
      arith,
      list_beq_iff path q,
      lookup-insert path q (compute_signature sha256 metadata content) vfs.signatures,
    ),
  )

  -- Once a file has been checked, a second check with the same metadata, whatever the content,
  -- reports it unchanged and leaves the cache as it is.
  pub check_and_update_again :
      (metadata : Metadata) (content later : Text) (vfs : DifferentialVfs)
      → check_and_update sha256 path
          (some metadata)
          later
          (check_and_update sha256 path (some metadata) content vfs).0
        ≡ ((check_and_update sha256 path (some metadata) content vfs).0, false)
  unfolding check_and_update
  check_and_update_again metadata content later vfs = ground (
    arith,
    list_beq_iff path path,
    lookup-insert path path (compute_signature sha256 metadata content) vfs.signatures,
  )
