-- ===== src/Vfs.antt =====
-- The differential file cache (crates/mesh-core/src/vfs.rs): which files changed since they were
-- last indexed, and which refusals of the guards still hold. The metadata is what the file
-- system answers; the digest, of a library, is the parameter `sha256`.
pub mod History
pub mod Changes
pub mod Tests
use causalmesh.Prelude.{
  ℕ, Bool, true, false, ◌&&◌, not, Option, none, some, List, [], length, if◌then◌else◌, PartialEq,
  ◌==◌, nat_eq, list_eq,
}
use causalmesh.Prelude.Assoc.{
  Assoc, lookup, insert, remove as remove_entry, retain_keys, contains_key,
}
use causalmesh.Prelude.Text.{Text}
use causalmesh.Prelude.Paths.{FilePath, component_eq}

-- A time stamp, by its distance from the Unix epoch in nanoseconds.
pub data SystemTime : Type 0 where
  since_epoch : ℕ → SystemTime
  before_epoch : ℕ → SystemTime

-- `fs::Metadata`, as far as it is read; `none` where the platform keeps no modification time
pub record Metadata : Type 0 where
  pub modified : Option SystemTime
  pub len : ℕ

pub record FileSignature : Type 0 where
  pub mtime_nanos : ℕ
  pub file_size : ℕ
  pub content_hash : Text

pub record DifferentialVfs : Type 0 where
  pub signatures : Assoc FilePath FileSignature
  pub rejected : Assoc FilePath (ℕ × ℕ)

abbrev pub new : DifferentialVfs
new = record { signatures = []; rejected = [] }

mtime_nanos_of : Option SystemTime → ℕ
mtime_nanos_of none = 0
mtime_nanos_of (some (since_epoch n)) = n
mtime_nanos_of (some (before_epoch n)) = 0

pub stat_parts : Metadata → ℕ × ℕ
unfolding mtime_nanos_of
stat_parts metadata = (mtime_nanos_of metadata.modified, metadata.len)

pub is_unchanged_fast : DifferentialVfs → FilePath → Metadata → Bool
unfolding stat_parts
is_unchanged_fast vfs path metadata = elim (lookup path vfs.signatures) [
  | none ↦ false
  | some s ↦ s.mtime_nanos == (stat_parts metadata).0 && s.file_size == (stat_parts metadata).1
]

pub note_rejected : FilePath → ℕ × ℕ → DifferentialVfs → DifferentialVfs
note_rejected path stat vfs = record vfs { rejected = insert path stat vfs.rejected }

pub retain_rejected : (FilePath → Bool) → DifferentialVfs → DifferentialVfs
retain_rejected keep vfs = record vfs { rejected = retain_keys keep vfs.rejected }

pub rejected_len : DifferentialVfs → ℕ
rejected_len vfs = length vfs.rejected

pub is_rejection_unchanged : DifferentialVfs → FilePath → Metadata → Bool
unfolding stat_parts
is_rejection_unchanged vfs path metadata = elim (lookup path vfs.rejected) [
  | none ↦ false
  | some stat ↦ stat.0 == (stat_parts metadata).0 && stat.1 == (stat_parts metadata).1
]

-- The flag is `true` if the content is new or differs, so the file must be indexed again.
pub upsert : FilePath → FileSignature → DifferentialVfs → DifferentialVfs × Bool
upsert path sig vfs =
    let changed : Bool = elim (lookup path vfs.signatures) [
      | none ↦ true
      | some existing ↦ not (existing.content_hash == sig.content_hash)
    ] in
    (
      record {
        signatures = insert path sig vfs.signatures;
        rejected = remove_entry path vfs.rejected;
      },
      changed,
    )

pub remove : FilePath → DifferentialVfs → DifferentialVfs × Bool
remove path vfs = (
  record {
    signatures = remove_entry path vfs.signatures;
    rejected = remove_entry path vfs.rejected;
  },
  contains_key path vfs.signatures,
)

pub clear : DifferentialVfs → DifferentialVfs
clear vfs = record { signatures = []; rejected = [] }

module _ (sha256 : Text → Text) where
  pub compute_signature : Metadata → Text → FileSignature
  unfolding stat_parts
  compute_signature metadata content = record {
    mtime_nanos = (stat_parts metadata).0;
    file_size = (stat_parts metadata).1;
    content_hash = sha256 content;
  }

  -- `stat` is the answer of `fs::metadata` for the path, `none` on an error.
  pub check_and_update :
      FilePath → Option Metadata → Text → DifferentialVfs → DifferentialVfs × Bool
  unfolding is_unchanged_fast compute_signature upsert
  check_and_update path none content vfs = (vfs, true)
  check_and_update path (some metadata) content vfs =
      if is_unchanged_fast vfs path metadata
      then (vfs, false)
      else upsert path (compute_signature metadata content) vfs
