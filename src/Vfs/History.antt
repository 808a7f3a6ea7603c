-- ===== src/Vfs/History.antt =====
-- Any history of calls of crates/mesh-core/src/vfs.rs against the two maps that it stands for.
use causalmesh.Prelude.{
  ℕ, Bool, ◌≡◌, refl, Option, none, some, List, [], ◌∷◌, arith, ◌==◌, nat_eq, list_eq,
  if◌then◌else◌,
}
use causalmesh.Prelude.Assoc.{
  IsUnique, lookup, lookup-insert, lookup-remove, lookup-retain_keys, insert-IsUnique,
  remove-IsUnique, retain_keys-IsUnique,
}
use causalmesh.Prelude.Paths.{FilePath, component_eq}
use causalmesh.Vfs.{
  DifferentialVfs, FileSignature, new, note_rejected, retain_rejected, upsert, remove, clear,
}

pub data Call : Type 0 where
  note_call : FilePath → ℕ × ℕ → Call
  retain_call : (FilePath → Bool) → Call
  upsert_call : FilePath → FileSignature → Call
  remove_call : FilePath → Call
  clear_call : Call

step : Call → DifferentialVfs → DifferentialVfs
unfolding note_rejected retain_rejected upsert remove clear
step (note_call p stat) vfs = note_rejected p stat vfs
step (retain_call keep) vfs = retain_rejected keep vfs
step (upsert_call p sig) vfs = (upsert p sig vfs).0
step (remove_call p) vfs = (remove p vfs).0
step clear_call vfs = clear vfs

-- The cache after a history, whose newest call stands first.
pub run : List Call → DifferentialVfs
unfolding step
run [] = new
run (call ∷ older) = step call (run older)

-- The signature that a path was last indexed with, unless it was removed since.
pub indexed : FilePath → List Call → Option FileSignature
indexed q [] = none
indexed q (note_call p stat ∷ older) = indexed q older
indexed q (retain_call keep ∷ older) = indexed q older
indexed q (upsert_call p sig ∷ older) = if p == q then some sig else indexed q older
indexed q (remove_call p ∷ older) = if p == q then none else indexed q older
indexed q (clear_call ∷ older) = none

-- The stat of the last refusal of a path, unless it was indexed, removed or dropped since.
pub refused : FilePath → List Call → Option (ℕ × ℕ)
refused q [] = none
refused q (note_call p stat ∷ older) = if p == q then some stat else refused q older
refused q (retain_call keep ∷ older) = if keep q then refused q older else none
refused q (upsert_call p sig ∷ older) = if p == q then none else refused q older
refused q (remove_call p ∷ older) = if p == q then none else refused q older
refused q (clear_call ∷ older) = none

record Tracks (v : DifferentialVfs) (h : List Call) : Type 0 where
  unique_signatures : IsUnique v.signatures
  unique_rejected : IsUnique v.rejected
  signatures : (q : FilePath) → lookup q v.signatures ≡ indexed q h
  rejected : (q : FilePath) → lookup q v.rejected ≡ refused q h

step-Tracks :
    (c : Call) (v : DifferentialVfs) (h : List Call) → Tracks v h → Tracks (step c v) (c ∷ h)
unfolding step indexed refused
step-Tracks (note_call p stat) v h t = record {
  unique_signatures = t.unique_signatures;
  unique_rejected = insert-IsUnique p stat v.rejected t.unique_rejected;
  signatures = t.signatures;
  rejected = λ q. ground (arith, lookup-insert p q stat v.rejected, t.rejected q);
}
step-Tracks (retain_call keep) v h t = record {
  unique_signatures = t.unique_signatures;
  unique_rejected = retain_keys-IsUnique keep v.rejected t.unique_rejected;
  signatures = t.signatures;
  rejected = λ q. ground (arith, lookup-retain_keys keep q v.rejected, t.rejected q);
}
step-Tracks (upsert_call p sig) v h t = record {
  unique_signatures = insert-IsUnique p sig v.signatures t.unique_signatures;
  unique_rejected = remove-IsUnique p v.rejected t.unique_rejected;
  signatures = λ q. ground (arith, lookup-insert p q sig v.signatures, t.signatures q);
  rejected = λ q. ground (arith, lookup-remove p q v.rejected t.unique_rejected, t.rejected q);
}
step-Tracks (remove_call p) v h t = record {
  unique_signatures = remove-IsUnique p v.signatures t.unique_signatures;
  unique_rejected = remove-IsUnique p v.rejected t.unique_rejected;
  signatures =
      λ q. ground (arith, lookup-remove p q v.signatures t.unique_signatures, t.signatures q);
  rejected = λ q. ground (arith, lookup-remove p q v.rejected t.unique_rejected, t.rejected q);
}
step-Tracks clear_call v h t = record {
  unique_signatures = tt;
  unique_rejected = tt;
  signatures = λ q. refl;
  rejected = λ q. refl;
}

run-Tracks : (h : List Call) → Tracks (run h) h
unfolding run indexed refused
run-Tracks [] = record {
  unique_signatures = tt;
  unique_rejected = tt;
  signatures = λ q. refl;
  rejected = λ q. refl;
}
run-Tracks (c ∷ h) = step-Tracks c (run h) h (run-Tracks h)

-- After any history of calls from the empty cache, each path has the signature that it was last
-- indexed with and the refusal last noted for it, each unless a later call took it away.
pub lookup-run :
    (h : List Call) (q : FilePath)
    → (lookup q (run h).signatures ≡ indexed q h) × (lookup q (run h).rejected ≡ refused q h)
lookup-run h q = let t = run-Tracks h in (t.signatures q, t.rejected q)
