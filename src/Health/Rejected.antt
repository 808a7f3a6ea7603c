-- ===== src/Health/Rejected.antt =====
-- The list of rejected files of crates/mesh-core/src/health.rs: its order, its bound and its entries.
use causalmesh.Prelude.{
  ℕ, zero, suc, ◌+◌, ◌≤◌, not, Option, none, some, List, [], ◌∷◌, ◌++◌, ◌==◌, nat_eq, list_eq,
  list_beq_iff, if◌then◌else◌, retain, contains, length, take, ◌≡◌, arith, refl, length-append,
  length-retain-le,
}
use causalmesh.Prelude.Paths.{FilePath, component_eq}
use causalmesh.Prelude.Order.{path_leb_refl}
use causalmesh.Health.{
  max_rejected_files, RejectedFile, IndexHealth, insert_sorted, sort_by_path, put_last, collapse,
  normalize_rejected, replace_rejected, rejected_eq,
}

abbrev pub or_else : Option RejectedFile → Option RejectedFile → Option RejectedFile
or_else none o = o
or_else (some r) o = some r

or_else-none : (o : Option RejectedFile) → or_else o none ≡ o
or_else-none none = refl
or_else-none (some r) = refl

-- The last entry of a path.
abbrev pub entry : FilePath → List RejectedFile → Option RejectedFile
entry path [] = none
entry path (r ∷ rs) = or_else (entry path rs) (if r.path == path then some r else none)

entry-append :
    (path : FilePath) (xs ys : List RejectedFile)
    → entry path (xs ++ ys) ≡ or_else (entry path ys) (entry path xs)
entry-append path [] ys = ground arith
entry-append path (x ∷ xs) ys = ground (arith, entry-append path xs ys)

entry-insert_sorted :
    (path : FilePath) (r : RejectedFile) (rs : List RejectedFile)
    → entry path (insert_sorted r rs) ≡ entry path (r ∷ rs)
unfolding insert_sorted
entry-insert_sorted path r [] = refl
entry-insert_sorted path r (s ∷ rs) = ground (
  arith,
  entry-insert_sorted path r rs,
  path_leb_refl r.path,
  list_beq_iff r.path path,
  list_beq_iff s.path path,
)

entry-sort_by_path :
    (path : FilePath) (rs : List RejectedFile) → entry path (sort_by_path rs) ≡ entry path rs
unfolding sort_by_path
entry-sort_by_path path [] = refl
entry-sort_by_path path (r ∷ rs) =
    ground (arith, entry-insert_sorted path r (sort_by_path rs), entry-sort_by_path path rs)

entry-put_last :
    (path : FilePath) (r : RejectedFile) (out : List RejectedFile)
    → entry path (put_last r out) ≡ entry path (out ++ r ∷ [])
unfolding put_last
entry-put_last path r [] = refl
entry-put_last path r (last ∷ []) =
    ground
      (arith, list_beq_iff last.path r.path, list_beq_iff last.path path, list_beq_iff r.path path)
entry-put_last path r (s ∷ t ∷ out) = ground (arith, entry-put_last path r (t ∷ out))

entry-collapse :
    (path : FilePath) (rs out : List RejectedFile)
    → entry path (collapse rs out) ≡ or_else (entry path rs) (entry path out)
unfolding collapse
entry-collapse path [] out = refl
entry-collapse path (r ∷ rs) out = ground (
  arith,
  entry-collapse path rs (put_last r out),
  entry-put_last path r out,
  entry-append path out (r ∷ []),
)

length-insert_sorted :
    (r : RejectedFile) (rs : List RejectedFile) → length (insert_sorted r rs) ≡ suc (length rs)
unfolding insert_sorted
length-insert_sorted r [] = refl
length-insert_sorted r (s ∷ rs) = ground (arith, length-insert_sorted r rs)

length-sort_by_path : (rs : List RejectedFile) → length (sort_by_path rs) ≡ length rs
unfolding sort_by_path
length-sort_by_path [] = refl
length-sort_by_path (r ∷ rs) =
    omega (arith, length-insert_sorted r (sort_by_path rs), length-sort_by_path rs)

length-put_last-le :
    (r : RejectedFile) (out : List RejectedFile) → length (put_last r out) ≤ suc (length out)
unfolding put_last
length-put_last-le r [] = omega arith
length-put_last-le r (last ∷ []) = ground arith
length-put_last-le r (s ∷ t ∷ out) = omega (arith, length-put_last-le r (t ∷ out))

length-collapse-le :
    (rs out : List RejectedFile) → length (collapse rs out) ≤ length rs + length out
unfolding collapse
length-collapse-le [] out = omega arith
length-collapse-le (r ∷ rs) out =
    omega (arith, length-collapse-le rs (put_last r out), length-put_last-le r out)

take-all : (n : ℕ) (rs : List RejectedFile) → length rs ≤ n → take n rs ≡ rs
take-all zero [] h = refl
take-all zero (r ∷ rs) h = absurd (omega (arith, h))
take-all (suc n) [] h = refl
take-all (suc n) (r ∷ rs) h = ground (arith, take-all n rs, h)

length-collapsed-le : (rs : List RejectedFile) → length (collapse (sort_by_path rs) []) ≤ length rs
length-collapsed-le rs =
    omega (arith, length-collapse-le (sort_by_path rs) [], length-sort_by_path rs)

entry-normalize_rejected :
    (path : FilePath) (h : IndexHealth)
    → length h.rejected ≤ max_rejected_files
    → entry path (normalize_rejected h).rejected ≡ entry path h.rejected
unfolding normalize_rejected
entry-normalize_rejected path h le =
    rw
      (take-all max_rejected_files (collapse (sort_by_path h.rejected) [])
        (omega (arith, length-collapsed-le h.rejected, le)))
      (rw (entry-collapse path (sort_by_path h.rejected) [], entry-sort_by_path path h.rejected)
        (or_else-none (entry path h.rejected)))

entry-retain :
    (path : FilePath) (touched : List FilePath) (rs : List RejectedFile)
    → entry path (retain (λ r. not (contains r.path touched)) rs)
      ≡ (if contains path touched then none else entry path rs)
entry-retain path touched [] = ground arith
entry-retain path touched (r ∷ rs) =
    ground (arith, entry-retain path touched rs, list_beq_iff r.path path)

-- After a reload pass whose files fit under the cap, the entry of a path is the last one that the
-- pass itself recorded for it; else a path that the pass touched has none, and any other path
-- has the entry it had.
pub replace_rejected-entry :
    (touched : List FilePath) (fresh : List RejectedFile) (h : IndexHealth) (path : FilePath)
    → length h.rejected + length fresh ≤ max_rejected_files
    → entry path (replace_rejected touched fresh h).0.rejected
      ≡ or_else (entry path fresh) (if contains path touched then none else entry path h.rejected)
unfolding replace_rejected
replace_rejected-entry touched fresh h path le =
    let kept : List RejectedFile = retain (λ r. not (contains r.path touched)) h.rejected in
    rw
      (
        entry-normalize_rejected path (record h { rejected = kept ++ fresh })
            (omega (
              arith,
              length-append kept fresh,
              length-retain-le (λ (r : RejectedFile). not (contains r.path touched)) h.rejected,
              le,
            )),
        entry-append path kept fresh,
        entry-retain path touched h.rejected,
      )
      refl
