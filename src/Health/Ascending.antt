-- ===== src/Health/Ascending.antt =====
-- The order and the bound of the list that `normalize_rejected` leaves
-- (crates/mesh-core/src/health.rs).
use causalmesh.Prelude.{
  ℕ, zero, suc, ◌≤◌, Bool, true, ◌&&◌, not, List, [], ◌∷◌, ◌==◌, nat_eq, list_eq, list_beq_iff,
  length, take, ◌≡◌, arith, Bool-cases, inl, inr, length-take-le,
}
use causalmesh.Prelude.Paths.{FilePath, component_eq}
use causalmesh.Prelude.Order.{path_leb, path_leb-total}
use causalmesh.Health.{
  max_rejected_files, RejectedFile, IndexHealth, insert_sorted, sort_by_path, put_last, collapse,
  normalize_rejected,
}

-- the first of a list does not stand before `r`
abbrev Below : RejectedFile → List RejectedFile → Type 0
Below r [] = Unit
Below r (s ∷ rs) = path_leb r.path s.path ≡ true

abbrev IsSorted : List RejectedFile → Type 0
IsSorted [] = Unit
IsSorted (r ∷ rs) = Below r rs × IsSorted rs

abbrev pub path_ltb : FilePath → FilePath → Bool
path_ltb a b = path_leb a b && not (a == b)

abbrev StrictlyBelow : RejectedFile → List RejectedFile → Type 0
StrictlyBelow r [] = Unit
StrictlyBelow r (s ∷ rs) = path_ltb r.path s.path ≡ true

-- In strictly ascending order of the paths.
abbrev pub IsAscending : List RejectedFile → Type 0
IsAscending [] = Unit
IsAscending (r ∷ rs) = StrictlyBelow r rs × IsAscending rs

Below-insert_sorted :
    (s r : RejectedFile) (rs : List RejectedFile)
    → Below s rs
    → path_leb s.path r.path ≡ true
    → Below s (insert_sorted r rs)
unfolding insert_sorted
Below-insert_sorted s r [] b h = h
Below-insert_sorted s r (t ∷ rs) b h = ground (arith, b, h)

insert_sorted-IsSorted :
    (r : RejectedFile) (rs : List RejectedFile) → IsSorted rs → IsSorted (insert_sorted r rs)
unfolding insert_sorted
insert_sorted-IsSorted r [] h = (tt, tt)
insert_sorted-IsSorted r (s ∷ rs) h = elim (Bool-cases (path_leb r.path s.path)) [
  | inl le ↦ rw le (le, h)
  | inr gt ↦ rw gt (
    Below-insert_sorted s r rs h.0 (path_leb-total r.path s.path gt),
    insert_sorted-IsSorted r rs h.1,
  )
]

sort_by_path-IsSorted : (rs : List RejectedFile) → IsSorted (sort_by_path rs)
unfolding sort_by_path
sort_by_path-IsSorted [] = tt
sort_by_path-IsSorted (r ∷ rs) =
    insert_sorted-IsSorted r (sort_by_path rs) (sort_by_path-IsSorted rs)

-- the last of a list does not stand after `r`
abbrev Reaches : List RejectedFile → RejectedFile → Type 0
Reaches [] r = Unit
Reaches (s ∷ []) r = path_leb s.path r.path ≡ true
Reaches (s ∷ t ∷ out) r = Reaches (t ∷ out) r

StrictlyBelow-put_last :
    (s t r : RejectedFile) (out : List RejectedFile)
    → path_ltb s.path t.path ≡ true
    → StrictlyBelow s (put_last r (t ∷ out))
unfolding put_last
StrictlyBelow-put_last s t r [] h = ground (arith, h, list_beq_iff t.path r.path)
StrictlyBelow-put_last s t r (u ∷ out) h = h

put_last-IsAscending :
    (r : RejectedFile) (out : List RejectedFile)
    → IsAscending out
    → Reaches out r
    → IsAscending (put_last r out)
unfolding put_last
put_last-IsAscending r [] a h = (tt, tt)
put_last-IsAscending r (s ∷ []) a h = ground (arith, h)
put_last-IsAscending r (s ∷ t ∷ out) a h =
    (StrictlyBelow-put_last s t r out a.0, put_last-IsAscending r (t ∷ out) a.1 h)

put_last-Reaches :
    (r r' : RejectedFile) (out : List RejectedFile)
    → path_leb r.path r'.path ≡ true
    → Reaches (put_last r out) r'
unfolding put_last
put_last-Reaches r r' [] h = h
put_last-Reaches r r' (s ∷ []) h = ground (arith, h)
put_last-Reaches r r' (s ∷ t ∷ []) h = ground (arith, h)
put_last-Reaches r r' (s ∷ t ∷ u ∷ out) h = put_last-Reaches r r' (t ∷ u ∷ out) h

abbrev Meets : List RejectedFile → List RejectedFile → Type 0
Meets out [] = Unit
Meets out (r ∷ rs) = Reaches out r

Below-Meets :
    (r : RejectedFile) (rs out : List RejectedFile) → Below r rs → Meets (put_last r out) rs
Below-Meets r [] out b = tt
Below-Meets r (s ∷ rs) out b = put_last-Reaches r s out b

collapse-IsAscending :
    (rs out : List RejectedFile)
    → IsSorted rs
    → IsAscending out
    → Meets out rs
    → IsAscending (collapse rs out)
unfolding collapse
collapse-IsAscending [] out s a m = a
collapse-IsAscending (r ∷ rs) out s a m =
    collapse-IsAscending rs (put_last r out) s.1 (put_last-IsAscending r out a m)
      (Below-Meets r rs out s.0)

Meets-nil : (rs : List RejectedFile) → Meets [] rs
Meets-nil [] = tt
Meets-nil (r ∷ rs) = tt

take-IsAscending : (n : ℕ) (rs : List RejectedFile) → IsAscending rs → IsAscending (take n rs)
take-IsAscending zero rs a = tt
take-IsAscending (suc n) [] a = tt
take-IsAscending (suc zero) (r ∷ rs) a = (tt, tt)
take-IsAscending (suc (suc n)) (r ∷ []) a = a
take-IsAscending (suc (suc n)) (r ∷ s ∷ rs) a = (a.0, take-IsAscending (suc n) (s ∷ rs) a.1)

-- Whatever was recorded and in whatever order, the list ends in strictly ascending order of its
-- paths (so that no path stands twice), and no longer than the cap.
pub normalize_rejected-IsAscending :
    (h : IndexHealth)
    → IsAscending (normalize_rejected h).rejected
      × (length (normalize_rejected h).rejected ≤ max_rejected_files)
unfolding normalize_rejected
normalize_rejected-IsAscending h =
    let out = collapse (sort_by_path h.rejected) [] in
    (
      take-IsAscending max_rejected_files out (
          collapse-IsAscending (sort_by_path h.rejected) [] (sort_by_path-IsSorted h.rejected) tt
            (Meets-nil (sort_by_path h.rejected))),
      length-take-le max_rejected_files out,
    )
