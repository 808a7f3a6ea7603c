-- ===== src/Audit/Merging.antt =====
-- The ranges of secrets, once they are merged.
use mathlib.Core.Path.{subst}
use causalmesh.Prelude.{
  ℕ, ◌≤◌, ◌<◌, max, Bool, true, false, none, some, List, [], ◌∷◌, All, leb, if◌then◌else◌,
  Bool-cases, ◌≡◌, refl, sym, ◌⊎◌, inl, inr, arith,
}
use causalmesh.Prelude.Text.{Text}
use causalmesh.Audit.Secrets.{
  Range, found_ranges, range_leb, insert_range, sort_ranges, merge_from, merge, panics,
  secret_ranges,
}

-- A range begins where another does or behind that.
abbrev IsBehind : ℕ → Range → Type 0
IsBehind a q = a ≤ q.0

-- The ranges stand in order, and a character at least stands between two.
abbrev pub IsApart : List Range → Type 0
IsApart [] = Unit
IsApart (r ∷ ranges) = All (λ q. r.1 < q.0) ranges × IsApart ranges

abbrev IsSorted : List Range → Type 0
IsSorted [] = Unit
IsSorted (r ∷ ranges) = All (IsBehind r.0) ranges × IsSorted ranges

-- A range lies in one of the others.
abbrev pub IsCovered : List Range → Range → Type 0
IsCovered [] r = ⊥
IsCovered (q ∷ ranges) r = ((q.0 ≤ r.0) × (r.1 ≤ q.1)) ⊎ IsCovered ranges r

module _ (P : Range → Type 0) where
  insert_range-All :
      (r : Range) (ranges : List Range) → P r → All P ranges → All P (insert_range r ranges)
  insert_range-All r [] p a = (p, tt)
  insert_range-All r (q ∷ ranges) p a = ground (arith, insert_range-All r ranges p a.1)

  All-insert_range :
      (r : Range) (ranges : List Range) → All P (insert_range r ranges) → P r × All P ranges
  All-insert_range r [] a = a
  All-insert_range r (q ∷ ranges) a = ground (arith, All-insert_range r ranges)

  All-sort_ranges : (ranges : List Range) → All P (sort_ranges ranges) → All P ranges
  All-sort_ranges [] a = tt
  All-sort_ranges (r ∷ ranges) a =
      let (p, rest) = All-insert_range r (sort_ranges ranges) a in (p, All-sort_ranges ranges rest)

  All-map :
      {Q : Range → Type 0} (f : (r : Range) → P r → Q r) (ranges : List Range)
      → All P ranges
      → All Q ranges
  All-map f [] a = tt
  All-map f (r ∷ ranges) a = (f r a.0, All-map f ranges a.1)

range_leb-le : (r q : Range) → range_leb r q ≡ true → r.0 ≤ q.0
range_leb-le r q e = ground arith

range_leb-ge : (r q : Range) → range_leb r q ≡ false → q.0 ≤ r.0
range_leb-ge r q e = ground arith

insert_range-IsSorted :
    (r : Range) (ranges : List Range) → IsSorted ranges → IsSorted (insert_range r ranges)
insert_range-IsSorted r [] s = (tt, tt)
insert_range-IsSorted r (q ∷ ranges) s = elim (Bool-cases (range_leb r q)) [
  | inl e ↦
      subst (λ c. IsSorted (if c then r ∷ q ∷ ranges else q ∷ insert_range r ranges)) (sym e)
        (
          (
            range_leb-le r q e,
            All-map (IsBehind q.0) (λ p l. omega (arith, l, range_leb-le r q e)) ranges s.0,
          ),
          s,
        )
  | inr e ↦
      subst (λ c. IsSorted (if c then r ∷ q ∷ ranges else q ∷ insert_range r ranges)) (sym e)
        (
          insert_range-All (IsBehind q.0) r ranges (range_leb-ge r q e) s.0,
          insert_range-IsSorted r ranges s.1,
        )
]

sort_ranges-IsSorted : (ranges : List Range) → IsSorted (sort_ranges ranges)
sort_ranges-IsSorted [] = tt
sort_ranges-IsSorted (r ∷ ranges) =
    insert_range-IsSorted r (sort_ranges ranges) (sort_ranges-IsSorted ranges)

-- Every merged range begins where the first one does or behind that.
merge_from-IsBehind :
    (a : ℕ) (last : Range) (ranges : List Range)
    → a ≤ last.0
    → All (IsBehind a) ranges
    → All (IsBehind a) (merge_from last ranges)
merge_from-IsBehind a last [] l b = (l, tt)
merge_from-IsBehind a (x, y) ((c, d) ∷ ranges) l b =
    ground (arith, merge_from-IsBehind a (x, max y d) ranges, merge_from-IsBehind a (c, d) ranges)

-- What lies in a range lies where that does.
IsCovered-within :
    (q r : Range) (ranges : List Range)
    → q.0 ≤ r.0
    → r.1 ≤ q.1
    → IsCovered ranges q
    → IsCovered ranges r
IsCovered-within q r [] l m c = c
IsCovered-within q r (p ∷ ranges) l m c = ground (arith, IsCovered-within q r ranges l m)

merge_from-step :
    (x y a b : ℕ) (ranges : List Range)
    → ((leb a y ≡ true) × (merge_from (x, y) ((a, b) ∷ ranges) ≡ merge_from (x, max y b) ranges))
      ⊎ ((y < a) × (merge_from (x, y) ((a, b) ∷ ranges) ≡ (x, y) ∷ merge_from (a, b) ranges))
merge_from-step x y a b ranges = ground arith

merge_from-IsApart :
    (last : Range) (ranges : List Range)
    → All (IsBehind last.0) ranges
    → IsSorted ranges
    → IsApart (merge_from last ranges)
merge_from-IsApart last [] l s = (tt, tt)
merge_from-IsApart (x, y) ((a, b) ∷ ranges) l s = elim (merge_from-step x y a b ranges) [
  | inl (within, e) ↦ subst IsApart (sym e) (merge_from-IsApart (x, max y b) ranges l.1 s.1)
  | inr (behind, e) ↦ subst IsApart (sym e) (
    All-map (IsBehind a) (λ q m. omega (arith, m, behind)) (merge_from (a, b) ranges)
        (merge_from-IsBehind a (a, b) ranges (omega arith) s.0),
    merge_from-IsApart (a, b) ranges s.0 s.1,
  )
]

-- The merged ranges cover the last one and those that follow.
merge_from-IsCovered :
    (last : Range) (ranges : List Range)
    → All (IsBehind last.0) ranges
    → IsSorted ranges
    → IsCovered (merge_from last ranges) last × All (IsCovered (merge_from last ranges)) ranges
merge_from-IsCovered last [] l s = (inl (omega arith, omega arith), tt)
merge_from-IsCovered (x, y) ((a, b) ∷ ranges) l s = elim (merge_from-step x y a b ranges) [
  | inl (within, e) ↦
      subst (λ m. IsCovered m (x, y) × (IsCovered m (a, b) × All (IsCovered m) ranges)) (sym e)
        (let (c, rest) = merge_from-IsCovered (x, max y b) ranges l.1 s.1 in
          let merged = merge_from (x, max y b) ranges in
          (
            IsCovered-within (x, max y b) (x, y) merged (omega arith) (omega arith) c,
            (IsCovered-within (x, max y b) (a, b) merged l.0 (omega arith) c, rest),
          ))
  | inr (behind, e) ↦
      subst (λ m. IsCovered m (x, y) × (IsCovered m (a, b) × All (IsCovered m) ranges)) (sym e)
        (let (c, rest) = merge_from-IsCovered (a, b) ranges s.0 s.1 in
          (
            inl (omega arith, omega arith),
            (inr c, All-map (IsCovered (merge_from (a, b) ranges)) (λ q m. inr m) ranges rest),
          ))
]

merge-IsApart :
    (ranges : List Range)
    → IsSorted ranges
    → IsApart (merge ranges) × All (IsCovered (merge ranges)) ranges
merge-IsApart [] s = (tt, tt)
merge-IsApart (r ∷ ranges) s =
    (merge_from-IsApart r ranges s.0 s.1, merge_from-IsCovered r ranges s.0 s.1)

-- The search for secrets panics, or its ranges stand in order with a character at least between
-- two, and every range that one of the rules finds lies in one of them.
pub secret_ranges-IsApart :
    (is_whitespace : ℕ → Bool) (s : Text)
    → ((panics is_whitespace s ≡ true) × (secret_ranges is_whitespace s ≡ none))
      ⊎ ((ranges : List Range) × (secret_ranges is_whitespace s ≡ some ranges)
          × IsApart ranges
          × All (IsCovered ranges) (found_ranges is_whitespace s))
unfolding secret_ranges
secret_ranges-IsApart is_whitespace s =
    let found = found_ranges is_whitespace s in
    let (apart, covered) = merge-IsApart (sort_ranges found) (sort_ranges-IsSorted found) in
    elim (Bool-cases (panics is_whitespace s)) [
      | inl e ↦ inl (e, rw e refl)
      | inr e ↦ inr (
        merge (sort_ranges found),
        rw e refl,
        apart,
        All-sort_ranges (IsCovered (merge (sort_ranges found))) found covered,
      )
    ]
