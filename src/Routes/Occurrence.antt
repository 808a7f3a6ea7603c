-- ===== src/Routes/Occurrence.antt =====
-- Where a query occurs in a route: the tests of crates/mesh-core/src/routes.rs against a description
-- by pieces of the route.
use causalmesh.Prelude.{
  ℕ, zero, suc, ◌-◌, ◌≤◌, Bool, true, false, ◌≡◌, ◌↔◌, refl, ap, List, [], ◌∷◌, ◌++◌, length, arith,
  length-append, Bool-cases, inl, inr, nat_eq,
}
use causalmesh.Routes.{
  Seg, seg_fits, fits_along, eq_segs, starts_segs, starts_within, contains_segs,
}

-- Segment by segment, the route's first.
abbrev pub FitsAll : Bool → List Seg → List Seg → Type 0
FitsAll loose [] [] = Unit
FitsAll loose (r ∷ route) (q ∷ query) = (seg_fits r q loose ≡ true) × FitsAll loose route query
FitsAll loose _ _ = ⊥

FitsAll-length :
    (loose : Bool) (route query : List Seg)
    → FitsAll loose route query
    → length route ≡ length query
FitsAll-length loose [] [] f = refl
FitsAll-length loose [] (q ∷ query) f = elim f [ ]
FitsAll-length loose (r ∷ route) [] f = elim f [ ]
FitsAll-length loose (r ∷ route) (q ∷ query) f = ap suc (FitsAll-length loose route query f.1)

pub eq_segs_iff :
    (loose : Bool) (route query : List Seg)
    → (eq_segs route query loose ≡ true) ↔ FitsAll loose route query
unfolding eq_segs fits_along
eq_segs_iff loose [] [] = ground arith
eq_segs_iff loose [] (q ∷ query) = ground arith
eq_segs_iff loose (r ∷ route) [] = ground arith
eq_segs_iff loose (r ∷ route) (q ∷ query) = ground (arith, eq_segs_iff loose route query)

-- The query at the start of the route.
abbrev pub Starts : List Seg → List Seg → Type 0
Starts route query = (piece after : List Seg) × (route ≡ piece ++ after) × FitsAll false piece query

starts_segs-Starts : (route query : List Seg) → starts_segs route query ≡ true → Starts route query
unfolding starts_segs fits_along
starts_segs-Starts route [] h = ([], route, refl, tt)
starts_segs-Starts [] (q ∷ query) h = ground (arith, h)
starts_segs-Starts (r ∷ route) (q ∷ query) h =
    let (piece, after, e, fits) : Starts route query =
      starts_segs-Starts route query ground (arith, h) in
    (r ∷ piece, after, ap (λ l. r ∷ l) e, (ground (arith, h), fits))

Starts-starts_segs :
    (piece after query : List Seg)
    → FitsAll false piece query
    → starts_segs (piece ++ after) query ≡ true
unfolding starts_segs fits_along
Starts-starts_segs [] [] [] fits = ground arith
Starts-starts_segs [] (a ∷ after) [] fits = ground arith
Starts-starts_segs [] [] (q ∷ query) fits = elim fits [ ]
Starts-starts_segs [] (a ∷ after) (q ∷ query) fits = elim fits [ ]
Starts-starts_segs (r ∷ piece) after [] fits = elim fits [ ]
Starts-starts_segs (r ∷ piece) after (q ∷ query) fits =
    ground (arith, fits, Starts-starts_segs piece after query fits.1)

-- The query somewhere inside the route.
abbrev pub Occurs : List Seg → List Seg → Type 0
Occurs route query =
    (before piece after : List Seg) × (route ≡ before ++ (piece ++ after))
    × FitsAll false piece query

Starts-Occurs : (route query : List Seg) → Starts route query → Occurs route query
Starts-Occurs route query (piece, after, e, fits) = ([], piece, after, e, fits)

starts_within-Occurs :
    (more : ℕ) (route query : List Seg) → starts_within more route query ≡ true → Occurs route query
unfolding starts_within
starts_within-Occurs zero route query h =
    Starts-Occurs route query (starts_segs-Starts route query h)
starts_within-Occurs (suc more) [] query h = Starts-Occurs [] query (starts_segs-Starts [] query h)
starts_within-Occurs (suc more) (r ∷ route) query h =
    elim (Bool-cases (starts_segs (r ∷ route) query)) [
      | inl here ↦ Starts-Occurs (r ∷ route) query (starts_segs-Starts (r ∷ route) query here)
      | inr gone ↦
          let (before, piece, after, e, fits) : Occurs route query =
            starts_within-Occurs more route query ground (arith, h, gone) in
          (r ∷ before, piece, after, ap (λ l. r ∷ l) e, fits)
    ]

Occurs-starts_within :
    (more : ℕ) (before piece after query : List Seg)
    → length before ≤ more
    → FitsAll false piece query
    → starts_within more (before ++ (piece ++ after)) query ≡ true
unfolding starts_within
Occurs-starts_within zero [] piece after query le fits = Starts-starts_segs piece after query fits
Occurs-starts_within zero (b ∷ before) piece after query le fits = absurd (omega (arith, le))
Occurs-starts_within (suc more) [] [] [] query le fits = Starts-starts_segs [] [] query fits
Occurs-starts_within (suc more) [] [] (a ∷ after) query le fits =
    ground (arith, Starts-starts_segs [] (a ∷ after) query fits)
Occurs-starts_within (suc more) [] (r ∷ piece) after query le fits =
    ground (arith, Starts-starts_segs (r ∷ piece) after query fits)
Occurs-starts_within (suc more) (b ∷ before) piece after query le fits =
    ground (arith, Occurs-starts_within more before piece after query, le, fits)

Occurs-contains_segs :
    (before piece after query : List Seg)
    → FitsAll false piece query
    → contains_segs (before ++ (piece ++ after)) query ≡ true
unfolding contains_segs
Occurs-contains_segs before piece after query fits = ground (
  arith,
  length-append before (piece ++ after),
  length-append piece after,
  FitsAll-length false piece query fits,
  Occurs-starts_within (length (before ++ (piece ++ after)) - length query) before piece after
      query,
  fits,
)

contains_segs-within :
    (route query : List Seg)
    → contains_segs route query ≡ true
    → starts_within (length route - length query) route query ≡ true
unfolding contains_segs
contains_segs-within route query h = ground (arith, h)

-- A query is found inside a route exactly when the route has a piece, with anything before and
-- after it, whose segments fit the query's one by one, parameters with parameters.
pub contains_segs-Occurs :
    (route query : List Seg) → (contains_segs route query ≡ true) ↔ Occurs route query
contains_segs-Occurs route query = (
  (λ h.
      starts_within-Occurs (length route - length query) route query
        (contains_segs-within route query h)),
  (λ (before, piece, after, e, fits). rw e (Occurs-contains_segs before piece after query fits)),
)
