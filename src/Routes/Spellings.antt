-- ===== src/Routes/Spellings.antt =====
-- The spellings that a configured prefix allows (`match_route` of crates/mesh-core/src/routes.rs).
use causalmesh.Prelude.{
  Bool, true, false, ◌≡◌, ◌⊎◌, refl, some, List, [], ◌∷◌, ◌++◌, length, any, arith, eq_refl, nat_eq,
  list_eq,
}
use causalmesh.Routes.{
  Seg, param, lit, exact, RouteQuery, NodeRoute, seg_fits, fits_along, eq_segs, starts_segs,
  drop_segs, variants, verb_differs, match_route,
}

seg_fits_self : (loose : Bool) (s : Seg) → seg_fits s s loose ≡ true
unfolding seg_fits
seg_fits_self loose param = refl
seg_fits_self loose (lit a) = eq_refl a

fits_along_self : (loose : Bool) (s : List Seg) → fits_along loose s s ≡ true
unfolding fits_along
fits_along_self loose [] = refl
fits_along_self loose (x ∷ s) = ground (arith, seg_fits_self loose x, fits_along_self loose s)

eq_segs_self : (loose : Bool) (s : List Seg) → eq_segs s s loose ≡ true
unfolding eq_segs
eq_segs_self loose s = ground (arith, fits_along_self loose s)

starts_segs-append : (prefix s : List Seg) → starts_segs (prefix ++ s) prefix ≡ true
unfolding starts_segs fits_along
starts_segs-append [] [] = ground arith
starts_segs-append [] (x ∷ s) = ground arith
starts_segs-append (p ∷ prefix) s =
    ground (arith, seg_fits_self false p, starts_segs-append prefix s)

drop_segs-append : (prefix s : List Seg) → drop_segs (length prefix) (prefix ++ s) ≡ s
unfolding drop_segs
drop_segs-append [] s = refl
drop_segs-append (p ∷ prefix) s = drop_segs-append prefix s

-- whether one of the spellings is the query
abbrev spelled : List Seg → List Seg → List Seg → Bool
spelled prefix segs query = any (λ v. eq_segs v query false) (variants segs prefix)

spelled-declared : (prefix segs : List Seg) → spelled prefix segs segs ≡ true
unfolding variants
spelled-declared [] segs = ground (arith, eq_segs_self false segs)
spelled-declared (p ∷ ps) segs = ground (arith, eq_segs_self false segs)

spelled-full : (prefix s : List Seg) → spelled prefix s (prefix ++ s) ≡ true
unfolding variants
spelled-full [] s = ground (arith, eq_segs_self false s)
spelled-full (p ∷ ps) s = ground (arith, eq_segs_self false ((p ∷ ps) ++ s))

spelled-stripped : (prefix s : List Seg) → spelled prefix (prefix ++ s) s ≡ true
unfolding variants
spelled-stripped [] s = ground (arith, eq_segs_self false s)
spelled-stripped (p ∷ ps) s =
    ground (arith, starts_segs-append (p ∷ ps) s, drop_segs-append (p ∷ ps) s, eq_segs_self false s)

exact_where-spelled :
    (query : RouteQuery) (route : NodeRoute) (prefix : List Seg)
    → verb_differs query.verb route.verb ≡ false
    → spelled prefix route.segs query.segs ≡ true
    → match_route query route prefix ≡ some exact
unfolding match_route
exact_where-spelled query route prefix same h = ground (arith, same, h)

-- With or without the configured prefix, in the query and in the declaration alike: a query that
-- names the route's verb or none, and whose path is the route's path, is an exact match.
pub match_route-prefix :
    (query : RouteQuery) (route : NodeRoute) (prefix s : List Seg)
    → verb_differs query.verb route.verb ≡ false
    → (query.segs ≡ s) ⊎ (query.segs ≡ prefix ++ s)
    → (route.segs ≡ s) ⊎ (route.segs ≡ prefix ++ s)
    → match_route query route prefix ≡ some exact
match_route-prefix query route prefix s same asked declared =
    exact_where-spelled query route prefix same (
      ground (
        arith,
        asked,
        declared,
        spelled-declared prefix s,
        spelled-declared prefix (prefix ++ s),
        spelled-full prefix s,
        spelled-stripped prefix s,
      ))
