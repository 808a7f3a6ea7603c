-- ===== src/Routes.antt =====
-- HTTP routes (crates/mesh-core/src/routes.rs): reading `VERB /path`, parameters erased, and how
-- well a query matches a route. What Unicode says of a character, and the lower case of a text, are
-- parameters.
pub mod Query
pub mod Finding
pub mod Occurrence
pub mod Spellings
pub mod Tests
use mathlib.Core.List.{reverse}
use causalmesh.Prelude.{
  ℕ, zero, suc, ◌+◌, ◌-◌, Bool, true, false, ◌&&◌, ◌||◌, not, Option, none, some, List, [], ◌∷◌,
  ◌++◌, map, PartialEq, ◌==◌, nat_eq, list_eq, if◌then◌else◌, length, leb, all, any,
}
use causalmesh.Prelude.Text.{Text, text, is_nil, split, strip_text_prefix}

pub data Seg : Type 0 where
  param : Seg
  lit : Text → Seg

pub data RouteRank : Type 0 where
  exact value leading fragment : RouteRank

pub record NodeRoute : Type 0 where
  pub verb : Text
  pub segs : List Seg

pub record RouteQuery : Type 0 where
  pub verb : Option Text
  pub segs : List Seg
  pub root_only : Bool
  pub verb_and_slash : Bool

-- the depth after one more character
abbrev nest : ℕ → ℕ → ℕ → ℕ → ℕ
nest opening closing c depth =
    if c == opening then suc depth else if c == closing then depth - 1 else depth

-- whether the delimiter that brings the depth back to 0 is the last character
unfoldable pub closes_last : ℕ → ℕ → ℕ → Text → Bool
closes_last opening closing depth [] = false
closes_last opening closing depth (c ∷ cs) =
    let after = nest opening closing c depth in
    let rest = closes_last opening closing after cs in
    if not (c == opening) && (c == closing && after == 0) then is_nil cs else rest

abbrev pub starts_by : ℕ → Text → Bool
starts_by c [] = false
starts_by c (d ∷ s) = d == c

-- Both delimiters are one byte long, so that fewer than 3 bytes are fewer than 3 characters.
unfoldable pub wrapped : Text → ℕ → ℕ → Bool
unfolding closes_last
wrapped seg opening closing =
    starts_by opening seg
    && (starts_by closing (reverse seg)
        && (leb 3 (length seg) && closes_last opening closing 0 seg))

-- what follows the `)` that closes the group at the start
unfoldable pub after_group : ℕ → Text → Option Text
after_group depth [] = none
after_group depth (c ∷ cs) =
    let after = nest b'(' b')' c depth in
    let rest = after_group after cs in if c == b')' && after == 0 then some cs else rest

unfoldable pub before_query : Text → Text
before_query [] = []
before_query (c ∷ cs) =
    let rest = before_query cs in if c == b'?' || c == b'#' then [] else c ∷ rest

unfoldable pub seg_fits : Seg → Seg → Bool → Bool
seg_fits param param loose = true
seg_fits param (lit b) loose = loose
seg_fits (lit a) (lit b) loose = a == b
seg_fits (lit a) param loose = false

-- `zip` and `all`
unfoldable pub fits_along : Bool → List Seg → List Seg → Bool
unfolding seg_fits
fits_along loose [] query = true
fits_along loose (r ∷ route) [] = true
fits_along loose (r ∷ route) (q ∷ query) = seg_fits r q loose && fits_along loose route query

unfoldable pub eq_segs : List Seg → List Seg → Bool → Bool
unfolding fits_along
eq_segs route query loose = length route == length query && fits_along loose route query

unfoldable pub starts_segs : List Seg → List Seg → Bool
unfolding fits_along
starts_segs route query = leb (length query) (length route) && fits_along false route query

-- whether the query starts at one of the first positions, `more` of them after the first
unfoldable pub starts_within : ℕ → List Seg → List Seg → Bool
unfolding starts_segs
starts_within zero route query = starts_segs route query
starts_within (suc more) [] query = starts_segs [] query
starts_within (suc more) (r ∷ route) query =
    starts_segs (r ∷ route) query || starts_within more route query

unfoldable pub contains_segs : List Seg → List Seg → Bool
unfolding starts_within
contains_segs route query =
    leb (length query) (length route) && starts_within (length route - length query) route query

unfoldable pub drop_segs : ℕ → List Seg → List Seg
drop_segs zero route = route
drop_segs (suc n) [] = []
drop_segs (suc n) (r ∷ route) = drop_segs n route

-- the spellings of a route: as declared, with the prefix, and without it where it carries it
unfoldable pub variants : List Seg → List Seg → List (List Seg)
unfolding starts_segs drop_segs
variants segs [] = segs ∷ []
variants segs (p ∷ ps) =
    segs
    ∷ ((p ∷ ps) ++ segs)
    ∷ (if starts_segs segs (p ∷ ps) then drop_segs (length (p ∷ ps)) segs ∷ [] else [])

unfoldable pub verb_differs : Option Text → Text → Bool
verb_differs none verb = false
verb_differs (some v) verb = not (v == verb)

unfoldable pub match_route : RouteQuery → NodeRoute → List Seg → Option RouteRank
unfolding verb_differs variants eq_segs starts_segs contains_segs
match_route query route prefix =
    let spellings = variants route.segs prefix in
    if verb_differs query.verb route.verb
    then none
    else if any (λ v. eq_segs v query.segs false) spellings
    then some exact
    else if any (λ v. eq_segs v query.segs true) spellings
    then some value
    else if query.root_only
    then none
    else if any (λ v. starts_segs v query.segs) spellings
    then some leading
    else if any (λ v. contains_segs v query.segs) spellings
    then some fragment
    else none
