-- ===== src/Routes/Query.antt =====
-- How a route and a route query are read from a text (crates/mesh-core/src/routes.rs).
use causalmesh.Prelude.{
  ℕ, Bool, true, false, ◌&&◌, ◌||◌, not, Option, none, some, List, [], ◌∷◌, map, retain, any, all,
  ◌==◌, nat_eq, list_eq, if◌then◌else◌,
}
use mathlib.Core.List.{reverse}
use causalmesh.Prelude.Text.{Text, text, is_nil, split, eq_ignore_ascii_case}
use causalmesh.Routes.{Seg, param, lit, RouteQuery, starts_by, wrapped, after_group, before_query}

abbrev pub http_verbs : List Text
http_verbs =
    text "GET"
    ∷ text "POST"
    ∷ text "PUT"
    ∷ text "PATCH"
    ∷ text "DELETE"
    ∷ text "HEAD"
    ∷ text "OPTIONS"
    ∷ []

module _ (is_alphanumeric is_whitespace : ℕ → Bool) (to_lowercase : Text → Text) where
  abbrev is_name : ℕ → Bool
  is_name c = is_alphanumeric c || c == b'_'

  unfoldable pub is_ident : Text → Bool
  is_ident s = not (is_nil s) && all is_name s

  -- the name at the start, and what follows it
  unfoldable pub split_name : Text → Text × Text
  split_name [] = ([], [])
  split_name (c ∷ cs) =
      let (name, tail) = split_name cs in if is_name c then (c ∷ name, tail) else ([], c ∷ cs)

  unfoldable pub is_suffix : Text → Bool
  is_suffix tail = is_nil tail || (tail == text "?" || (tail == text "*" || tail == text "+"))

  -- what follows the name of a `:name`
  unfoldable pub is_tail : Text → Bool
  unfolding is_suffix after_group
  is_tail [] = true
  is_tail (c ∷ cs) =
      if c == b'('
      then elim (after_group 0 (c ∷ cs)) [ none ↦ false | some tail ↦ is_suffix tail ]
      else is_suffix (c ∷ cs)

  unfoldable pub is_param : Text → Bool
  unfolding is_ident split_name is_tail wrapped
  is_param [] = false
  is_param (c ∷ rest) =
      let (name, tail) = split_name rest in
      let seg = c ∷ rest in
      if seg == text "*"
      then true
      else if c == b'*'
      then is_ident rest
      else if c == b':'
      then not (is_nil name) && is_tail tail
      else if c == b'$'
      then is_ident rest || wrapped rest b'{' b'}'
      else wrapped seg b'{' b'}' || (wrapped seg b'<' b'>' || wrapped seg b'[' b']')

  unfoldable pub trim_start : Text → Text
  trim_start [] = []
  trim_start (c ∷ cs) = let rest = trim_start cs in if is_whitespace c then rest else c ∷ cs

  unfoldable pub trim : Text → Text
  unfolding trim_start
  trim s = reverse (trim_start (reverse (trim_start s)))

  unfoldable pub read_seg : Text → Seg
  unfolding is_param
  read_seg s = if is_param s then param else lit (to_lowercase s)

  unfoldable pub path_segments : Text → List Seg
  unfolding before_query trim read_seg
  path_segments path =
      map read_seg (retain (λ s. not (is_nil s)) (map trim (split b'/' (before_query path))))

  -- `split_once` at the first white space
  unfoldable pub split_word : Text → Option (Text × Text)
  split_word [] = none
  split_word (c ∷ cs) =
      let rest = split_word cs in
      if is_whitespace c
      then some ([], cs)
      else elim rest [ none ↦ none | some (w, r) ↦ some (c ∷ w, r) ]

  unfoldable pub find_verb : Text → List Text → Option Text
  find_verb head [] = none
  find_verb head (v ∷ vs) =
      let rest = find_verb head vs in if eq_ignore_ascii_case v head then some v else rest

  unfoldable pub split_verb : Text → Option (Text × Text)
  unfolding trim_start split_word find_verb trim
  split_verb s = elim (split_word (trim_start s)) [
    | none ↦ none
    | some (head, rest) ↦ elim (find_verb head http_verbs) [
      | none ↦ none
      | some verb ↦ some (verb, trim rest)
    ]
  ]

  abbrev verb_of : Text → Option (Text × Text) → Option Text × Text
  verb_of query none = (none, query)
  verb_of query (some (verb, rest)) = if is_nil rest then (none, query) else (some verb, rest)

  abbrev is_some : Option Text → Bool
  is_some none = false
  is_some (some v) = true

  unfoldable pub parse : Text → Option RouteQuery
  unfolding trim split_verb path_segments
  parse query =
      let trimmed = trim query in
      let (verb, path) = verb_of trimmed (split_verb trimmed) in
      let segs = path_segments path in
      let slash = starts_by b'/' path in
      if not slash || any is_whitespace path
      then none
      else some (record {
        verb = verb;
        segs = segs;
        root_only = is_nil segs;
        verb_and_slash = is_some verb && slash;
      })
