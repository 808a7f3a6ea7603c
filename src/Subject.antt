-- ===== src/Subject.antt =====
-- Wildcard subjects of NATS and MQTT, and the bare-name comparison of RPC handlers
-- (crates/mesh-core/src/contracts.rs).
pub mod Wildcards
pub mod Names
pub mod Tests
use causalmesh.Prelude.{
  ℕ, Bool, true, false, ◌&&◌, ◌||◌, not, Option, none, some, List, [], ◌∷◌, any, contains, retain,
  map, if◌then◌else◌, ◌==◌, nat_eq, list_eq,
}
use causalmesh.Prelude.Text.{
  Text, text, is_nil, split, last_or, is_ascii_alphanumeric, to_ascii_lower, eq_ignore_ascii_case,
}

-- The separator, the token for one level and the token for the rest.
pub record Dialect : Type 0 where
  pub sep : ℕ
  pub one : Text
  pub rest : Text

unfoldable pub subject_dialect : Text → Dialect
subject_dialect key =
    if contains b'/' key
    then record { sep = b'/'; one = text "+"; rest = text "#" }
    else record { sep = b'.'; one = text "*"; rest = text ">" }

-- the loop of `is_subject_pattern`
unfoldable pub has_wildcard : Dialect → List Text → Bool
has_wildcard d [] = false
has_wildcard d (t ∷ tokens) =
    if t == d.one || (t == d.rest && is_nil tokens) then true else has_wildcard d tokens

unfoldable pub is_subject_pattern : Text → Bool
unfolding subject_dialect has_wildcard
is_subject_pattern key = let d = subject_dialect key in has_wildcard d (split d.sep key)

-- the loop of `subject_matches`
unfoldable pub match_tokens : Dialect → List Text → List Text → Bool
match_tokens d [] ts = is_nil ts
match_tokens d (tok ∷ ps) ts =
    if tok == d.rest && is_nil ps then d.rest == text "#" || not (is_nil ts) else elim ts [
      | [] ↦ false
      | x ∷ ts' ↦ if tok == d.one || tok == x then match_tokens d ps ts' else false
    ]

unfoldable pub subject_matches : Text → Text → Bool
unfolding subject_dialect match_tokens
subject_matches pattern_key topic =
    let d = subject_dialect pattern_key in
    if any is_nil (split d.sep topic)
    then false
    else match_tokens d (split d.sep pattern_key) (split d.sep topic)

pub fold_rpc_name : Text → Text
fold_rpc_name name = map to_ascii_lower (retain is_ascii_alphanumeric name)

-- `split('.').next_back()`
abbrev pub bare : Text → Text
bare name = last_or name (split b'.' name)

-- the loop of `bare_names_match` over what is left of the two filtered names
unfoldable pub same_letters : Text → Text → Bool → Bool
same_letters [] [] non_empty = non_empty
same_letters (x ∷ xs) (y ∷ ys) non_empty =
    let rest = same_letters xs ys true in
    if to_ascii_lower x == to_ascii_lower y then rest else false
same_letters _ _ non_empty = false

unfoldable pub bare_names_match : Text → Text → Bool
unfolding same_letters
bare_names_match a b =
    if eq_ignore_ascii_case (bare a) (bare b)
    then true
    else (let letters = retain (λ c. not (c == b'_')) in
        same_letters (letters (bare a)) (letters (bare b)) false)
