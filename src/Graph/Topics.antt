-- ===== src/Graph/Topics.antt =====
-- The key of a topic (`normalize_topic_key` of crates/mesh-core/src/contracts.rs). White space and
-- lower case, as Unicode has them, are parameters.
pub mod Members
use mathlib.Core.List.{reverse}
use causalmesh.Prelude.{
  ℕ, Bool, false, ◌&&◌, ◌||◌, none, some, List, [], ◌∷◌, ◌==◌, nat_eq, list_eq, if◌then◌else◌, leb,
  length, any, all,
}
use causalmesh.Prelude.Text.{
  Text, text, split, last_or, strip_text_prefix, is_ascii_upper, is_ascii_lower, is_ascii_digit,
  is_ascii_alphanumeric,
}

-- `trim_start_matches` by a test
unfoldable pub trim_front : (ℕ → Bool) → Text → Text
trim_front test [] = []
trim_front test (c ∷ s) = let rest = trim_front test s in if test c then rest else c ∷ s

-- `trim` and `trim_matches`
unfoldable pub trim_both : (ℕ → Bool) → Text → Text
unfolding trim_front
trim_both test s = reverse (trim_front test (reverse (trim_front test s)))

abbrev pub is_quote_mark : ℕ → Bool
is_quote_mark c = c == b'\'' || (c == b'"' || c == b'`')

abbrev is_ident_start : ℕ → Bool
is_ident_start c = (is_ascii_upper c || is_ascii_lower c) || (c == b'_' || c == b'$')

abbrev pub is_ident_part : ℕ → Bool
is_ident_part c = is_ascii_alphanumeric c || (c == b'_' || c == b'$')

abbrev is_identifier : Text → Bool
is_identifier [] = false
is_identifier (c ∷ cs) = is_ident_start c && all is_ident_part cs

abbrev starts_capital : List Text → Bool
starts_capital [] = false
starts_capital ([] ∷ segments) = false
starts_capital ((c ∷ cs) ∷ segments) = is_ascii_upper c

abbrev is_constant_case : Text → Bool
is_constant_case s =
    any (λ c. is_ascii_upper c || is_ascii_lower c) s
    && all (λ c. is_ascii_upper c || (is_ascii_digit c || c == b'_')) s

unfoldable pub is_member_ref : List Text → Bool
is_member_ref segments =
    leb 2 (length segments)
    && (all is_identifier segments
        && (starts_capital segments && is_constant_case (last_or [] segments)))

module _ (is_whitespace : ℕ → Bool) (lowercase : Text → Text) where
  unfoldable pub expression_of : Text → Text
  unfolding trim_both
  expression_of raw =
      let trimmed =
        trim_both is_whitespace (trim_both is_quote_mark (trim_both is_whitespace raw)) in
      elim (strip_text_prefix (text "typeof ") trimmed) [
        | none ↦ trimmed
        | some rest ↦ trim_both is_whitespace rest
      ]

  unfoldable pub normalize_topic_key : Text → Text
  unfolding expression_of is_member_ref
  normalize_topic_key raw =
      let expr = expression_of raw in
      let segments = split b'.' expr in
      lowercase (if is_member_ref segments then last_or expr segments else expr)
