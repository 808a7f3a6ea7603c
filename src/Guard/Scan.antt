-- ===== src/Guard/Scan.antt =====
-- `max_nesting_depth` of crates/mesh-parsers/src/guard.rs: the depth of brackets outside comments
-- and quoted texts. The scan holds the bytes from the index on; its inner loops and the jumps of
-- its index are functions of that rest. Fuel stands for the outer `while`.
use causalmesh.Prelude.{
  ℕ, zero, suc, ◌+◌, ◌-◌, Bool, false, ◌&&◌, ◌||◌, Option, none, some, [], ◌∷◌, length,
  if◌then◌else◌, ◌==◌, nat_eq, ltb,
}
use causalmesh.Prelude.Text.{Text}

-- `while i < len && content[i] != b'\n'`: the newline stays
unfoldable pub skip_line : Text → Text
skip_line [] = []
skip_line (b ∷ rest) = if b == b'\n' then b ∷ rest else skip_line rest

-- to behind the next `*/`, or to the end
unfoldable pub skip_block : Text → Text
skip_block [] = []
skip_block (a ∷ []) = []
skip_block (a ∷ b ∷ rest) =
    let on = skip_block (b ∷ rest) in if a == b'*' then (if b == b'/' then rest else on) else on

-- to behind the closing quote, or to the end; a backslash takes the next byte with it
unfoldable pub skip_quoted : ℕ → Text → Text
skip_quoted quote [] = []
skip_quoted quote (a ∷ []) = []
skip_quoted quote (a ∷ b ∷ rest) =
    let escaped = skip_quoted quote rest in
    let on = skip_quoted quote (b ∷ rest) in
    if a == b'\\' then escaped else if a == quote then b ∷ rest else on

abbrev pub is_open : ℕ → Bool
is_open b = b == b'{' || (b == b'(' || b == b'[')

abbrev pub is_close : ℕ → Bool
is_close b = b == b'}' || (b == b')' || b == b']')

abbrev pub is_quote : ℕ → Bool
is_quote b = b == b'"' || (b == b'\'' || b == b'`')

abbrev pub next_is : ℕ → Text → Bool
next_is c [] = false
next_is c (b ∷ rest) = b == c

abbrev pub behind_next : Text → Text
behind_next [] = []
behind_next (b ∷ rest) = rest

-- What one round of the loop leaves: the rest of the bytes, the depth and the deepest so far.
pub record Round : Type 0 where
  pub rest : Text
  pub depth : ℕ
  pub max_depth : ℕ

unfoldable pub round : ℕ → Text → ℕ → ℕ → Round
unfolding skip_line skip_block skip_quoted
round b rest depth max_depth =
    if b == b'/' && next_is b'/' rest
    then record { rest = skip_line (behind_next rest); depth = depth; max_depth = max_depth }
    else if b == b'/' && next_is b'*' rest
    then record { rest = skip_block (behind_next rest); depth = depth; max_depth = max_depth }
    else if b == b'#'
    then record { rest = skip_line rest; depth = depth; max_depth = max_depth }
    else if is_quote b
    then record { rest = skip_quoted b rest; depth = depth; max_depth = max_depth }
    else if is_open b
    then record {
      rest = rest;
      depth = depth + 1;
      max_depth = if ltb max_depth (depth + 1) then depth + 1 else max_depth;
    }
    else if is_close b
    then record { rest = rest; depth = depth - 1; max_depth = max_depth }
    else record { rest = rest; depth = depth; max_depth = max_depth }

-- The outer `while`; `none` if the fuel runs out.
unfoldable pub scan : ℕ → Text → ℕ → ℕ → Option ℕ
scan zero [] depth max_depth = some max_depth
scan zero (b ∷ rest) depth max_depth = none
scan (suc fuel) [] depth max_depth = some max_depth
scan (suc fuel) (b ∷ rest) depth max_depth =
    let r = round b rest depth max_depth in scan fuel r.rest r.depth r.max_depth

unfoldable pub max_nesting_depth : Text → ℕ
unfolding scan round
max_nesting_depth content = elim (scan (length content) content 0 0) [
  | none ↦ 0
  | some deepest ↦ deepest
]
