-- ===== src/Audit/Messages.antt =====
-- The sanitizing of an error's message (`sanitize_error_message` in crates/mesh-core/src/audit.rs).
-- The loops that eat up a text have its length as fuel: each round takes a marker off it.
use causalmesh.Prelude.{
  ℕ, zero, suc, ◌+◌, ◌-◌, Bool, true, false, not, ◌&&◌, ◌||◌, Option, none, some, List, [], ◌∷◌,
  ◌++◌, map, length, take, retain, contains, ltb, ◌==◌, if◌then◌else◌, nat_eq, list_eq,
}
use causalmesh.Prelude.Text.{
  Text, text, is_nil, has_prefix, prefix_first, join_with, byte_length, is_ascii_upper,
  is_ascii_lower,
}
use causalmesh.Audit.Secrets.{Range, redacted, drop, slice, run_length, secret_ranges}

abbrev pub max_error_message_chars : ℕ
max_error_message_chars = 200

abbrev shift : ℕ → Option ℕ → Option ℕ
shift n none = none
shift n (some i) = some (i + n)

-- `str::find`
abbrev find : Text → Text → Option ℕ
find needle [] = if is_nil needle then some 0 else none
find needle (c ∷ s) =
    let rest = find needle s in if has_prefix needle (c ∷ s) then some 0 else shift 1 rest

abbrev find_char : (ℕ → Bool) → Text → Option ℕ
find_char test [] = none
find_char test (c ∷ s) = let rest = find_char test s in if test c then some 0 else shift 1 rest

abbrev markers : List Text
markers =
    text "invalid type: "
    ∷ text "invalid value: "
    ∷ text "unknown variant "
    ∷ text "unknown field "
    ∷ []

-- the first of the markers in a text, with its length
abbrev earlier : Option (ℕ × ℕ) → Option ℕ → ℕ → Option (ℕ × ℕ)
earlier best none len = best
earlier none (some i) len = some (i, len)
earlier (some (j, m)) (some i) len = if ltb i j then some (i, len) else some (j, m)

abbrev first_marker : Option (ℕ × ℕ) → List Text → Text → Option (ℕ × ℕ)
first_marker best [] s = best
first_marker best (marker ∷ rest) s =
    first_marker (earlier best (find marker s) (length marker)) rest s

-- the end of a quoted value
abbrev close_at : ℕ → Bool → Text → Option ℕ
close_at quote_mark escaped [] = none
close_at quote_mark escaped (c ∷ s) =
    let plain = close_at quote_mark false s in
    let masked = close_at quote_mark true s in
    let same = close_at quote_mark escaped s in
    if quote_mark == b'"' && escaped
    then shift 1 plain
    else if quote_mark == b'"' && c == b'\\'
    then shift 1 masked
    else if c == quote_mark
    then some 0
    else shift 1 same

-- The opening quote, unless `, expected` comes first.
abbrev quote_of : Option ℕ → Option ℕ → Option ℕ
quote_of (some q) (some e) = if ltb e q then none else some q
quote_of q e = q

-- What a round puts out, and what it leaves to do.
abbrev after_value : Text → ℕ → Text × Option Text
after_value body quote_mark = elim (close_at quote_mark false body) [
  | none ↦ ([], none)
  | some c ↦ ([], some (drop (c + 1) body))
]

abbrev keep_until : Option ℕ → Option ℕ → Text → Text × Option Text
keep_until none none tail = (tail, none)
keep_until (some e) quote tail = (take e tail, some (drop e tail))
keep_until none (some q) tail = (tail, some [])

abbrev strip_tail : Text → Text × Option Text
strip_tail tail =
    let first_quote = find_char (λ c. c == b'"' || c == b'`') tail in
    let expected_at = find (text ", expected") tail in
    elim (quote_of first_quote expected_at) [
      | none ↦ keep_until expected_at first_quote tail
      | some q ↦ elim (drop q tail) [
        | [] ↦ (tail, none)
        | quote_mark ∷ body ↦ (
          take q tail ++ text "<value>" ++ (after_value body quote_mark).0,
          (after_value body quote_mark).1,
        )
      ]
    ]

abbrev strip_from : ℕ → Text → Text
strip_from zero s = s
strip_from (suc fuel) s = elim (first_marker none markers s) [
  | none ↦ s
  | some (pos, len) ↦
      let (out, more) = strip_tail (drop (pos + len) s) in
      elim more [
        | none ↦ take (pos + len) s ++ out
        | some rest ↦ take (pos + len) s ++ (out ++ strip_from fuel rest)
      ]
]

unfoldable pub strip_serde_values : Text → Text
strip_serde_values raw = strip_from (length raw) raw

-- `str::replace`: `skip` characters of the last match are still to pass
abbrev replace_from : Text → Text → ℕ → Text → Text
replace_from needle by skip [] = []
replace_from needle by (suc skip) (c ∷ s) = replace_from needle by skip s
replace_from needle by zero (c ∷ s) =
    let behind = replace_from needle by (length needle - 1) s in
    let next = replace_from needle by zero s in
    if has_prefix needle (c ∷ s) then by ++ behind else c ∷ next

-- the last two characters of a text, the last one first
abbrev last_two : Option ℕ → Option ℕ → Text → Option ℕ × Option ℕ
last_two last second [] = (last, second)
last_two last second (c ∷ s) = last_two (some c) last s

abbrev passes : (ℕ → Bool) → Option ℕ → Bool
passes test none = false
passes test (some c) = test c

-- the text from the first cursor on, with the ranges blacked out
abbrev pub redact : ℕ → List Range → Text → Text
redact cursor [] s = drop cursor s
redact cursor ((a, b) ∷ ranges) s = slice cursor a s ++ (redacted ++ redact b ranges s)

abbrev pub cut : Text → Text
cut flat =
    if ltb max_error_message_chars (length flat)
    then take (max_error_message_chars - 3) flat ++ text "..."
    else flat

module _ (is_whitespace : ℕ → Bool) where
  -- a round over a marker of home directories
  abbrev collapse_at : Bool → Text → Text → ℕ → Text × Text
  collapse_at windows marker rest pos =
      let before = take pos rest in
      let after = drop (pos + length marker) rest in
      let (last, second) = last_two none none before in
      let at_token_start =
        is_nil before || passes (λ c. is_whitespace c || contains c (text "\"'(=:`")) last in
      let drive =
        windows
        && (passes (λ c. c == b':') last
            && passes (λ c. is_ascii_upper c || is_ascii_lower c) second) in
      let seg_end = run_length (λ c. not (contains c (text "/\\\"'") || is_whitespace c)) after in
      if not (at_token_start || drive)
      then (take (pos + length marker) rest, after)
      else ((if drive then take (pos - 2) rest else before) ++ text "~", drop seg_end after)

  abbrev collapse_from : ℕ → Bool → Text → Text → Text
  collapse_from zero windows marker rest = rest
  collapse_from (suc fuel) windows marker rest = elim (find marker rest) [
    | none ↦ rest
    | some pos ↦
        let (out, more) = collapse_at windows marker rest pos in
        out ++ collapse_from fuel windows marker more
  ]

  abbrev collapse_marker : Bool → Text → Text → Text
  collapse_marker windows marker s = collapse_from (length s) windows marker s

  abbrev without_home : Option Text → Text → Text
  without_home none s = s
  without_home (some h) s = if ltb 1 (byte_length h) then replace_from h (text "~") 0 s else s

  unfoldable pub collapse_home : Text → Option Text → Text
  collapse_home s home = collapse_marker true (text "\\Users\\") (
      collapse_marker false (text "/home/")
        (collapse_marker false (text "/Users/") (without_home home s)))

  -- the pieces between whitespace
  abbrev pub pieces : Text → List Text
  pieces [] = [] ∷ []
  pieces (c ∷ cs) =
      let rest = pieces cs in if is_whitespace c then [] ∷ rest else prefix_first c rest

  -- `split_whitespace` and `join` by a space
  abbrev pub single_spaced : Text → Text
  single_spaced s = join_with b' ' (retain (λ piece. not (is_nil piece)) (pieces s))

  module _ (is_control : ℕ → Bool) where
    -- `none` where the search for secrets panics
    unfoldable pub sanitize_error_message : Text → Option Text → Option Text
    sanitize_error_message raw home =
        let stripped = strip_serde_values raw in
        elim (secret_ranges is_whitespace stripped) [
          | none ↦ none
          | some ranges ↦ some (
              cut (
                single_spaced (
                  map (λ c. if is_control c then b' ' else c)
                    (collapse_home (redact 0 ranges stripped) home))))
        ]
