-- ===== src/Prelude/Text.antt =====
-- Texts as the list of their characters' codes, with what the standard library of the source
-- does to them: splitting, trimming, ASCII case, prefixes and suffixes.
use Prim.Native.Nat.{ℕ, ◌+◌}
use Prim.Native.Char.{code}
use Prim.Native.String.{String}
use mathlib.Core.Path.{◌≡◌, refl, ap}
use mathlib.Core.List.{List, [], ◌∷◌, ◌++◌}
use mathlib.Core.Option.{Option, none, some}
use mathlib.Core.Bool.{Bool, true, false, ◌&&◌, ◌||◌}
use native.Mathlib.Omega.{arith}
use causalmesh.Prelude.Tests.{ltb, leb, if◌then◌else◌}
use causalmesh.Prelude.Equality.{◌==◌, nat_eq, list_eq}

abbrev pub Text : Type 0
Text = List ℕ

abbrev pub text : String → Text
text String.[] = []
text (String.◌∷◌ c s) = code c ∷ text s

abbrev pub is_nil {ℓ} : {A : Type ℓ} → List A → Bool
is_nil [] = true
is_nil (x ∷ xs) = false

abbrev pub prefix_first : ℕ → List Text → List Text
prefix_first c [] = (c ∷ []) ∷ []
prefix_first c (t ∷ ts) = (c ∷ t) ∷ ts

-- `str::split` by a character: at least one piece
abbrev pub split : ℕ → Text → List Text
split sep [] = [] ∷ []
split sep (c ∷ cs) = let rest = split sep cs in if c == sep then [] ∷ rest else prefix_first c rest

-- `format!` of texts written next to each other
abbrev pub concat : List Text → Text
concat [] = []
concat (t ∷ ts) = t ++ concat ts

abbrev pub last_or : Text → List Text → Text
last_or d [] = d
last_or d (t ∷ ts) = last_or t ts

abbrev pub strip_text_prefix : Text → Text → Option Text
strip_text_prefix [] s = some s
strip_text_prefix (c ∷ p) [] = none
strip_text_prefix (c ∷ p) (d ∷ s) =
    let rest = strip_text_prefix p s in if c == d then rest else none

abbrev pub has_prefix : Text → Text → Bool
has_prefix p s = elim (strip_text_prefix p s) [ none ↦ false | some r ↦ true ]

-- the bytes of a character in UTF-8
abbrev pub utf8_len : ℕ → ℕ
utf8_len c = if ltb c 128 then 1 else if ltb c 2048 then 2 else if ltb c 65536 then 3 else 4

abbrev pub byte_length : Text → ℕ
byte_length [] = 0
byte_length (c ∷ s) = utf8_len c + byte_length s

abbrev pub is_ascii_upper : ℕ → Bool
is_ascii_upper c = leb b'A' c && leb c b'Z'

abbrev pub is_ascii_lower : ℕ → Bool
is_ascii_lower c = leb b'a' c && leb c b'z'

abbrev pub is_ascii_digit : ℕ → Bool
is_ascii_digit c = leb b'0' c && leb c b'9'

abbrev pub is_ascii_alphanumeric : ℕ → Bool
is_ascii_alphanumeric c = is_ascii_upper c || (is_ascii_lower c || is_ascii_digit c)

abbrev pub to_ascii_lower : ℕ → ℕ
to_ascii_lower c = if is_ascii_upper c then c + 32 else c

abbrev pub eq_ignore_ascii_case : Text → Text → Bool
eq_ignore_ascii_case [] [] = true
eq_ignore_ascii_case (a ∷ as') (b ∷ bs) =
    to_ascii_lower a == to_ascii_lower b && eq_ignore_ascii_case as' bs
eq_ignore_ascii_case _ _ = false

unfoldable pub join_with : ℕ → List Text → Text
join_with sep [] = []
join_with sep (t ∷ []) = t
join_with sep (t ∷ u ∷ ts) = t ++ (sep ∷ join_with sep (u ∷ ts))

join-prefix_first :
    (sep c : ℕ) (ts : List Text)
    → is_nil ts ≡ false
    → join_with sep (prefix_first c ts) ≡ c ∷ join_with sep ts
unfolding join_with
join-prefix_first sep c [] h = ground arith
join-prefix_first sep c (t ∷ []) h = refl
join-prefix_first sep c (t ∷ u ∷ ts) h = refl

pub split-nonempty : (sep : ℕ) (s : Text) → is_nil (split sep s) ≡ false
split-nonempty sep [] = refl
split-nonempty sep (c ∷ cs) = ground arith

join-empty :
    (sep : ℕ) (ts : List Text)
    → is_nil ts ≡ false
    → join_with sep ([] ∷ ts) ≡ sep ∷ join_with sep ts
unfolding join_with
join-empty sep [] h = ground arith
join-empty sep (t ∷ ts) h = refl

join-split : (sep : ℕ) (s : Text) → join_with sep (split sep s) ≡ s
unfolding join_with
join-split sep [] = refl
join-split sep (c ∷ cs) = ground (
  arith,
  join-split sep cs,
  join-prefix_first sep c (split sep cs),
  join-empty sep (split sep cs),
  split-nonempty sep cs,
)

-- The pieces determine the text.
pub split-injective : (sep : ℕ) (s t : Text) → split sep s ≡ split sep t → s ≡ t
split-injective sep s t e = rw (← join-split sep s, ← join-split sep t) (ap (join_with sep) e)
