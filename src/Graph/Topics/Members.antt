-- ===== src/Graph/Topics/Members.antt =====
-- The key of a member of an enum, in the spellings that `normalize_topic_key` of
-- crates/mesh-core/src/contracts.rs brings together.
use mathlib.Core.List.{reverse, reverse-append, reverse-reverse}
use causalmesh.Prelude.{
  ℕ, Bool, true, false, ◌||◌, none, some, [], ◌∷◌, ◌++◌, ◌==◌, nat_eq, list_eq, if◌then◌else◌, all,
  ◌≡◌, refl, ap, ◌∙◌, arith,
}
use causalmesh.Prelude.Text.{
  Text, text, split, last_or, strip_text_prefix, is_ascii_upper, is_ascii_digit,
}
use causalmesh.Graph.Topics.{
  trim_front, trim_both, is_quote_mark, is_ident_part, is_member_ref, expression_of,
  normalize_topic_key,
}

-- The character behind all others.
abbrev last_char : ℕ → Text → ℕ
last_char c [] = c
last_char c (d ∷ s) = last_char d s

abbrev but_last : ℕ → Text → Text
but_last c [] = []
but_last c (d ∷ s) = c ∷ but_last d s

but_last-last_char : (c : ℕ) (s : Text) → (c ∷ s) ≡ but_last c s ++ (last_char c s ∷ [])
but_last-last_char c [] = refl
but_last-last_char c (d ∷ s) = ap (λ t. c ∷ t) (but_last-last_char d s)

last_char-append : (c d : ℕ) (s t : Text) → last_char c (s ++ (d ∷ t)) ≡ last_char d t
last_char-append c d [] t = refl
last_char-append c d (e ∷ s) t = last_char-append e d s t

last_char-all :
    (test : ℕ → Bool) (c : ℕ) (s : Text)
    → test c ≡ true
    → all test s ≡ true
    → test (last_char c s) ≡ true
last_char-all test c [] e a = e
last_char-all test c (d ∷ s) e a = last_char-all test d s (ground (arith, a)) (ground (arith, a))

-- A text whose ends do not pass the test.
module _ (test : ℕ → Bool) (c : ℕ) (s : Text) (first : test c ≡ false)
    (last : test (last_char c s) ≡ false) where
  backwards : reverse (c ∷ s) ≡ last_char c s ∷ reverse (but_last c s)
  backwards =
      ap reverse (but_last-last_char c s) ∙ reverse-append (but_last c s) (last_char c s ∷ [])

  trim_front-backwards : trim_front test (reverse (c ∷ s)) ≡ reverse (c ∷ s)
  unfolding trim_front
  trim_front-backwards = rw backwards (rw last refl)

  trim_both-kept : trim_both test (c ∷ s) ≡ c ∷ s
  unfolding trim_both trim_front
  trim_both-kept = rw first (ap reverse trim_front-backwards ∙ reverse-reverse (c ∷ s))

  trim_both-quoted : (q : ℕ) → test q ≡ true → trim_both test (q ∷ ((c ∷ s) ++ (q ∷ []))) ≡ c ∷ s
  unfolding trim_both trim_front
  trim_both-quoted q e =
      rw (e, first)
        (ap (λ t. reverse (trim_front test t)) (reverse-append (c ∷ s) (q ∷ []))
          ∙ rw e (ap reverse trim_front-backwards ∙ reverse-reverse (c ∷ s)))

split-dotless : (s : Text) → all is_ident_part s ≡ true → split b'.' s ≡ s ∷ []
split-dotless [] a = refl
split-dotless (c ∷ s) a = ground (arith, a, split-dotless s)

split-dot :
    (s t : Text)
    → all is_ident_part s ≡ true
    → all is_ident_part t ≡ true
    → split b'.' (s ++ (b'.' ∷ t)) ≡ s ∷ t ∷ []
split-dot [] t a b = ground (arith, split-dotless t b)
split-dot (c ∷ s) t a b = ground (arith, a, split-dot s t (ground (arith, a)) b)

-- A character of a name in capitals.
abbrev pub is_capital_part : ℕ → Bool
is_capital_part c = is_ascii_upper c || (is_ascii_digit c || c == b'_')

capital-ident : (s : Text) → all is_capital_part s ≡ true → all is_ident_part s ≡ true
capital-ident [] a = refl
capital-ident (c ∷ s) a = ground (arith, a, capital-ident s)

-- An enum whose name begins with a capital letter, and a member whose name is in capitals.
module _ (c : ℕ) (s : Text) (u : ℕ) (t : Text) (capital : is_ascii_upper c ≡ true)
    (name : all is_ident_part s ≡ true) (upper : is_ascii_upper u ≡ true)
    (capitals : all is_capital_part t ≡ true) where
  is_member_ref-dotted : is_member_ref (split b'.' ((c ∷ s) ++ (b'.' ∷ u ∷ t))) ≡ true
  unfolding is_member_ref
  is_member_ref-dotted =
      let pieces =
        split-dot (c ∷ s) (u ∷ t) (ground (arith, capital, name))
          (ground (arith, upper, capital-ident t capitals)) in
      rw pieces (ground (arith, capital, name, upper, capitals, capital-ident t capitals))

  -- `E.M`
  abbrev pub dotted : Text
  dotted = (c ∷ s) ++ (b'.' ∷ u ∷ t)

  dotted_last : is_ident_part (last_char c (s ++ (b'.' ∷ u ∷ t))) ≡ true
  dotted_last =
      ap is_ident_part (last_char-append c b'.' s (u ∷ t))
      ∙ last_char-all is_ident_part u t (ground (arith, upper)) (capital-ident t capitals)

  -- The characters of names are no white space, the marks of quotes are none, and a space is.
  module _ (is_whitespace : ℕ → Bool) (lowercase : Text → Text)
      (visible : (x : ℕ) → is_ident_part x ≡ true → is_whitespace x ≡ false) where
    ident_no_quote : (x : ℕ) → is_ident_part x ≡ true → is_quote_mark x ≡ false
    ident_no_quote x e = ground (arith, e)

    capital_ident : is_ident_part c ≡ true
    capital_ident = ground (arith, capital)

    blank_kept : trim_both is_whitespace dotted ≡ dotted
    blank_kept =
        trim_both-kept is_whitespace c (s ++ (b'.' ∷ u ∷ t)) (visible c capital_ident)
          (visible (last_char c (s ++ (b'.' ∷ u ∷ t))) dotted_last)

    quotes_kept : trim_both is_quote_mark dotted ≡ dotted
    quotes_kept =
        trim_both-kept is_quote_mark c (s ++ (b'.' ∷ u ∷ t)) (ident_no_quote c capital_ident)
          (ident_no_quote (last_char c (s ++ (b'.' ∷ u ∷ t))) dotted_last)

    abbrev trimmed : Text → Text
    trimmed raw = trim_both is_whitespace (trim_both is_quote_mark (trim_both is_whitespace raw))

    abbrev without_typeof : Text → Text
    without_typeof x = elim (strip_text_prefix (text "typeof ") x) [
      | none ↦ x
      | some rest ↦ trim_both is_whitespace rest
    ]

    expression_of-trimmed :
        (raw x : Text)
        → trimmed raw ≡ x
        → expression_of is_whitespace lowercase raw ≡ without_typeof x
    unfolding expression_of
    expression_of-trimmed raw x e = ap without_typeof e

    dotted_bare : without_typeof dotted ≡ dotted
    dotted_bare =
        let other : (b't' == c) ≡ false = ground (arith, capital) in
        let stripped : strip_text_prefix (text "typeof ") dotted ≡ none = ground (arith, other) in
        ap (λ o. elim o [ none ↦ dotted | some rest ↦ trim_both is_whitespace rest ]) stripped

    abbrev keyed : Text → Text
    keyed x = lowercase (if is_member_ref (split b'.' x) then last_or x (split b'.' x) else x)

    keyed-dotted : keyed dotted ≡ lowercase (u ∷ t)
    keyed-dotted =
        let pieces =
          split-dot (c ∷ s) (u ∷ t) (ground (arith, capital, name))
            (ground (arith, upper, capital-ident t capitals)) in
        rw is_member_ref-dotted (ap (λ ts. lowercase (last_or dotted ts)) pieces)

    key_of :
        (raw : Text)
        → expression_of is_whitespace lowercase raw ≡ dotted
        → normalize_topic_key is_whitespace lowercase raw ≡ lowercase (u ∷ t)
    unfolding normalize_topic_key
    key_of raw e = ap keyed e ∙ keyed-dotted

    trimmed-blank :
        (raw : Text)
        → trim_both is_whitespace raw ≡ raw
        → trim_both is_quote_mark raw ≡ dotted
        → trimmed raw ≡ dotted
    trimmed-blank raw e f =
        ap (λ x. trim_both is_whitespace (trim_both is_quote_mark x)) e
        ∙ ap (trim_both is_whitespace) f
        ∙ blank_kept

    key-quoted :
        (q : ℕ)
        → is_quote_mark q ≡ true
        → is_whitespace q ≡ false
        → normalize_topic_key is_whitespace lowercase (q ∷ (dotted ++ (q ∷ []))) ≡ lowercase (u ∷ t)
    key-quoted q quote seen =
        let raw = q ∷ (dotted ++ (q ∷ [])) in
        let last : is_whitespace (last_char q (dotted ++ (q ∷ []))) ≡ false =
          ap is_whitespace (last_char-append q q dotted []) ∙ seen in
        key_of raw (
          expression_of-trimmed raw dotted (
            trimmed-blank raw (trim_both-kept is_whitespace q (dotted ++ (q ∷ [])) seen last) (
              trim_both-quoted is_quote_mark c (s ++ (b'.' ∷ u ∷ t))
                (ident_no_quote c capital_ident)
                (ident_no_quote (last_char c (s ++ (b'.' ∷ u ∷ t))) dotted_last) q quote))
          ∙ dotted_bare)

    behind_typeof : Text
    behind_typeof = text "ypeof " ++ dotted

    key-typeof :
        normalize_topic_key is_whitespace lowercase (text "typeof " ++ dotted) ≡ lowercase (u ∷ t)
    unfolding behind_typeof
    key-typeof =
        let raw = text "typeof " ++ dotted in
        let last = last_char-append b't' c (text "ypeof ") (s ++ (b'.' ∷ u ∷ t)) in
        let end : is_ident_part (last_char b't' behind_typeof) ≡ true =
          ap is_ident_part last ∙ dotted_last in
        let blank : trim_both is_whitespace raw ≡ raw =
          trim_both-kept is_whitespace b't' behind_typeof (visible b't' refl)
            (visible (last_char b't' behind_typeof) end) in
        let quotes : trim_both is_quote_mark raw ≡ raw =
          trim_both-kept is_quote_mark b't' behind_typeof refl
            (ident_no_quote (last_char b't' behind_typeof) end) in
        key_of raw (
          expression_of-trimmed raw raw (
            ap (λ x. trim_both is_whitespace (trim_both is_quote_mark x)) blank
            ∙ ap (trim_both is_whitespace) quotes
            ∙ blank)
          ∙ blank_kept)

    -- All three spellings of a member of an enum have one key, the member's name in lower case: as it
    -- stands, in quotes, and behind `typeof`. The enum's name begins with a capital letter, the
    -- member's too and is in capitals, and no character of names and no quote is white space.
    pub normalize_topic_key-member :
        (q : ℕ)
        → is_quote_mark q ≡ true
        → is_whitespace q ≡ false
        → (normalize_topic_key is_whitespace lowercase dotted ≡ lowercase (u ∷ t))
          × (normalize_topic_key is_whitespace lowercase (q ∷ (dotted ++ (q ∷ [])))
              ≡ lowercase (u ∷ t))
          × (normalize_topic_key is_whitespace lowercase (text "typeof " ++ dotted)
              ≡ lowercase (u ∷ t))
    normalize_topic_key-member q quote seen = (
      key_of dotted (
          expression_of-trimmed dotted dotted (trimmed-blank dotted blank_kept quotes_kept)
          ∙ dotted_bare),
      key-quoted q quote seen,
      key-typeof,
    )
