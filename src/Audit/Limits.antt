-- ===== src/Audit/Limits.antt =====
-- The length and the characters of a sanitized message.
use mathlib.Core.Path.{subst}
use causalmesh.Prelude.{
  ℕ, zero, suc, ◌≤◌, Bool, true, false, not, Option, some, List, [], ◌∷◌, ◌++◌, map, length, take,
  retain, all, All, ltb, if◌then◌else◌, Bool-cases, Option-cases, ◌≡◌, refl, sym, inl, inr, arith,
  length-append, length-take-le,
}
use causalmesh.Prelude.Text.{Text, text, is_nil, prefix_first, join_with}
use causalmesh.Audit.Secrets.{secret_ranges}
use causalmesh.Audit.Messages.{
  max_error_message_chars, strip_serde_values, redact, collapse_home, pieces, single_spaced, cut,
  sanitize_error_message,
}

module _ (p : ℕ → Bool) where
  abbrev Passes : Text → Type 0
  Passes s = all p s ≡ true

  append-Passes : (s t : Text) → Passes s → Passes t → Passes (s ++ t)
  append-Passes [] t a b = b
  append-Passes (c ∷ s) t a b = ground (arith, append-Passes s t)

  take-Passes : (n : ℕ) (s : Text) → Passes s → Passes (take n s)
  take-Passes zero s a = refl
  take-Passes (suc n) [] a = refl
  take-Passes (suc n) (c ∷ s) a = ground (arith, take-Passes n s)

  prefix_first-Passes :
      (c : ℕ) (ts : List Text) → p c ≡ true → All Passes ts → All Passes (prefix_first c ts)
  prefix_first-Passes c [] e a = (ground (arith, e), tt)
  prefix_first-Passes c (t ∷ ts) e a = (ground (arith, e, a.0), a.1)

  pieces-Passes :
      (is_whitespace : ℕ → Bool) (s : Text) → Passes s → All Passes (pieces is_whitespace s)
  pieces-Passes is_whitespace [] a = (refl, tt)
  pieces-Passes is_whitespace (c ∷ s) a = elim (Bool-cases (is_whitespace c)) [
    | inl e ↦
        subst
          (λ b.
            All Passes
              (if b then [] ∷ pieces is_whitespace s else prefix_first c (pieces is_whitespace s)))
          (sym e) (refl, pieces-Passes is_whitespace s (ground arith))
    | inr e ↦
        subst
          (λ b.
            All Passes
              (if b then [] ∷ pieces is_whitespace s else prefix_first c (pieces is_whitespace s)))
          (sym e)
          (prefix_first-Passes c (pieces is_whitespace s) (ground arith)
            (pieces-Passes is_whitespace s (ground arith)))
  ]

  retain-Passes : (q : Text → Bool) (ts : List Text) → All Passes ts → All Passes (retain q ts)
  retain-Passes q [] a = tt
  retain-Passes q (t ∷ ts) a = ground (arith, retain-Passes q ts)

  join_with-Passes :
      (sep : ℕ) (ts : List Text) → p sep ≡ true → All Passes ts → Passes (join_with sep ts)
  unfolding join_with
  join_with-Passes sep [] e a = refl
  join_with-Passes sep (t ∷ []) e a = a.0
  join_with-Passes sep (t ∷ u ∷ ts) e a =
      append-Passes t (sep ∷ join_with sep (u ∷ ts)) a.0
        (ground (arith, e, join_with-Passes sep (u ∷ ts) e a.1))

  single_spaced-Passes :
      (is_whitespace : ℕ → Bool) (s : Text)
      → p b' ' ≡ true
      → Passes s
      → Passes (single_spaced is_whitespace s)
  single_spaced-Passes is_whitespace s e a =
      join_with-Passes b' ' (retain (λ piece. not (is_nil piece)) (pieces is_whitespace s)) e (
        retain-Passes (λ piece. not (is_nil piece)) (pieces is_whitespace s)
          (pieces-Passes is_whitespace s a))

  cut-Passes : (s : Text) → p b'.' ≡ true → Passes s → Passes (cut s)
  cut-Passes s e a = elim (Bool-cases (ltb max_error_message_chars (length s))) [
    | inl l ↦
        rw l (append-Passes (take 197 s) (text "...") (take-Passes 197 s a) (ground (arith, e)))
    | inr l ↦ rw l a
  ]

length-cut : (s : Text) → length (cut s) ≤ max_error_message_chars
length-cut s = elim (Bool-cases (ltb max_error_message_chars (length s))) [
  | inl l ↦ rw l (omega (arith, length-append (take 197 s) (text "..."), length-take-le 197 s))
  | inr l ↦ rw l (ground (arith, l))
]

module _ (is_whitespace is_control : ℕ → Bool) (space : is_control b' ' ≡ false)
    (dot : is_control b'.' ≡ false) where
  abbrev is_plain : ℕ → Bool
  is_plain c = not (is_control c)

  abbrev flattened : Text → Text
  flattened s = map (λ c. if is_control c then b' ' else c) s

  flattened-Passes : (s : Text) → Passes is_plain (flattened s)
  flattened-Passes [] = refl
  flattened-Passes (c ∷ s) = ground (arith, flattened-Passes s, space)

  -- A message that is sanitized has at most 200 characters, and no control character.
  pub sanitize_error_message-bounds :
      (raw : Text) (home : Option Text) (m : Text)
      → sanitize_error_message is_whitespace is_control raw home ≡ some m
      → (length m ≤ max_error_message_chars) × (all (λ c. not (is_control c)) m ≡ true)
  unfolding sanitize_error_message
  sanitize_error_message-bounds raw home m e =
      elim (Option-cases (secret_ranges is_whitespace (strip_serde_values raw))) [
        | inl panic ↦ ground arith
        | inr (ranges, found) ↦
            let flat = single_spaced is_whitespace (
              flattened
                (collapse_home is_whitespace (redact 0 ranges (strip_serde_values raw)) home)) in
            let same : cut flat ≡ m = ground arith in
            subst (λ t. (length t ≤ max_error_message_chars) × (all is_plain t ≡ true)) same
              (
                length-cut flat,
                cut-Passes is_plain flat (ground (arith, dot)) (
                    single_spaced-Passes is_plain is_whitespace
                      (flattened (
                        collapse_home is_whitespace (redact 0 ranges (strip_serde_values raw))
                          home))
                      (ground (arith, space))
                      (flattened-Passes (
                        collapse_home is_whitespace (redact 0 ranges (strip_serde_values raw))
                          home))),
              )
      ]
