-- ===== src/Guard/Limits.antt =====
-- Which files the guards of crates/mesh-parsers/src/guard.rs let through, and which limit they
-- name.
use mathlib.Core.Path.{subst}
use causalmesh.Prelude.{
  ℕ, zero, suc, ◌≤◌, ◌<◌, true, false, ◌≡◌, refl, ap, sym, ◌∙◌, ◌↔◌, ◌⊎◌, List, [], ◌∷◌, ◌++◌,
  length, take, contains, All, Among, ltb, leb, ◌==◌, nat_eq, arith, Bool-cases, inl, inr,
}
use causalmesh.Prelude.Text.{Text, split}
use causalmesh.Guard.{
  err, GuardRejection, oversized, binary, long_line, deep_nesting, check_with_budget, looks_binary,
  longest, longest_line, max_line_len_bytes, max_nesting_depth_limit,
}
use causalmesh.Guard.Scan.{max_nesting_depth}
use causalmesh.Guard.Scanner.{code, deepest, max_nesting_depth-deepest}

longest-le : (n : ℕ) (lines : List Text) → (longest lines ≤ n) ↔ All (λ line. length line ≤ n) lines
unfolding longest
longest-le n [] = (λ h. tt, λ h. omega arith)
longest-le n (line ∷ lines) =
    let ih = longest-le n lines in
    (λ h. (omega arith, ih.0 (omega arith)), λ h. let r = ih.1 h.1 in omega (arith, h.0))

-- the tests of a rejection
rejection-tests :
    (len : ℕ) (content : Text) (budget : ℕ) (r : GuardRejection)
    → check_with_budget len content budget ≡ err r
    → (budget < len) × (r ≡ oversized len budget)
      ⊎ ((len ≤ budget)
          × ((looks_binary content ≡ true) × (r ≡ binary)
              ⊎ ((looks_binary content ≡ false)
                  × ((max_line_len_bytes < longest_line content)
                        × (r ≡ long_line (longest_line content))
                      ⊎ ((longest_line content ≤ max_line_len_bytes)
                          × (max_nesting_depth_limit < max_nesting_depth content)
                          × (r ≡ deep_nesting (max_nesting_depth content)))))))
unfolding check_with_budget
rejection-tests len content budget r e = elim (Bool-cases (ltb budget len)) [
  | inl a ↦ inl (ground arith, ground arith)
  | inr a ↦ inr (
    ground arith,
    elim (Bool-cases (looks_binary content)) [
      | inl b ↦ inl (b, ground arith)
      | inr b ↦ inr (
        b,
        elim (Bool-cases (ltb max_line_len_bytes (longest_line content))) [
          | inl c ↦ inl (ground arith, ground arith)
          | inr c ↦ inr (ground arith, ground arith, ground arith)
        ],
      )
    ],
  )
]

-- A null byte stands behind less than `n` bytes.
abbrev pub HasNull : ℕ → Text → Type 0
HasNull n content =
    (before after : Text) × ((content ≡ before ++ (0 ∷ after)) × (length before < n))

null_to : (n : ℕ) (content : Text) → contains 0 (take n content) ≡ true → HasNull n content
null_to zero content h = ground (arith, h)
null_to (suc n) [] h = ground (arith, h)
null_to (suc n) (b ∷ content) h = elim (Bool-cases (b == 0)) [
  | inl null ↦ ([], content, (ap (λ c. c ∷ content) (ground (arith, null)), ground arith))
  | inr other ↦
      let (before, after, (e, l)) = null_to n content (ground (arith, h, other)) in
      (b ∷ before, after, (ap (λ s. b ∷ s) e, omega (arith, l)))
]

null_of :
    (n : ℕ) (before after : Text)
    → length before < n
    → contains 0 (take n (before ++ (0 ∷ after))) ≡ true
null_of zero before after l = ground (arith, l)
null_of (suc n) [] after l = refl
null_of (suc n) (b ∷ before) after l = ground (arith, null_of n before after (omega (arith, l)))

no_null : (content : Text) → looks_binary content ≡ false → ¬ HasNull 4096 content
unfolding looks_binary
no_null content h (before, after, (e, l)) =
    ground (arith, h, ap (λ s. contains 0 (take 4096 s)) e, null_of 4096 before after l)

null_free : (content : Text) → ¬ HasNull 4096 content → looks_binary content ≡ false
unfolding looks_binary
null_free content free = elim (Bool-cases (looks_binary content)) [
  | inl null ↦ absurd (free (null_to 4096 content null))
  | inr other ↦ other
]

-- No line is longer than `n`, and one is as long.
abbrev pub IsLongest : ℕ → List Text → Type 0
IsLongest n lines =
    All (λ line. length line ≤ n) lines × ((line : Text) × (Among line lines × (length line ≡ n)))

longest-reached :
    (lines : List Text)
    → 0 < longest lines
    → (line : Text) × (Among line lines × (length line ≡ longest lines))
unfolding longest
longest-reached [] l = ground (arith, l)
longest-reached (line ∷ lines) l = elim (Bool-cases (leb (longest lines) (length line))) [
  | inl first ↦ (line, (inl refl, ground (arith, first)))
  | inr later ↦
      let (other, (there, e)) = longest-reached lines (ground (arith, later)) in
      (other, (inr there, ground (arith, later, e)))
]

Among-le :
    (n : ℕ) (line : Text) (lines : List Text)
    → All (λ l. length l ≤ n) lines
    → Among line lines
    → length line ≤ n
Among-le n line [] short there = elim there [ ]
Among-le n line (l ∷ lines) short (inl here) = omega (arith, short.0, ap length here)
Among-le n line (l ∷ lines) short (inr there) = Among-le n line lines short.1 there

longest-IsLongest : (n : ℕ) (lines : List Text) → IsLongest n lines → longest lines ≡ n
longest-IsLongest n lines (short, (line, (there, e))) =
    let most = (longest-le n lines).1 short in
    let least =
      Among-le (longest lines) line lines ((longest-le (longest lines) lines).0 (omega arith))
        there in
    omega (arith, most, least, e)

-- Why a file is rejected: its size; else a null byte in its first 4096 bytes; else its longest line,
-- of more than 1024 bytes; else its nesting, deeper than 64. With the measurement.
abbrev pub Breaks : ℕ → Text → ℕ → GuardRejection → Type 0
Breaks len content budget (oversized size limit) = (size ≡ len) × (limit ≡ budget) × (budget < len)
Breaks len content budget binary = (len ≤ budget) × HasNull 4096 content
Breaks len content budget (long_line n) =
    (len ≤ budget) × (¬ HasNull 4096 content) × IsLongest n (split b'\n' content) × (1024 < n)
Breaks len content budget (deep_nesting depth) =
    (len ≤ budget)
    × (¬ HasNull 4096 content)
    × All (λ line. length line ≤ 1024) (split b'\n' content)
    × (depth ≡ deepest code content 0 0)
    × (64 < depth)

null_found : (content : Text) → HasNull 4096 content → looks_binary content ≡ true
unfolding looks_binary
null_found content (before, after, (e, l)) =
    ap (λ s. contains 0 (take 4096 s)) e ∙ null_of 4096 before after l

module _ (len : ℕ) (content : Text) (budget : ℕ) where
  Breaks-to :
      (r : GuardRejection)
      → check_with_budget len content budget ≡ err r
      → Breaks len content budget r
  unfolding longest_line looks_binary
  Breaks-to r e =
      let lines = split b'\n' content in
      elim (rejection-tests len content budget r e) [
        | inl (over, same) ↦ subst (Breaks len content budget) (sym same) (refl, refl, over)
        | inr (fits, inl (null, same)) ↦
            subst (Breaks len content budget) (sym same) (fits, null_to 4096 content null)
        | inr (fits, inr (free, inl (over, same))) ↦ subst (Breaks len content budget) (sym same) (
          fits,
          no_null content free,
          (
            (longest-le (longest lines) lines).0 (omega arith),
            longest-reached lines (omega (arith, over)),
          ),
          over,
        )
        | inr (fits, inr (free, inr (short, deep, same))) ↦
            subst (Breaks len content budget) (sym same) (
              fits,
              no_null content free,
              (longest-le 1024 lines).0 short,
              (max_nesting_depth-deepest content).1,
              deep,
            )
      ]

  Breaks-of :
      (r : GuardRejection)
      → Breaks len content budget r
      → check_with_budget len content budget ≡ err r
  unfolding check_with_budget longest_line
  Breaks-of (oversized size limit) (same, own, over) = ground (arith, same, own, over)
  Breaks-of binary (fits, null) = ground (arith, fits, null_found content null)
  Breaks-of (long_line n) (fits, free, long, over) =
      ground
        (arith, fits, over, null_free content free, longest-IsLongest n (split b'\n' content) long)
  Breaks-of (deep_nesting depth) (fits, free, short, same, deep) = ground (
    arith,
    fits,
    null_free content free,
    (longest-le 1024 (split b'\n' content)).1 short,
    same ∙ sym (max_nesting_depth-deepest content).1,
    deep,
  )

  -- A file is rejected for exactly the first limit that it breaks, with the measurement that broke
  -- it: its size over the budget; else a null byte in its first 4096 bytes; else a longest line of
  -- more than 1024 bytes; else brackets, as the automaton counts them, nested more than 64 deep.
  pub check_with_budget_exact :
      (r : GuardRejection)
      → (check_with_budget len content budget ≡ err r) ↔ Breaks len content budget r
  check_with_budget_exact r = (Breaks-to r, Breaks-of r)
