-- ===== src/Governance/Segments.antt =====
-- Whole segments of a path's text.
use causalmesh.Prelude.{
  ℕ, Bool, true, false, not, ◌||◌, List, [], ◌∷◌, ◌++◌, any, all, ◌==◌, nat_eq, list_eq, eq_refl,
  list_beq_iff, Bool-cases, ◌≡◌, ◌↔◌, inl, inr, refl, sym, ap, ◌∙◌, arith,
}
use causalmesh.Prelude.Text.{Text, is_nil, prefix_first}
use causalmesh.Governance.{is_separator, segments, has_path_segment}

-- The end of what stands before a segment, and the beginning of what stands after it.
abbrev pub ends : Text → Bool
ends [] = true
ends (c ∷ []) = is_separator c
ends (c ∷ d ∷ cs) = ends (d ∷ cs)

abbrev pub begins : Text → Bool
begins [] = true
begins (c ∷ cs) = is_separator c

abbrev pub is_unbroken : Text → Bool
is_unbroken s = all (λ c. not (is_separator c)) s

-- `s` stands in `haystack` between separators or its ends.
pub IsSegment : Text → Text → Type 0
IsSegment s haystack =
    (is_nil s ≡ false)
    × (is_unbroken s ≡ true)
    × ((before : Text) × (after : Text) × (haystack ≡ before ++ (s ++ after))
        × (ends before ≡ true)
        × (begins after ≡ true))

abbrev first_of : List Text → Text
first_of [] = []
first_of (t ∷ ts) = t

abbrev others_of : List Text → List Text
others_of [] = []
others_of (t ∷ ts) = ts

first_of-prefix_first : (c : ℕ) (ts : List Text) → first_of (prefix_first c ts) ≡ c ∷ first_of ts
first_of-prefix_first c [] = refl
first_of-prefix_first c (t ∷ ts) = refl

others_of-prefix_first : (c : ℕ) (ts : List Text) → others_of (prefix_first c ts) ≡ others_of ts
others_of-prefix_first c [] = refl
others_of-prefix_first c (t ∷ ts) = refl

-- The segments of a text by its first character.
first_separator : (c : ℕ) (cs : Text) → is_separator c ≡ true → segments (c ∷ cs) ≡ [] ∷ segments cs
first_separator c cs e = rw e refl

first_of_unbroken :
    (c : ℕ) (cs : Text)
    → is_separator c ≡ false
    → first_of (segments (c ∷ cs)) ≡ c ∷ first_of (segments cs)
first_of_unbroken c cs e = rw e (first_of-prefix_first c (segments cs))

others_of_unbroken :
    (c : ℕ) (cs : Text)
    → is_separator c ≡ false
    → others_of (segments (c ∷ cs)) ≡ others_of (segments cs)
others_of_unbroken c cs e = rw e (others_of-prefix_first c (segments cs))

any-prefix_first :
    (p : Text → Bool) (c : ℕ) (ts : List Text)
    → any p (prefix_first c ts)
      ≡ (p (first_of (prefix_first c ts)) || any p (others_of (prefix_first c ts)))
any-prefix_first p c [] = refl
any-prefix_first p c (t ∷ ts) = refl

any-segments :
    (p : Text → Bool) (cs : Text)
    → any p (segments cs) ≡ (p (first_of (segments cs)) || any p (others_of (segments cs)))
any-segments p [] = refl
any-segments p (c ∷ cs) = elim (Bool-cases (is_separator c)) [
  | inl e ↦ rw e refl
  | inr e ↦ rw e (any-prefix_first p c (segments cs))
]

-- The first segment: what follows it begins with a separator or is empty.
first_segment :
    (cs : Text)
    → (after : Text) × (cs ≡ first_of (segments cs) ++ after)
      × (begins after ≡ true)
      × (is_unbroken (first_of (segments cs)) ≡ true)
first_segment [] = ([], refl, refl, refl)
first_segment (c ∷ cs) = elim (Bool-cases (is_separator c)) [
  | inl e ↦ (c ∷ cs, rw e refl, e, rw e refl)
  | inr e ↦
      let (after, same, b, u) = first_segment cs in
      (
        after,
        ap (λ t. c ∷ t) same ∙ sym (ap (λ t. t ++ after) (first_of_unbroken c cs e)),
        b,
        ap is_unbroken (first_of_unbroken c cs e) ∙ ground (arith, e, u),
      )
]

-- A text between separators is the first segment of what it begins.
first_unique :
    (s after : Text)
    → is_unbroken s ≡ true
    → begins after ≡ true
    → first_of (segments (s ++ after)) ≡ s
first_unique [] [] u b = refl
first_unique [] (c ∷ cs) u b = ground arith
first_unique (c ∷ s) after u b =
    ground (arith, first_unique s after, first_of_unbroken c (s ++ after))

ends-cons : (c : ℕ) (b : Text) → is_nil b ≡ false → ends (c ∷ b) ≡ ends b
ends-cons c [] e = ground arith
ends-cons c (d ∷ b) e = refl

-- A segment that is not the first one stands behind a separator.
others_split :
    (s cs : Text)
    → any (λ part. part == s) (others_of (segments cs)) ≡ true
    → (is_unbroken s ≡ true)
      × ((before : Text) × (after : Text) × (cs ≡ before ++ (s ++ after))
          × (is_nil before ≡ false)
          × (ends before ≡ true)
          × (begins after ≡ true))
others_split s [] e = ground arith
others_split s (c ∷ cs) e = elim (Bool-cases (is_separator c)) [
  | inl sep ↦ elim (Bool-cases (first_of (segments cs) == s)) [
    | inl here ↦
        let (after, same, b, u) = first_segment cs in
        let is_s : first_of (segments cs) ≡ s = (list_beq_iff (first_of (segments cs)) s).0 here in
        (
          sym (ap is_unbroken is_s) ∙ u,
          (c ∷ [], after, ap (λ t. c ∷ t) (same ∙ ap (λ t. t ++ after) is_s), refl, sep, b),
        )
    | inr there ↦
        let (u, (before, after, same, n, x, b)) =
          others_split s cs (ground (arith, any-segments (λ part. part == s) cs)) in
        (u, (c ∷ before, after, ap (λ t. c ∷ t) same, refl, ends-cons c before n ∙ x, b))
  ]
  | inr e' ↦
      let (u, (before, after, same, n, x, b)) =
        others_split s cs (sym (ap (any (λ part. part == s)) (others_of_unbroken c cs e')) ∙ e) in
      (u, (c ∷ before, after, ap (λ t. c ∷ t) same, refl, ends-cons c before n ∙ x, b))
]

-- What is found behind a separator of a text is found when the text has a further character.
others_later :
    (p : Text → Bool) (c : ℕ) (cs : Text)
    → any p (others_of (segments cs)) ≡ true
    → any p (others_of (segments (c ∷ cs))) ≡ true
others_later p c cs e = elim (Bool-cases (is_separator c)) [
  | inl sep ↦ rw (first_separator c cs sep) (ground (arith, any-segments p cs))
  | inr other ↦ ap (any p) (others_of_unbroken c cs other) ∙ e
]

first_found :
    (s after : Text)
    → is_unbroken s ≡ true
    → begins after ≡ true
    → any (λ part. part == s) (segments (s ++ after)) ≡ true
first_found s after u b = ground (
  arith,
  any-segments (λ part. part == s) (s ++ after),
  eq_refl s,
  ap (λ part. part == s) (first_unique s after u b),
)

others_found :
    (s before after : Text)
    → is_nil before ≡ false
    → ends before ≡ true
    → is_unbroken s ≡ true
    → begins after ≡ true
    → any (λ part. part == s) (others_of (segments (before ++ (s ++ after)))) ≡ true
others_found s [] after n e u b = ground arith
others_found s (c ∷ []) after n e u b =
    rw (first_separator c (s ++ after) e) (first_found s after u b)
others_found s (c ∷ d ∷ before) after n e u b =
    others_later (λ part. part == s) c (d ∷ before ++ (s ++ after))
      (others_found s (d ∷ before) after refl e u b)

any_split :
    (s cs : Text)
    → any (λ part. part == s) (segments cs) ≡ true
    → (is_unbroken s ≡ true)
      × ((before : Text) × (after : Text) × (cs ≡ before ++ (s ++ after))
          × (ends before ≡ true)
          × (begins after ≡ true))
any_split s cs e = elim (Bool-cases (first_of (segments cs) == s)) [
  | inl here ↦
      let (after, same, b, u) = first_segment cs in
      let is_s : first_of (segments cs) ≡ s = (list_beq_iff (first_of (segments cs)) s).0 here in
      (sym (ap is_unbroken is_s) ∙ u, ([], after, same ∙ ap (λ t. t ++ after) is_s, refl, b))
  | inr there ↦
      let (u, (before, after, same, n, x, b)) =
        others_split s cs (ground (arith, any-segments (λ part. part == s) cs)) in
      (u, (before, after, same, x, b))
]

any_found :
    (s before after : Text)
    → ends before ≡ true
    → is_unbroken s ≡ true
    → begins after ≡ true
    → any (λ part. part == s) (segments (before ++ (s ++ after))) ≡ true
any_found s [] after e u b = first_found s after u b
any_found s (c ∷ before) after e u b = ground (
  arith,
  any-segments (λ part. part == s) (c ∷ before ++ (s ++ after)),
  others_found s (c ∷ before) after refl e u b,
)

-- The test on segments is true exactly if the segment is not empty, holds no separator, and stands
-- in the text between separators or its ends.
pub has_path_segment-IsSegment :
    (haystack s : Text) → (has_path_segment haystack s ≡ true) ↔ IsSegment s haystack
unfolding has_path_segment IsSegment
has_path_segment-IsSegment haystack [] = (λ e. ground arith, λ i. ground (arith, i.0))
has_path_segment-IsSegment haystack (c ∷ cs) = (
  λ e. (let (u, there) = any_split (c ∷ cs) haystack e in (refl, u, there)),
  λ i.
      (let (n, u, (before, after, same, x, b)) = i in
        ap (λ h. any (λ part. part == c ∷ cs) (segments h)) same
        ∙ any_found (c ∷ cs) before after x u b),
)
