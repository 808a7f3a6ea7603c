-- ===== src/Handlers/Words.antt =====
-- The words of names and signatures, and the entries of the index under them.
use mathlib.Core.Path.{subst}
use causalmesh.Prelude.{
  ℕ, Bool, true, false, not, ◌&&◌, ◌||◌, List, [], ◌∷◌, ◌++◌, All, any, all, map, retain, contains,
  if◌then◌else◌, ◌==◌, nat_eq, list_eq, eq_refl, list_beq_iff, nat_beq_iff, Bool-cases, ◌≡◌, refl,
  sym, ap, ◌⊎◌, inl, inr, arith,
}
use causalmesh.Prelude.Text.{
  Text, is_nil, has_prefix, split, last_or, split-nonempty, prefix_first, to_ascii_lower,
  eq_ignore_ascii_case,
}
use causalmesh.Subject.{bare as last_segment, bare_names_match}
use causalmesh.Subject.Names.{without_underscores}
use causalmesh.Handlers.{normalized, under, numbered, is_ident_char, ident_of}
use causalmesh.Handlers.Ranges.{Listed}

pub under-append :
    (key : Text) (xs ys : List (Text × ℕ)) → under key (xs ++ ys) ≡ under key xs ++ under key ys
under-append key [] ys = refl
under-append key ((k, i) ∷ xs) ys = ground (arith, under-append key xs ys)

pub under-numbered :
    (key : Text) (i : ℕ) (ts : List Text)
    → contains key ts ≡ true
    → contains i (under key (numbered i ts)) ≡ true
under-numbered key i [] e = ground arith
under-numbered key i (t ∷ ts) e = ground (arith, under-numbered key i ts, eq_refl i)

pub Listed-append :
    (e : Text × ℕ) (xs ys : List (Text × ℕ)) → Listed e xs ⊎ Listed e ys → Listed e (xs ++ ys)
Listed-append e [] ys l = elim l [ inl nowhere ↦ absurd nowhere | inr there ↦ there ]
Listed-append e (x ∷ xs) ys l = elim l [
  | inl here ↦ elim here [ inl now ↦ inl now | inr later ↦ inr (Listed-append e xs ys (inl later)) ]
  | inr there ↦ inr (Listed-append e xs ys (inr there))
]

pub numbered-Listed :
    (t : Text) (i : ℕ) (ts : List Text) → contains t ts ≡ true → Listed (t, i) (numbered i ts)
numbered-Listed t i [] e = ground arith
numbered-Listed t i (u ∷ ts) e = elim (Bool-cases (u == t)) [
  | inl here ↦ inl (ap (λ x. (x, i)) ((list_beq_iff u t).0 here))
  | inr other ↦ inr (numbered-Listed t i ts (ground (arith, e, other)))
]

-- A text without a dot is its own last segment, and a last segment has no dot.
split-dotless : (s : Text) → contains b'.' s ≡ false → split b'.' s ≡ s ∷ []
split-dotless [] e = refl
split-dotless (c ∷ s) e = ground (arith, split-dotless s)

prefix_first-dotless :
    (c : ℕ) (ts : List Text)
    → (c == b'.') ≡ false
    → All (λ t. contains b'.' t ≡ false) ts
    → All (λ t. contains b'.' t ≡ false) (prefix_first c ts)
prefix_first-dotless c [] e a = (ground (arith, e), tt)
prefix_first-dotless c (t ∷ ts) e a = (ground (arith, e, a.0), a.1)

pieces-dotless : (s : Text) → All (λ t. contains b'.' t ≡ false) (split b'.' s)
pieces-dotless [] = (refl, tt)
pieces-dotless (c ∷ s) = elim (Bool-cases (c == b'.')) [
  | inl e ↦
      subst
        (λ b.
          All (λ t. contains b'.' t ≡ false)
            (if b then [] ∷ split b'.' s else prefix_first c (split b'.' s)))
        (sym e) (refl, pieces-dotless s)
  | inr e ↦
      subst
        (λ b.
          All (λ t. contains b'.' t ≡ false)
            (if b then [] ∷ split b'.' s else prefix_first c (split b'.' s)))
        (sym e) (prefix_first-dotless c (split b'.' s) e (pieces-dotless s))
]

last_or-All :
    (P : Text → Type 0) (d : Text) (ts : List Text)
    → is_nil ts ≡ false
    → All P ts
    → P (last_or d ts)
last_or-All P d [] e a = ground arith
last_or-All P d (t ∷ []) e a = a.0
last_or-All P d (t ∷ u ∷ ts) e a = last_or-All P t (u ∷ ts) refl a.1

pub last_segment-dotless : (s : Text) → contains b'.' (last_segment s) ≡ false
last_segment-dotless s =
    last_or-All (λ t. contains b'.' t ≡ false) s (split b'.' s) (split-nonempty b'.' s)
      (pieces-dotless s)

pub last_segment_self : (s : Text) → contains b'.' s ≡ false → last_segment s ≡ s
last_segment_self s e = ap (last_or s) (split-dotless s e)

pub lower-dotless :
    (s t : Text)
    → eq_ignore_ascii_case s t ≡ true
    → contains b'.' t ≡ false
    → contains b'.' s ≡ false
lower-dotless [] [] e d = refl
lower-dotless [] (c ∷ t) e d = ground arith
lower-dotless (c ∷ s) [] e d = ground arith
lower-dotless (c ∷ s) (a ∷ t) e d = ground (arith, lower-dotless s t)

pub lower_same :
    (s t : Text) → eq_ignore_ascii_case s t ≡ true → map to_ascii_lower s ≡ map to_ascii_lower t
lower_same [] [] e = refl
lower_same [] (c ∷ t) e = ground arith
lower_same (c ∷ s) [] e = ground arith
lower_same (c ∷ s) (a ∷ t) e = ground (arith, lower_same s t)

map-is_nil : (s : Text) → is_nil s ≡ false → is_nil (map to_ascii_lower s) ≡ false
map-is_nil [] e = ground arith
map-is_nil (c ∷ s) e = refl

has_prefix-is_nil : (b s : Text) → is_nil b ≡ false → has_prefix b s ≡ true → is_nil s ≡ false
has_prefix-is_nil [] s n e = ground arith
has_prefix-is_nil (c ∷ b) [] n e = ground arith
has_prefix-is_nil (c ∷ b) (d ∷ s) n e = refl

-- The letters of a text without underscores, in lower case.
pub normalized_same :
    (s t : Text)
    → (map to_ascii_lower (without_underscores s) == map to_ascii_lower (without_underscores t))
      ≡ true
    → normalized s ≡ normalized t
normalized_same s t e = (list_beq_iff (normalized s) (normalized t)).0 e

pub is_nil-normalized :
    (s : Text) → is_nil (without_underscores s) ≡ false → is_nil (normalized s) ≡ false
is_nil-normalized s e = map-is_nil (without_underscores s) e

module _ (is_alphanumeric : ℕ → Bool) (dot : is_alphanumeric b'.' ≡ false) where
  pub ident_of-dotless : (s : Text) → contains b'.' (ident_of is_alphanumeric s) ≡ false
  ident_of-dotless [] = refl
  ident_of-dotless (c ∷ s) = elim (Bool-cases (c == b'.')) [
    | inl e ↦
        subst (λ d. contains b'.' (ident_of is_alphanumeric (d ∷ s)) ≡ false)
          (sym ((nat_beq_iff c b'.').0 e)) (rw dot refl)
    | inr e ↦ ground (arith, ident_of-dotless s, e)
  ]

  -- An identifier keeps a prefix that is made of its characters.
  has_prefix-ident_of :
      (b s : Text)
      → all (is_ident_char is_alphanumeric) b ≡ true
      → has_prefix b s ≡ true
      → has_prefix b (ident_of is_alphanumeric s) ≡ true
  has_prefix-ident_of [] s a e = refl
  has_prefix-ident_of (c ∷ b) [] a e = ground arith
  has_prefix-ident_of (c ∷ b) (d ∷ s) a e = ground (
    arith,
    has_prefix-ident_of b s,
    nat_beq_iff c d,
    ap (is_ident_char is_alphanumeric) ((nat_beq_iff c d).0 (ground arith)),
  )

  -- How a rest of a signature makes it contain the name.
  abbrev pub Found : Text → List Text → Type 0
  Found b idents =
      (ident : Text) × (contains ident idents ≡ true)
      × ((has_prefix b ident ≡ true) ⊎ (bare_names_match ident b ≡ true))

  abbrev pub idents : List Text → List Text
  idents rs = retain (λ ident. not (is_nil ident)) (map (ident_of is_alphanumeric) rs)

  pub rests-Found :
      (b : Text) (rs : List Text)
      → is_nil b ≡ false
      → all (is_ident_char is_alphanumeric) b ≡ true
      → any
          (λ rest.
            has_prefix b rest
            || (not (is_nil (ident_of is_alphanumeric rest))
                && bare_names_match (ident_of is_alphanumeric rest) b))
          rs
        ≡ true
      → Found b (idents rs)
  rests-Found b [] n a e = ground arith
  rests-Found b (r ∷ rs) n a e = elim (Bool-cases (has_prefix b r)) [
    | inl p ↦
        let q = has_prefix-ident_of b r a p in
        (
          ident_of is_alphanumeric r,
          ground (
            arith,
            has_prefix-is_nil b (ident_of is_alphanumeric r) n q,
            eq_refl (ident_of is_alphanumeric r),
          ),
          inl q,
        )
    | inr p ↦
        elim (Bool-cases (
          not (is_nil (ident_of is_alphanumeric r))
          && bare_names_match (ident_of is_alphanumeric r) b)) [
            | inl m ↦ (
              ident_of is_alphanumeric r,
              ground (arith, m, eq_refl (ident_of is_alphanumeric r)),
              inr (ground (arith, m)),
            )
            | inr m ↦
                (let (ident, c, how) = rests-Found b rs n a (ground (arith, e, p, m)) in
                  (ident, ground (arith, c), how))
          ]
  ]
