-- ===== src/Handlers/Ways.antt =====
-- The ways by which a handler gets among the candidates of the index: the keys it stands under, the
-- identifiers of its signature, and the signature alone.
use mathlib.Core.Path.{subst}
use causalmesh.Prelude.{
  ℕ, zero, suc, ◌+◌, Bool, true, false, ◌||◌, some, List, [], ◌∷◌, ◌++◌, all, map, get_elem?,
  contains, contains-append, if◌then◌else◌, ◌==◌, nat_eq, list_eq, eq_refl, list_beq_iff,
  nat_beq_iff, Bool-cases, Option-cases, ◌≡◌, refl, ap, ◌∙◌, ◌⊎◌, inl, inr, arith,
}
use causalmesh.Prelude.Text.{Text, text, is_nil, to_ascii_lower}
use causalmesh.Subject.{bare as last_segment}
use causalmesh.Handlers.{
  Handler, HandlerIndex, normalized, under, numbered, from_bare, prefix_run, is_ident_char, sig_of,
  ident_keys, own_keys, all_keys, all_idents, signed, candidates,
}
use causalmesh.Handlers.Words.{under-append, under-numbered, Listed-append, numbered-Listed}
use causalmesh.Handlers.Ranges.{Listed, sorted_ids-contains}

or_right : (a b : Bool) → b ≡ true → (a || b) ≡ true
or_right true b e = refl
or_right false b e = e

Way-or :
    (i : ℕ) (f l n p q : List ℕ)
    → (contains i f ≡ true)
      ⊎ ((contains i l ≡ true)
          ⊎ ((contains i n ≡ true) ⊎ ((contains i p ≡ true) ⊎ (contains i q ≡ true))))
    → (contains i f || (contains i l || (contains i n || (contains i p || contains i q)))) ≡ true
Way-or i f l n p q w = ground (arith, w)

module _ (is_alphanumeric : ℕ → Bool) where
  pub all_keys-under :
      (n j : ℕ) (hs : List Handler) (h : Handler) (key : Text)
      → get_elem? hs j ≡ some h
      → contains key (own_keys is_alphanumeric h) ≡ true
      → contains (n + j) (under key (all_keys is_alphanumeric n hs)) ≡ true
  all_keys-under n j [] h key e c = ground arith
  all_keys-under n zero (g ∷ hs) h key e c =
      let same : g ≡ h = ground arith in
      let here =
        under-numbered key n (own_keys is_alphanumeric g)
          (ap (λ x. contains key (own_keys is_alphanumeric x)) same ∙ c) in
      subst (λ k. contains k (under key (all_keys is_alphanumeric n (g ∷ hs))) ≡ true) (omega arith)
        (ap (contains n) (
            under-append key (numbered n (own_keys is_alphanumeric g))
              (all_keys is_alphanumeric (n + 1) hs))
          ∙ contains-append n (under key (numbered n (own_keys is_alphanumeric g)))
              (under key (all_keys is_alphanumeric (n + 1) hs))
          ∙ ground (arith, here))
  all_keys-under n (suc j) (g ∷ hs) h key e c =
      let there = all_keys-under (n + 1) j hs h key e c in
      subst (λ k. contains k (under key (all_keys is_alphanumeric n (g ∷ hs))) ≡ true) (omega arith)
        (ap (contains (n + 1 + j)) (
            under-append key (numbered n (own_keys is_alphanumeric g))
              (all_keys is_alphanumeric (n + 1) hs))
          ∙ contains-append (n + 1 + j) (under key (numbered n (own_keys is_alphanumeric g)))
              (under key (all_keys is_alphanumeric (n + 1) hs))
          ∙ ground (arith, there))

  pub all_idents-Listed :
      (n j : ℕ) (hs : List Handler) (h : Handler) (t : Text)
      → get_elem? hs j ≡ some h
      → contains t (sig_of is_alphanumeric h.signature) ≡ true
      → Listed (t, n + j) (all_idents is_alphanumeric n hs)
  all_idents-Listed n j [] h t e c = ground arith
  all_idents-Listed n zero (g ∷ hs) h t e c =
      let same : g ≡ h = ground arith in
      Listed-append (t, n + 0) (numbered n (sig_of is_alphanumeric g.signature))
        (all_idents is_alphanumeric (n + 1) hs)
        (inl (
          subst (λ k. Listed (t, k) (numbered n (sig_of is_alphanumeric g.signature))) (omega arith)
            (numbered-Listed t n (sig_of is_alphanumeric g.signature)
              (ap (λ (x : Handler). contains t (sig_of is_alphanumeric x.signature)) same ∙ c))))
  all_idents-Listed n (suc j) (g ∷ hs) h t e c =
      let there = all_idents-Listed (n + 1) j hs h t e c in
      Listed-append (t, n + suc j) (numbered n (sig_of is_alphanumeric g.signature))
        (all_idents is_alphanumeric (n + 1) hs)
        (inr
          (subst (λ k. Listed (t, k) (all_idents is_alphanumeric (n + 1) hs)) (omega arith) there))

  pub signed-contains :
      (n j : ℕ) (hs : List Handler) (h : Handler) (sig : Text)
      → get_elem? hs j ≡ some h
      → h.signature ≡ some sig
      → contains (n + j) (signed is_alphanumeric n hs) ≡ true
  signed-contains n j [] h sig e f = ground arith
  signed-contains n zero (g ∷ hs) h sig e f =
      let same : g ≡ h = ground arith in
      let signs : g.signature ≡ some sig = ap (λ (x : Handler). x.signature) same ∙ f in
      rw signs (ground (arith, nat_beq_iff n (n + 0)))
  signed-contains n (suc j) (g ∷ hs) h sig e f =
      let there : contains (n + suc j) (signed is_alphanumeric (n + 1) hs) ≡ true =
        subst (λ k. contains k (signed is_alphanumeric (n + 1) hs) ≡ true) (omega arith)
          (signed-contains (n + 1) j hs h sig e f) in
      elim (Option-cases g.signature) [
        | inl none_there ↦ rw none_there there
        | inr (other, signs) ↦ rw signs (ground (arith, there))
      ]

  -- The ways into the candidates.
  pub data Way (index : HandlerIndex) (fqcn b : Text) (i : ℕ) : Type 0 where
    full : contains i (under (text "f:" ++ fqcn) index.keys) ≡ true → Way index fqcn b i
    lower :
        contains i (under (text "l:" ++ map to_ascii_lower b) index.keys) ≡ true
        → Way index fqcn b i
    letters :
        is_nil (normalized b) ≡ false
        → contains i (under (text "n:" ++ normalized b) index.keys) ≡ true
        → Way index fqcn b i
    pascal : contains i (under (text "p:" ++ b) index.keys) ≡ true → Way index fqcn b i
    begun :
        is_nil b ≡ false
        → contains i (prefix_run b (from_bare b index.sig_idents)) ≡ true
        → Way index fqcn b i
    odd :
        is_nil b ≡ false
        → all (is_ident_char is_alphanumeric) b ≡ false
        → contains i index.with_signature ≡ true
        → Way index fqcn b i

  pub Way-candidates :
      (index : HandlerIndex) (fqcn b : Text) (i : ℕ)
      → Way index fqcn b i
      → contains i (candidates is_alphanumeric index fqcn b) ≡ true
  unfolding candidates
  Way-candidates index fqcn b i w =
      let f = under (text "f:" ++ fqcn) index.keys in
      let l = under (text "l:" ++ map to_ascii_lower b) index.keys in
      let n = if is_nil (normalized b) then [] else under (text "n:" ++ normalized b) index.keys in
      let p = under (text "p:" ++ b) index.keys in
      let r = prefix_run b (from_bare b index.sig_idents) in
      let o = if all (is_ident_char is_alphanumeric) b then [] else index.with_signature in
      let q = if is_nil b then [] else r ++ o in
      sorted_ids-contains i (f ++ (l ++ (n ++ (p ++ q))))
      ∙ contains-append i f (l ++ (n ++ (p ++ q)))
      ∙ ap (λ c. contains i f || c)
          (contains-append i l (n ++ (p ++ q))
            ∙ ap (λ c. contains i l || c)
                (contains-append i n (p ++ q)
                  ∙ ap (λ c. contains i n || c) (contains-append i p q)))
      ∙ Way-or i f l n p q (elim w [
        | full e ↦ inl e
        | lower e ↦ inr (inl e)
        | letters z e ↦ inr (inr (inl (rw z e)))
        | pascal e ↦ inr (inr (inr (inl e)))
        | begun z e ↦ inr (inr (inr (inr (rw z (contains-append i r o ∙ ground (arith, e))))))
        | odd z a e ↦ inr (
            inr (
              inr (
                inr (
                  rw z (contains-append i r o ∙ or_right (contains i r) (contains i o) (rw a e))))))
      ])

  pub ident_keys-lower :
      (t : Text) (ts : List Text)
      → contains t ts ≡ true
      → contains (text "l:" ++ map to_ascii_lower t) (ident_keys is_alphanumeric ts) ≡ true
  ident_keys-lower t [] e = ground arith
  ident_keys-lower t (u ∷ ts) e = elim (Bool-cases (u == t)) [
    | inl same ↦
        subst
          (λ x.
            contains (text "l:" ++ map to_ascii_lower x) (ident_keys is_alphanumeric (u ∷ ts))
            ≡ true)
          ((list_beq_iff u t).0 same) (ground (arith, eq_refl (map to_ascii_lower u)))
    | inr other ↦ ground (arith, ident_keys-lower t ts (ground (arith, e, other)))
  ]

  pub ident_keys-letters :
      (t : Text) (ts : List Text)
      → contains t ts ≡ true
      → contains (text "n:" ++ normalized t) (ident_keys is_alphanumeric ts) ≡ true
  ident_keys-letters t [] e = ground arith
  ident_keys-letters t (u ∷ ts) e = elim (Bool-cases (u == t)) [
    | inl same ↦
        subst
          (λ x. contains (text "n:" ++ normalized x) (ident_keys is_alphanumeric (u ∷ ts)) ≡ true)
          ((list_beq_iff u t).0 same) (ground (arith, eq_refl (normalized u)))
    | inr other ↦ ground (arith, ident_keys-letters t ts (ground (arith, e, other)))
  ]

  pub own_keys-full :
      (h : Handler) → contains (text "f:" ++ h.name) (own_keys is_alphanumeric h) ≡ true
  own_keys-full h = ground (arith, eq_refl h.name)

  pub own_keys-lower :
      (h : Handler)
      → contains
          (text "l:" ++ map to_ascii_lower (last_segment h.name))
          (own_keys is_alphanumeric h)
        ≡ true
  own_keys-lower h = ground (arith, eq_refl (map to_ascii_lower (last_segment h.name)))

  pub own_keys-letters :
      (h : Handler)
      → contains (text "n:" ++ normalized (last_segment h.name)) (own_keys is_alphanumeric h) ≡ true
  own_keys-letters h = ground (arith, eq_refl (normalized (last_segment h.name)))

  pub own_keys-pascal :
      (h : Handler) → contains (text "p:" ++ h.pascal) (own_keys is_alphanumeric h) ≡ true
  own_keys-pascal h = ground (arith, eq_refl h.pascal)

  pub own_keys-idents :
      (h : Handler) (key : Text)
      → contains key (ident_keys is_alphanumeric (sig_of is_alphanumeric h.signature)) ≡ true
      → contains key (own_keys is_alphanumeric h) ≡ true
  own_keys-idents h key e = ground (arith, e)
