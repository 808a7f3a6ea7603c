-- ===== src/Handlers/Complete.antt =====
-- Every candidate that passes the test of all pairs is among those of the index.
use mathlib.Core.Path.{subst}
use causalmesh.Prelude.{
  ℕ, Bool, true, false, not, ◌&&◌, ◌||◌, some, List, [], ◌∷◌, ◌++◌, all, map, get_elem?, contains,
  ◌==◌, nat_eq, list_eq, list_beq_iff, Bool-cases, Option-cases, ◌≡◌, refl, sym, ap, ◌∙◌, ◌⊎◌, inl,
  inr, arith,
}
use causalmesh.Prelude.Text.{Text, text, is_nil, to_ascii_lower, eq_ignore_ascii_case}
use causalmesh.Subject.{bare as last_segment, bare_names_match}
use causalmesh.Subject.Names.{without_underscores, bare_names_match-lower}
use causalmesh.Handlers.{
  Handler, sig_prefixes, normalized, all_rests, under, sorted_entries, is_ident_char, ident_of,
  signature_contains_bare, sig_of, own_keys, all_keys, all_idents, signed, build, candidates,
  is_candidate,
}
use causalmesh.Handlers.Words.{
  last_segment-dotless, last_segment_self, lower-dotless, lower_same, normalized_same,
  is_nil-normalized, ident_of-dotless, idents, rests-Found,
}
use causalmesh.Handlers.Ranges.{
  Listed, sorted_entries-Listed, from_bare-Listed, sorted_entries-IsSorted,
}
use causalmesh.Handlers.Ways.{
  Way, full, lower, letters, pascal, begun, odd, Way-candidates, all_keys-under, all_idents-Listed,
  signed-contains, ident_keys-lower, ident_keys-letters, own_keys-full, own_keys-lower,
  own_keys-letters, own_keys-pascal, own_keys-idents,
}

or_false : (a b : Bool) → a ≡ false → (a || b) ≡ b
or_false true b e = ground arith
or_false false b e = refl

and_true : (a b : Bool) → (a && b) ≡ true → (a ≡ true) × (b ≡ true)
and_true a b e = ground arith

not-true : (a : Bool) → not a ≡ true → a ≡ false
not-true a e = ground arith

-- Two names that match, the second without a dot, agree in lower case or in their letters.
match-cases :
    (a b : Text)
    → contains b'.' b ≡ false
    → bare_names_match a b ≡ true
    → (map to_ascii_lower (last_segment a) ≡ map to_ascii_lower b)
      ⊎ ((normalized (last_segment a) ≡ normalized b) × (is_nil (normalized b) ≡ false))
match-cases a b d e =
    let own = last_segment_self b d in
    let lower_test = map to_ascii_lower (last_segment a) == map to_ascii_lower (last_segment b) in
    let letters_test =
      map to_ascii_lower (without_underscores (last_segment a))
      == map to_ascii_lower (without_underscores (last_segment b)) in
    let some_letters = not (is_nil (without_underscores (last_segment a))) in
    elim (Bool-cases lower_test) [
      | inl l ↦ inl (
          (list_beq_iff (map to_ascii_lower (last_segment a))
              (map to_ascii_lower (last_segment b))).0
            l
          ∙ ap (map to_ascii_lower) own)
      | inr l ↦
          let tests : (letters_test && some_letters) ≡ true =
            sym (or_false lower_test (letters_test && some_letters) l)
            ∙ sym (bare_names_match-lower a b)
            ∙ e in
          let both = and_true letters_test some_letters tests in
          let same = normalized_same (last_segment a) (last_segment b) both.0 ∙ ap normalized own in
          inr (
            same,
            sym (ap is_nil same)
                ∙ is_nil-normalized (last_segment a)
                    (not-true (is_nil (without_underscores (last_segment a))) both.1),
          )
    ]

module _ (is_alphanumeric : ℕ → Bool) (dot : is_alphanumeric b'.' ≡ false) where
  idents-dotless :
      (t : Text) (rs : List Text)
      → contains t (idents is_alphanumeric dot rs) ≡ true
      → contains b'.' t ≡ false
  idents-dotless t [] e = ground arith
  idents-dotless t (r ∷ rs) e = elim (Bool-cases (ident_of is_alphanumeric r == t)) [
    | inl same ↦
        subst (λ x. contains b'.' x ≡ false) ((list_beq_iff (ident_of is_alphanumeric r) t).0 same)
          (ident_of-dotless is_alphanumeric dot r)
    | inr other ↦ idents-dotless t rs (ground (arith, e, other))
  ]

  module _ (hs : List Handler) (j : ℕ) (h : Handler) (found : get_elem? hs j ≡ some h)
      (fqcn b : Text) (d : contains b'.' b ≡ false) where
    keyed :
        (key : Text)
        → contains key (own_keys is_alphanumeric h) ≡ true
        → contains j (under key (build is_alphanumeric hs).keys) ≡ true
    unfolding build
    keyed key c =
        subst (λ k. contains k (under key (all_keys is_alphanumeric 0 hs)) ≡ true) (omega arith)
          (all_keys-under is_alphanumeric 0 j hs h key found c)

    word-Way :
        (w : Text)
        → (map to_ascii_lower w ≡ map to_ascii_lower b)
          ⊎ ((normalized w ≡ normalized b) × (is_nil (normalized b) ≡ false))
        → contains (text "l:" ++ map to_ascii_lower w) (own_keys is_alphanumeric h) ≡ true
        → contains (text "n:" ++ normalized w) (own_keys is_alphanumeric h) ≡ true
        → Way is_alphanumeric (build is_alphanumeric hs) fqcn b j
    word-Way w same l n = elim same [
      | inl e ↦ lower (
          keyed (text "l:" ++ map to_ascii_lower b)
            (subst (λ x. contains (text "l:" ++ x) (own_keys is_alphanumeric h) ≡ true) e l))
      | inr (e, z) ↦ letters z (
          keyed (text "n:" ++ normalized b)
            (subst (λ x. contains (text "n:" ++ x) (own_keys is_alphanumeric h) ≡ true) e n))
    ]

    signature-Way :
        (sig : Text)
        → h.signature ≡ some sig
        → signature_contains_bare is_alphanumeric sig b ≡ true
        → Way is_alphanumeric (build is_alphanumeric hs) fqcn b j
    unfolding build signature_contains_bare
    signature-Way sig signs e = elim (Bool-cases (is_nil b)) [
      | inl z ↦ ground (arith, z)
      | inr z ↦ elim (Bool-cases (all (is_ident_char is_alphanumeric) b)) [
        | inr a ↦ odd z a (
            subst (λ k. contains k (signed is_alphanumeric 0 hs) ≡ true) (omega arith)
              (signed-contains is_alphanumeric 0 j hs h sig found signs))
        | inl a ↦
            let (ident, c, how) =
              rests-Found is_alphanumeric dot b (all_rests sig_prefixes sig) z a
                (ground (arith, z, e)) in
            let listed : contains ident (sig_of is_alphanumeric h.signature) ≡ true =
              ap (λ s. contains ident (sig_of is_alphanumeric s)) signs ∙ c in
            elim how [
              | inl p ↦ begun z (
                  from_bare-Listed b ident j (sorted_entries (all_idents is_alphanumeric 0 hs))
                    (sorted_entries-IsSorted (all_idents is_alphanumeric 0 hs)) p
                    (sorted_entries-Listed (ident, j) (all_idents is_alphanumeric 0 hs)
                      (subst (λ k. Listed (ident, k) (all_idents is_alphanumeric 0 hs))
                        (omega arith)
                        (all_idents-Listed is_alphanumeric 0 j hs h ident found listed))))
              | inr m ↦
                  let own =
                    last_segment_self ident (idents-dotless ident (all_rests sig_prefixes sig) c) in
                  word-Way ident
                    (subst
                      (λ w.
                        (map to_ascii_lower w ≡ map to_ascii_lower b)
                        ⊎ ((normalized w ≡ normalized b) × (is_nil (normalized b) ≡ false)))
                      own (match-cases ident b d m))
                    (own_keys-idents is_alphanumeric h (text "l:" ++ map to_ascii_lower ident) (
                      ident_keys-lower is_alphanumeric ident (sig_of is_alphanumeric h.signature)
                        listed))
                    (own_keys-idents is_alphanumeric h (text "n:" ++ normalized ident) (
                      ident_keys-letters is_alphanumeric ident (sig_of is_alphanumeric h.signature)
                        listed))
            ]
      ]
    ]

    name-Way :
        (bare_names_match h.name b ≡ true) → Way is_alphanumeric (build is_alphanumeric hs) fqcn b j
    name-Way m =
        word-Way (last_segment h.name) (match-cases h.name b d m) (own_keys-lower is_alphanumeric h)
          (own_keys-letters is_alphanumeric h)

    candidate-Way :
        is_candidate is_alphanumeric fqcn b h ≡ true
        → Way is_alphanumeric (build is_alphanumeric hs) fqcn b j
    candidate-Way e = elim (Bool-cases (h.name == fqcn)) [
      | inl same ↦ full (
          keyed (text "f:" ++ fqcn) (
            subst (λ x. contains (text "f:" ++ x) (own_keys is_alphanumeric h) ≡ true)
              ((list_beq_iff h.name fqcn).0 same) (own_keys-full is_alphanumeric h)))
      | inr o1 ↦ elim (Bool-cases (eq_ignore_ascii_case h.name b)) [
        | inl same ↦
            let own = last_segment_self h.name (lower-dotless h.name b same d) in
            word-Way (last_segment h.name)
              (inl (ap (map to_ascii_lower) own ∙ lower_same h.name b same))
              (own_keys-lower is_alphanumeric h) (own_keys-letters is_alphanumeric h)
        | inr o2 ↦ elim (Bool-cases (h.pascal == b)) [
          | inl same ↦ pascal (
              keyed (text "p:" ++ b) (
                subst (λ x. contains (text "p:" ++ x) (own_keys is_alphanumeric h) ≡ true)
                  ((list_beq_iff h.pascal b).0 same) (own_keys-pascal is_alphanumeric h)))
          | inr o3 ↦ elim (Bool-cases (bare_names_match h.name b)) [
            | inl m ↦ name-Way m
            | inr o4 ↦ elim (Option-cases h.signature) [
              | inl unsigned ↦ ground (arith, e, o1, o2, o3, o4, unsigned)
              | inr (sig, signs) ↦
                  signature-Way sig signs (ground (arith, e, o1, o2, o3, o4, signs))
            ]
          ]
        ]
      ]
    ]

  -- A handler that passes the test of all pairs for an RPC, under the last segment of its full
  -- name, is among the candidates of the index; a dot is no letter or digit.
  pub candidates-is_candidate :
      (hs : List Handler) (j : ℕ) (h : Handler) (fqcn : Text)
      → get_elem? hs j ≡ some h
      → is_candidate is_alphanumeric fqcn (last_segment fqcn) h ≡ true
      → contains j (candidates is_alphanumeric (build is_alphanumeric hs) fqcn (last_segment fqcn))
        ≡ true
  candidates-is_candidate hs j h fqcn found e =
      Way-candidates is_alphanumeric (build is_alphanumeric hs) fqcn (last_segment fqcn) j
        (candidate-Way hs j h found fqcn (last_segment fqcn) (last_segment-dotless fqcn) e)
