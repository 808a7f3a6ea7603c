-- ===== src/Reload/Plans.antt =====
-- What the plans of crates/mesh-core/src/reload_kind.rs leave out, and what they must not.
use causalmesh.Prelude.{
  ℕ, ◌+◌, suc, ◌↔◌, ◌⊎◌, Bool, true, false, ◌||◌, ◌≡◌, ◌≢◌, refl, sym, ◌∙◌, PartialEq, Option, none,
  some, List, [], ◌∷◌, ◌++◌, any, retain, if◌then◌else◌, ◌==◌, nat_eq, list_eq, list_beq,
  list_beq_iff, arith, Bool-cases, Option-cases, inl, inr,
}
use causalmesh.Prelude.Text.{Text}
use causalmesh.Prelude.Paths.{FilePath, component_eq}
use causalmesh.Config.{
  Config, CustomPatternConfig, applies_to, option_beq_iff, pattern_eq, pattern_beq_iff,
}
use causalmesh.Reload.{
  display_only, full, plan_of, forces, same_inputs, patterns, take_out, settle, compare_patterns,
  or_all, changed_patterns, plan_for, classify,
}

-- The roots, the resolved workspace root and the inputs of the index agree.
abbrev pub IsServed : Config → List FilePath → Config → List FilePath → Type 0
IsServed old old_roots new new_roots =
    (old_roots ≡ new_roots)
    × (old.workspace.resolved_workspace_root ≡ new.workspace.resolved_workspace_root)
    × (same_inputs old new ≡ true)

module _ {A : Type 0} ⦃e : PartialEq A⦄ where
  -- How often an entry stands in a list.
  abbrev pub count : A → List A → ℕ
  count q [] = 0
  count q (p ∷ ps) = if p == q then suc (count q ps) else count q ps

  count-append : (q : A) (xs ys : List A) → count q (xs ++ ys) ≡ count q xs + count q ys
  count-append q [] ys = omega arith
  count-append q (x ∷ xs) ys = ground (arith, count-append q xs ys)

  count-retain :
      (q : A) (test : A → Bool) (xs : List A)
      → test q ≡ true
      → count q (retain test xs) ≡ count q xs
  count-retain q test [] h = refl
  count-retain q test (x ∷ xs) h = ground (arith, count-retain q test xs h, e.eq_iff x q)

  count-retain_not :
      (q : A) (test : A → Bool) (xs : List A) → test q ≡ false → count q (retain test xs) ≡ 0
  count-retain_not q test [] h = refl
  count-retain_not q test (x ∷ xs) h = ground (arith, count-retain_not q test xs h, e.eq_iff x q)

  count-any :
      (q : A) (test : A → Bool) (xs : List A) → any test xs ≡ false → test q ≡ true → count q xs ≡ 0
  count-any q test [] h t = refl
  count-any q test (x ∷ xs) h t = ground (arith, count-any q test xs, e.eq_iff x q)

  count-take_out :
      (q p : A) (old l : List A) → take_out p old ≡ some l → count q old ≡ count q (p ∷ l)
  unfolding take_out
  count-take_out q p [] l h = cc h
  count-take_out q p (o ∷ old) l h = elim (Option-cases (take_out p old)) [
    | inl gone ↦ ground (arith, e.eq_iff o p)
    | inr (r, found) ↦ ground (arith, count-take_out q p old r found, e.eq_iff o p)
  ]

  count-settle :
      (q p : A) (o : Option (List A)) (found : List A × List A)
      → take_out p found.0 ≡ o
      → count q (settle p o found).0 + count q (p ∷ []) + count q found.1
        ≡ count q found.0 + count q (settle p o found).1
  unfolding settle
  count-settle q p none found h = ground (arith, count-append q found.1 (p ∷ []))
  count-settle q p (some l) found h = ground (arith, count-take_out q p found.0 l h)

  -- Nothing is lost: what is left and the new entries weigh as much as the old and the added.
  count-compare :
      (q : A) (new : List A) (found : List A × List A)
      → count q (compare_patterns new found).0 + count q new + count q found.1
        ≡ count q found.0 + count q (compare_patterns new found).1
  unfolding compare_patterns
  count-compare q [] found = omega arith
  count-compare q (p ∷ new) found =
      let before = settle p (take_out p found.0) found in
      ground (arith, count-compare q new before, count-settle q p (take_out p found.0) found refl)

any-append :
    {A : Type 0} (test : A → Bool) (xs ys : List A)
    → any test (xs ++ ys) ≡ (any test xs || any test ys)
any-append test [] ys = refl
any-append test (x ∷ xs) ys = ground (arith, any-append test xs ys)

module _ {A : Type 0} ⦃e : PartialEq A⦄ (test : A → Bool) (old new : List A) where
  abbrev changed : List A
  changed = let (left, added) = compare_patterns new (old, []) in left ++ added

  -- where no changed entry passes the test, the entries that do are the same, as often
  untouched :
      (q : A) → any test changed ≡ false → count q (retain test old) ≡ count q (retain test new)
  untouched q h = elim (Bool-cases (test q)) [
    | inl t ↦ omega (
      arith,
      count-retain q test old t,
      count-retain q test new t,
      count-any q test changed h t,
      count-append q (compare_patterns new (old, [])).0 (compare_patterns new (old, [])).1,
      count-compare q new (old, []),
    )
    | inr f ↦ count-retain_not q test old f ∙ sym (count-retain_not q test new f)
  ]

any-or_all :
    (test : CustomPatternConfig → Bool) (left new : List CustomPatternConfig)
    → any test (or_all left new) ≡ false
    → any test left ≡ false
any-or_all test [] new h = refl
any-or_all test (p ∷ left) new h = h

nil-or_all : (left new : List CustomPatternConfig) → or_all left new ≡ [] → (left ≡ []) × (new ≡ [])
nil-or_all left new h = ground (arith, h)

changed_patterns-untouched :
    (test : CustomPatternConfig → Bool) (old new : List CustomPatternConfig)
    (q : CustomPatternConfig)
    → any test (changed_patterns old new) ≡ false
    → count q (retain test old) ≡ count q (retain test new)
unfolding changed_patterns
changed_patterns-untouched test old new q h = elim (Bool-cases (list_beq old new)) [
  | inl same ↦ ground (arith, list_beq_iff old new, same)
  | inr differ ↦
      untouched test old new q (any-or_all test (changed test old new) new (rw differ at h))
]

none_changed : (old new : List CustomPatternConfig) → changed_patterns old new ≡ [] → old ≡ new
unfolding changed_patterns compare_patterns
none_changed [] [] h = refl
none_changed (o ∷ old) [] h = ground (arith, h)
none_changed old (p ∷ new) h = elim (Bool-cases (list_beq old (p ∷ new))) [
  | inl same ↦ (list_beq_iff old (p ∷ new)).0 same
  | inr differ ↦
      ground (arith, nil-or_all (changed (λ q. true) old (p ∷ new)) (p ∷ new) (rw differ at h))
]

unchanged : (old new : List CustomPatternConfig) → old ≡ new → changed_patterns old new ≡ []
unfolding changed_patterns
unchanged old new h = rw ((list_beq_iff old new).1 h) refl

module _ (old new : Config) (old_roots new_roots : List FilePath) where
  classify-served :
      IsServed old old_roots new new_roots
      → classify old old_roots new new_roots
        ≡ plan_for (changed_patterns (patterns old) (patterns new))
  unfolding classify
  classify-served (roots, root, inputs) = ground (
    arith,
    list_beq_iff old_roots new_roots,
    option_beq_iff old.workspace.resolved_workspace_root new.workspace.resolved_workspace_root,
  )

  classify-cases :
      (IsServed old old_roots new new_roots)
      ⊎ ((classify old old_roots new new_roots ≡ plan_of full)
          × ¬ IsServed old old_roots new new_roots)
  unfolding classify
  classify-cases = ground (
    arith,
    list_beq_iff old_roots new_roots,
    option_beq_iff old.workspace.resolved_workspace_root new.workspace.resolved_workspace_root,
  )

plan_for-kind :
    (l : List CustomPatternConfig)
    → (((plan_for l).kind ≡ display_only) ↔ (l ≡ [])) × ((plan_for l).kind ≢ full)
plan_for-kind [] = ground arith
plan_for-kind (p ∷ l) = ground arith

plan_for-patterns : (l : List CustomPatternConfig) → (plan_for l).changed_patterns ≡ l
plan_for-patterns [] = refl
plan_for-patterns (p ∷ l) = refl

-- A plan that is not a full rebuild and does not force a file leaves it with the patterns it had:
-- whatever pattern is counted, it applies to the file as often under the new configuration.
pub forces-keeps :
    (old new : Config) (old_roots new_roots : List FilePath) (path : Text) (q : CustomPatternConfig)
    → (classify old old_roots new new_roots).kind ≢ full
    → forces (classify old old_roots new new_roots) path ≡ false
    → count q (retain (λ p. applies_to p path) (patterns old))
      ≡ count q (retain (λ p. applies_to p path) (patterns new))
unfolding classify forces
forces-keeps old new old_roots new_roots path q partial_kind unforced =
    elim (classify-cases old new old_roots new_roots) [
      | inl served ↦
          changed_patterns-untouched (λ p. applies_to p path) (patterns old) (patterns new) q
            (rw (← plan_for-patterns (changed_patterns (patterns old) (patterns new)))
              (rw (← classify-served old new old_roots new_roots served) unforced))
      | inr (rebuilt, _) ↦ absurd (partial_kind (rw rebuilt refl))
    ]

-- The index is kept as it is exactly when the roots, the resolved workspace root, the inputs of the
-- index and the list of custom patterns are all the same; it is rebuilt exactly when one of the first
-- three differs.
pub classify_exact :
    (old new : Config) (old_roots new_roots : List FilePath)
    → ((classify old old_roots new new_roots).kind ≡ display_only
        ↔ (IsServed old old_roots new new_roots × (patterns old ≡ patterns new)))
      × ((classify old old_roots new new_roots).kind ≡ full
          ↔ ¬ IsServed old old_roots new new_roots)
unfolding classify
classify_exact old new old_roots new_roots =
    let l = changed_patterns (patterns old) (patterns new) in
    ground (
      arith,
      classify-cases old new old_roots new_roots,
      classify-served old new old_roots new_roots,
      plan_for-kind l,
      none_changed (patterns old) (patterns new),
      unchanged (patterns old) (patterns new),
    )

-- Missed: after two distinct patterns swap places and a third one is added, a file to which the
-- third does not apply is not forced, though its own patterns changed their order.
pub swap_unforced :
    (a b c : CustomPatternConfig) (path : Text)
    → a ≢ b
    → a ≢ c
    → b ≢ c
    → applies_to c path ≡ false
    → any (λ p. applies_to p path) (changed_patterns (a ∷ b ∷ []) (b ∷ a ∷ c ∷ [])) ≡ false
unfolding changed_patterns compare_patterns take_out settle
swap_unforced a b c path ab ac bc unused = ground (
  arith,
  ab,
  ac,
  bc,
  unused,
  pattern_beq_iff a b,
  pattern_beq_iff a c,
  pattern_beq_iff b c,
  pattern_beq_iff b a,
  pattern_beq_iff a a,
  pattern_beq_iff b b,
)
