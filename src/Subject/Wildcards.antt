-- ===== src/Subject/Wildcards.antt =====
-- `subject_matches` of crates/mesh-core/src/contracts.rs and the relation of wildcard subjects.
use causalmesh.Prelude.{
  true, false, ◌||◌, not, ◌≡◌, ◌↔◌, ◌⊎◌, inl, inr, refl, ap, List, [], ◌∷◌, any, ◌==◌, nat_eq,
  list_eq, list_beq_iff, arith, Bool-cases,
}
use causalmesh.Prelude.Text.{Text, text, is_nil, split, split-injective}
use causalmesh.Subject.{
  Dialect, subject_dialect, has_wildcard, is_subject_pattern, match_tokens, subject_matches,
}

-- A text split by the separator of a subject.
abbrev pub tokens : Text → Text → List Text
tokens subject = split (subject_dialect subject).sep

-- A list of pattern tokens matches a list of topic tokens.
pub data Matches (d : Dialect) : List Text → List Text → Type 0 where
  done : Matches d [] []
  literal : {x : Text} {ps ts : List Text} → Matches d ps ts → Matches d (x ∷ ps) (x ∷ ts)
  one_level :
      {p x : Text} {ps ts : List Text} → p ≡ d.one → Matches d ps ts → Matches d (p ∷ ps) (x ∷ ts)
  rest_levels :
      {p : Text} {ts : List Text}
      → p ≡ d.rest
      → (d.rest ≡ text "#") ⊎ (is_nil ts ≡ false)
      → Matches d (p ∷ []) ts

-- one token against one level
step :
    (d : Dialect) (p x : Text) (ps ts : List Text)
    → (p == d.one || p == x) ≡ true
    → Matches d ps ts
    → Matches d (p ∷ ps) (x ∷ ts)
step d p x ps ts h m = elim (Bool-cases (p == d.one)) [
  | inl e ↦ one_level ((list_beq_iff p d.one).0 e) m
  | inr e ↦ let same : p ≡ x = (list_beq_iff p x).0 (ground arith) in rw same (literal m)
]

-- the last token, where it stands for the rest
ending :
    (d : Dialect) (p : Text) (ts : List Text)
    → (p == d.rest) ≡ true
    → (d.rest == text "#" || not (is_nil ts)) ≡ true
    → Matches d (p ∷ []) ts
ending d p ts e h = elim (Bool-cases (d.rest == text "#")) [
  | inl mqtt ↦
      rest_levels ((list_beq_iff p d.rest).0 e) (inl ((list_beq_iff d.rest (text "#")).0 mqtt))
  | inr other ↦ rest_levels ((list_beq_iff p d.rest).0 e) (inr (ground arith))
]

sound : (d : Dialect) (ps ts : List Text) → match_tokens d ps ts ≡ true → Matches d ps ts
unfolding match_tokens
sound d [] [] e = done
sound d [] (t ∷ ts) e = cc e
sound d (p ∷ []) [] e = elim (Bool-cases (p == d.rest)) [
  | inl last ↦ ending d p [] last (ground arith)
  | inr other ↦ absurd (ground arith)
]
sound d (p ∷ []) (x ∷ ts) e = elim (Bool-cases (p == d.rest)) [
  | inl last ↦ ending d p (x ∷ ts) last (ground arith)
  | inr other ↦ step d p x [] ts (ground arith) (sound d [] ts (ground arith))
]
sound d (p ∷ q ∷ ps) [] e = absurd (ground arith)
sound d (p ∷ q ∷ ps) (x ∷ ts) e =
    step d p x (q ∷ ps) ts (ground arith) (sound d (q ∷ ps) ts (ground arith))

complete : {d : Dialect} {ps ts : List Text} → Matches d ps ts → match_tokens d ps ts ≡ true
unfolding match_tokens
complete done = refl
complete {d} (literal {x = x} {ps = ps} {ts = ts} m) =
    ground (arith, complete m, list_beq_iff x x, list_beq_iff x d.rest)
complete {d} (one_level {p = p} {x = x} {ps = ps} {ts = ts} e m) =
    ground (arith, complete m, list_beq_iff p d.one)
complete {d} (rest_levels {p = p} e h) =
    ground (arith, list_beq_iff p d.rest, list_beq_iff d.rest (text "#"))

-- A topic matches a subject exactly if no token of the topic is empty and the tokens match:
-- equal ones, `*` or `+` for one level, and a last `>` for one or more levels or a last `#` for
-- any number. The subject's dialect splits both.
pub subject_matches-Matches :
    (subject topic : Text)
    → (subject_matches subject topic ≡ true) ↔ (
        (any is_nil (tokens subject topic) ≡ false)
        × Matches (subject_dialect subject) (tokens subject subject) (tokens subject topic))
unfolding subject_matches
subject_matches-Matches subject topic =
    let d = subject_dialect subject in
    (
      λ e. elim (Bool-cases (any is_nil (split d.sep topic))) [
        | inl empty ↦ absurd (ground arith)
        | inr full ↦ (full, sound d (split d.sep subject) (split d.sep topic) (ground arith))
      ],
      λ h. rw h.0 (complete h.1),
    )

plain :
    (d : Dialect) (ps ts : List Text)
    → has_wildcard d ps ≡ false
    → match_tokens d ps ts ≡ true
    → ps ≡ ts
unfolding has_wildcard match_tokens
plain d [] [] h e = refl
plain d [] (t ∷ ts) h e = cc e
plain d (p ∷ ps) [] h e = absurd (ground arith)
plain d (p ∷ ps) (x ∷ ts) h e =
    let same : p ≡ x = (list_beq_iff p x).0 (ground arith) in
    rw same (ap (◌∷◌ x) (plain d ps ts (ground arith) (ground arith)))

-- A subject without a wildcard matches no topic but itself.
pub subject_matches-literal :
    (subject topic : Text)
    → is_subject_pattern subject ≡ false
    → subject_matches subject topic ≡ true
    → subject ≡ topic
unfolding subject_matches is_subject_pattern
subject_matches-literal subject topic h e =
    let d = subject_dialect subject in
    split-injective d.sep subject topic
      (plain d (split d.sep subject) (split d.sep topic) h (ground arith))
