-- ===== src/Governance/Rules.antt =====
-- Which rule stops a call, and which playbook it is pointed to.
use mathlib.Core.Path.{subst}
use causalmesh.Prelude.{
  ◌≤◌, true, false, Option, none, some, [], ◌∷◌, ◌++◌, All, leb, if◌then◌else◌, Bool-cases, ◌≡◌,
  refl, sym, ap, ◌∙◌, ◌⊎◌, inl, inr, arith,
}
use causalmesh.Prelude.Assoc.{Assoc}
use causalmesh.Prelude.Text.{Text, byte_length}
use causalmesh.Config.{contains_text}
use causalmesh.Governance.{
  RsahResponse, GovernanceEngine, get_skill_path, matching_skills, longest_from, longest,
  recommend_skill, build_rsah_response,
}
use causalmesh.Governance.Segments.{IsSegment}

module _ (to_lowercase : Text → Text) where
  -- The key of a rule is no segment of the text.
  abbrev pub Misses : Text → Text × Text → Type 0
  Misses lower rule = ¬ IsSegment (to_lowercase rule.0) lower

  -- The first of the rules whose key is a segment gives the answer.
  abbrev pub Stops : Text → Assoc Text Text → Option RsahResponse → Type 0
  Stops lower rules answer =
      (before : Assoc Text Text) × (key : Text) × (rule : Text) × (after : Assoc Text Text) × (rules
        ≡ before ++ ((key, rule) ∷ after))
      × All (Misses lower) before
      × IsSegment (to_lowercase key) lower
      × (answer ≡ some (build_rsah_response to_lowercase key rule))

  abbrev pub Listed : Text × Text → Assoc Text Text → Type 0
  Listed a [] = ⊥
  Listed a (x ∷ xs) = (x ≡ a) ⊎ Listed a xs

  -- `r` is one of the pairs, and no key is longer.
  abbrev IsLongest : Text × Text → Text × Text → Assoc Text Text → Type 0
  IsLongest r best skills =
      (byte_length best.0 ≤ byte_length r.0)
      × All (λ skill. byte_length skill.0 ≤ byte_length r.0) skills
      × ((best ≡ r) ⊎ Listed r skills)

  longest_from-IsLongest :
      (best : Text × Text) (skills : Assoc Text Text)
      → IsLongest (longest_from best skills) best skills
  longest_from-IsLongest best [] = (omega arith, tt, inl refl)
  longest_from-IsLongest best (skill ∷ skills) =
      elim (Bool-cases (leb (byte_length best.0) (byte_length skill.0))) [
        | inl e ↦
            subst (λ r. IsLongest r best (skill ∷ skills))
              (ap (λ c. longest_from (if c then skill else best) skills) (sym e))
              (let (l, all, from) = longest_from-IsLongest skill skills in
                (ground (arith, l, e), (l, all), inr from))
        | inr e ↦
            subst (λ r. IsLongest r best (skill ∷ skills))
              (ap (λ c. longest_from (if c then skill else best) skills) (sym e))
              (let (l, all, from) = longest_from-IsLongest best skills in
                (
                  l,
                  (ground (arith, l, e), all),
                  elim from [ inl same ↦ inl same | inr there ↦ inr (inr there) ],
                ))
      ]

  longest-cases :
      (skills : Assoc Text Text)
      → (skills ≡ [])
        ⊎ ((r : Text × Text) × (longest skills ≡ some r.1)
            × Listed r skills
            × All (λ skill. byte_length skill.0 ≤ byte_length r.0) skills)
  longest-cases [] = inl refl
  longest-cases (skill ∷ skills) =
      let (l, all, from) = longest_from-IsLongest skill skills in
      inr (longest_from skill skills, refl, from, (l, all))

  -- A key that the subject does not contain, or one that is not longer than `key`.
  abbrev pub NotLonger : Text → Text → Text × Text → Type 0
  NotLonger lower key skill =
      (contains_text (to_lowercase skill.0) lower ≡ false) ⊎ (byte_length skill.0 ≤ byte_length key)

  matching_skills-Listed :
      (lower : Text) (r : Text × Text) (skills : Assoc Text Text)
      → Listed r (matching_skills to_lowercase lower skills)
      → Listed r skills × (contains_text (to_lowercase r.0) lower ≡ true)
  matching_skills-Listed lower r [] l = absurd l
  matching_skills-Listed lower r (skill ∷ skills) l =
      elim (Bool-cases (contains_text (to_lowercase skill.0) lower)) [
        | inl e ↦
            elim (subst (Listed r)
              (ap
                (λ c.
                  if c
                  then skill ∷ matching_skills to_lowercase lower skills
                  else matching_skills to_lowercase lower skills)
                e)
              l) [
                | inl same ↦ (
                  inl same,
                  sym (ap (λ (k : Text × Text). contains_text (to_lowercase k.0) lower) same) ∙ e,
                )
                | inr there ↦
                    (let (m, c) = matching_skills-Listed lower r skills there in (inr m, c))
              ]
        | inr e ↦
            (let (m, c) = matching_skills-Listed lower r skills (
                subst (Listed r)
                  (ap
                    (λ c.
                      if c
                      then skill ∷ matching_skills to_lowercase lower skills
                      else matching_skills to_lowercase lower skills)
                    e)
                  l) in
              (inr m, c))
      ]

  matching_skills-NotLonger :
      (lower key : Text) (skills : Assoc Text Text)
      → All
          (λ skill. byte_length skill.0 ≤ byte_length key)
          (matching_skills to_lowercase lower skills)
      → All (NotLonger lower key) skills
  matching_skills-NotLonger lower key [] a = tt
  matching_skills-NotLonger lower key (skill ∷ skills) a =
      ground (arith, matching_skills-NotLonger lower key skills)

  matching_skills-none :
      (lower : Text) (skills : Assoc Text Text)
      → matching_skills to_lowercase lower skills ≡ []
      → All (λ skill. contains_text (to_lowercase skill.0) lower ≡ false) skills
  matching_skills-none lower [] e = tt
  matching_skills-none lower (skill ∷ skills) e = ground (arith, matching_skills-none lower skills)

  recommend_skill-subject :
      (engine : GovernanceEngine) (tool subject : Text)
      → get_skill_path engine tool ≡ none
      → recommend_skill to_lowercase engine tool (some subject)
        ≡ longest (matching_skills to_lowercase (to_lowercase subject) engine.skills)
  unfolding recommend_skill
  recommend_skill-subject engine tool subject e = ground (arith, e)

  -- Where no playbook has the tool's name, a call about a subject is pointed to one whose key the
  -- subject contains, in lower case, such that no other such key is longer; it is pointed to none
  -- exactly if the subject contains no key.
  pub recommend_skill-longest :
      (engine : GovernanceEngine) (tool subject : Text)
      → get_skill_path engine tool ≡ none
      → ((recommend_skill to_lowercase engine tool (some subject) ≡ none)
          × All
              (λ skill. contains_text (to_lowercase skill.0) (to_lowercase subject) ≡ false)
              engine.skills)
        ⊎ ((key : Text) × (path : Text) × (recommend_skill to_lowercase engine tool (some subject)
              ≡ some path)
            × Listed (key, path) engine.skills
            × (contains_text (to_lowercase key) (to_lowercase subject) ≡ true)
            × All (NotLonger (to_lowercase subject) key) engine.skills)
  recommend_skill-longest engine tool subject e =
      let lower = to_lowercase subject in
      let skills = engine.skills in
      let same = recommend_skill-subject engine tool subject e in
      elim (longest-cases (matching_skills to_lowercase lower skills)) [
        | inl empty ↦ inl (same ∙ ap longest empty, matching_skills-none lower skills empty)
        | inr (r, found, listed, all) ↦
            (let (there, contained) = matching_skills-Listed lower r skills listed in
              inr (
                r.0,
                r.1,
                same ∙ found,
                there,
                contained,
                matching_skills-NotLonger lower r.0 skills all,
              ))
      ]
