-- ===== src/Governance/Tests.antt =====
-- The rules at concrete calls, with the lower case of ASCII.
use causalmesh.Prelude.{◌≡◌, ◌⊎◌, refl, true, false, none, some, [], ◌∷◌, map, All}
use causalmesh.Prelude.Text.{Text, text, to_ascii_lower}
use causalmesh.Config.{contains_text, allow_all}
use causalmesh.Governance.{
  GovernanceEngine, get_skill_path, recommend_skill, evaluate_guard, has_path_segment,
}
use causalmesh.Governance.Rules.{Listed, NotLonger, recommend_skill-longest}

abbrev lower : Text → Text
lower s = map to_ascii_lower s

abbrev engine : GovernanceEngine
engine = record {
  stop_rules = (text "proto", text "Contracts first.") ∷ (text "k8s", text "Ask.") ∷ [];
  skills = (text "proto", text "p.md") ∷ (text "proto-registry", text "r.md") ∷ [];
  read_governance_mode = allow_all;
}

prototype_passes : evaluate_guard lower engine (text "internal/prototype/a.go") ≡ none
unfolding evaluate_guard has_path_segment
prototype_passes = refl

registry_wins :
    recommend_skill lower engine (text "read") (some (text "Proto-Registry/a.proto"))
    ≡ some (text "r.md")
unfolding recommend_skill get_skill_path contains_text
registry_wins = refl

recommend_skill-longest_example :
    ((recommend_skill lower engine (text "read") (some (text "Proto-Registry/a.proto")) ≡ none)
      × All
          (λ skill. contains_text (lower skill.0) (text "proto-registry/a.proto") ≡ false)
          engine.skills)
    ⊎ ((key : Text) × (path : Text) × (recommend_skill lower engine
            (text "read")
            (some (text "Proto-Registry/a.proto"))
          ≡ some path)
        × Listed lower (key, path) engine.skills
        × (contains_text (lower key) (text "proto-registry/a.proto") ≡ true)
        × All (NotLonger lower (text "proto-registry/a.proto") key) engine.skills)
unfolding get_skill_path
recommend_skill-longest_example =
    recommend_skill-longest lower engine (text "read") (text "Proto-Registry/a.proto") refl
