-- ===== src/Governance.antt =====
-- The rules of the repository's owners (crates/mesh-core/src/governance.rs): which calls are
-- stopped, and which playbook a call is pointed to. A `HashMap` is the list of its entries in the
-- order of its iteration; the lower case of Unicode is a parameter.
pub mod Segments
pub mod Rules
pub mod Tests
use causalmesh.Prelude.{
  ℕ, Bool, true, false, ◌||◌, Option, none, some, List, [], ◌∷◌, ◌++◌, any, leb, if◌then◌else◌,
  ◌==◌, nat_eq, list_eq,
}
use causalmesh.Prelude.Assoc.{Assoc, lookup}
use causalmesh.Prelude.Text.{Text, text, concat, is_nil, prefix_first, byte_length}
use causalmesh.Config.{contains_text, ReadGovernanceMode}

pub record RsahWorkflow : Type 0 where
  pub step_1 : Text
  pub step_2 : Text
  pub step_3 : Text
  pub step_4 : Text

pub record RsahResponse : Type 0 where
  pub status : Text
  pub policy : Text
  pub violation : Text
  pub required_workflow : RsahWorkflow
  pub agent_next_action : Text
  pub message_to_user : Text

pub record GovernanceEngine : Type 0 where
  pub stop_rules : Assoc Text Text
  pub skills : Assoc Text Text
  pub read_governance_mode : ReadGovernanceMode

unfoldable pub get_skill_path : GovernanceEngine → Text → Option Text
get_skill_path engine tool_or_key = lookup tool_or_key engine.skills

abbrev pub is_separator : ℕ → Bool
is_separator c = c == b'/' || c == b'\\'

-- `split(['/', '\\'])`
abbrev pub segments : Text → List Text
segments [] = [] ∷ []
segments (c ∷ cs) =
    let rest = segments cs in if is_separator c then [] ∷ rest else prefix_first c rest

unfoldable pub has_path_segment : Text → Text → Bool
has_path_segment haystack segment =
    if is_nil segment then false else any (λ part. part == segment) (segments haystack)

-- a text in single quotes between two others
abbrev quoting : Text → Text → Text → Text
quoting before key after = concat (before ∷ text "'" ∷ key ∷ text "'" ∷ after ∷ [])

-- the keys that a subject contains, whatever their case
abbrev pub matching_skills : (Text → Text) → Text → Assoc Text Text → Assoc Text Text
matching_skills to_lowercase subject [] = []
matching_skills to_lowercase subject ((key, path) ∷ skills) =
    let rest = matching_skills to_lowercase subject skills in
    if contains_text (to_lowercase key) subject then (key, path) ∷ rest else rest

-- `max_by_key` of the key's length: the last of the longest
abbrev pub longest_from : Text × Text → Assoc Text Text → Text × Text
longest_from best [] = best
longest_from best (skill ∷ skills) =
    longest_from (if leb (byte_length best.0) (byte_length skill.0) then skill else best) skills

abbrev pub longest : Assoc Text Text → Option Text
longest [] = none
longest (skill ∷ skills) = some (longest_from skill skills).1

abbrev proto_response : Text → Text → RsahResponse
proto_response key rule = record {
  status = text "GOVERNANCE_BLOCKED";
  policy = text "CONTRACT_FIRST_CASCADE_CI";
  violation = quoting (text "Guarded contract boundary ") key (text " accessed. " ++ rule);
  required_workflow = record {
    step_1 = quoting (text "Validate schema syntax and breaking changes in ") key [];
    step_2 = quoting (text "Commit changes exclusively inside ") key [];
    step_3 = quoting (text "Submit contract review and verify CI schema generation for ") key [];
    step_4 =
        text
          "Do not modify downstream services until the generated contract packages are published.";
  };
  agent_next_action = text "STOP_AND_REPORT_TO_USER";
  message_to_user = quoting (text "Detected mutation targeting contract in ") key (
      text
        ". Per active architecture governance: submit contract changes and await CI verification before adapting downstream consumers. "
      ++ rule);
}

abbrev infrastructure_response : Text → Text → RsahResponse
infrastructure_response key rule = record {
  status = text "GOVERNANCE_BLOCKED";
  policy = text "INFRASTRUCTURE_AS_CODE_REVIEW";
  violation = quoting (text "Guarded infrastructure boundary ") key (text " accessed. " ++ rule);
  required_workflow = record {
    step_1 = quoting (text "Review infrastructure resource specifications in ") key [];
    step_2 = text "Run manifest linter and policy compliance checks";
    step_3 = text "Submit changes to infrastructure review board";
    step_4 = text "Await infrastructure deployment synchronization";
  };
  agent_next_action = text "STOP_AND_REPORT_TO_USER";
  message_to_user =
      quoting (text "Modifying infrastructure in ") key
        (text " requires mandatory operational review. " ++ rule);
}

abbrev active_response : Text → Text → RsahResponse
active_response key rule = record {
  status = text "GOVERNANCE_BLOCKED";
  policy = text "ACTIVE_GOVERNANCE_POLICY";
  violation = quoting (text "Action blocked by active rule for ") key (text ": " ++ rule);
  required_workflow = record {
    step_1 = quoting (text "Verify policy for ") key [];
    step_2 = text "Obtain human confirmation";
    step_3 = text "Apply isolated modifications";
    step_4 = text "Verify downstream dependencies";
  };
  agent_next_action = text "STOP_AND_REPORT_TO_USER";
  message_to_user = text "This action requires human validation per the active rule: " ++ rule;
}

module _ (to_lowercase : Text → Text) where
  unfoldable pub recommend_skill : GovernanceEngine → Text → Option Text → Option Text
  recommend_skill engine tool subject = elim (get_skill_path engine tool) [
    | some path ↦ some path
    | none ↦ elim subject [
      | none ↦ none
      | some s ↦ longest (matching_skills to_lowercase (to_lowercase s) engine.skills)
    ]
  ]

  unfoldable pub build_rsah_response : Text → Text → RsahResponse
  build_rsah_response guarded_key rule_description =
      let lower_key = to_lowercase guarded_key in
      if contains_text (text "proto") lower_key
      then proto_response guarded_key rule_description
      else if contains_text (text "k8s") lower_key
          || (contains_text (text "infra") lower_key || contains_text (text "deploy") lower_key)
      then infrastructure_response guarded_key rule_description
      else active_response guarded_key rule_description

  -- the loop over the rules
  abbrev pub first_rule : Text → Assoc Text Text → Option RsahResponse
  first_rule lower [] = none
  first_rule lower ((guarded_key, rule_description) ∷ rules) =
      let rest = first_rule lower rules in
      if has_path_segment lower (to_lowercase guarded_key)
      then some (build_rsah_response guarded_key rule_description)
      else rest

  unfoldable pub evaluate_guard : GovernanceEngine → Text → Option RsahResponse
  evaluate_guard engine target_or_scope =
      first_rule (to_lowercase target_or_scope) engine.stop_rules
