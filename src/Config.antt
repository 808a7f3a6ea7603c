-- ===== src/Config.antt =====
-- The configuration (crates/mesh-core/src/config.rs), with the equality of what decides the
-- index, as their JSON values compare: a map by its entries, whatever their order.
use causalmesh.Prelude.{
  ℕ, Bool, true, false, ◌&&◌, ◌||◌, not, Option, none, some, List, [], ◌∷◌, length, all,
  if◌then◌else◌, PartialEq, ◌==◌, nat_eq, list_eq, list_beq_iff, ◌≡◌, ◌↔◌, arith,
}
use causalmesh.Prelude.Assoc.{Assoc, lookup}
use causalmesh.Prelude.Text.{Text, has_prefix}
use causalmesh.Prelude.Paths.{FilePath, component_eq}

pub data PatternKind : Type 0 where
  topic_producer topic_consumer saga rpc : PatternKind

pub data PatternConfidence : Type 0 where
  exact heuristic : PatternConfidence

pub record CustomPatternConfig : Type 0 where
  pub name : Text
  pub kind : PatternKind
  pub file_pattern : Option Text
  pub regex : Text
  pub target_group : ℕ
  pub consumer_group : Option ℕ
  pub confidence : Option PatternConfidence

pub record GrpcConfig : Type 0 where
  pub proto_dirs : List Text
  pub controller_annotations : List Text
  pub canonical_fqcn_projection : Bool

pub record SpringConfig : Type 0 where
  pub enabled : Bool
  pub property_files : List Text
  pub resolve_placeholders : Bool
  pub auto_redact_secrets : Bool

pub record OpenApiConfig : Type 0 where
  pub enabled : Bool
  pub spec_files : List Text

pub record AsyncApiConfig : Type 0 where
  pub enabled : Bool
  pub spec_files : List Text
  pub infer_string_topics : Bool

pub record CppConfig : Type 0 where
  pub include_paths : List Text

pub record ContractsConfig : Type 0 where
  pub enabled : Bool
  pub grpc : Option GrpcConfig
  pub spring : Option SpringConfig
  pub openapi : Option OpenApiConfig
  pub asyncapi : Option AsyncApiConfig
  pub cpp : Option CppConfig
  pub patterns : List CustomPatternConfig

pub record DocsConfig : Type 0 where
  pub enabled : Bool
  pub paths : List Text
  pub aliases : Assoc Text Text
  pub stop_words : List Text
  pub exact_phrase_boost : ℕ
  pub fuzzy_fallback : Bool
  pub sanitize_prompt_injections : Bool

pub data ReadGovernanceMode : Type 0 where
  allow_all audit_warn enforce_refusal : ReadGovernanceMode

pub record PolicyConfig : Type 0 where
  pub enabled : Bool
  pub enforce_git_hooks : Bool
  pub cryptographic_audit_trail : Bool
  pub read_governance_mode : ReadGovernanceMode
  pub stop_rules : Assoc Text Text
  pub skills : Assoc Text Text

pub record EnginesConfig : Type 0 where
  pub docs : Option DocsConfig
  pub contracts : Option ContractsConfig
  pub policy : Option PolicyConfig

pub record WorkspaceConfig : Type 0 where
  pub name : Text
  pub version : Text
  pub workspace_root : Text
  pub roots : List Text
  pub exclude_patterns : List Text
  pub mount_aliases : Assoc Text Text
  pub http_prefix : Option Text
  pub http_prefixes : Assoc Text Text
  pub resolved_workspace_root : Option FilePath

pub record CacheConfig : Type 0 where
  pub max_size_mb : ℕ

pub record Config : Type 0 where
  pub workspace : WorkspaceConfig
  pub engines : EnginesConfig
  pub cache : CacheConfig

-- A section that is absent, with its defaults.
abbrev pub default_docs : DocsConfig
default_docs = record {
  enabled = true;
  paths = [];
  aliases = [];
  stop_words = [];
  exact_phrase_boost = 60;
  fuzzy_fallback = true;
  sanitize_prompt_injections = true;
}

abbrev pub default_contracts : ContractsConfig
default_contracts = record {
  enabled = true;
  grpc = none;
  spring = none;
  openapi = none;
  asyncapi = none;
  cpp = none;
  patterns = [];
}

-- `trim_start_matches` by one character
pub trim_start_of : ℕ → Text → Text
trim_start_of c [] = []
trim_start_of c (d ∷ s) = if d == c then trim_start_of c s else d ∷ s

-- `str::contains`
unfoldable pub contains_text : Text → Text → Bool
contains_text needle [] = has_prefix needle []
contains_text needle (c ∷ s) = has_prefix needle (c ∷ s) || contains_text needle s

-- `str::ends_with`
pub ends_with : Text → Text → Bool
ends_with needle [] = needle == []
ends_with needle (c ∷ s) = needle == (c ∷ s) || ends_with needle s

unfoldable pub file_needle : CustomPatternConfig → Option Text
unfolding trim_start_of
file_needle p = elim p.file_pattern [
  | none ↦ none
  | some fp ↦ some (trim_start_of b'.' (trim_start_of b'*' fp))
]

unfoldable pub applies_to : CustomPatternConfig → Text → Bool
unfolding file_needle contains_text ends_with
applies_to p path = elim (file_needle p) [
  | some needle ↦ ends_with needle path || contains_text needle path
  | none ↦ true
]

abbrev pub bool_beq : Bool → Bool → Bool
bool_beq true b = b
bool_beq false b = not b

module _ {ℓ} {A : Type ℓ} ⦃e : PartialEq A⦄ where
  abbrev pub option_beq : Option A → Option A → Bool
  option_beq none none = true
  option_beq (some a) (some b) = a == b
  option_beq _ _ = false

  pub option_beq_iff : (a b : Option A) → (option_beq a b ≡ true) ↔ (a ≡ b)
  option_beq_iff none none = ground arith
  option_beq_iff none (some b) = ground arith
  option_beq_iff (some a) none = ground arith
  option_beq_iff (some a) (some b) = ground (arith, e.eq_iff a b)

abbrev kind_beq : PatternKind → PatternKind → Bool
kind_beq topic_producer topic_producer = true
kind_beq topic_consumer topic_consumer = true
kind_beq saga saga = true
kind_beq rpc rpc = true
kind_beq _ _ = false

abbrev confidence_beq : PatternConfidence → PatternConfidence → Bool
confidence_beq exact exact = true
confidence_beq heuristic heuristic = true
confidence_beq _ _ = false

pub kind_beq_iff : (a b : PatternKind) → (kind_beq a b ≡ true) ↔ (a ≡ b)
kind_beq_iff a b = ground arith

pub confidence_beq_iff : (a b : PatternConfidence) → (confidence_beq a b ≡ true) ↔ (a ≡ b)
confidence_beq_iff a b = ground arith

instance abbrev confidence_eq : PartialEq PatternConfidence
confidence_eq = record { eq = confidence_beq; eq_iff = confidence_beq_iff }

instance abbrev option_eq {ℓ} : {A : Type ℓ} ⦃e : PartialEq A⦄ → PartialEq (Option A)
option_eq = record { eq = option_beq; eq_iff = option_beq_iff }

-- the derived `PartialEq` of a pattern
abbrev pattern_beq : CustomPatternConfig → CustomPatternConfig → Bool
pattern_beq a b =
    a.name == b.name
    && (kind_beq a.kind b.kind
        && (a.file_pattern == b.file_pattern
            && (a.regex == b.regex
                && (a.target_group == b.target_group
                    && (a.consumer_group == b.consumer_group && a.confidence == b.confidence)))))

pub pattern_beq_iff : (a b : CustomPatternConfig) → (pattern_beq a b ≡ true) ↔ (a ≡ b)
pattern_beq_iff a b = ground (
  arith,
  list_beq_iff a.name b.name,
  kind_beq_iff a.kind b.kind,
  option_beq_iff a.file_pattern b.file_pattern,
  list_beq_iff a.regex b.regex,
  option_beq_iff a.consumer_group b.consumer_group,
  option_beq_iff a.confidence b.confidence,
)

instance abbrev pub pattern_eq : PartialEq CustomPatternConfig
pattern_eq = record { eq = pattern_beq; eq_iff = pattern_beq_iff }

-- JSON objects compare by their entries.
abbrev pub map_beq : Assoc Text Text → Assoc Text Text → Bool
map_beq a b =
    length a == length b
    && all (λ (entry : Text × Text). option_beq (lookup entry.0 b) (some entry.1)) a

abbrev pub grpc_beq : GrpcConfig → GrpcConfig → Bool
grpc_beq a b =
    a.proto_dirs == b.proto_dirs
    && (a.controller_annotations == b.controller_annotations
        && bool_beq a.canonical_fqcn_projection b.canonical_fqcn_projection)

abbrev pub spring_beq : SpringConfig → SpringConfig → Bool
spring_beq a b =
    bool_beq a.enabled b.enabled
    && (a.property_files == b.property_files
        && (bool_beq a.resolve_placeholders b.resolve_placeholders
            && bool_beq a.auto_redact_secrets b.auto_redact_secrets))

abbrev pub openapi_beq : OpenApiConfig → OpenApiConfig → Bool
openapi_beq a b = bool_beq a.enabled b.enabled && a.spec_files == b.spec_files

abbrev pub asyncapi_beq : AsyncApiConfig → AsyncApiConfig → Bool
asyncapi_beq a b =
    bool_beq a.enabled b.enabled
    && (a.spec_files == b.spec_files && bool_beq a.infer_string_topics b.infer_string_topics)

-- two absent sections are equal, and two present ones as the test says
abbrev pub both {ℓ} : {A : Type ℓ} → (A → A → Bool) → Option A → Option A → Bool
both test none none = true
both test (some a) (some b) = test a b
both test _ _ = false
