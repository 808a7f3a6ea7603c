-- ===== src/Reload.antt =====
-- What a configuration edit costs (crates/mesh-core/src/reload_kind.rs): a display-only swap, the
-- extraction of the files that a changed pattern applies to, or a full rebuild.
pub mod Plans
pub mod Tests
use causalmesh.Prelude.{
  ℕ, Bool, true, false, ◌&&◌, ◌||◌, not, Option, none, some, List, [], ◌∷◌, ◌++◌, any, PartialEq,
  if◌then◌else◌, ◌==◌, nat_eq, list_eq, list_beq,
}
use causalmesh.Prelude.Text.{Text, is_nil}
use causalmesh.Prelude.Paths.{FilePath, component_eq}
use causalmesh.Config.{
  Config, CustomPatternConfig, ContractsConfig, DocsConfig, default_docs, default_contracts,
  applies_to, pattern_eq, bool_beq, map_beq, grpc_beq, spring_beq, openapi_beq, asyncapi_beq, both,
  option_beq,
}

pub data ReloadKind : Type 0 where
  display_only partial full : ReloadKind

pub record ReloadPlan : Type 0 where
  pub kind : ReloadKind
  pub changed_patterns : List CustomPatternConfig

-- `ReloadPlan::of`
abbrev pub plan_of : ReloadKind → ReloadPlan
plan_of kind = record { kind = kind; changed_patterns = [] }

unfoldable pub forces : ReloadPlan → Text → Bool
forces plan path = any (λ p. applies_to p path) plan.changed_patterns

abbrev docs_of : Option DocsConfig → DocsConfig
docs_of none = default_docs
docs_of (some docs) = docs

abbrev contracts_of : Option ContractsConfig → ContractsConfig
contracts_of none = default_contracts
contracts_of (some contracts) = contracts

-- Whether the values that `index_inputs` makes of two configurations are equal.
unfoldable pub same_inputs : Config → Config → Bool
same_inputs a b =
    let v = a.workspace in
    let w = b.workspace in
    let docs = docs_of a.engines.docs in
    let docs' = docs_of b.engines.docs in
    let contracts = contracts_of a.engines.contracts in
    let contracts' = contracts_of b.engines.contracts in
    v.workspace_root == w.workspace_root
    && (v.roots == w.roots
        && (v.exclude_patterns == w.exclude_patterns
            && (map_beq v.mount_aliases w.mount_aliases
                && (bool_beq docs.enabled docs'.enabled
                    && (docs.paths == docs'.paths
                        && (bool_beq docs.sanitize_prompt_injections
                              docs'.sanitize_prompt_injections
                            && (bool_beq contracts.enabled contracts'.enabled
                                && (both grpc_beq contracts.grpc contracts'.grpc
                                    && (both spring_beq contracts.spring contracts'.spring
                                        && (both openapi_beq contracts.openapi contracts'.openapi
                                            && (both asyncapi_beq contracts.asyncapi
                                                  contracts'.asyncapi
                                                && (both
                                                      (λ c c'. c.include_paths == c'.include_paths)
                                                      contracts.cpp contracts'.cpp
                                                    && a.cache.max_size_mb
                                                      == b.cache.max_size_mb))))))))))))

abbrev patterns_in : Option ContractsConfig → List CustomPatternConfig
patterns_in none = []
patterns_in (some c) = c.patterns

unfoldable pub patterns : Config → List CustomPatternConfig
patterns config = patterns_in config.engines.contracts

module _ {A : Type 0} ⦃e : PartialEq A⦄ where
  -- `position` and `remove`: the list without the first entry equal to `p`, if there is one
  unfoldable pub take_out : A → List A → Option (List A)
  take_out p [] = none
  take_out p (o ∷ left) =
      let rest = take_out p left in
      if o == p then some left else elim rest [ none ↦ none | some l ↦ some (o ∷ l) ]

  -- one round: `p` is found among what is left of the old entries, or was added
  unfoldable pub settle : A → Option (List A) → List A × List A → List A × List A
  settle p (some l) (left, added) = (l, added)
  settle p none (left, added) = (left, added ++ p ∷ [])

  -- the loop over the new entries: what is left of the old ones, and what was added
  unfoldable pub compare_patterns : List A → List A × List A → List A × List A
  unfolding take_out settle
  compare_patterns [] found = found
  compare_patterns (p ∷ new) found = compare_patterns new (settle p (take_out p found.0) found)

abbrev pub or_all : List CustomPatternConfig → List CustomPatternConfig → List CustomPatternConfig
or_all [] new = new
or_all (p ∷ changed) new = p ∷ changed

unfoldable pub changed_patterns :
    List CustomPatternConfig → List CustomPatternConfig → List CustomPatternConfig
unfolding compare_patterns
changed_patterns old new =
    if list_beq old new
    then []
    else (let (left, added) = compare_patterns new (old, []) in or_all (left ++ added) new)

abbrev pub plan_for : List CustomPatternConfig → ReloadPlan
plan_for [] = plan_of display_only
plan_for (p ∷ changed) = record { kind = partial; changed_patterns = p ∷ changed }

unfoldable pub classify : Config → List FilePath → Config → List FilePath → ReloadPlan
unfolding same_inputs patterns changed_patterns
classify old old_roots new new_roots =
    if not (old_roots == new_roots)
      || not
          (option_beq old.workspace.resolved_workspace_root new.workspace.resolved_workspace_root)
    then plan_of full
    else if not (same_inputs old new)
    then plan_of full
    else plan_for (changed_patterns (patterns old) (patterns new))
