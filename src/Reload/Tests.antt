-- ===== src/Reload/Tests.antt =====
-- Plans for concrete configurations: two patterns, of which one is edited.
use causalmesh.Prelude.{
  ◌≡◌, ◌≢◌, ◌↔◌, refl, Bool, true, false, none, some, List, [], ◌∷◌, retain, any, arith, nat_eq,
  list_eq,
}
use causalmesh.Prelude.Text.{Text, text}
use causalmesh.Config.{
  Config, CustomPatternConfig, topic_producer, default_contracts, applies_to, pattern_eq,
}
use causalmesh.Reload.{
  ReloadKind, display_only, partial, full, classify, forces, patterns, changed_patterns,
}
use causalmesh.Reload.Plans.{count, IsServed, forces-keeps, classify_exact, swap_unforced}

abbrev pattern : Text → CustomPatternConfig
pattern suffix = record {
  name = text "events";
  kind = topic_producer;
  file_pattern = some suffix;
  regex = text "emit";
  target_group = 1;
  consumer_group = none;
  confidence = none;
}

abbrev with_patterns : List CustomPatternConfig → Config
with_patterns ps = record {
  workspace = record {
    name = text "shop";
    version = text "1";
    workspace_root = text ".";
    roots = [];
    exclude_patterns = [];
    mount_aliases = [];
    http_prefix = none;
    http_prefixes = [];
    resolved_workspace_root = none;
  };
  engines = record {
    docs = none;
    contracts = some (record default_contracts { patterns = ps });
    policy = none;
  };
  cache = record { max_size_mb = 64 };
}

abbrev old : Config
old = with_patterns (pattern (text "*.ts") ∷ pattern (text "*.go") ∷ [])

abbrev new : Config
new = with_patterns (pattern (text "*.ts") ∷ pattern (text "*.rs") ∷ [])

abbrev app : Text
app = text "app.ts"

abbrev is_partial : ReloadKind → Bool
is_partial partial = true
is_partial _ = false

partial-full : (kind : ReloadKind) → is_partial kind ≡ true → kind ≢ full
partial-full kind h e = ground (arith, h, e)

forces-keeps_example :
    count (pattern (text "*.ts")) (retain (λ p. applies_to p app) (patterns old))
    ≡ count (pattern (text "*.ts")) (retain (λ p. applies_to p app) (patterns new))
unfolding classify forces applies_to
forces-keeps_example =
    forces-keeps old new [] [] app (pattern (text "*.ts")) (partial-full partial refl) refl

classify_exact_example :
    (((classify old [] new []).kind ≡ display_only)
      ↔ (IsServed old [] new [] × (patterns old ≡ patterns new)))
    × (((classify old [] new []).kind ≡ full) ↔ ¬ IsServed old [] new [])
classify_exact_example = classify_exact old new [] []

swap_unforced_example :
    any
      (λ p. applies_to p app)
      (changed_patterns
        (pattern (text "*.ts") ∷ pattern (text "app") ∷ [])
        (pattern (text "app") ∷ pattern (text "*.ts") ∷ pattern (text "*.go") ∷ []))
    ≡ false
unfolding applies_to
swap_unforced_example =
    swap_unforced (pattern (text "*.ts")) (pattern (text "app")) (pattern (text "*.go")) app
      (λ e. ground (arith, e)) (λ e. ground (arith, e)) (λ e. ground (arith, e)) refl
