-- ===== src/Health/Tests.antt =====
-- The list of rejected files at a concrete reload pass.
use causalmesh.Prelude.{◌≡◌, none, some, [], ◌∷◌, contains, if◌then◌else◌, arith, nat_eq, list_eq}
use causalmesh.Prelude.Text.{Text, text}
use causalmesh.Prelude.Paths.{FilePath, normal, component_eq}
use causalmesh.Health.{RejectedFile, IndexHealth, binary, long_line, replace_rejected}
use causalmesh.Health.Rejected.{entry, or_else, replace_rejected-entry}

abbrev file : Text → FilePath
file name = normal name ∷ []

abbrev refused_a : RejectedFile
refused_a = record {
  path = file (text "a.min.js");
  reason = long_line;
  size_bytes = 9000;
  detail = some 4000;
}

abbrev refused_b : RejectedFile
refused_b = record { path = file (text "b.bin"); reason = binary; size_bytes = 12; detail = none }

abbrev health : IndexHealth
health = record {
  files_scanned = 9;
  files_indexed = 7;
  files_rejected_oversized = 0;
  files_rejected_guard = 2;
  files_read_error = 0;
  files_parse_failed = 0;
  rejected = refused_b ∷ refused_a ∷ refused_b ∷ [];
  rejected_overflow = 0;
  files_skipped_non_source = 0;
}

replace_rejected-entry_example :
    entry
      (file (text "a.min.js"))
      (replace_rejected (file (text "a.min.js") ∷ []) (refused_b ∷ []) health).0.rejected
    ≡ or_else (entry (file (text "a.min.js")) (refused_b ∷ [])) (
        if contains (file (text "a.min.js")) (file (text "a.min.js") ∷ [])
        then none
        else entry (file (text "a.min.js")) health.rejected)
replace_rejected-entry_example =
    replace_rejected-entry (file (text "a.min.js") ∷ []) (refused_b ∷ []) health
      (file (text "a.min.js")) (omega arith)
