-- ===== src/Guard.antt =====
-- The lexical guards in front of the parsers (crates/mesh-parsers/src/guard.rs): size, binary
-- content, line length and nesting depth. File contents are lists of bytes.
pub mod Scan
pub mod Scanner
pub mod Limits
pub mod Tests
use causalmesh.Prelude.{
  ℕ, suc, ◌+◌, ◌*◌, Bool, true, false, ◌||◌, Option, none, some, List, [], ◌∷◌, length, take,
  contains, ltb, leb, max, if◌then◌else◌, ◌==◌, nat_eq, list_eq, map,
}
use mathlib.Core.List.{reverse}
use causalmesh.Prelude.Text.{Text, text, split, has_prefix, to_ascii_lower}
use causalmesh.Guard.Scan.{max_nesting_depth}

pub data GuardRejection : Type 0 where
  oversized : ℕ → ℕ → GuardRejection
  binary : GuardRejection
  long_line : ℕ → GuardRejection
  deep_nesting : ℕ → GuardRejection

-- `Result<(), GuardRejection>`
pub data Verdict : Type 0 where
  ok : Verdict
  err : GuardRejection → Verdict

abbrev pub max_file_size_bytes : ℕ
max_file_size_bytes = 384 * 1024

abbrev pub max_schema_file_size_bytes : ℕ
max_schema_file_size_bytes = 1536 * 1024

abbrev pub binary_sniff_len : ℕ
binary_sniff_len = 4096

abbrev pub max_line_len_bytes : ℕ
max_line_len_bytes = 1024

abbrev pub max_nesting_depth_limit : ℕ
max_nesting_depth_limit = 64

has_suffix : Text → Text → Bool
has_suffix suffix s = has_prefix (reverse suffix) (reverse s)

-- over the file name, `none` where the path has none that is valid UTF-8
is_contract_name : Text → Bool
unfolding has_suffix
is_contract_name filename =
    has_suffix (text ".proto") filename
    || (has_suffix (text ".pb.go") filename
        || (has_suffix (text "outerclass.java") filename
            || (has_suffix (text ".pb.ts") filename
                || (has_suffix (text "_pb2.py") filename
                    || (has_suffix (text ".pb.rs") filename
                        || (filename == text "openapi.yaml"
                            || (filename == text "openapi.json"
                                || (filename == text "asyncapi.yaml"
                                    || filename == text "asyncapi.json"))))))))

pub is_contract_or_schema : Option Text → Bool
unfolding is_contract_name
is_contract_or_schema none = false
is_contract_or_schema (some filename) = is_contract_name (map to_ascii_lower filename)

pub size_budget : Option Text → ℕ
unfolding is_contract_or_schema
size_budget filename =
    if is_contract_or_schema filename then max_schema_file_size_bytes else max_file_size_bytes

pub within_size_budget : Option Text → ℕ → Bool
unfolding size_budget
within_size_budget filename len = leb len (size_budget filename)

pub looks_binary : Text → Bool
looks_binary content = contains 0 (take binary_sniff_len content)

pub longest : List Text → ℕ
longest [] = 0
longest (line ∷ lines) = max (length line) (longest lines)

pub longest_line : Text → ℕ
unfolding longest
longest_line content = longest (split b'\n' content)

-- `len` is the size that the file's metadata has.
pub check_with_budget : ℕ → Text → ℕ → Verdict
check_with_budget len content max_bytes =
    if ltb max_bytes len
    then err (oversized len max_bytes)
    else if looks_binary content
    then err binary
    else if ltb max_line_len_bytes (longest_line content)
    then err (long_line (longest_line content))
    else if ltb max_nesting_depth_limit (max_nesting_depth content)
    then err (deep_nesting (max_nesting_depth content))
    else ok

pub check_path : Option Text → ℕ → Text → Verdict
unfolding check_with_budget size_budget
check_path filename len content = check_with_budget len content (size_budget filename)

is_ok : Verdict → Bool
is_ok ok = true
is_ok (err r) = false

pub should_parse_with_budget : ℕ → Text → ℕ → Bool
unfolding is_ok check_with_budget
should_parse_with_budget len content max_bytes = is_ok (check_with_budget len content max_bytes)

pub should_parse_path : Option Text → ℕ → Text → Bool
unfolding should_parse_with_budget size_budget
should_parse_path filename len content = should_parse_with_budget len content (size_budget filename)

pub should_parse : ℕ → Text → Bool
unfolding should_parse_with_budget
should_parse len content = should_parse_with_budget len content max_file_size_bytes
