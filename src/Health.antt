-- ===== src/Health.antt =====
-- What happened to every file the indexer looked at (crates/mesh-core/src/health.rs): the counters,
-- and the list of the files that are not in the index. The counters are unbounded.
pub mod Rejected
pub mod Ascending
pub mod Tests
use causalmesh.Prelude.{
  ℕ, ◌+◌, ◌-◌, Bool, true, false, ◌&&◌, not, Option, none, some, List, [], ◌∷◌, ◌++◌, PartialEq,
  ◌==◌, nat_eq, list_eq, list_beq, list_beq_iff, nat_beq_iff, if◌then◌else◌, retain, contains,
  length, take, max, ◌≡◌, ◌↔◌, arith,
}
use causalmesh.Prelude.Paths.{FilePath, component_eq}
use causalmesh.Prelude.Order.{path_leb}
use causalmesh.Config.{option_beq, option_beq_iff}

abbrev pub max_rejected_files : ℕ
max_rejected_files = 10000

pub data RejectReason : Type 0 where
  oversized binary long_line deep_nesting read_error parse_failed : RejectReason

abbrev reason_beq : RejectReason → RejectReason → Bool
reason_beq oversized oversized = true
reason_beq binary binary = true
reason_beq long_line long_line = true
reason_beq deep_nesting deep_nesting = true
reason_beq read_error read_error = true
reason_beq parse_failed parse_failed = true
reason_beq _ _ = false

pub reason_beq_iff : (a b : RejectReason) → (reason_beq a b ≡ true) ↔ (a ≡ b)
reason_beq_iff a b = ground arith

pub record RejectedFile : Type 0 where
  pub path : FilePath
  pub reason : RejectReason
  pub size_bytes : ℕ
  pub detail : Option ℕ

abbrev rejected_beq : RejectedFile → RejectedFile → Bool
rejected_beq a b =
    a.path == b.path
    && (reason_beq a.reason b.reason
        && (a.size_bytes == b.size_bytes && option_beq a.detail b.detail))

pub rejected_beq_iff : (a b : RejectedFile) → (rejected_beq a b ≡ true) ↔ (a ≡ b)
rejected_beq_iff a b = ground (
  arith,
  list_beq_iff a.path b.path,
  reason_beq_iff a.reason b.reason,
  nat_beq_iff a.size_bytes b.size_bytes,
  option_beq_iff a.detail b.detail,
)

instance abbrev pub rejected_eq : PartialEq RejectedFile
rejected_eq = record { eq = rejected_beq; eq_iff = rejected_beq_iff }

pub record IndexHealth : Type 0 where
  pub files_scanned : ℕ
  pub files_indexed : ℕ
  pub files_rejected_oversized : ℕ
  pub files_rejected_guard : ℕ
  pub files_read_error : ℕ
  pub files_parse_failed : ℕ
  pub rejected : List RejectedFile
  pub rejected_overflow : ℕ
  pub files_skipped_non_source : ℕ

abbrev pub record_scanned : ℕ → IndexHealth → IndexHealth
record_scanned n h = record h { files_scanned = h.files_scanned + n }

abbrev pub record_indexed : IndexHealth → IndexHealth
record_indexed h = record h { files_indexed = h.files_indexed + 1 }

abbrev pub record_oversized : IndexHealth → IndexHealth
record_oversized h = record h { files_rejected_oversized = h.files_rejected_oversized + 1 }

abbrev pub record_guard_rejected : IndexHealth → IndexHealth
record_guard_rejected h = record h { files_rejected_guard = h.files_rejected_guard + 1 }

abbrev pub record_read_error : IndexHealth → IndexHealth
record_read_error h = record h { files_read_error = h.files_read_error + 1 }

abbrev pub record_parse_failed : IndexHealth → IndexHealth
record_parse_failed h = record h { files_parse_failed = h.files_parse_failed + 1 }

abbrev pub record_skipped_non_source : IndexHealth → IndexHealth
record_skipped_non_source h = record h { files_skipped_non_source = h.files_skipped_non_source + 1 }

unfoldable pub record_rejected_file_detail :
    FilePath → RejectReason → ℕ → Option ℕ → IndexHealth → IndexHealth
record_rejected_file_detail path reason size detail h = record h {
  rejected =
      h.rejected
      ++ record { path = path; reason = reason; size_bytes = size; detail = detail } ∷ [];
}

-- the stable sort by path: an entry stands before the later ones of its path
unfoldable pub insert_sorted : RejectedFile → List RejectedFile → List RejectedFile
insert_sorted r [] = r ∷ []
insert_sorted r (s ∷ rs) =
    let rest = insert_sorted r rs in if path_leb r.path s.path then r ∷ s ∷ rs else s ∷ rest

unfoldable pub sort_by_path : List RejectedFile → List RejectedFile
unfolding insert_sorted
sort_by_path [] = []
sort_by_path (r ∷ rs) = insert_sorted r (sort_by_path rs)

-- one round of the loop over the sorted entries: the last entry of the output is replaced, or `r`
-- is pushed
unfoldable pub put_last : RejectedFile → List RejectedFile → List RejectedFile
put_last r [] = r ∷ []
put_last r (last ∷ []) = if last.path == r.path then r ∷ [] else last ∷ r ∷ []
put_last r (s ∷ t ∷ out) = s ∷ put_last r (t ∷ out)

unfoldable pub collapse : List RejectedFile → List RejectedFile → List RejectedFile
unfolding put_last
collapse [] out = out
collapse (r ∷ rs) out = collapse rs (put_last r out)

unfoldable pub normalize_rejected : IndexHealth → IndexHealth
unfolding sort_by_path collapse
normalize_rejected h =
    let out = collapse (sort_by_path h.rejected) [] in
    record h {
      rejected = take max_rejected_files out;
      rejected_overflow = max h.rejected_overflow (length out - max_rejected_files);
    }

-- The list after a reload pass, and whether it changed.
unfoldable pub replace_rejected :
    List FilePath → List RejectedFile → IndexHealth → IndexHealth × Bool
unfolding normalize_rejected
replace_rejected touched fresh h =
    let kept = retain (λ r. not (contains r.path touched)) h.rejected in
    let h' = normalize_rejected (record h { rejected = kept ++ fresh }) in
    (h', not (list_beq h'.rejected h.rejected))

unfoldable pub merge : IndexHealth → IndexHealth → IndexHealth
merge h other = record h {
  files_scanned = h.files_scanned + other.files_scanned;
  files_indexed = h.files_indexed + other.files_indexed;
  files_rejected_oversized = h.files_rejected_oversized + other.files_rejected_oversized;
  files_rejected_guard = h.files_rejected_guard + other.files_rejected_guard;
  files_read_error = h.files_read_error + other.files_read_error;
  files_parse_failed = h.files_parse_failed + other.files_parse_failed;
  files_skipped_non_source = h.files_skipped_non_source + other.files_skipped_non_source;
}

unfoldable pub total_rejected : IndexHealth → ℕ
total_rejected h = h.files_rejected_oversized + h.files_rejected_guard + h.files_read_error

unfoldable pub is_healthy : IndexHealth → Bool
is_healthy h = h.files_parse_failed == 0 && h.files_read_error == 0
