-- ===== src/Audit/Tests.antt =====
-- The audit trail at concrete calls, with a digest of one byte.
pub mod Messages
use Prim.Native.Nat.{◌%◌}
use causalmesh.Prelude.{
  ◌+◌, ◌*◌, ◌≤◌, ◌<◌, Option, none, some, List, [], ◌∷◌, ◌++◌, length, true, ◌≡◌, ◌⊎◌, refl,
}
use causalmesh.Prelude.Text.{Text, text}
use causalmesh.Prelude.Decimal.{decimal}
use causalmesh.Prelude.Results.{ok}
use causalmesh.Audit.{
  Platform, AuditRow, AuditCall, Environment, database, record_entry_with_error, verify_row,
  verify_rows, verify_db, hash_input, compute_sha256, error_detail_sig, new_row, genesis_hash,
}
use causalmesh.Audit.Chain.{run, verify_db-run}
use causalmesh.Audit.Binding.{SameChain, Collision, verify_db-binds, verify_row-unbound}

abbrev demo : Platform
demo = record {
  digest = λ input. length input % 256 ∷ [];
  files_json = λ files. text "[]";
  parse_files = λ json. some [];
  detail_json = λ e. e.message;
}

abbrev call : Option Text → AuditCall
call trace = record {
  session_id = text "s1";
  trace_id = trace;
  tool = text "read";
  args_json = text "{}";
  status = text "OK";
  files_accessed = [];
  secrets_redacted_count = 12;
  error = some (record { class = text "io"; code = 3; message = text "no file" });
}

abbrev up : Environment
up = record { now = text "10.5Z"; fault = none }

abbrev down : Environment
down = record { now = text "11.0Z"; fault = some (database (text "busy")) }

abbrev calls : Option Text → List (Environment × AuditCall)
calls trace = (up, call trace) ∷ (down, call none) ∷ (up, call none) ∷ []

verify_db-run_example :
    (verify_db demo (some (run demo (calls none) [])) ≡ ok true)
    × ((added : List AuditRow) × (run demo (calls none) [] ≡ [] ++ added))
unfolding verify_db verify_rows
verify_db-run_example = verify_db-run demo (calls none) [] refl

verify_db-binds_example :
    SameChain (run demo (calls none) []) (run demo (calls (some (text "t"))) []) ⊎ Collision demo
unfolding run record_entry_with_error new_row verify_db verify_rows verify_row hash_input
    compute_sha256 error_detail_sig decimal
verify_db-binds_example =
    verify_db-binds demo 1 (λ input. refl) (run demo (calls none) [])
      (run demo (calls (some (text "t"))) []) refl refl refl

abbrev row : AuditRow
row = new_row demo (text "10.5Z") (0, genesis_hash) (call none)

verify_row-unbound_example :
    verify_row demo 0 genesis_hash (record row { session_id = text "s1"; tool = text "read" })
    ≡ verify_row demo 0 genesis_hash
        (record row { session_id = text "s"; tool = text "1read"; trace_id = none })
verify_row-unbound_example =
    verify_row-unbound demo 0 genesis_hash (text "s") (text "1") (text "read") none row
