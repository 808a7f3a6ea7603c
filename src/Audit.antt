-- ===== src/Audit.antt =====
-- The audit trail (crates/mesh-core/src/audit.rs): one row per tool call, each bound to the one
-- before it by a hash. The table is the list of its rows in the order of the integer primary key.
-- `Platform` holds what the crates of hashing and JSON compute; `Environment` holds, for a call,
-- the clock and the failure of a lock or of SQLite, if there is one.
pub mod Chain
pub mod Binding
pub mod Timestamps
pub mod Secrets
pub mod Merging
pub mod Messages
pub mod Limits
pub mod Tests
use Prim.Native.Nat.{◌/◌}
use causalmesh.Prelude.{
  ℕ, ◌+◌, ◌-◌, ◌%◌, ◌^◌, Bool, true, false, Option, none, some, List, [], ◌∷◌, ◌++◌, ltb, ◌==◌,
  if◌then◌else◌, nat_eq, list_eq,
}
use causalmesh.Prelude.Text.{Text, text, concat}
use causalmesh.Prelude.Decimal.{decimal}
use causalmesh.Prelude.Results.{Result, ok, err, ◌>>◌, ◌>>=◌, require}

pub data AuditError : Type 0 where
  io serialization database : Text → AuditError
  broken_chain : ℕ → Text → Text → AuditError

-- `code` is the bit pattern of its `i32`.
pub record ErrorDetail : Type 0 where
  pub class : Text
  pub code : ℕ
  pub message : Text

-- SHA-256 of a text's bytes, and the JSON of a list of files and of an error's detail.
pub record Platform : Type 0 where
  pub digest : Text → List ℕ
  pub files_json : List Text → Text
  pub parse_files : Text → Option (List Text)
  pub detail_json : ErrorDetail → Text

pub record AuditEntry : Type 0 where
  pub entry_seq : ℕ
  pub prev_hash : Text
  pub timestamp : Text
  pub session_id : Text
  pub trace_id : Option Text
  pub tool : Text
  pub args_digest : Text
  pub status : Text
  pub files_accessed : List Text
  pub secrets_redacted_count : ℕ
  pub entry_hash : Text
  pub chain_version : ℕ
  pub error_detail : Option Text
  pub error_detail_sig : Option Text

-- A row of `audit_entries`: the columns, the files as the JSON text that was hashed.
pub record AuditRow : Type 0 where
  pub entry_seq : ℕ
  pub prev_hash : Text
  pub timestamp : Text
  pub session_id : Text
  pub trace_id : Option Text
  pub tool : Text
  pub args_digest : Text
  pub status : Text
  pub files_accessed : Text
  pub secrets_redacted_count : ℕ
  pub entry_hash : Text
  pub chain_version : ℕ
  pub error_detail : Option Text
  pub error_detail_sig : Option Text

-- what the caller passes to `record_entry_with_error`
pub record AuditCall : Type 0 where
  pub session_id : Text
  pub trace_id : Option Text
  pub tool : Text
  pub args_json : Text
  pub status : Text
  pub files_accessed : List Text
  pub secrets_redacted_count : ℕ
  pub error : Option ErrorDetail

-- The clock's text, and the error of the mutex or of a statement, after which the transaction is
-- dropped and rolled back.
pub record Environment : Type 0 where
  pub now : Text
  pub fault : Option AuditError

abbrev pub genesis_hash : Text
genesis_hash = text "0000000000000000000000000000000000000000000000000000000000000000"

abbrev pub current_version : ℕ
current_version = 2

abbrev hex_digit : ℕ → ℕ
hex_digit n = if ltb n 10 then b'0' + n else b'a' + (n - 10)

-- `hex::encode`
abbrev hex_encode : List ℕ → Text
hex_encode [] = []
hex_encode (b ∷ bs) = hex_digit (b / 16) ∷ hex_digit (b % 16) ∷ hex_encode bs

unfoldable pub compute_sha256 : Platform → Text → Text
compute_sha256 p input = hex_encode (p.digest input)

unfoldable pub error_detail_sig : Platform → Text → Text → Text
error_detail_sig p entry_hash error_detail = compute_sha256 p (entry_hash ++ error_detail)

abbrev row_entry : Platform → AuditRow → AuditEntry
row_entry p row = record {
  entry_seq = row.entry_seq;
  prev_hash = row.prev_hash;
  timestamp = row.timestamp;
  session_id = row.session_id;
  trace_id = row.trace_id;
  tool = row.tool;
  args_digest = row.args_digest;
  status = row.status;
  files_accessed = elim (p.parse_files row.files_accessed) [ none ↦ [] | some files ↦ files ];
  secrets_redacted_count = row.secrets_redacted_count;
  entry_hash = row.entry_hash;
  chain_version = row.chain_version;
  error_detail = row.error_detail;
  error_detail_sig = row.error_detail_sig;
}

-- `ORDER BY entry_seq DESC LIMIT 1`
abbrev pub last_row : List AuditRow → Option (ℕ × Text)
last_row [] = none
last_row (row ∷ []) = some (row.entry_seq, row.entry_hash)
last_row (row ∷ next ∷ rows) = last_row (next ∷ rows)

-- the sequence number and the previous hash of the next row
abbrev pub next_link : Option (ℕ × Text) → ℕ × Text
next_link none = (0, genesis_hash)
next_link (some (last_seq, last_hash)) = (last_seq + 1, last_hash)

-- The row's hash input under the formula of its version.
unfoldable pub hash_input : AuditRow → Text
hash_input row =
    if row.chain_version == 1
    then concat (row.prev_hash ∷ row.timestamp ∷ row.session_id ∷ row.tool ∷ row.args_digest ∷ [])
    else concat (
        row.prev_hash
        ∷ row.timestamp
        ∷ row.session_id
        ∷ row.tool
        ∷ row.args_digest
        ∷ row.status
        ∷ row.files_accessed
        ∷ decimal row.secrets_redacted_count
        ∷ [])

abbrev stored_detail : Platform → Option ErrorDetail → Option Text
stored_detail p none = none
stored_detail p (some e) = some (p.detail_json e)

abbrev detail_sig : Platform → Text → Option Text → Option Text
detail_sig p entry_hash none = none
detail_sig p entry_hash (some detail) = some (error_detail_sig p entry_hash detail)

unfoldable pub new_row : Platform → Text → ℕ × Text → AuditCall → AuditRow
new_row p now (seq, prev_hash) call =
    let args_digest = compute_sha256 p call.args_json in
    let files = p.files_json call.files_accessed in
    let entry_hash = compute_sha256 p (
      concat (
        prev_hash
        ∷ now
        ∷ call.session_id
        ∷ call.tool
        ∷ args_digest
        ∷ call.status
        ∷ files
        ∷ decimal call.secrets_redacted_count
        ∷ [])) in
    let error_detail = stored_detail p call.error in
    record {
      entry_seq = seq;
      prev_hash = prev_hash;
      timestamp = now;
      session_id = call.session_id;
      trace_id = call.trace_id;
      tool = call.tool;
      args_digest = args_digest;
      status = call.status;
      files_accessed = files;
      secrets_redacted_count = call.secrets_redacted_count;
      entry_hash = entry_hash;
      chain_version = current_version;
      error_detail = error_detail;
      error_detail_sig = detail_sig p entry_hash error_detail;
    }

-- what the call returns: the row with the files as they were passed
abbrev returned : Platform → AuditCall → AuditRow → AuditEntry
returned p call row = record (row_entry p row) { files_accessed = call.files_accessed }

abbrev out_of_range : AuditError
out_of_range = database (text "integer out of range")

-- `record_entry` is this with no error. SQLite's integers are signed: a larger key is refused.
unfoldable pub record_entry_with_error :
    Platform
    → Environment
    → AuditCall
    → List AuditRow
    → List AuditRow × Result AuditError AuditEntry
record_entry_with_error p env call rows = elim env.fault [
  | some e ↦ (rows, err e)
  | none ↦
      let row = new_row p env.now (next_link (last_row rows)) call in
      if ltb row.entry_seq (2 ^ 63)
      then (rows ++ (row ∷ []), ok (returned p call row))
      else (rows, err out_of_range)
]

-- The last check of a row: its detail, and the signature of that.
abbrev verify_detail : Platform → ℕ → Text → Option Text → Option Text → Result AuditError Unit
verify_detail p seq entry_hash none none = ok tt
verify_detail p seq entry_hash (some detail) (some sig) =
    let expected = error_detail_sig p entry_hash detail in
    require (expected == sig)
      (broken_chain seq (text "error_detail_sig " ++ expected) (text "error_detail_sig " ++ sig))
verify_detail p seq entry_hash (some detail) none =
    err (broken_chain seq (text "signed error_detail") (text "unsigned error_detail"))
verify_detail p seq entry_hash none (some sig) =
    err
      (broken_chain seq (text "no error_detail_sig") (text "error_detail_sig without error_detail"))

unfoldable pub verify_row : Platform → ℕ → Text → AuditRow → Result AuditError Unit
verify_row p expected_seq expected_prev row = do
  require (row.entry_seq == expected_seq) (
      broken_chain row.entry_seq (text "seq " ++ decimal expected_seq)
        (text "seq " ++ decimal row.entry_seq))
  require (row.prev_hash == expected_prev) (broken_chain row.entry_seq expected_prev row.prev_hash)
  require (compute_sha256 p (hash_input row) == row.entry_hash)
      (broken_chain row.entry_seq (compute_sha256 p (hash_input row)) row.entry_hash)
  verify_detail p row.entry_seq row.entry_hash row.error_detail row.error_detail_sig

-- the loop over the rows, from an index and the hash of the row before
unfoldable pub verify_rows : Platform → ℕ → Text → List AuditRow → Result AuditError Bool
verify_rows p i expected_prev [] = ok true
verify_rows p i expected_prev (row ∷ rows) =
    verify_row p i expected_prev row >>= λ _. verify_rows p (i + 1) row.entry_hash rows

-- `none` is a database that does not exist.
pub verify_db : Platform → Option (List AuditRow) → Result AuditError Bool
verify_db p none = ok true
verify_db p (some rows) = verify_rows p 0 genesis_hash rows
