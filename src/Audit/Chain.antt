-- ===== src/Audit/Chain.antt =====
-- The chain that the rows of the audit trail form, over any sequence of calls.
use mathlib.Core.List.{append_assoc, append-nil}
use causalmesh.Prelude.{
  ℕ, ◌+◌, true, Option, none, some, List, [], ◌∷◌, ◌++◌, length, nat_eq, list_eq, ◌≡◌, refl, sym,
  ap, ◌∙◌, ◌⊎◌, inl, inr, arith, eq_refl,
}
use causalmesh.Prelude.Text.{Text}
use causalmesh.Prelude.Results.{ok}
use causalmesh.Audit.{
  Platform, AuditRow, AuditCall, Environment, genesis_hash, error_detail_sig, detail_sig,
  stored_detail, last_row, next_link, hash_input, new_row, record_entry_with_error, verify_detail,
  verify_row, verify_rows, verify_db,
}

-- the hash that the next row must name, after rows that follow `h`
abbrev pub end_hash : Text → List AuditRow → Text
end_hash h [] = h
end_hash h (row ∷ rows) = end_hash row.entry_hash rows

verify_rows-append :
    (p : Platform) (i : ℕ) (h : Text) (xs ys : List AuditRow)
    → verify_rows p i h xs ≡ ok true
    → verify_rows p i h (xs ++ ys) ≡ verify_rows p (i + length xs) (end_hash h xs) ys
unfolding verify_rows
verify_rows-append p i h [] ys e = ground arith
verify_rows-append p i h (x ∷ xs) ys e =
    ground (arith, verify_rows-append p (i + 1) x.entry_hash xs ys)

last_row-verified :
    (p : Platform) (i : ℕ) (h : Text) (x : AuditRow) (xs : List AuditRow)
    → verify_rows p i h (x ∷ xs) ≡ ok true
    → last_row (x ∷ xs) ≡ some (i + length xs, end_hash h (x ∷ xs))
unfolding verify_rows verify_row
last_row-verified p i h x [] e = ground arith
last_row-verified p i h x (y ∷ ys) e = ground (arith, last_row-verified p (i + 1) x.entry_hash y ys)

verify_detail-signed :
    (p : Platform) (seq : ℕ) (entry_hash : Text) (detail : Option Text)
    → verify_detail p seq entry_hash detail (detail_sig p entry_hash detail) ≡ ok tt
verify_detail-signed p seq entry_hash none = refl
verify_detail-signed p seq entry_hash (some detail) =
    rw (eq_refl (error_detail_sig p entry_hash detail)) refl

new_row-verified :
    (p : Platform) (now h : Text) (i : ℕ) (call : AuditCall)
    → verify_row p i h (new_row p now (i, h) call) ≡ ok tt
unfolding verify_row new_row hash_input
new_row-verified p now h i call =
    rw (eq_refl i, eq_refl h, eq_refl (new_row p now (i, h) call).entry_hash)
      (verify_detail-signed p i (new_row p now (i, h) call).entry_hash (stored_detail p call.error))

verify_rows-one :
    (p : Platform) (i : ℕ) (h : Text) (row : AuditRow)
    → verify_row p i h row ≡ ok tt
    → verify_rows p i h (row ∷ []) ≡ ok true
unfolding verify_rows
verify_rows-one p i h row e = rw e refl

-- A sequence of calls, by any number of processes: each is one immediate transaction.
unfoldable pub run : Platform → List (Environment × AuditCall) → List AuditRow → List AuditRow
run p [] rows = rows
run p ((env, call) ∷ calls) rows = run p calls (record_entry_with_error p env call rows).0

-- A call leaves the rows, or appends its own.
record-cases :
    (p : Platform) (env : Environment) (call : AuditCall) (rows : List AuditRow)
    → ((record_entry_with_error p env call rows).0 ≡ rows)
      ⊎ ((record_entry_with_error p env call rows).0
          ≡ rows ++ (new_row p env.now (next_link (last_row rows)) call ∷ []))
unfolding record_entry_with_error
record-cases p env call rows = ground arith

pub next_link-verified :
    (p : Platform) (rows : List AuditRow)
    → verify_rows p 0 genesis_hash rows ≡ ok true
    → next_link (last_row rows) ≡ (0 + length rows, end_hash genesis_hash rows)
next_link-verified p [] e = ground arith
next_link-verified p (x ∷ xs) e = rw (last_row-verified p 0 genesis_hash x xs e) (ground arith)

verify_rows-new_row :
    (p : Platform) (now : Text) (call : AuditCall) (rows : List AuditRow)
    → verify_rows p 0 genesis_hash rows ≡ ok true
    → verify_rows p 0 genesis_hash (rows ++ (new_row p now (next_link (last_row rows)) call ∷ []))
      ≡ ok true
verify_rows-new_row p now call rows e =
    rw
      (
        next_link-verified p rows e,
        verify_rows-append p 0 genesis_hash rows
            (new_row p now (0 + length rows, end_hash genesis_hash rows) call ∷ []) e,
      )
      (verify_rows-one p (0 + length rows) (end_hash genesis_hash rows)
        (new_row p now (0 + length rows, end_hash genesis_hash rows) call)
        (new_row-verified p now (end_hash genesis_hash rows) (0 + length rows) call))

record-verified :
    (p : Platform) (env : Environment) (call : AuditCall) (rows : List AuditRow)
    → verify_rows p 0 genesis_hash rows ≡ ok true
    → verify_rows p 0 genesis_hash (record_entry_with_error p env call rows).0 ≡ ok true
record-verified p env call rows e = elim (record-cases p env call rows) [
  | inl same ↦ rw same e
  | inr new ↦ rw new (verify_rows-new_row p env.now call rows e)
]

run-append :
    (p : Platform) (calls : List (Environment × AuditCall)) (rows : List AuditRow)
    → (added : List AuditRow) × (run p calls rows ≡ rows ++ added)
unfolding run
run-append p [] rows = ([], sym (append-nil rows))
run-append p ((env, call) ∷ calls) rows =
    let (added, e) = run-append p calls (record_entry_with_error p env call rows).0 in
    elim (record-cases p env call rows) [
      | inl same ↦ (added, e ∙ ap (λ r. r ++ added) same)
      | inr new ↦ (
        new_row p env.now (next_link (last_row rows)) call ∷ added,
        e
            ∙ ap (λ r. r ++ added) new
            ∙ append_assoc rows (new_row p env.now (next_link (last_row rows)) call ∷ []) added,
      )
    ]

-- A database that verifies still does after any calls, those that fail included, and every row
-- that it held is where it was.
pub verify_db-run :
    (p : Platform) (calls : List (Environment × AuditCall)) (rows : List AuditRow)
    → verify_db p (some rows) ≡ ok true
    → (verify_db p (some (run p calls rows)) ≡ ok true)
      × ((added : List AuditRow) × (run p calls rows ≡ rows ++ added))
unfolding verify_db run
verify_db-run p [] rows e = (e, run-append p [] rows)
verify_db-run p ((env, call) ∷ calls) rows e = (
  (verify_db-run p calls (record_entry_with_error p env call rows).0
      (record-verified p env call rows e)).0,
  run-append p ((env, call) ∷ calls) rows,
)
