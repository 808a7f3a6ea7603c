-- ===== src/Audit/Binding.antt =====
-- What the hashes of the audit trail bind, and what they leave open.
use mathlib.Core.List.{append_assoc}
use causalmesh.Prelude.{
  ℕ, ◌+◌, ◌*◌, true, Option, some, List, [], ◌∷◌, ◌++◌, ◌==◌, length, Bool-cases, nat_eq, list_eq,
  list_beq_iff, nat_beq_iff, ◌≡◌, ◌≢◌, refl, sym, ap, ◌∙◌, ◌⊎◌, inl, inr, arith,
}
use causalmesh.Prelude.Text.{Text, concat}
use causalmesh.Prelude.Decimal.{decimal}
use causalmesh.Prelude.Results.{ok}
use causalmesh.Audit.{
  Platform, AuditRow, genesis_hash, last_row, next_link, hash_input, compute_sha256, verify_row,
  verify_rows, verify_db, hex_encode,
}
use causalmesh.Audit.Chain.{end_hash, next_link-verified}

-- Two texts with one hash.
pub Collision : Platform → Type 0
Collision p = (a : Text) × (b : Text) × (a ≢ b) × (compute_sha256 p a ≡ compute_sha256 p b)

abbrev pub SameChain : List AuditRow → List AuditRow → Type 0
SameChain [] [] = Unit
SameChain (x ∷ xs) (y ∷ ys) =
    (x.entry_seq ≡ y.entry_seq)
    × (x.prev_hash ≡ y.prev_hash)
    × (hash_input x ≡ hash_input y)
    × (x.entry_hash ≡ y.entry_hash)
    × SameChain xs ys
SameChain _ _ = ⊥

length-hex_encode : (bs : List ℕ) → length (hex_encode bs) ≡ 2 * length bs
length-hex_encode [] = omega arith
length-hex_encode (b ∷ bs) = omega (arith, length-hex_encode bs)

append-prefix : (a b c d : Text) → length a ≡ length b → a ++ c ≡ b ++ d → a ≡ b
append-prefix [] [] c d n e = refl
append-prefix [] (y ∷ b) c d n e = ground arith
append-prefix (x ∷ a) [] c d n e = ground arith
append-prefix (x ∷ a) (y ∷ b) c d n e = ground (arith, append-prefix a b c d)

-- The texts are equal, or they are two.
hash-injective :
    (p : Platform) (a b : Text) → compute_sha256 p a ≡ compute_sha256 p b → (a ≡ b) ⊎ Collision p
unfolding Collision
hash-injective p a b e = elim (Bool-cases (a == b)) [
  | inl same ↦ inl ((list_beq_iff a b).0 same)
  | inr other ↦ inr (a, b, (λ s. ground (arith, list_beq_iff a b)), e)
]

-- What a row that verifies says.
verify_row-ok :
    (p : Platform) (i : ℕ) (h : Text) (row : AuditRow)
    → verify_row p i h row ≡ ok tt
    → (row.entry_seq ≡ i)
      × (row.prev_hash ≡ h)
      × (compute_sha256 p (hash_input row) ≡ row.entry_hash)
unfolding verify_row
verify_row-ok p i h row e = ground (
  arith,
  list_beq_iff row.prev_hash h,
  nat_beq_iff row.entry_seq i,
  list_beq_iff (compute_sha256 p (hash_input row)) row.entry_hash,
)

verify_rows-cons :
    (p : Platform) (i : ℕ) (h : Text) (row : AuditRow) (rows : List AuditRow)
    → verify_rows p i h (row ∷ rows) ≡ ok true
    → (verify_row p i h row ≡ ok tt) × (verify_rows p (i + 1) row.entry_hash rows ≡ ok true)
unfolding verify_rows
verify_rows-cons p i h row rows e = ground arith

-- The hash input of a row begins with the hash before it.
hash_input-prefix : (row : AuditRow) → (rest : Text) × (hash_input row ≡ row.prev_hash ++ rest)
unfolding hash_input
hash_input-prefix row = elim (Bool-cases (row.chain_version == 1)) [
  | inl v ↦ (concat (row.timestamp ∷ row.session_id ∷ row.tool ∷ row.args_digest ∷ []), rw v refl)
  | inr v ↦ (
    concat (
        row.timestamp
        ∷ row.session_id
        ∷ row.tool
        ∷ row.args_digest
        ∷ row.status
        ∷ row.files_accessed
        ∷ decimal row.secrets_redacted_count
        ∷ []),
    rw v refl,
  )
]

prev_hash-hash_input :
    (x y : AuditRow)
    → length x.prev_hash ≡ length y.prev_hash
    → hash_input x ≡ hash_input y
    → x.prev_hash ≡ y.prev_hash
prev_hash-hash_input x y n e =
    let (a, ea) = hash_input-prefix x in
    let (b, eb) = hash_input-prefix y in
    append-prefix x.prev_hash y.prev_hash a b n (sym ea ∙ e ∙ eb)

hash_input-moved :
    (s t u : Text) (trace : Option Text) (row : AuditRow)
    → hash_input (record row { session_id = s ++ t; tool = u })
      ≡ hash_input (record row { session_id = s; tool = t ++ u; trace_id = trace })
unfolding hash_input
hash_input-moved s t u trace row = simp append_assoc

module _ (p : Platform) (size : ℕ) (is_fixed : (a : Text) → length (p.digest a) ≡ size) where
  length-entry_hash :
      (i : ℕ) (h : Text) (row : AuditRow)
      → verify_row p i h row ≡ ok tt
      → length row.entry_hash ≡ 2 * size
  unfolding compute_sha256
  length-entry_hash i h row e =
      rw (← (verify_row-ok p i h row e).2) (
        length-hex_encode (p.digest (hash_input row)) ∙ ap (λ n. 2 * n) (is_fixed (hash_input row)))

  rows-binding :
      (i : ℕ) (g h : Text) (xs ys : List AuditRow)
      → length g ≡ length h
      → length xs ≡ length ys
      → verify_rows p i g xs ≡ ok true
      → verify_rows p i h ys ≡ ok true
      → end_hash g xs ≡ end_hash h ys
      → ((g ≡ h) × SameChain xs ys) ⊎ Collision p
  rows-binding i g h [] [] l n v w e = inl (e, tt)
  rows-binding i g h [] (y ∷ ys) l n v w e = ground arith
  rows-binding i g h (x ∷ xs) [] l n v w e = ground arith
  rows-binding i g h (x ∷ xs) (y ∷ ys) l n v w e =
      let (vx, vs) = verify_rows-cons p i g x xs v in
      let (wy, ws) = verify_rows-cons p i h y ys w in
      let (ix, gx, cx) = verify_row-ok p i g x vx in
      let (iy, hy, cy) = verify_row-ok p i h y wy in
      elim (rows-binding (i + 1) x.entry_hash y.entry_hash xs ys
        (length-entry_hash i g x vx ∙ sym (length-entry_hash i h y wy)) (ground arith) vs ws e) [
          | inr c ↦ inr c
          | inl (same, rest) ↦
              elim (hash-injective p (hash_input x) (hash_input y) (cx ∙ same ∙ sym cy)) [
                | inr c ↦ inr c
                | inl input ↦
                    let prev =
                      prev_hash-hash_input x y (ap length gx ∙ l ∙ ap length (sym hy)) input in
                    inl (sym gx ∙ prev ∙ hy, (ix ∙ sym iy, prev, input, same, rest))
              ]
        ]

-- Two databases that verify and end in the same row hold the same chain, row by row, or there are
-- two texts with one hash; the digest's bytes are of a fixed number.
pub verify_db-binds :
    (p : Platform) (size : ℕ)
    → ((a : Text) → length (p.digest a) ≡ size)
    → (xs ys : List AuditRow) → verify_db p (some xs) ≡ ok true
    → verify_db p (some ys) ≡ ok true
    → last_row xs ≡ last_row ys
    → SameChain xs ys ⊎ Collision p
unfolding verify_db
verify_db-binds p size is_fixed xs ys v w e =
    let link : (0 + length xs, end_hash genesis_hash xs)
        ≡ (0 + length ys, end_hash genesis_hash ys) =
      sym (next_link-verified p xs v) ∙ ap next_link e ∙ next_link-verified p ys w in
    elim (rows-binding p size is_fixed 0 genesis_hash genesis_hash xs ys refl
      (ground (arith, ap (λ l. l.0) link)) v w (ap (λ l. l.1) link)) [
        | inl (same, chain) ↦ inl chain
        | inr c ↦ inr c
      ]

-- The hash takes the session and the tool as one text and leaves the trace out: a row verifies as
-- before once characters are moved from the session to the tool, under any trace.
pub verify_row-unbound :
    (p : Platform) (i : ℕ) (h s t u : Text) (trace : Option Text) (row : AuditRow)
    → verify_row p i h (record row { session_id = s ++ t; tool = u })
      ≡ verify_row p i h (record row { session_id = s; tool = t ++ u; trace_id = trace })
unfolding verify_row
verify_row-unbound p i h s t u trace row = rw (hash_input-moved s t u trace row) refl
