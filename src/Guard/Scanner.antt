-- ===== src/Guard/Scanner.antt =====
-- The jumping scan of crates/mesh-parsers/src/guard.rs against an automaton that reads one byte
-- at a time.
use causalmesh.Prelude.{
  ℕ, zero, suc, ◌+◌, ◌-◌, ◌≤◌, true, ◌&&◌, ◌||◌, ◌≡◌, refl, sym, ap, some, [], ◌∷◌, length,
  if◌then◌else◌, ◌==◌, nat_eq, ltb, arith, Bool-cases, inl, inr, ◌∙◌,
}
use causalmesh.Prelude.Text.{Text}
use causalmesh.Guard.Scan.{
  skip_line, skip_block, skip_quoted, is_open, is_close, is_quote, next_is, behind_next, Round,
  round, scan, max_nesting_depth,
}

-- Where the automaton is: in code, in a comment, in a quoted text, or one byte before another
-- place.
pub data Mode : Type 0 where
  code line block : Mode
  quoted : ℕ → Mode
  before : Mode → Mode

next_mode : Mode → ℕ → Text → Mode
next_mode code b rest =
    if b == b'/' && next_is b'/' rest
    then before line
    else if b == b'/' && next_is b'*' rest
    then before block
    else if b == b'#'
    then line
    else if is_quote b
    then quoted b
    else code
next_mode line b rest = if b == b'\n' then code else line
next_mode block b rest = if b == b'*' && next_is b'/' rest then before code else block
next_mode (quoted q) b rest =
    if b == b'\\' then before (quoted q) else if b == q then code else quoted q
next_mode (before m) b rest = m

-- Brackets count in code alone.
next_depth : Mode → ℕ → ℕ → ℕ
next_depth code b depth = if is_open b then depth + 1 else if is_close b then depth - 1 else depth
next_depth _ b depth = depth

-- The deepest level, byte by byte.
pub deepest : Mode → Text → ℕ → ℕ → ℕ
deepest m [] depth most = most
deepest m (b ∷ rest) depth most =
    let depth' = next_depth m b depth in
    deepest (next_mode m b rest) rest depth' (if ltb most depth' then depth' else most)

module _ (depth most : ℕ) where
  line-skip :
      (s : Text) → depth ≤ most → deepest line s depth most ≡ deepest code (skip_line s) depth most
  unfolding deepest next_mode next_depth skip_line
  line-skip [] h = refl
  line-skip (b ∷ rest) h = ground (arith, line-skip rest)

  block-skip :
      (s : Text)
      → depth ≤ most
      → deepest block s depth most ≡ deepest code (skip_block s) depth most
  unfolding deepest next_mode next_depth skip_block
  block-skip [] h = refl
  block-skip (a ∷ []) h = ground arith
  block-skip (a ∷ b ∷ rest) h = ground (arith, block-skip (b ∷ rest))

  quoted-skip :
      (q : ℕ) (s : Text)
      → depth ≤ most
      → deepest (quoted q) s depth most ≡ deepest code (skip_quoted q s) depth most
  unfolding deepest next_mode next_depth skip_quoted
  quoted-skip q [] h = refl
  quoted-skip q (a ∷ []) h = ground arith
  quoted-skip q (a ∷ b ∷ rest) h = ground (arith, quoted-skip q (b ∷ rest), quoted-skip q rest)

length-skip_line-le : (s : Text) → length (skip_line s) ≤ length s
unfolding skip_line
length-skip_line-le [] = omega arith
length-skip_line-le (b ∷ rest) = ground (arith, length-skip_line-le rest)

length-skip_block-le : (s : Text) → length (skip_block s) ≤ length s
unfolding skip_block
length-skip_block-le [] = omega arith
length-skip_block-le (a ∷ []) = omega arith
length-skip_block-le (a ∷ b ∷ rest) = ground (arith, length-skip_block-le (b ∷ rest))

length-skip_quoted-le : (q : ℕ) (s : Text) → length (skip_quoted q s) ≤ length s
unfolding skip_quoted
length-skip_quoted-le q [] = omega arith
length-skip_quoted-le q (a ∷ []) = omega arith
length-skip_quoted-le q (a ∷ b ∷ rest) =
    ground (arith, length-skip_quoted-le q (b ∷ rest), length-skip_quoted-le q rest)

length-round-le :
    (b : ℕ) (rest : Text) (depth most : ℕ) → length (round b rest depth most).rest ≤ length rest
unfolding round
length-round-le b [] depth most = ground arith
length-round-le b (c ∷ rest) depth most = ground (
  arith,
  length-skip_line-le rest,
  length-skip_line-le (c ∷ rest),
  length-skip_block-le rest,
  length-skip_quoted-le b (c ∷ rest),
)

round_within :
    (b : ℕ) (rest : Text) (depth most : ℕ)
    → depth ≤ most
    → (round b rest depth most).depth ≤ (round b rest depth most).max_depth
unfolding round
round_within b rest depth most h = ground arith

module _ (depth most : ℕ) (h : depth ≤ most) where
  stays :
      (m : Mode) (s : Text)
      → deepest m s depth (if ltb most depth then depth else most) ≡ deepest m s depth most
  stays m s = ground arith

  line_comment :
      (b : ℕ) (rest : Text)
      → (b == b'/' && next_is b'/' rest) ≡ true
      → deepest (before line) rest depth most
        ≡ deepest code (skip_line (behind_next rest)) depth most
  unfolding deepest next_mode next_depth
  line_comment b [] e = ground arith
  line_comment b (c ∷ rest) e = ground (arith, line-skip depth most rest)

  block_comment :
      (b : ℕ) (rest : Text)
      → (b == b'/' && next_is b'*' rest) ≡ true
      → deepest (before block) rest depth most
        ≡ deepest code (skip_block (behind_next rest)) depth most
  unfolding deepest next_mode next_depth
  block_comment b [] e = ground arith
  block_comment b (c ∷ rest) e = ground (arith, block-skip depth most rest)

  -- a byte that opens no bracket, and the place it leads to
  enter :
      (m : Mode) (b : ℕ) (rest : Text)
      → next_mode code b rest ≡ m
      → next_depth code b depth ≡ depth
      → deepest code (b ∷ rest) depth most ≡ deepest m rest depth most
  unfolding deepest
  enter m b rest e q = rw e (rw q (stays m rest))

  quiet :
      (b : ℕ) → (b == b'/' || (b == b'#' || is_quote b)) ≡ true → next_depth code b depth ≡ depth
  unfolding next_depth
  quiet b e = ground arith

  capped :
      (s : Text)
      → deepest code s (depth - 1) (if ltb most (depth - 1) then depth - 1 else most)
        ≡ deepest code s (depth - 1) most
  capped s = ap (deepest code s (depth - 1)) (ground arith)

  -- any other byte
  plain :
      (b : ℕ) (rest : Text)
      → next_mode code b rest ≡ code
      → deepest code (b ∷ rest) depth most ≡ (
          let r : Round =
            if is_open b
            then record {
              rest = rest;
              depth = depth + 1;
              max_depth = if ltb most (depth + 1) then depth + 1 else most;
            }
            else if is_close b
            then record { rest = rest; depth = depth - 1; max_depth = most }
            else record { rest = rest; depth = depth; max_depth = most } in
          deepest code r.rest r.depth r.max_depth)
  unfolding deepest next_depth
  plain b rest e = elim (Bool-cases (is_open b)) [
    | inl o ↦ rw e (rw o)
    | inr o ↦ elim (Bool-cases (is_close b)) [
      | inl c ↦ rw e (rw o (rw c (capped rest)))
      | inr c ↦ rw e (rw o (rw c (stays code rest)))
    ]
  ]

  -- one round against as many steps of the automaton as it takes bytes
  deepest-round :
      (b : ℕ) (rest : Text)
      → deepest code (b ∷ rest) depth most
        ≡ (let r = round b rest depth most in deepest code r.rest r.depth r.max_depth)
  unfolding round
  deepest-round b rest = elim (Bool-cases (b == b'/' && next_is b'/' rest)) [
    | inl e ↦ rw e (
        enter (before line) b rest (unfold next_mode in rw e) (quiet b (ground arith))
        ∙ line_comment b rest e)
    | inr e1 ↦ elim (Bool-cases (b == b'/' && next_is b'*' rest)) [
      | inl e ↦ rw e1 (
          rw e (
            enter (before block) b rest (unfold next_mode in rw e1 (rw e)) (quiet b (ground arith))
            ∙ block_comment b rest e))
      | inr e2 ↦ elim (Bool-cases (b == b'#')) [
        | inl e ↦ rw e1 (
            rw e2 (
              rw e (
                enter line b rest (unfold next_mode in rw e1 (rw e2 (rw e)))
                  (quiet b (ground arith))
                ∙ line-skip depth most rest h)))
        | inr e3 ↦ elim (Bool-cases (is_quote b)) [
          | inl e ↦ rw e1 (
              rw e2 (
                rw e3 (
                  rw e (
                    enter (quoted b) b rest (unfold next_mode in rw e1 (rw e2 (rw e3 (rw e))))
                      (quiet b (ground arith))
                    ∙ quoted-skip depth most b rest h))))
          | inr e4 ↦ rw e1 (
              rw e2
                (rw e3 (rw e4 (plain b rest (unfold next_mode in rw e1 (rw e2 (rw e3 (rw e4))))))))
        ]
      ]
    ]
  ]

scan-deepest :
    (fuel : ℕ) (s : Text) (depth most : ℕ)
    → depth ≤ most
    → length s ≤ fuel
    → scan fuel s depth most ≡ some (deepest code s depth most)
unfolding scan deepest
scan-deepest zero [] depth most h f = refl
scan-deepest zero (b ∷ rest) depth most h f = absurd (omega arith)
scan-deepest (suc fuel) [] depth most h f = refl
scan-deepest (suc fuel) (b ∷ rest) depth most h f =
    let r = round b rest depth most in
    scan-deepest fuel r.rest r.depth r.max_depth (round_within b rest depth most h)
      (omega (arith, length-round-le b rest depth most))
    ∙ ap some (sym (deepest-round depth most h b rest))

-- The scan of a file ends, with fuel for each of its bytes, and its result is the deepest level
-- of brackets outside comments and quoted texts.
pub max_nesting_depth-deepest :
    (content : Text)
    → (scan (length content) content 0 0 ≡ some (max_nesting_depth content))
      × (max_nesting_depth content ≡ deepest code content 0 0)
unfolding max_nesting_depth
max_nesting_depth-deepest content =
    let e : scan (length content) content 0 0 ≡ some (deepest code content 0 0) =
      scan-deepest (length content) content 0 0 (omega arith) (omega arith) in
    (rw (e, max_nesting_depth), rw (e, max_nesting_depth))
