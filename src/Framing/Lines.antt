-- ===== src/Framing/Lines.antt =====
-- The frames that pass from a writer to a reader.
use mathlib.Core.Path.{subst}
use mathlib.Core.List.{reverse, reverse-append}
use causalmesh.Prelude.{
  ℕ, Bool, true, false, not, ◌&&◌, List, [], ◌∷◌, ◌++◌, map, retain, All, if◌then◌else◌, ◌==◌,
  nat_eq, Bool-cases, ◌≡◌, refl, sym, ap, ◌∙◌, ◌⊎◌, inl, inr, arith,
}
use causalmesh.Prelude.Text.{Text, is_nil}
use causalmesh.Graph.Topics.{trim_front, trim_both}
use causalmesh.Framing.{
  newline, ends_line, WriterEvent, message, frame, writer, ReaderEvent, eof, line, reader, glue,
  read_lines,
}

-- A message with a newline at its end at most.
abbrev pub is_single : Text → Bool
is_single [] = true
is_single (c ∷ []) = true
is_single (c ∷ d ∷ s) = not (c == newline) && is_single (d ∷ s)

frame-cons : (c d : ℕ) (s : Text) → frame (c ∷ d ∷ s) ≡ c ∷ frame (d ∷ s)
frame-cons c d s = elim (Bool-cases (ends_line (d ∷ s))) [ inl e ↦ rw e refl | inr e ↦ rw e refl ]

read_lines-cons :
    (c : ℕ) (cs : Text) → (c == newline) ≡ false → read_lines (c ∷ cs) ≡ glue c (read_lines cs)
unfolding read_lines
read_lines-cons c cs e = rw e refl

-- The reader finds the frame of such a message as a line.
read_lines-frame :
    (m rest : Text) → is_single m ≡ true → read_lines (frame m ++ rest) ≡ frame m ∷ read_lines rest
unfolding read_lines glue
read_lines-frame [] rest e = refl
read_lines-frame (c ∷ []) rest e = elim (Bool-cases (c == newline)) [
  | inl n ↦ rw n (rw n refl)
  | inr o ↦ rw o (rw o refl)
]
read_lines-frame (c ∷ d ∷ s) rest e =
    let other : (c == newline) ≡ false = ground arith in
    subst (λ f. read_lines (f ++ rest) ≡ f ∷ read_lines rest) (sym (frame-cons c d s))
      (read_lines-cons c (frame (d ∷ s) ++ rest) other
        ∙ ap (glue c) (read_lines-frame (d ∷ s) rest (ground arith)))

-- What every successful sending writes, and what the reader meets of it.
abbrev pub sent : Text → WriterEvent
sent m = message m false false false

abbrev pub met : Text → ReaderEvent
met l = line l true

-- A frame that is not blank.
abbrev pub is_frame : Text → Bool
is_frame m = not (is_nil m)

module _ (is_whitespace : ℕ → Bool) (w : is_whitespace newline ≡ true) where
  trim_front-newline :
      (m : Text)
      → ((trim_front is_whitespace m ≡ []) × (trim_front is_whitespace (m ++ (newline ∷ [])) ≡ []))
        ⊎ (trim_front is_whitespace (m ++ (newline ∷ []))
            ≡ trim_front is_whitespace m ++ (newline ∷ []))
  unfolding trim_front
  trim_front-newline [] = inl (refl, rw w refl)
  trim_front-newline (c ∷ m) = ground (arith, trim_front-newline m)

  trim_front-drop : (m : Text) → trim_front is_whitespace (newline ∷ m) ≡ trim_front is_whitespace m
  unfolding trim_front
  trim_front-drop m = rw w refl

  trim_both-newline :
      (m : Text) → trim_both is_whitespace (m ++ (newline ∷ [])) ≡ trim_both is_whitespace m
  unfolding trim_both trim_front
  trim_both-newline m = elim (trim_front-newline m) [
    | inl (e, f) ↦ ap (λ t. reverse (trim_front is_whitespace (reverse t))) (f ∙ sym e)
    | inr e ↦
        ap (λ t. reverse (trim_front is_whitespace (reverse t))) e
        ∙ ap (λ t. reverse (trim_front is_whitespace t))
            (reverse-append (trim_front is_whitespace m) (newline ∷ []))
        ∙ ap reverse (trim_front-drop (reverse (trim_front is_whitespace m)))
  ]

  trim_both-frame : (m : Text) → trim_both is_whitespace (frame m) ≡ trim_both is_whitespace m
  trim_both-frame m = elim (Bool-cases (ends_line m)) [
    | inl e ↦ rw e refl
    | inr e ↦ rw e (trim_both-newline m)
  ]

  abbrev passed : Text → List Text → List Text
  passed t rest = if is_nil t then rest else t ∷ rest

  passed-is_frame :
      (t : Text) (rest : List Text) → passed t rest ≡ (if is_frame t then t ∷ rest else rest)
  passed-is_frame t rest = ground arith

  reader-met :
      (l : Text) (events : List ReaderEvent)
      → reader is_whitespace (met l ∷ events)
        ≡ passed (trim_both is_whitespace l) (reader is_whitespace events)
  unfolding reader
  reader-met l events = refl

  -- What a writer sends without failures, a reader of the lines passes on: every message that is
  -- not blank, trimmed, in their order; the messages have a newline at their end at most, and a
  -- newline is whitespace.
  pub reader-writer :
      (messages : List Text) (after : List ReaderEvent)
      → All (λ m. is_single m ≡ true) messages
      → reader is_whitespace (map met (read_lines (writer (map sent messages))) ++ (eof ∷ after))
        ≡ retain is_frame (map (trim_both is_whitespace) messages)
  unfolding writer read_lines reader
  reader-writer [] after s = refl
  reader-writer (m ∷ messages) after s =
      let sent_rest = writer (map sent messages) in
      let events : List Text → List ReaderEvent = λ ls. map met ls ++ (eof ∷ after) in
      ap (λ ls. reader is_whitespace (events ls)) (read_lines-frame m sent_rest s.0)
      ∙ reader-met (frame m) (events (read_lines sent_rest))
      ∙ ap (λ t. passed t (reader is_whitespace (events (read_lines sent_rest))))
          (trim_both-frame m)
      ∙ ap (passed (trim_both is_whitespace m)) (reader-writer messages after s.1)
      ∙ passed-is_frame (trim_both is_whitespace m)
          (retain is_frame (map (trim_both is_whitespace) messages))
