-- ===== src/Framing.antt =====
-- The two actors on standard input and output (crates/mesh-server/src/framing.rs): one writes a
-- frame to a line, the other reads lines and passes their frames on. The actors are functions of
-- the events that they meet; the whitespace of Unicode is a parameter.
pub mod Lines
pub mod Tests
use causalmesh.Prelude.{ℕ, Bool, true, false, List, [], ◌∷◌, ◌++◌, if◌then◌else◌, ◌==◌, nat_eq}
use causalmesh.Prelude.Text.{Text, is_nil}
use causalmesh.Graph.Topics.{trim_both}

abbrev pub newline : ℕ
newline = b'\n'

abbrev pub ends_line : Text → Bool
ends_line [] = false
ends_line (c ∷ []) = c == newline
ends_line (c ∷ d ∷ s) = ends_line (d ∷ s)

-- What the writer meets: the cancellation, the end of its senders, or a message, with whether its
-- writing, that of a newline after it, and the flushing fail.
pub data WriterEvent : Type 0 where
  cancelled closed : WriterEvent
  message : Text → Bool → Bool → Bool → WriterEvent

-- a message as it is written
abbrev pub frame : Text → Text
frame line = if ends_line line then line else line ++ (newline ∷ [])

-- What the writer hands to standard output; what fails may be written in part, and is left out.
unfoldable pub writer : List WriterEvent → Text
writer [] = []
writer (cancelled ∷ events) = []
writer (closed ∷ events) = []
writer (message line write_fails newline_fails flush_fails ∷ events) =
    let rest = writer events in
    let written = if newline_fails then line else frame line in
    if write_fails then [] else if flush_fails then written else written ++ rest

-- What the reader meets: the cancellation, the end of its input, a line, an interruption, or an
-- error; a line comes with whether the frames' receiver is still there.
pub data ReaderEvent : Type 0 where
  stopped eof interrupted failed : ReaderEvent
  line : Text → Bool → ReaderEvent

module _ (is_whitespace : ℕ → Bool) where
  -- The frames that the reader passes on.
  unfoldable pub reader : List ReaderEvent → List Text
  reader [] = []
  reader (stopped ∷ events) = []
  reader (eof ∷ events) = []
  reader (interrupted ∷ events) = reader events
  reader (failed ∷ events) = []
  reader (line content is_open ∷ events) =
      let rest = reader events in
      let trimmed = trim_both is_whitespace content in
      if is_nil trimmed then rest else if is_open then trimmed ∷ rest else []

unfoldable pub glue : ℕ → List Text → List Text
glue c [] = (c ∷ []) ∷ []
glue c (l ∷ ls) = (c ∷ l) ∷ ls

-- `read_line`, until the end of the input
unfoldable pub read_lines : Text → List Text
unfolding glue
read_lines [] = []
read_lines (c ∷ cs) =
    let rest = read_lines cs in if c == newline then (c ∷ []) ∷ rest else glue c rest
