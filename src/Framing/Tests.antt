-- ===== src/Framing/Tests.antt =====
-- Three frames from a writer to a reader.
use causalmesh.Prelude.{ℕ, Bool, ◌||◌, List, [], ◌∷◌, ◌++◌, map, retain, ◌==◌, nat_eq, ◌≡◌, refl}
use causalmesh.Prelude.Text.{Text, text}
use causalmesh.Graph.Topics.{trim_both}
use causalmesh.Framing.{newline, writer, reader, read_lines, eof}
use causalmesh.Framing.Lines.{sent, met, is_frame, reader-writer}

abbrev is_blank : ℕ → Bool
is_blank c = c == b' ' || c == newline

abbrev messages : List Text
messages = text " {a}" ∷ text "  " ∷ (text "{b}" ++ (newline ∷ [])) ∷ []

reader-writer_example :
    reader is_blank (map met (read_lines (writer (map sent messages))) ++ (eof ∷ []))
    ≡ retain is_frame (map (trim_both is_blank) messages)
reader-writer_example = reader-writer is_blank refl messages [] (refl, (refl, (refl, tt)))
