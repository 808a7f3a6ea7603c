-- ===== src/Subject/Tests.antt =====
-- Subjects and names at concrete texts.
use causalmesh.Prelude.{◌≡◌, ◌↔◌, true, false, any, nat_eq, list_eq}
use causalmesh.Prelude.Text.{text, is_nil}
use causalmesh.Subject.{subject_dialect, subject_matches}
use causalmesh.Subject.Wildcards.{Matches, tokens, subject_matches-Matches}

subject_matches-Matches_example : (subject_matches (text "a.*.>") (text "a.b.c.d") ≡ true) ↔ (
    (any is_nil (tokens (text "a.*.>") (text "a.b.c.d")) ≡ false)
    × Matches
        (subject_dialect (text "a.*.>"))
        (tokens (text "a.*.>") (text "a.*.>"))
        (tokens (text "a.*.>") (text "a.b.c.d")))
subject_matches-Matches_example = subject_matches-Matches (text "a.*.>") (text "a.b.c.d")
