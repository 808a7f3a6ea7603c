-- ===== src/Idle/Tests.antt =====
-- The watchdog at concrete polls.
use causalmesh.Prelude.{ℕ, ◌+◌, ◌≡◌, refl, true, false, some, List, [], ◌∷◌, arith, if◌then◌else◌}
use causalmesh.Idle.{Timing, Poll, Watch, looping, broken, cancelled, run}
use causalmesh.Idle.Watching.{summary, due, connected, count, run-decides, count-connected}

abbrev timing : Timing
timing = record { started_at = 0; idle_timeout = 10; startup_grace = 60 }

-- a round with some clients at some time
abbrev poll : ℕ → ℕ → Poll
poll active now = record { is_cancelled = false; active = active; now = now; read_at = now + 1 }

abbrev rounds : List Poll
rounds = poll 0 20 ∷ poll 2 10 ∷ poll 0 5 ∷ []

abbrev still_idle : Watch
still_idle = record { ever_had_client = true; idle_since = some 20 }

run-decides_example : run timing (poll 0 25 ∷ rounds) ≡ (
    if false
    then broken
    else if due timing (poll 0 25) rounds
    then cancelled
    else looping (summary (poll 0 25 ∷ rounds)))
unfolding run
run-decides_example = run-decides timing (poll 0 25) rounds still_idle refl

count-connected_example : count (false ∷ true ∷ true ∷ []) ≡ 1
unfolding connected
count-connected_example = count-connected (false ∷ true ∷ true ∷ []) 1 (omega arith) refl
