-- ===== src/Idle/Watching.antt =====
-- When the watchdog of crates/mesh-daemon/src/idle.rs ends the daemon, told by the polls alone.
use causalmesh.Prelude.{
  ℕ, ◌+◌, ◌-◌, ◌≤◌, ◌<◌, Bool, true, false, ◌≡◌, ◌≢◌, refl, Option, none, some, List, [], ◌∷◌, ltb,
  leb, nat_beq, ◌&&◌, any, if◌then◌else◌, arith, length, suc, inl, inr, Option-cases,
}
use causalmesh.Idle.{
  Timing, Poll, Watch, Outcome, looping, broken, cancelled, next, run, poll_once, increment,
  decrement, usize_mod,
}

-- Some round so far saw a client.
abbrev pub any_client : List Poll → Bool
any_client = any (λ p. ltb 0 p.active)

-- The latest rounds, as far back as none of them saw a client.
abbrev pub idle_rounds : List Poll → List Poll
idle_rounds [] = []
idle_rounds (p ∷ older) =
    let rest = idle_rounds older in if nat_beq p.active 0 then p ∷ rest else []

-- When the oldest of some rounds read the clock.
abbrev pub oldest : List Poll → Option ℕ
oldest [] = none
oldest (p ∷ []) = some p.now
oldest (p ∷ q ∷ older) = oldest (q ∷ older)

-- What the loop remembers of its rounds.
abbrev pub summary : List Poll → Watch
summary h = record {
  ever_had_client = any_client h;
  idle_since = if any_client h then oldest (idle_rounds h) else none;
}

-- The deadline that a round checks has passed: without a client in this round, the idle time
-- since the oldest of the latest idle rounds reaches the timeout, or, if no client ever was, the
-- time since the start reaches the grace period.
abbrev pub due : Timing → Poll → List Poll → Bool
due t p h =
    nat_beq p.active 0
    && (if any_client h
        then elim (oldest (idle_rounds (p ∷ h))) [
          | none ↦ false
          | some began ↦ leb t.idle_timeout (p.read_at - began)
        ]
        else leb t.startup_grace (p.read_at - t.started_at))

oldest-cons :
    (p : Poll) (h : List Poll)
    → oldest (p ∷ h) ≡ elim (oldest h) [ none ↦ some p.now | some began ↦ some began ]
oldest-cons p [] = refl
oldest-cons p (q ∷ []) = refl
oldest-cons p (q ∷ r ∷ h) = oldest-cons p (r ∷ h)

poll_once-summary :
    (t : Timing) (p : Poll) (h : List Poll)
    → poll_once t (summary h) p ≡ (
        if p.is_cancelled
        then broken
        else if due t p h
        then cancelled
        else looping (summary (p ∷ h)))
unfolding poll_once
poll_once-summary t p h = ground (arith, oldest-cons p (idle_rounds h))

-- A loop that goes on remembers exactly the summary of its rounds.
run-summary : (t : Timing) (h : List Poll) (w : Watch) → run t h ≡ looping w → w ≡ summary h
unfolding run
run-summary t [] w e = ground arith
run-summary t (p ∷ h) w e = go (run t h) (run-summary t h) e
  where
    go :
        (o : Outcome)
        → ((v : Watch) → o ≡ looping v → v ≡ summary h)
        → next t o p ≡ looping w
        → w ≡ summary (p ∷ h)
    go (looping v) ih now = ground (arith, ih v refl, poll_once-summary t p h)
    go broken ih now = cc now
    go cancelled ih now = cc now

-- While the watchdog loops, a round ends it quietly if the token is cancelled already, ends the
-- daemon exactly if a deadline has passed (no client in this round, and the timeout spent since
-- the oldest of the latest rounds without one, or the grace period if no client ever was), and
-- goes on otherwise.
pub run-decides :
    (t : Timing) (p : Poll) (h : List Poll) (w : Watch)
    → run t h ≡ looping w
    → run t (p ∷ h) ≡ (
        if p.is_cancelled
        then broken
        else if due t p h
        then cancelled
        else looping (summary (p ∷ h)))
unfolding run
run-decides t p h w e =
    let s : w ≡ summary h = run-summary t h w e in rw e (rw s (poll_once-summary t p h))

-- Clients that come (`true`) and go (`false`), the newest event first.
pub count : List Bool → ℕ
unfolding increment decrement
count [] = 0
count (true ∷ older) = increment (count older)
count (false ∷ older) = decrement (count older)

-- Those still connected; `none` if more left than came.
unfoldable pub connected : List Bool → Option ℕ
connected [] = some 0
connected (true ∷ older) = elim (connected older) [ none ↦ none | some n ↦ some (n + 1) ]
connected (false ∷ older) = elim (connected older) [
  | none ↦ none
  | some n ↦ if nat_beq n 0 then none else some (n - 1)
]

gone_for_good :
    (b : Bool) (older : List Bool) (n : ℕ) → connected older ≡ none → connected (b ∷ older) ≢ some n
unfolding connected
gone_for_good true older n gone e = ground arith
gone_for_good false older n gone e = ground arith

one_event :
    (b : Bool) (older : List Bool) (m n : ℕ)
    → connected older ≡ some m
    → connected (b ∷ older) ≡ some n
    → m ≤ length older
    → n ≤ suc (length older)
unfolding connected
one_event true older m n before e h = ground arith
one_event false older m n before e h = ground arith

connected-le-length : (events : List Bool) (n : ℕ) → connected events ≡ some n → n ≤ length events
unfolding connected
connected-le-length [] n e = ground arith
connected-le-length (b ∷ older) n e = elim (Option-cases (connected older)) [
  | inl gone ↦ absurd (gone_for_good b older n gone e)
  | inr (m, before) ↦ one_event b older m n before e (connected-le-length older m before)
]

-- The wrapping counter is the number of connected clients, as long as nobody leaves who did not
-- come and there are fewer events than the counter has values.
pub count-connected :
    (events : List Bool) (n : ℕ)
    → length events < usize_mod
    → connected events ≡ some n
    → count events ≡ n
unfolding count connected
count-connected [] n fits e = ground arith
count-connected (true ∷ older) n fits e = elim (Option-cases (connected older)) [
  | inl gone ↦ absurd (gone_for_good true older n gone e)
  | inr (m, before) ↦
      ground
        (arith, connected-le-length older m before, count-connected older m (omega arith) before)
]
count-connected (false ∷ older) n fits e = elim (Option-cases (connected older)) [
  | inl gone ↦ absurd (gone_for_good false older n gone e)
  | inr (m, before) ↦
      ground
        (arith, connected-le-length older m before, count-connected older m (omega arith) before)
]
