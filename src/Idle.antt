-- ===== src/Idle.antt =====
-- The idle watchdog of the daemon (crates/mesh-daemon/src/idle.rs): the counter of connected
-- clients, and the loop that ends the daemon when nobody has been connected for long enough.
-- Each poll is an event with what the loop reads in that round: the clock may move between its
-- two readings.
pub mod Watching
pub mod Tests
use causalmesh.Prelude.{
  ℕ, ◌+◌, ◌-◌, ◌%◌, ◌^◌, Bool, true, false, Option, none, some, List, [], ◌∷◌, ltb, leb,
  if◌then◌else◌,
}

-- `usize`, whose atomic addition and subtraction wrap around
abbrev pub usize_mod : ℕ
usize_mod = 2 ^ 64

pub increment : ℕ → ℕ
increment count = (count + 1) % usize_mod

pub decrement : ℕ → ℕ
decrement count = (count + usize_mod - 1) % usize_mod

pub record Timing : Type 0 where
  pub started_at : ℕ
  pub idle_timeout : ℕ
  pub startup_grace : ℕ

-- One round: the token, the counter, the clock when an idle period is noted, and when the time
-- since then is taken.
pub record Poll : Type 0 where
  pub is_cancelled : Bool
  pub active : ℕ
  pub now : ℕ
  pub read_at : ℕ

pub record Watch : Type 0 where
  pub ever_had_client : Bool
  pub idle_since : Option ℕ

pub data Outcome : Type 0 where
  looping : Watch → Outcome
  broken : Outcome
  cancelled : Outcome

abbrev pub start : Watch
start = record { ever_had_client = false; idle_since = none }

-- `get_or_insert_with(Instant::now)`
abbrev pub since : Option ℕ → ℕ → ℕ
since none now = now
since (some t) now = t

pub poll_once : Timing → Watch → Poll → Outcome
poll_once t w p =
    if p.is_cancelled
    then broken
    else if ltb 0 p.active
    then looping (record { ever_had_client = true; idle_since = none })
    else if w.ever_had_client
    then (if leb t.idle_timeout (p.read_at - since w.idle_since p.now)
        then cancelled
        else looping (record w { idle_since = some (since w.idle_since p.now) }))
    else if leb t.startup_grace (p.read_at - t.started_at)
    then cancelled
    else looping w

abbrev pub next : Timing → Outcome → Poll → Outcome
unfolding poll_once
next t (looping w) p = poll_once t w p
next t broken p = broken
next t cancelled p = cancelled

-- The loop over the rounds so far, the newest first.
pub run : Timing → List Poll → Outcome
unfolding next
run t [] = looping start
run t (p ∷ older) = next t (run t older) p
