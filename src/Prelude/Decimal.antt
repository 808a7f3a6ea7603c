-- ===== src/Prelude/Decimal.antt =====
-- Unsigned integers of up to 64 bits as their decimal text, as `Display` writes them.
use Prim.Native.Nat.{ℕ, zero, suc, ◌+◌, ◌/◌, ◌%◌}
use mathlib.Core.List.{[], ◌∷◌, ◌++◌}
use causalmesh.Prelude.Tests.{ltb, if◌then◌else◌}
use causalmesh.Prelude.Text.{Text}

abbrev pub digit : ℕ → ℕ
digit n = b'0' + n % 10

-- at most `fuel` digits
abbrev pub decimal_from : ℕ → ℕ → Text
decimal_from zero n = []
decimal_from (suc fuel) n =
    let rest = decimal_from fuel (n / 10) in
    if ltb n 10 then digit n ∷ [] else rest ++ (digit n ∷ [])

-- Twenty digits are enough below 2 ^ 64.
unfoldable pub decimal : ℕ → Text
decimal n = decimal_from 20 n
