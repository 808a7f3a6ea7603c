-- ===== src/Prelude/Paths.antt =====
-- Paths as the standard library of the source compares them: component by component.
use mathlib.Core.Path.{◌≡◌, refl, ap}
use mathlib.Core.Logic.{◌↔◌}
use mathlib.Core.Bool.{Bool, true, false, ◌&&◌}
use mathlib.Core.List.{List, [], ◌∷◌, ◌++◌}
use mathlib.Core.Option.{Option, none, some}
use native.Mathlib.Omega.{arith}
use causalmesh.Prelude.Equality.{PartialEq, ◌==◌, eq_refl, list_beq_iff, nat_eq, list_eq}
use causalmesh.Prelude.Text.{Text}

-- `std::path::Component`, without the prefixes of Windows
pub data Component : Type 0 where
  root_dir cur_dir parent_dir : Component
  normal : Text → Component

abbrev pub FilePath : Type 0
FilePath = List Component

abbrev pub component_beq : Component → Component → Bool
component_beq root_dir root_dir = true
component_beq cur_dir cur_dir = true
component_beq parent_dir parent_dir = true
component_beq (normal a) (normal b) = a == b
component_beq _ _ = false

pub component_beq_iff : (a b : Component) → (component_beq a b ≡ true) ↔ (a ≡ b)
component_beq_iff root_dir b = ground arith
component_beq_iff cur_dir b = ground arith
component_beq_iff parent_dir b = ground arith
component_beq_iff (normal x) root_dir = ground arith
component_beq_iff (normal x) cur_dir = ground arith
component_beq_iff (normal x) parent_dir = ground arith
component_beq_iff (normal x) (normal y) = ground (arith, list_beq_iff x y)

instance abbrev pub component_eq : PartialEq Component
component_eq = record { eq = component_beq; eq_iff = component_beq_iff }

-- `Path::strip_prefix`
unfoldable pub strip_prefix : FilePath → FilePath → Option FilePath
strip_prefix path [] = some path
strip_prefix [] (b ∷ base) = none
strip_prefix (c ∷ path) (b ∷ base) = elim (c == b) [ true ↦ strip_prefix path base | false ↦ none ]

-- `Path::starts_with`
unfoldable pub starts_with : FilePath → FilePath → Bool
starts_with path [] = true
starts_with [] (b ∷ base) = false
starts_with (c ∷ path) (b ∷ base) = c == b && starts_with path base

pub starts_with_to :
    (path base : FilePath)
    → starts_with path base ≡ true
    → (rest : FilePath) × (path ≡ base ++ rest)
unfolding starts_with
starts_with_to path [] h = (path, refl)
starts_with_to [] (b ∷ base) h = absurd (ground (arith, h))
starts_with_to (c ∷ path) (b ∷ base) h =
    let (rest, e) : (rest : FilePath) × (path ≡ base ++ rest) =
      starts_with_to path base ground (arith, h) in
    let same : c ≡ b = (component_beq_iff c b).0 ground (arith, h) in
    (rest, rw same (ap (λ l. b ∷ l) e))

pub starts_with_of : (base rest : FilePath) → starts_with (base ++ rest) base ≡ true
unfolding starts_with
starts_with_of [] [] = refl
starts_with_of [] (c ∷ rest) = refl
starts_with_of (b ∷ base) rest = ground (arith, eq_refl b, starts_with_of base rest)
