-- ===== src/Prelude/Order.antt =====
-- The order of paths, as the standard library of the source has it: component by component, the
-- names by their characters. As a test, and as relations that stand by themselves.
use Prim.Native.Nat.{ℕ, ◌<◌}
use mathlib.Core.Path.{◌≡◌, refl, ap, subst}
use mathlib.Core.Logic.{◌⊎◌, inl, inr}
use mathlib.Core.Bool.{Bool, true, false}
use mathlib.Core.List.{List, [], ◌∷◌}
use native.Mathlib.Omega.{arith}
use causalmesh.Prelude.Tests.{leb, if◌then◌else◌, Bool-cases}
use causalmesh.Prelude.Equality.{PartialEq, ◌==◌, nat_eq, list_eq, eq_refl}
use causalmesh.Prelude.Text.{Text}
use causalmesh.Prelude.Paths.{
  FilePath, Component, root_dir, cur_dir, parent_dir, normal, component_eq,
}

-- A list is before another if it ends where that goes on, or has the lesser element where they
-- first differ.
pub data Lexicographic {A : Type 0} (R : A → A → Type 0) : List A → List A → Type 0 where
  ends : {y : A} {ys : List A} → Lexicographic R [] (y ∷ ys)
  differs : {x y : A} {xs ys : List A} → R x y → Lexicographic R (x ∷ xs) (y ∷ ys)
  agrees : {x : A} {xs ys : List A} → Lexicographic R xs ys → Lexicographic R (x ∷ xs) (x ∷ ys)

-- Names by their characters.
abbrev pub NameBefore : Text → Text → Type 0
NameBefore = Lexicographic (λ x y. x < y)

-- The root is before `.`, that before `..`, and that before every name.
pub data ComponentBefore : Component → Component → Type 0 where
  root_cur : ComponentBefore root_dir cur_dir
  root_parent : ComponentBefore root_dir parent_dir
  root_name : {s : Text} → ComponentBefore root_dir (normal s)
  cur_parent : ComponentBefore cur_dir parent_dir
  cur_name : {s : Text} → ComponentBefore cur_dir (normal s)
  parent_name : {s : Text} → ComponentBefore parent_dir (normal s)
  names : {s t : Text} → NameBefore s t → ComponentBefore (normal s) (normal t)

abbrev pub PathBefore : FilePath → FilePath → Type 0
PathBefore = Lexicographic ComponentBefore

module _ {A : Type 0} ⦃e : PartialEq A⦄ (le : A → A → Bool) where
  abbrev lex_leb : List A → List A → Bool
  lex_leb [] ys = true
  lex_leb (x ∷ xs) [] = false
  lex_leb (x ∷ xs) (y ∷ ys) = let rest = lex_leb xs ys in if x == y then rest else le x y

  lex_leb_refl : (xs : List A) → lex_leb xs xs ≡ true
  lex_leb_refl [] = refl
  lex_leb_refl (x ∷ xs) = ground (arith, lex_leb_refl xs, eq_refl x)

  lex_leb-total :
      ((a b : A) → le a b ≡ false → le b a ≡ true)
      → (xs ys : List A) → lex_leb xs ys ≡ false
      → lex_leb ys xs ≡ true
  lex_leb-total total [] ys h = ground (arith, h)
  lex_leb-total total (x ∷ xs) [] h = refl
  lex_leb-total total (x ∷ xs) (y ∷ ys) h =
      ground (arith, h, lex_leb-total total xs ys, total x y, e.eq_iff x y, e.eq_iff y x)

  lex_leb-cases :
      (R : A → A → Type 0)
      → ((a : A) → le a a ≡ true)
      → ((a b : A) → le a b ≡ true → (a ≡ b) ⊎ R a b)
      → (xs ys : List A) → lex_leb xs ys ≡ true
      → (xs ≡ ys) ⊎ Lexicographic R xs ys
  lex_leb-cases R self sound [] [] h = inl refl
  lex_leb-cases R self sound [] (y ∷ ys) h = inr ends
  lex_leb-cases R self sound (x ∷ xs) [] h = ground (arith, h)
  lex_leb-cases R self sound (x ∷ xs) (y ∷ ys) h = elim (Bool-cases (x == y)) [
    | inr other ↦ elim (sound x y (ground (arith, h, other))) [
      | inl same ↦ absurd (ground (arith, other, same, eq_refl x, (e.eq_iff x y).1 same))
      | inr less ↦ inr (differs less)
    ]
    | inl same ↦
        let one : x ≡ y = (e.eq_iff x y).0 same in
        subst (λ z. ((x ∷ xs) ≡ (z ∷ ys)) ⊎ Lexicographic R (x ∷ xs) (z ∷ ys)) one
          (elim (lex_leb-cases R self sound xs ys (ground (arith, h, same))) [
            | inl rest ↦ inl (ap (λ l. x ∷ l) rest)
            | inr rest ↦ inr (agrees rest)
          ])
  ]

-- the kind of a component decides first, then the name
abbrev component_key : Component → List ℕ
component_key root_dir = 0 ∷ []
component_key cur_dir = 1 ∷ []
component_key parent_dir = 2 ∷ []
component_key (normal name) = 3 ∷ name

abbrev component_leb : Component → Component → Bool
component_leb a b = lex_leb leb (component_key a) (component_key b)

unfoldable pub path_leb : FilePath → FilePath → Bool
path_leb a b = lex_leb component_leb a b

pub path_leb_refl : (a : FilePath) → path_leb a a ≡ true
unfolding path_leb
path_leb_refl a = lex_leb_refl component_leb a

leb-total : (a b : ℕ) → leb a b ≡ false → leb b a ≡ true
leb-total a b h = ground (arith, h)

pub path_leb-total : (a b : FilePath) → path_leb a b ≡ false → path_leb b a ≡ true
unfolding path_leb
path_leb-total a b =
    lex_leb-total component_leb
      (λ c d. lex_leb-total leb leb-total (component_key c) (component_key d)) a b

leb-cases : (x y : ℕ) → leb x y ≡ true → (x ≡ y) ⊎ (x < y)
leb-cases x y h = elim (Bool-cases (x == y)) [
  | inl same ↦ inl (ground (arith, same))
  | inr other ↦ inr (ground (arith, h, other))
]

component_leb-cases : (a b : Component) → component_leb a b ≡ true → (a ≡ b) ⊎ ComponentBefore a b
component_leb-cases root_dir root_dir h = inl refl
component_leb-cases root_dir cur_dir h = inr root_cur
component_leb-cases root_dir parent_dir h = inr root_parent
component_leb-cases root_dir (normal s) h = inr root_name
component_leb-cases cur_dir root_dir h = ground (arith, h)
component_leb-cases cur_dir cur_dir h = inl refl
component_leb-cases cur_dir parent_dir h = inr cur_parent
component_leb-cases cur_dir (normal s) h = inr cur_name
component_leb-cases parent_dir root_dir h = ground (arith, h)
component_leb-cases parent_dir cur_dir h = ground (arith, h)
component_leb-cases parent_dir parent_dir h = inl refl
component_leb-cases parent_dir (normal s) h = inr parent_name
component_leb-cases (normal s) root_dir h = ground (arith, h)
component_leb-cases (normal s) cur_dir h = ground (arith, h)
component_leb-cases (normal s) parent_dir h = ground (arith, h)
component_leb-cases (normal s) (normal t) h =
    elim (lex_leb-cases leb (λ x y. x < y) (λ x. ground arith) leb-cases s t h) [
      | inl same ↦ inl (ap normal same)
      | inr less ↦ inr (names less)
    ]

pub path_leb-cases : (a b : FilePath) → path_leb a b ≡ true → (a ≡ b) ⊎ PathBefore a b
unfolding path_leb
path_leb-cases =
    lex_leb-cases component_leb ComponentBefore (λ c. lex_leb_refl leb (component_key c))
      component_leb-cases
