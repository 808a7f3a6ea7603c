-- ===== src/Subject/Names.antt =====
-- `bare_names_match` of crates/mesh-core/src/contracts.rs against a description in lower case.
use causalmesh.Prelude.{
  Bool, true, false, ◌&&◌, ◌||◌, not, ◌≡◌, refl, [], ◌∷◌, retain, map, ◌==◌, nat_eq, list_eq, arith,
}
use causalmesh.Prelude.Text.{Text, is_nil, to_ascii_lower, eq_ignore_ascii_case}
use causalmesh.Subject.{bare, bare_names_match, same_letters}

abbrev pub without_underscores : Text → Text
without_underscores = retain (λ c. not (c == b'_'))

same-lower :
    (xs ys : Text) → eq_ignore_ascii_case xs ys ≡ (map to_ascii_lower xs == map to_ascii_lower ys)
same-lower [] [] = refl
same-lower [] (y ∷ ys) = refl
same-lower (x ∷ xs) [] = refl
same-lower (x ∷ xs) (y ∷ ys) = rw (same-lower xs ys)

letters-lower :
    (xs ys : Text) (b : Bool)
    → same_letters xs ys b
      ≡ ((map to_ascii_lower xs == map to_ascii_lower ys) && (b || not (is_nil xs)))
unfolding same_letters
letters-lower [] [] b = ground arith
letters-lower [] (y ∷ ys) b = refl
letters-lower (x ∷ xs) [] b = refl
letters-lower (x ∷ xs) (y ∷ ys) b = ground (arith, letters-lower xs ys true)

-- Two names match exactly if their last segments are equal in lower case, or are so without
-- their underscores and then not empty.
pub bare_names_match-lower :
    (a b : Text)
    → bare_names_match a b ≡ (
        (map to_ascii_lower (bare a) == map to_ascii_lower (bare b))
        || ((map to_ascii_lower (without_underscores (bare a))
              == map to_ascii_lower (without_underscores (bare b)))
            && not (is_nil (without_underscores (bare a)))))
unfolding bare_names_match
bare_names_match-lower a b = ground (
  arith,
  same-lower (bare a) (bare b),
  letters-lower (without_underscores (bare a)) (without_underscores (bare b)) false,
)
