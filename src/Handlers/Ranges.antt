-- ===== src/Handlers/Ranges.antt =====
-- The sorted identifiers, and the run of those that begin with a text.
use mathlib.Core.Path.{subst}
use causalmesh.Prelude.{
  ℕ, true, false, ◌||◌, List, [], ◌∷◌, All, contains, if◌then◌else◌, ◌==◌, nat_eq, list_eq, eq_refl,
  list_beq_iff, Bool-cases, ◌≡◌, refl, sym, ap, ◌∙◌, ◌⊎◌, inl, inr, arith,
}
use causalmesh.Prelude.Text.{Text, has_prefix}
use causalmesh.Handlers.{
  text_leb, entry_leb, insert_entry, sorted_entries, insert_id, sorted_ids, from_bare, prefix_run,
}

text_leb_refl : (s : Text) → text_leb s s ≡ true
text_leb_refl [] = refl
text_leb_refl (c ∷ s) = ground (arith, text_leb_refl s)

text_leb_total : (s t : Text) → text_leb s t ≡ false → text_leb t s ≡ true
text_leb_total [] t e = ground arith
text_leb_total (c ∷ s) [] e = refl
text_leb_total (c ∷ s) (d ∷ t) e = ground (arith, text_leb_total s t)

text_leb_trans : (s t u : Text) → text_leb s t ≡ true → text_leb t u ≡ true → text_leb s u ≡ true
text_leb_trans [] t u e f = refl
text_leb_trans (c ∷ s) [] u e f = ground arith
text_leb_trans (c ∷ s) (d ∷ t) [] e f = ground arith
text_leb_trans (c ∷ s) (d ∷ t) (a ∷ u) e f = ground (arith, text_leb_trans s t u)

text_leb-has_prefix : (b t : Text) → has_prefix b t ≡ true → text_leb b t ≡ true
text_leb-has_prefix [] t e = refl
text_leb-has_prefix (c ∷ b) [] e = ground arith
text_leb-has_prefix (c ∷ b) (d ∷ t) e = ground (arith, text_leb-has_prefix b t)

-- What stands between a text and one that begins with it begins with it.
has_prefix-text_leb :
    (b x t : Text)
    → text_leb b x ≡ true
    → text_leb x t ≡ true
    → has_prefix b t ≡ true
    → has_prefix b x ≡ true
has_prefix-text_leb [] x t e f g = refl
has_prefix-text_leb (c ∷ b) [] t e f g = ground arith
has_prefix-text_leb (c ∷ b) (d ∷ x) [] e f g = ground arith
has_prefix-text_leb (c ∷ b) (d ∷ x) (a ∷ t) e f g = ground (arith, has_prefix-text_leb b x t)

abbrev pub Listed : Text × ℕ → List (Text × ℕ) → Type 0
Listed e [] = ⊥
Listed e (x ∷ xs) = (x ≡ e) ⊎ Listed e xs

abbrev pub IsSorted : List (Text × ℕ) → Type 0
IsSorted [] = Unit
IsSorted (x ∷ xs) = All (λ q. text_leb x.0 q.0 ≡ true) xs × IsSorted xs

-- the smaller of two texts for those behind the larger
below :
    (s t : Text) (xs : List (Text × ℕ))
    → text_leb s t ≡ true
    → All (λ q. text_leb t q.0 ≡ true) xs
    → All (λ q. text_leb s q.0 ≡ true) xs
below s t [] e a = tt
below s t (x ∷ xs) e a = (text_leb_trans s t x.0 e a.0, below s t xs e a.1)

insert_entry-All :
    (s : Text) (e : Text × ℕ) (xs : List (Text × ℕ))
    → text_leb s e.0 ≡ true
    → All (λ q. text_leb s q.0 ≡ true) xs
    → All (λ q. text_leb s q.0 ≡ true) (insert_entry e xs)
insert_entry-All s e [] l a = (l, tt)
insert_entry-All s e (x ∷ xs) l a = ground (arith, insert_entry-All s e xs l a.1)

entry_leb-text_leb : (e x : Text × ℕ) → entry_leb e x ≡ true → text_leb e.0 x.0 ≡ true
entry_leb-text_leb (s, i) (t, j) e = elim (Bool-cases (text_leb t s)) [
  | inl back ↦
      subst (λ u. text_leb s u ≡ true) ((list_beq_iff s t).0 (ground (arith, e, back)))
        (text_leb_refl s)
  | inr ahead ↦ text_leb_total t s ahead
]

entry_leb-false : (e x : Text × ℕ) → entry_leb e x ≡ false → text_leb x.0 e.0 ≡ true
entry_leb-false (s, i) (t, j) e = ground (arith, e)

insert_entry-same :
    (e x : Text × ℕ) (xs : List (Text × ℕ))
    → entry_leb e x ≡ true
    → entry_leb x e ≡ true
    → insert_entry e (x ∷ xs) ≡ x ∷ xs
insert_entry-same e x xs l g = rw l (rw g refl)

insert_entry-before :
    (e x : Text × ℕ) (xs : List (Text × ℕ))
    → entry_leb e x ≡ true
    → entry_leb x e ≡ false
    → insert_entry e (x ∷ xs) ≡ e ∷ x ∷ xs
insert_entry-before e x xs l g = rw l (rw g refl)

insert_entry-after :
    (e x : Text × ℕ) (xs : List (Text × ℕ))
    → entry_leb e x ≡ false
    → insert_entry e (x ∷ xs) ≡ x ∷ insert_entry e xs
insert_entry-after e x xs l = rw l refl

entry_leb-antisym : (e x : Text × ℕ) → entry_leb e x ≡ true → entry_leb x e ≡ true → e ≡ x
entry_leb-antisym (s, i) (t, j) l g = ground (
  arith,
  l,
  g,
  list_beq_iff s t,
  list_beq_iff t s,
  entry_leb-text_leb (s, i) (t, j) l,
  entry_leb-text_leb (t, j) (s, i) g,
)

All-Listed :
    (s : Text) (e : Text × ℕ) (xs : List (Text × ℕ))
    → All (λ q. text_leb s q.0 ≡ true) xs
    → Listed e xs
    → text_leb s e.0 ≡ true
All-Listed s e [] a l = absurd l
All-Listed s e (x ∷ xs) a l = elim l [
  | inl here ↦ subst (λ q. text_leb s q.0 ≡ true) here a.0
  | inr there ↦ All-Listed s e xs a.1 there
]

insert_entry-IsSorted :
    (e : Text × ℕ) (xs : List (Text × ℕ)) → IsSorted xs → IsSorted (insert_entry e xs)
insert_entry-IsSorted e [] s = (tt, tt)
insert_entry-IsSorted e (x ∷ xs) s = elim (Bool-cases (entry_leb e x)) [
  | inl le ↦ elim (Bool-cases (entry_leb x e)) [
    | inl ge ↦ subst IsSorted (sym (insert_entry-same e x xs le ge)) s
    | inr lt ↦
        subst IsSorted (sym (insert_entry-before e x xs le lt))
          ((entry_leb-text_leb e x le, below e.0 x.0 xs (entry_leb-text_leb e x le) s.0), s)
  ]
  | inr gt ↦
      subst IsSorted (sym (insert_entry-after e x xs gt))
        (insert_entry-All x.0 e xs (entry_leb-false e x gt) s.0, insert_entry-IsSorted e xs s.1)
]

pub sorted_entries-IsSorted : (es : List (Text × ℕ)) → IsSorted (sorted_entries es)
sorted_entries-IsSorted [] = tt
sorted_entries-IsSorted (e ∷ es) =
    insert_entry-IsSorted e (sorted_entries es) (sorted_entries-IsSorted es)

insert_entry-Listed :
    (e y : Text × ℕ) (xs : List (Text × ℕ)) → (e ≡ y) ⊎ Listed y xs → Listed y (insert_entry e xs)
insert_entry-Listed e y [] l = l
insert_entry-Listed e y (x ∷ xs) l = elim (Bool-cases (entry_leb e x)) [
  | inl le ↦ elim (Bool-cases (entry_leb x e)) [
    | inl ge ↦
        subst (Listed y) (sym (insert_entry-same e x xs le ge))
          (elim l [ inl here ↦ inl (sym (entry_leb-antisym e x le ge) ∙ here) | inr there ↦ there ])
    | inr lt ↦ subst (Listed y) (sym (insert_entry-before e x xs le lt)) l
  ]
  | inr gt ↦ subst (Listed y) (sym (insert_entry-after e x xs gt)) (elim l [
    | inl here ↦ inr (insert_entry-Listed e y xs (inl here))
    | inr there ↦ elim there [
      | inl now ↦ inl now
      | inr later ↦ inr (insert_entry-Listed e y xs (inr later))
    ]
  ])
]

pub sorted_entries-Listed :
    (y : Text × ℕ) (es : List (Text × ℕ)) → Listed y es → Listed y (sorted_entries es)
sorted_entries-Listed y [] l = l
sorted_entries-Listed y (e ∷ es) l =
    insert_entry-Listed e y (sorted_entries es)
      (elim l [ inl here ↦ inl here | inr there ↦ inr (sorted_entries-Listed y es there) ])

-- In a sorted list, an entry that begins with the text is in the run.
prefix_run-Listed :
    (b t : Text) (i : ℕ) (xs : List (Text × ℕ))
    → IsSorted xs
    → All (λ q. text_leb b q.0 ≡ true) xs
    → has_prefix b t ≡ true
    → Listed (t, i) xs
    → contains i (prefix_run b xs) ≡ true
prefix_run-Listed b t i [] s a p l = absurd l
prefix_run-Listed b t i ((u, j) ∷ xs) s a p l = elim l [
  | inl here ↦
      let is_t : u ≡ t = ap (λ e. e.0) here in
      let is_i : j ≡ i = ap (λ e. e.1) here in
      ground (arith, ap (has_prefix b) is_t, p, is_i, eq_refl i)
  | inr there ↦
      let starts = has_prefix-text_leb b u t a.0 (All-Listed u (t, i) xs s.0 there) p in
      ground (arith, starts, prefix_run-Listed b t i xs s.1 a.1 p there)
]

pub from_bare-Listed :
    (b t : Text) (i : ℕ) (xs : List (Text × ℕ))
    → IsSorted xs
    → has_prefix b t ≡ true
    → Listed (t, i) xs
    → contains i (prefix_run b (from_bare b xs)) ≡ true
from_bare-Listed b t i [] s p l = absurd l
from_bare-Listed b t i ((u, j) ∷ xs) s p l = elim (Bool-cases (text_leb b u)) [
  | inl le ↦
      subst (λ ys. contains i (prefix_run b ys) ≡ true)
        (ap (λ c. if c then (u, j) ∷ xs else from_bare b xs) (sym le))
        (prefix_run-Listed b t i ((u, j) ∷ xs) s (le, below b u xs le s.0) p l)
  | inr gt ↦
      subst (λ ys. contains i (prefix_run b ys) ≡ true)
        (ap (λ c. if c then (u, j) ∷ xs else from_bare b xs) (sym gt))
        (from_bare-Listed b t i xs s.1 p (elim l [
          | inl here ↦ ground (arith, gt, ap (λ e. text_leb b e.0) here, text_leb-has_prefix b t p)
          | inr there ↦ there
        ]))
]

insert_id-contains :
    (i k : ℕ) (js : List ℕ) → contains k (insert_id i js) ≡ (i == k || contains k js)
insert_id-contains i k [] = refl
insert_id-contains i k (j ∷ js) = ground (arith, insert_id-contains i k js)

pub sorted_ids-contains : (k : ℕ) (js : List ℕ) → contains k (sorted_ids js) ≡ contains k js
sorted_ids-contains k [] = refl
sorted_ids-contains k (j ∷ js) =
    ground (arith, insert_id-contains j k (sorted_ids js), sorted_ids-contains k js)
