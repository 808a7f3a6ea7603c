-- ===== src/Handlers.antt =====
-- The index of the candidates that may implement an RPC (`HandlerIndex` and
-- `signature_contains_bare` of crates/mesh-core/src/contracts.rs), and the test that it prunes for.
-- The hash map of keys is the list of its entries; the letters and digits of Unicode are a
-- parameter.
pub mod Ranges
pub mod Words
pub mod Ways
pub mod Complete
pub mod Tests
use causalmesh.Prelude.{
  ℕ, zero, suc, ◌+◌, ◌-◌, Bool, true, false, not, ◌&&◌, ◌||◌, Option, none, some, List, [], ◌∷◌,
  ◌++◌, map, length, retain, any, all, ltb, leb, if◌then◌else◌, ◌==◌, nat_eq, list_eq,
}
use causalmesh.Prelude.Text.{
  Text, text, is_nil, has_prefix, strip_text_prefix, to_ascii_lower, eq_ignore_ascii_case,
}
use causalmesh.Subject.{bare as last_segment, bare_names_match}

-- a candidate: its name, that in Pascal case, and its signature
pub record Handler : Type 0 where
  pub name : Text
  pub pascal : Text
  pub signature : Option Text

pub record HandlerIndex : Type 0 where
  pub keys : List (Text × ℕ)
  pub sig_idents : List (Text × ℕ)
  pub with_signature : List ℕ

abbrev pub sig_prefixes : List Text
sig_prefixes = text "@" ∷ text "'" ∷ text "\"" ∷ text "fn " ∷ text "func " ∷ text "def " ∷ []

abbrev pub normalized : Text → Text
normalized s = map to_ascii_lower (retain (λ c. not (c == b'_')) s)

-- What stands behind each place of a prefix, one place behind the other; `skip` characters of the
-- last one are still to pass.
abbrev pub rests : Text → ℕ → Text → List Text
rests prefix skip [] = []
rests prefix (suc skip) (c ∷ s) = rests prefix skip s
rests prefix zero (c ∷ s) =
    let behind = rests prefix (length prefix - 1) s in
    let next = rests prefix zero s in
    elim (strip_text_prefix prefix (c ∷ s)) [ none ↦ next | some rest ↦ rest ∷ behind ]

abbrev pub all_rests : List Text → Text → List Text
all_rests [] s = []
all_rests (prefix ∷ prefixes) s = rests prefix 0 s ++ all_rests prefixes s

abbrev pub text_leb : Text → Text → Bool
text_leb [] t = true
text_leb (c ∷ s) [] = false
text_leb (c ∷ s) (d ∷ t) = let rest = text_leb s t in ltb c d || (c == d && rest)

-- the order of the pairs, by their texts and then by their numbers
abbrev pub entry_leb : Text × ℕ → Text × ℕ → Bool
entry_leb (s, i) (t, j) = not (text_leb t s) || (s == t && leb i j)

-- `sort_unstable` and `dedup`: a pair that is there is not put in again
abbrev pub insert_entry : Text × ℕ → List (Text × ℕ) → List (Text × ℕ)
insert_entry e [] = e ∷ []
insert_entry e (x ∷ xs) =
    let rest = insert_entry e xs in
    if entry_leb e x then (if entry_leb x e then x ∷ xs else e ∷ x ∷ xs) else x ∷ rest

abbrev pub sorted_entries : List (Text × ℕ) → List (Text × ℕ)
sorted_entries [] = []
sorted_entries (e ∷ es) = insert_entry e (sorted_entries es)

abbrev pub insert_id : ℕ → List ℕ → List ℕ
insert_id i [] = i ∷ []
insert_id i (j ∷ js) =
    let rest = insert_id i js in if ltb i j then i ∷ j ∷ js else if i == j then j ∷ js else j ∷ rest

abbrev pub sorted_ids : List ℕ → List ℕ
sorted_ids [] = []
sorted_ids (i ∷ is') = insert_id i (sorted_ids is')

-- the numbers under a key
abbrev pub under : Text → List (Text × ℕ) → List ℕ
under key [] = []
under key ((k, i) ∷ entries) = let rest = under key entries in if k == key then i ∷ rest else rest

abbrev pub numbered : ℕ → List Text → List (Text × ℕ)
numbered i ts = map (λ t. (t, i)) ts

-- the entries from `bare` on, as the binary search finds them
abbrev pub from_bare : Text → List (Text × ℕ) → List (Text × ℕ)
from_bare bare [] = []
from_bare bare ((t, i) ∷ entries) =
    let rest = from_bare bare entries in if text_leb bare t then (t, i) ∷ entries else rest

-- the run of entries that begin with `bare`
abbrev pub prefix_run : Text → List (Text × ℕ) → List ℕ
prefix_run bare [] = []
prefix_run bare ((t, i) ∷ entries) =
    let rest = prefix_run bare entries in if has_prefix bare t then i ∷ rest else []

module _ (is_alphanumeric : ℕ → Bool) where
  abbrev pub is_ident_char : ℕ → Bool
  is_ident_char c = is_alphanumeric c || c == b'_'

  abbrev pub ident_of : Text → Text
  ident_of [] = []
  ident_of (c ∷ s) = let rest = ident_of s in if is_ident_char c then c ∷ rest else []

  unfoldable pub signature_contains_bare : Text → Text → Bool
  signature_contains_bare sig bare =
      if is_nil bare
      then false
      else any
          (λ rest.
            has_prefix bare rest
            || (not (is_nil (ident_of rest)) && bare_names_match (ident_of rest) bare))
          (all_rests sig_prefixes sig)

  -- the identifiers of a signature
  abbrev pub idents_of : Text → List Text
  idents_of sig = retain (λ ident. not (is_nil ident)) (map ident_of (all_rests sig_prefixes sig))

  abbrev pub sig_of : Option Text → List Text
  sig_of none = []
  sig_of (some sig) = idents_of sig

  abbrev pub ident_keys : List Text → List Text
  ident_keys [] = []
  ident_keys (ident ∷ idents) =
      (text "l:" ++ map to_ascii_lower ident) ∷ (text "n:" ++ normalized ident) ∷ ident_keys idents

  -- the keys of one handler
  abbrev pub own_keys : Handler → List Text
  own_keys h =
      (text "f:" ++ h.name)
      ∷ (text "l:" ++ map to_ascii_lower (last_segment h.name))
      ∷ (text "n:" ++ normalized (last_segment h.name))
      ∷ (text "p:" ++ h.pascal)
      ∷ ident_keys (sig_of h.signature)

  abbrev pub all_keys : ℕ → List Handler → List (Text × ℕ)
  all_keys i [] = []
  all_keys i (h ∷ hs) = numbered i (own_keys h) ++ all_keys (i + 1) hs

  abbrev pub all_idents : ℕ → List Handler → List (Text × ℕ)
  all_idents i [] = []
  all_idents i (h ∷ hs) = numbered i (sig_of h.signature) ++ all_idents (i + 1) hs

  abbrev pub signed : ℕ → List Handler → List ℕ
  signed i [] = []
  signed i (h ∷ hs) = elim h.signature [
    | none ↦ signed (i + 1) hs
    | some sig ↦ i ∷ signed (i + 1) hs
  ]

  unfoldable pub build : List Handler → HandlerIndex
  build handlers = record {
    keys = all_keys 0 handlers;
    sig_idents = sorted_entries (all_idents 0 handlers);
    with_signature = signed 0 handlers;
  }

  unfoldable pub candidates : HandlerIndex → Text → Text → List ℕ
  candidates index fqcn bare = sorted_ids (
      under (text "f:" ++ fqcn) index.keys
      ++ (under (text "l:" ++ map to_ascii_lower bare) index.keys
          ++ ((if is_nil (normalized bare)
                then []
                else under (text "n:" ++ normalized bare) index.keys)
              ++ (under (text "p:" ++ bare) index.keys
                  ++ (if is_nil bare
                      then []
                      else prefix_run bare (from_bare bare index.sig_idents)
                        ++ (if all is_ident_char bare then [] else index.with_signature))))))

  -- The test of all pairs that the index stands for.
  abbrev pub is_candidate : Text → Text → Handler → Bool
  is_candidate fqcn bare h =
      (h.name == fqcn || eq_ignore_ascii_case h.name bare)
      || ((h.pascal == bare || bare_names_match h.name bare)
          || elim h.signature [ none ↦ false | some sig ↦ signature_contains_bare sig bare ])
