-- ===== src/Graph/Ties/Grading.antt =====
-- The two ways to break ties in crates/mesh-core/src/contracts.rs, against one description: the
-- candidates are those of the caller's group, or all where it has none; one alone is sure, more
-- are ambiguous.
use causalmesh.Prelude.{
  ℕ, Bool, true, false, ◌≡◌, refl, sym, ◌∙◌, Option, none, some, List, [], ◌∷◌, ◌++◌, length,
  retain, ltb, max, if◌then◌else◌, ◌==◌, nat_eq, list_eq, list_beq_iff, arith, Bool-cases,
  Option-cases, inl, inr, suc,
}
use causalmesh.Prelude.Assoc.{Assoc, lookup}
use causalmesh.Prelude.Buckets.{bucket, push_at, bucket-push_at}
use causalmesh.Prelude.Text.{Text}
use causalmesh.Graph.{ContractGraph, ContractNode, EdgeConfidence}
use causalmesh.Graph.Ties.{
  Picked, pick_among, all_ambiguous, in_repo, pick_or_ambiguous, group_ids, package_bucket,
  pick_in_package, confidence_rank, weakest,
}
use mathlib.Core.List.{append_assoc, append-nil}

-- The candidates of the caller's own group, or all where it has none.
abbrev pub preferred : List ℕ → List ℕ → List ℕ
preferred ids [] = ids
preferred ids (x ∷ own) = x ∷ own

-- One candidate alone has the confidence given, several are ambiguous.
abbrev pub grade : EdgeConfidence → List ℕ → Picked
grade c (only ∷ []) = (only, c) ∷ []
grade c [] = []
grade c (a ∷ b ∷ ids) = all_ambiguous (a ∷ b ∷ ids)

-- Whatever the group, one candidate alone is preferred, and so is the group of several.
among :
    (a b : ℕ) (ids own : List ℕ) (c : EdgeConfidence)
    → pick_among (a ∷ b ∷ ids) own c ≡ grade c (preferred (a ∷ b ∷ ids) own)
among a b ids [] c = refl
among a b ids (x ∷ []) c = refl
among a b ids (x ∷ y ∷ own) c = refl

-- Every candidate of the importer's repository is returned and no other, or every candidate
-- where that has none; a single one keeps its confidence and several are all ambiguous.
pub pick_or_ambiguous-grade :
    (g : ContractGraph) (ids : List ℕ) (repo : Option ℕ) (c : EdgeConfidence)
    → pick_or_ambiguous g ids repo c ≡ grade c (preferred ids (in_repo g.nodes repo ids))
unfolding pick_or_ambiguous
pick_or_ambiguous-grade g [] repo c = refl
pick_or_ambiguous-grade g (only ∷ []) repo c = ground arith
pick_or_ambiguous-grade g (a ∷ b ∷ ids) repo c =
    among a b ids (in_repo g.nodes repo (a ∷ b ∷ ids)) c

-- the node, if there is one, is of the package
abbrev of_package : Text → Option ContractNode → Bool
of_package p none = false
of_package p (some n) = n.package_name == p

abbrev pub in_package : ContractGraph → Text → List ℕ → List ℕ
in_package g p = retain (λ id. of_package p (lookup id g.nodes))

pushed :
    (p k : Text) (id : ℕ) (groups : Assoc Text (List ℕ)) (ids : List ℕ)
    → bucket p (push_at k id groups) ++ ids ≡ bucket p groups ++ (if k == p then id ∷ ids else ids)
pushed p k id groups ids = elim (Bool-cases (k == p)) [
  | inl same ↦
      let e : k ≡ p = (list_beq_iff k p).0 same in
      rw (bucket-push_at k p id groups)
        (rw same (rw e (append_assoc (bucket p groups) (id ∷ []) ids)))
  | inr other ↦ rw (bucket-push_at k p id groups) (rw other)
]

ltb-two : (n : ℕ) → ltb 1 (suc (suc n)) ≡ true
ltb-two n = ground arith

bucket-group_ids :
    (g : ContractGraph) (p : Text) (ids : List ℕ) (groups : Assoc Text (List ℕ))
    → bucket p (group_ids g.nodes ids groups) ≡ bucket p groups ++ in_package g p ids
unfolding group_ids
bucket-group_ids g p [] groups = sym (append-nil (bucket p groups))
bucket-group_ids g p (id ∷ ids) groups = elim (Option-cases (lookup id g.nodes)) [
  | inl gone ↦ rw gone (bucket-group_ids g p ids groups)
  | inr (n, found) ↦ rw found (
      bucket-group_ids g p ids (push_at n.package_name id groups)
      ∙ pushed p n.package_name id groups (in_package g p ids))
]

-- The grouping by package changes nothing: looking up the caller's package gives what filtering
-- the candidates by it would give, graded the same way.
pub pick_in_package-grade :
    (g : ContractGraph) (ids : List ℕ) (caller : Text) (c : EdgeConfidence)
    → pick_in_package (package_bucket g ids) caller c
      ≡ grade c (preferred ids (in_package g caller ids))
unfolding pick_in_package package_bucket
pick_in_package-grade g [] caller c = refl
pick_in_package-grade g (only ∷ []) caller c = ground arith
pick_in_package-grade g (a ∷ b ∷ ids) caller c = rw (ltb-two (length ids)) (
    rw (bucket-group_ids g caller (a ∷ b ∷ ids) [])
      (among a b ids (in_package g caller (a ∷ b ∷ ids)) c))

-- The rank of the weaker of two confidences is the larger of their ranks.
pub weakest-max :
    (a b : EdgeConfidence)
    → confidence_rank (weakest a b) ≡ max (confidence_rank a) (confidence_rank b)
unfolding weakest
weakest-max a b = ground arith
