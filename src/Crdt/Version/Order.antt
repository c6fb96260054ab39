-- ===== src/Crdt/Version/Order.antt =====
-- What the comparison of versions decides.
use df_fabric.Prelude.{
  ℕ, ◌+◌, ◌≤◌, ◌<◌, String, [], ◌∷◌, true, false, ◌≡◌, ◌↔◌, refl, ltb, leb, member, string_dec,
  arith, Bool-cases, inl, inr, member-union, all_at_member, member_of_any, any_of_member,
  all_of_each, ite, Bool-false,
}
use df_fabric.Prelude.Dict.{get, keys, get-put}
use df_fabric.Crdt.Counts.Merge.{view-merge_max}
use df_fabric.Crdt.Counts.{Counts, count_of, bump, merge_max, IsCounts, or_zero}
use df_fabric.Crdt.Version.{VersionVector, all_keys, ge_on, gt_on, tick, merge, dominates}

member-keys : (d : Counts) (k : String) → member string_dec (keys d) k ≡ false → count_of d k ≡ 0
unfolding member count_of get
member-keys [] k h = refl
member-keys ((j, v) ∷ d) k h = ground (arith, member-keys d k)

member-all_keys :
    (a b : Counts) (k : String)
    → member string_dec (all_keys a b) k ≡ false
    → (count_of a k ≡ 0) × (count_of b k ≡ 0)
member-all_keys a b k h =
    ground (arith, member-union string_dec (keys a) (keys b) k, member-keys a k, member-keys b k)

pub ge_on_iff : (a b : Counts) → (ge_on a b ≡ true) ↔ ((k : String) → count_of b k ≤ count_of a k)
unfolding ge_on
ge_on_iff a b = (forth, back)
  where
    forth : ge_on a b ≡ true → (k : String) → count_of b k ≤ count_of a k
    forth h k = elim (Bool-cases (member string_dec (all_keys a b) k)) [
      | inl m ↦ ground (
        arith,
        all_at_member string_dec (λ k. leb (count_of b k) (count_of a k)) (all_keys a b) k h m,
      )
      | inr m ↦ omega (arith, member-all_keys a b k m)
    ]

    back : ((k : String) → count_of b k ≤ count_of a k) → ge_on a b ≡ true
    back h = all_of_each _ (all_keys a b) (λ k. ground (arith, h k))

pub gt_on_iff : (a b : Counts) → (gt_on a b ≡ true) ↔ ((k : String) × (count_of b k < count_of a k))
unfolding gt_on
gt_on_iff a b = (forth, back)
  where
    forth : gt_on a b ≡ true → (k : String) × (count_of b k < count_of a k)
    forth h =
        let (k, m, q) =
          member_of_any string_dec (λ k. ltb (count_of b k) (count_of a k)) (all_keys a b) h in
        (k, ground arith)

    back : (k : String) × (count_of b k < count_of a k) → gt_on a b ≡ true
    back (k, q) = elim (Bool-cases (member string_dec (all_keys a b) k)) [
      | inl m ↦
          any_of_member string_dec (λ k. ltb (count_of b k) (count_of a k)) (all_keys a b) k m
            (ground arith)
      | inr m ↦ absurd (omega (arith, member-all_keys a b k m))
    ]

-- Causal dominance.
abbrev pub IsAbove : Counts → Counts → Type 0
IsAbove a b =
    ((k : String) → count_of b k ≤ count_of a k) × ((k : String) × (count_of b k < count_of a k))

-- A vector dominates another exactly when it is at least as new for every replica and newer for one.
pub dominates_iff : (a b : VersionVector) → (dominates a b ≡ true) ↔ IsAbove a.versions b.versions
unfolding dominates
dominates_iff a b = (
  λ h. (
    (ge_on_iff a.versions b.versions).0 (ground arith),
    (gt_on_iff a.versions b.versions).0 (ground arith),
  ),
  λ h. rw ((ge_on_iff a.versions b.versions).1 h.0) ((gt_on_iff a.versions b.versions).1 h.1),
)

-- Dominance is a strict partial order: no vector dominates itself, no two dominate one another, and
-- what dominates a dominating vector dominates what that one does.
pub dominates-order :
    (a b c : VersionVector)
    → (dominates a a ≡ false)
      × (dominates a b ≡ true → dominates b a ≡ false)
      × (dominates a b ≡ true → dominates b c ≡ true → dominates a c ≡ true)
dominates-order a b c = (
  Bool-false (dominates a a)
      (λ h. let (ge, newer) = (dominates_iff a a).0 h in omega (arith, newer.1, ge newer.0)),
  λ h.
      let (ge, newer) = (dominates_iff a b).0 h in
      Bool-false (dominates b a) (λ h'.
        let (ge', newer') = (dominates_iff b a).0 h' in omega (arith, newer'.1, ge newer'.0)),
  λ h h'.
      let (ge, newer) = (dominates_iff a b).0 h in
      let (ge', newer') = (dominates_iff b c).0 h' in
      (dominates_iff a c).1
        ((λ j. omega (arith, ge j, ge' j)), (newer.0, omega (arith, newer.1, ge' newer.0))),
)

count_of-bump :
    (d : Counts) (k j : String) (n : ℕ)
    → count_of (bump d k n) j ≡ ite (string_dec k j) (count_of d k + n) (count_of d j)
unfolding bump count_of
count_of-bump d k j n = ground (arith, get-put string_dec d k j (or_zero (get string_dec d k) + n))

-- A tick makes a vector that dominates the old one.
pub tick-dominates : (v : VersionVector) → dominates (tick v) v ≡ true
unfolding tick
tick-dominates v =
    let r = v.replica_id in
    (dominates_iff (tick v) v).1 (
      (λ k. ground (arith, count_of-bump v.versions r k 1)),
      (r, ground (arith, count_of-bump v.versions r r 1)),
    )

-- The merge of two vectors, where the second has no key twice, is their least upper bound: it is at least as new as both, and every
-- vector that is at least as new as both is at least as new as the merge.
pub merge_least :
    (a b c : VersionVector)
    → IsCounts b.versions
    → (ge_on (merge a b).versions a.versions ≡ true)
      × (ge_on (merge a b).versions b.versions ≡ true)
      × (ge_on c.versions a.versions ≡ true
          → ge_on c.versions b.versions ≡ true
          → ge_on c.versions (merge a b).versions ≡ true)
unfolding merge count_of
merge_least a b c hb =
    let m = merge_max a.versions b.versions in
    (
      (ge_on_iff m a.versions).1 (λ k. ground (arith, view-merge_max a.versions b.versions k hb)),
      (ge_on_iff m b.versions).1 (λ k. ground (arith, view-merge_max a.versions b.versions k hb)),
      λ h h'. (ge_on_iff c.versions m).1 (λ k. ground (
        arith,
        view-merge_max a.versions b.versions k hb,
        (ge_on_iff c.versions a.versions).0 h k,
        (ge_on_iff c.versions b.versions).0 h' k,
      )),
    )
