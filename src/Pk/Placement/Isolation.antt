-- ===== src/Pk/Placement/Isolation.antt =====
-- The tier of a placement and the node that it is on.
use df_fabric.Prelude.{
  ℕ, suc, ◌≤◌, List, [], ◌∷◌, Bool, true, false, not, ◌||◌, some, leb, ◌≡◌, refl, arith, any, all,
  all-filter_self, Option-cases, Bool-cases, inl, inr,
}
use df_fabric.Prelude.Text.{text_asymm, text_between}
use df_fabric.Prelude.Least.{
  get_elem?, update_at, unbeaten, least, least-none, none-least, least_lem,
}
use df_fabric.Prelude.Result.{ok, err}
use df_fabric.Pk.Placement.{
  NodeReport, WorkloadClass, Placement, Tier, Trust, Workload, better, classify, first_of,
  is_candidate, occupy, offers, place, place_on, required_tier, tier_for, tier_index, placement,
  process, wasm, unikernel, microvm, vm, tiers_from, unplaceable,
}

better_asymm : (k : Trust) (a b : NodeReport) → better k a b ≡ true → better k b a ≡ false
unfolding better
better_asymm k a b h = ground (arith, text_asymm a.name b.name)

better_between :
    (k : Trust) (a b c : NodeReport) → better k a c ≡ true → (better k a b || better k b c) ≡ true
unfolding better
better_between k a b c h = ground (arith, text_between a.name b.name c.name)

first_of-some :
    (n : NodeReport) (q : Tier → Bool) (ts : List Tier)
    → any (offers n) ts ≡ true
    → all q ts ≡ true
    → (t : Tier) × (first_of n ts ≡ some t) × (offers n t ≡ true) × (q t ≡ true)
unfolding first_of any all
first_of-some n q [] h a = absurd (ground arith)
first_of-some n q (t ∷ ts) h a = elim (Bool-cases (offers n t)) [
  | inl e ↦ (t, ground arith, e, ground arith)
  | inr e ↦
      let (u, f, o, p) = first_of-some n q ts (ground arith) (ground arith) in
      (u, ground arith, o, p)
]

sufficient :
    (k : Trust) → all (λ t. leb (tier_index (required_tier k)) (tier_index t)) (tiers_from k) ≡ true
unfolding tiers_from
sufficient k =
    all-filter_self (λ t. leb (tier_index (required_tier k)) (tier_index t))
      (process ∷ wasm ∷ unikernel ∷ microvm ∷ vm ∷ [])

-- A candidate offers a sufficient tier, which is found.
tier_for-candidate :
    (w : Workload) (k : Trust) (now : ℕ) (n : NodeReport)
    → is_candidate w k now n ≡ true
    → (t : Tier) × (tier_for k n ≡ some t)
      × (offers n t ≡ true)
      × (tier_index (required_tier k) ≤ tier_index t)
      × (suc ((occupy w n).free_slots) ≡ n.free_slots)
unfolding tier_for is_candidate occupy
tier_for-candidate w k now n h =
    let (t, f, o, q) =
      first_of-some n (λ t. leb (tier_index (required_tier k)) (tier_index t)) (tiers_from k)
        (ground arith) (sufficient k) in
    (t, f, o, ground arith, ground arith)

-- Every workload of a known provenance is either placed or refused. It is refused exactly when no
-- node meets the hard constraints. Placed, it is on a node that meets them, the best of those in the
-- order of the score, which alone changes: it has one slot less and the workload among its
-- occupants. The tier of the placement is one that the node offers, and never below the one that
-- the class of the workload requires.
pub place_lem :
    (w : Workload) (nodes : List NodeReport) (now lease_ticks : ℕ) (c : WorkloadClass)
    → classify w ≡ ok c
    → let k = c.trust_class in
      (all (λ n. not (is_candidate w k now n)) nodes ≡ true
        → place w nodes now lease_ticks ≡ err unplaceable)
      × (all (λ n. not (is_candidate w k now n)) nodes ≡ false
          → (i : ℕ) × (n : NodeReport) × (p : Placement) × (get_elem? nodes i ≡ some n)
            × (is_candidate w k now n ≡ true)
            × (unbeaten (is_candidate w k now) (better k) n nodes ≡ true)
            × (place w nodes now lease_ticks ≡ ok (p, update_at (occupy w) i nodes))
            × (suc ((occupy w n).free_slots) ≡ n.free_slots)
            × (p.node ≡ n.name)
            × (offers n p.tier ≡ true)
            × (tier_index (required_tier k) ≤ tier_index p.tier))
unfolding place place_on
place_lem w nodes now lease_ticks c h =
    let k = c.trust_class in
    let can = is_candidate w k now in
    elim (Option-cases (least can (better k) nodes)) [
      | inl e ↦ (λ r. ground arith, λ r. absurd (ground (arith, least-none can (better k) nodes e)))
      | inr ((i, n), e) ↦
          let (at, fits, best) =
            least_lem can (better k) (better_asymm k) (better_between k) nodes i n e in
          let (t, f, o, q, s) = tier_for-candidate w k now n fits in
          (
            λ r. absurd (ground (arith, none-least can (better k) nodes)),
            λ r. (
              i,
              n,
              placement w k now lease_ticks nodes n t,
              at,
              fits,
              best,
              ground arith,
              s,
              refl,
              o,
              q,
            ),
          )
    ]
