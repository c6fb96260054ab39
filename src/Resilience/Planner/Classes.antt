-- ===== src/Resilience/Planner/Classes.antt =====
-- Which recovery classes the planner can give.
use df_fabric.Prelude.{◌<◌, List, ◌≡◌, ◌⊎◌, true, false, some, arith}
use df_fabric.Resilience.Scenario.{Context, FailureEvent}
use df_fabric.Resilience.Planner.{
  reroute_safe, reprepare_known_state, rollback_classical_only, recovery_impossible, class_of,
  Facts, facts_of, ordinary_rule, rule_of, classify, ClassificationRecord,
}

-- Unknown quantum state that is not classically known is held by the failure.
abbrev pub HoldsUnknown : Facts → Type 0
HoldsUnknown f = (f.unknown_q ≡ true) × (f.known_classically ≡ false)

ordinary_lem :
    (f : Facts)
    → (class_of (ordinary_rule f) ≡ recovery_impossible → f.unknown_q ≡ true)
      × (class_of (ordinary_rule f) ≡ reroute_safe → 0 < f.routes)
      × (class_of (ordinary_rule f) ≡ reprepare_known_state → f.known_classically ≡ true)
      × (class_of (ordinary_rule f) ≡ rollback_classical_only → f.classical_only ≡ true)
unfolding ordinary_rule class_of
ordinary_lem f = (λ h. ground arith, λ h. ground arith, λ h. ground arith, λ h. ground arith)

rule_lem :
    (f : Facts)
    → (class_of (rule_of f) ≡ recovery_impossible → f.unknown_q ≡ true)
      × (class_of (rule_of f) ≡ reroute_safe → 0 < f.routes)
      × (class_of (rule_of f) ≡ reprepare_known_state → f.known_classically ≡ true)
      × (class_of (rule_of f) ≡ rollback_classical_only → f.classical_only ≡ true)
unfolding rule_of class_of
rule_lem f =
    let (a, b, c, d) = ordinary_lem f in
    (λ h. ground (arith, a), λ h. ground (arith, b), λ h. ground (arith, c), λ h. ground (arith, d))

rule_impossible :
    (f : Facts)
    → HoldsUnknown f
    → (f.from_classical_checkpoint ≡ true) ⊎ (f.requires_duplication ≡ true)
    → class_of (rule_of f) ≡ recovery_impossible
unfolding rule_of class_of
rule_impossible f (u, k) h = ground arith

-- Recovery that would reconstruct unknown state from a classical checkpoint, or duplicate it, is
-- classified as impossible whatever else the context offers.
pub classify_impossible :
    {D : Type 0} (ev : FailureEvent D) (c : Context) (rs : List ClassificationRecord)
    → HoldsUnknown (facts_of ev c)
    → ((facts_of ev c).from_classical_checkpoint ≡ true)
      ⊎ ((facts_of ev c).requires_duplication ≡ true)
    → (classify ev c rs).0 ≡ recovery_impossible
unfolding classify
classify_impossible ev c rs u h = rule_impossible (facts_of ev c) u h

-- A class is given only where its ground exists: impossible where unknown quantum state is held,
-- a reroute where a route is left, a new preparation where the state is classically known, and a
-- classical rollback where the context calls the state classical or no unknown state is held.
pub classify_grounds :
    {D : Type 0} (ev : FailureEvent D) (c : Context) (rs : List ClassificationRecord)
    → ((classify ev c rs).0 ≡ recovery_impossible → (facts_of ev c).unknown_q ≡ true)
      × ((classify ev c rs).0 ≡ reroute_safe → 0 < (facts_of ev c).routes)
      × ((classify ev c rs).0 ≡ reprepare_known_state → c.state_classically_known ≡ some true)
      × ((classify ev c rs).0 ≡ rollback_classical_only
          → (c.classical_only ≡ some true) ⊎ ((facts_of ev c).unknown_q ≡ false))
unfolding classify
classify_grounds ev c rs =
    let (a, b, r, d) = rule_lem (facts_of ev c) in
    (a, b, λ h. ground (arith, r h), λ h. ground (arith, d h))
