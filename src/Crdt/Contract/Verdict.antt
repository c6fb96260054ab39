-- ===== src/Crdt/Contract/Verdict.antt =====
-- What the verdict of `ConsistencyContract` means.
use df_fabric.Prelude.{
  ◌+◌, ◌*◌, ◌≤◌, ◌<◌, ◌≡◌, ◌↔◌, ◌⊎◌, refl, true, false, arith, [], List, Bool-cases, inl, inr,
}
use df_fabric.Prelude.Result.{ok, err}
use df_fabric.Crdt.Error.{consistency_guarantee_blocked}
use df_fabric.Crdt.Contract.{
  Profile, single_owner, eventual, causal, sequential, linearizable, immutable_replica,
  crdt_declared, PartitionModel, FailureModel, quorum, fired, order_rules, evaluate, require,
  ContractVerdict, distinct, List, Rule, none_fired, ◌∷◌,
}

-- A total order of operations: three replicas and fewer failures than a quorum where partitions can
-- happen, and 3f + 1 replicas against f byzantine ones.
abbrev pub Orders : PartitionModel → FailureModel → Type 0
Orders p f =
    (p.partitions_possible ≡ true → (3 ≤ f.replicas) × (f.max_concurrent_failures < quorum f))
    × (f.byzantine ≡ true → 3 * f.max_concurrent_failures + 1 ≤ f.replicas)

-- The conditions under which each guarantee is possible, profile by profile.
abbrev pub Possible : Profile → PartitionModel → FailureModel → Type 0
Possible linearizable p f = Orders p f
Possible sequential p f = Orders p f
Possible causal p f = f.message_loss ≡ true → f.reliable_retransmit ≡ true
Possible eventual p f =
    (p.partitions_possible ≡ true → p.bounded_duration ≡ true)
    × (f.message_loss ≡ true → (f.reliable_retransmit ≡ true) ⊎ (f.anti_entropy ≡ true))
Possible crdt_declared p f = (f.crdt_declared ≡ true) × (f.anti_entropy ≡ true)
Possible single_owner p f = f.crash_stop ≡ true → f.failover ≡ false → f.max_concurrent_failures ≡ 0
Possible immutable_replica p f = f.byzantine ≡ false

order_rules_iff :
    (p : PartitionModel) (f : FailureModel)
    → ((evaluate linearizable p f).admissible ≡ true) ↔ Orders p f
unfolding evaluate order_rules
order_rules_iff p f = (λ h. (λ e. ground arith, λ e. ground arith), λ h. ground (arith, h.0, h.1))

-- A profile is admitted exactly under the conditions that make it possible.
pub admissible_iff :
    (profile : Profile) (p : PartitionModel) (f : FailureModel)
    → ((evaluate profile p f).admissible ≡ true) ↔ Possible profile p f
unfolding evaluate
admissible_iff linearizable p f = order_rules_iff p f
admissible_iff sequential p f = order_rules_iff p f
admissible_iff causal p f = ground arith
admissible_iff eventual p f =
    (λ h. (λ e. ground arith, λ e. ground arith), λ h. ground (arith, h.0, h.1))
admissible_iff crdt_declared p f = ground arith
admissible_iff single_owner p f = ground arith
admissible_iff immutable_replica p f = ground arith

profile-evaluate :
    (profile : Profile) (p : PartitionModel) (f : FailureModel)
    → (evaluate profile p f).profile ≡ profile
unfolding evaluate
profile-evaluate profile p f = refl

fired-nil :
    (profile : Profile) (p : PartitionModel) (f : FailureModel)
    → (evaluate profile p f).admissible ≡ true
    → (evaluate profile p f).rules_fired ≡ []
unfolding evaluate
fired-nil profile p f h = nothing (fired profile p f) h
  where
    nothing : (rs : List Rule) → none_fired rs ≡ true → distinct rs ≡ []
    nothing [] h = refl
    nothing (r ∷ rs) h = cc

-- `require` returns a verdict on the very profile that was asked for, with no rule fired, if the
-- profile is admitted, and raises ConsistencyGuaranteeBlocked otherwise: nothing is downgraded.
pub require_lem :
    (profile : Profile) (p : PartitionModel) (f : FailureModel)
    → ((v : ContractVerdict)
        → require profile p f ≡ ok v
        → (v.profile ≡ profile) × (v.rules_fired ≡ []) × Possible profile p f)
      × (Possible profile p f → require profile p f ≡ ok (evaluate profile p f))
      × (¬ Possible profile p f → require profile p f ≡ err consistency_guarantee_blocked)
unfolding require
require_lem profile p f = elim (Bool-cases (evaluate profile p f).admissible) [
  | inl e ↦ (
    λ v h. ground (
      arith,
      profile-evaluate profile p f,
      fired-nil profile p f e,
      (admissible_iff profile p f).0 e,
    ),
    λ h. rw (e),
    λ h. absurd (h ((admissible_iff profile p f).0 e)),
  )
  | inr e ↦ (
    λ v h. absurd (ground arith),
    λ h. absurd (ground (arith, (admissible_iff profile p f).1 h)),
    λ h. rw e,
  )
]
