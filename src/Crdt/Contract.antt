-- ===== src/Crdt/Contract.antt =====
-- `ConsistencyContract` of crdt.py: which guarantee is possible under which models. The texts of
-- reasons and conditions are not modelled; a condition and a rule is named by its place in the code.
pub mod Verdict
use df_fabric.Prelude.{
  ℕ, suc, ◌+◌, ◌*◌, ◌/◌, String, List, [], ◌∷◌, ◌++◌, Bool, true, false, ◌&&◌, ◌||◌, not, Option,
  some, none, ltb, leb, is_yes, string_dec, if◌then◌else◌,
}
use df_fabric.Prelude.Result.{ok, err}
use df_fabric.Payload.{Value}
use df_fabric.Crdt.Error.{
  Raises, crdt_error, quantum_replication_rejected, consistency_guarantee_blocked,
}
use df_fabric.Crdt.Quantum.{is_quantum_value}

-- lang.CONSISTENCY_PROFILES
pub data Profile : Type 0 where
  single_owner eventual causal sequential linearizable immutable_replica crdt_declared : Profile

-- `profile not in CONSISTENCY_PROFILES` of the constructor
unfoldable pub profile_of : String → Raises Profile
profile_of s =
    if is_yes (string_dec s "SINGLE_OWNER")
    then ok single_owner
    else if is_yes (string_dec s "EVENTUAL")
    then ok eventual
    else if is_yes (string_dec s "CAUSAL")
    then ok causal
    else if is_yes (string_dec s "SEQUENTIAL")
    then ok sequential
    else if is_yes (string_dec s "LINEARIZABLE")
    then ok linearizable
    else if is_yes (string_dec s "IMMUTABLE_REPLICA")
    then ok immutable_replica
    else if is_yes (string_dec s "CRDT_DECLARED")
    then ok crdt_declared
    else err crdt_error

pub record PartitionModel : Type 0 where
  pub partitions_possible : Bool
  pub bounded_duration : Bool
  pub max_partition_ticks : Option ℕ
  pub asymmetric : Bool

pub record FailureModel : Type 0 where
  pub crash_stop : Bool
  pub message_loss : Bool
  pub reliable_retransmit : Bool
  pub byzantine : Bool
  pub max_concurrent_failures : ℕ
  pub replicas : ℕ
  pub failover : Bool
  pub anti_entropy : Bool
  pub crdt_declared : Bool

unfoldable pub quorum : FailureModel → ℕ
quorum f = f.replicas / 2 + 1

pub data Rule : Type 0 where
  c1 c2 c3 c4 c5 c6 c8 c9 : Rule

abbrev pub fire : Bool → Rule → List Rule
fire b r = if b then r ∷ [] else []

unfoldable pub order_rules : PartitionModel → FailureModel → List Rule
unfolding quorum
order_rules p f =
    fire (p.partitions_possible && ltb f.replicas 3) c1
    ++ fire (p.partitions_possible && leb (quorum f) f.max_concurrent_failures) c2
    ++ fire (f.byzantine && ltb f.replicas (3 * f.max_concurrent_failures + 1)) c3

-- the tests of `evaluate`, in their order; a rule is listed as often as it fires
unfoldable pub fired : Profile → PartitionModel → FailureModel → List Rule
unfolding order_rules
fired linearizable p f = order_rules p f
fired sequential p f = order_rules p f
fired causal p f = fire (f.message_loss && not f.reliable_retransmit) c4
fired eventual p f =
    fire (p.partitions_possible && not p.bounded_duration) c5
    ++ fire (f.message_loss && not (f.reliable_retransmit || f.anti_entropy)) c5
fired crdt_declared p f = fire (not f.crdt_declared) c6 ++ fire (not f.anti_entropy) c6
fired single_owner p f = fire (f.crash_stop && not f.failover && ltb 0 f.max_concurrent_failures) c8
fired immutable_replica p f = fire f.byzantine c9

pub record ContractVerdict : Type 0 where
  pub profile : Profile
  pub admissible : Bool
  pub rules_fired : List Rule
  pub partition_model : PartitionModel
  pub failure_model : FailureModel

-- `not fired`
abbrev pub none_fired : List Rule → Bool
none_fired [] = true
none_fired (r ∷ rs) = false

-- `sorted(set(fired))`: the tests stand in the order of the rules, so a repeated rule stands beside
-- itself
unfoldable pub distinct : List Rule → List Rule
distinct (c5 ∷ c5 ∷ rs) = c5 ∷ rs
distinct (c6 ∷ c6 ∷ rs) = c6 ∷ rs
distinct rs = rs

unfoldable pub evaluate : Profile → PartitionModel → FailureModel → ContractVerdict
unfolding fired distinct
evaluate profile p f = record {
  profile = profile;
  admissible = none_fired (fired profile p f);
  rules_fired = distinct (fired profile p f);
  partition_model = p;
  failure_model = f;
}

unfoldable pub require : Profile → PartitionModel → FailureModel → Raises ContractVerdict
require profile p f =
    let v = evaluate profile p f in if v.admissible then ok v else err consistency_guarantee_blocked

-- quantum state never enters a replicated scope
unfoldable pub admit_value : Value → Raises Value
admit_value v = if is_quantum_value v then err quantum_replication_rejected else ok v
