-- ===== src/Tests/Crdt.antt =====
-- crdt.py at concrete inputs.
use df_fabric.Prelude.Dict.{get}
use df_fabric.Prelude.{
  ℕ, ◌≤◌, String, List, [], ◌∷◌, Bool, true, false, none, some, ◌≡◌, ◌≢◌, ◌↔◌, refl, arith,
  string_dec, member, ℕ_discrete, ap, is_yes,
}
use df_fabric.Prelude.Result.{ok}
use df_fabric.Payload.{Value, text, null}
use df_fabric.Crdt.{crdt_error, is_quantum_value, reject_quantum, quantum_replication_rejected}
use df_fabric.Crdt.Counts.{Counts}
use df_fabric.Crdt.GCounter.{GCounter}
use df_fabric.Crdt.GCounter as grow
use df_fabric.Crdt.OrSet.{OrSet, Add}
use df_fabric.Crdt.OrSet as orset
use df_fabric.Crdt.OrSet.Methods.{add-survives-remove, or_set-MergeLaws}
use df_fabric.Crdt.Version.{
  VersionVector, dominates, tick, compare, equal, is_dominating, is_concurrent, ge_on,
}
use df_fabric.Crdt.Version as version
use df_fabric.Crdt.Version.Order.{merge_least}
use df_fabric.Crdt.Register.{Register, Policy, lamport, version_dominance, uses_dominance}
use df_fabric.Crdt.Register as register
use df_fabric.Crdt.Register.Merge.{register-MergeLaws, IsValid, join}
use df_fabric.Crdt.Register.Dominance.{merge-not_comm}
use df_fabric.Crdt.Laws.{MergeLaws}
use df_fabric.Crdt.Contract.{PartitionModel, FailureModel, causal, require, evaluate}
use df_fabric.Crdt.Contract.Verdict.{require_lem}
use df_fabric.Crdt.AntiEntropy as entropy
use df_fabric.Crdt.AntiEntropy.Exchange.{sync_lem}

abbrev left_counter : GCounter
left_counter = record { replica_id = "a"; counts = ("a", 2) ∷ ("b", 1) ∷ [] }

abbrev right_counter : GCounter
right_counter = record { replica_id = "b"; counts = ("b", 3) ∷ [] }

-- A stand-in for the elements up to Python's equality: the values themselves. The tests have texts
-- only, which it compares as Python does.
unfoldable Value-discrete : Discrete Value
unfolding string_dec
Value-discrete = hlevel (string_dec, ℕ_discrete)

abbrev itself : Value → Value
itself v = v

abbrev tagged : String → Add Value
tagged t = record { element = text "x"; tag = t }

abbrev observed : OrSet Value
observed = record { replica_id = "a"; adds = tagged "a:1" ∷ []; removed_tags = []; counter = 1 }

abbrev fresh : OrSet Value
fresh = record { replica_id = "b"; adds = []; removed_tags = []; counter = 0 }

or_set_example :
    MergeLaws
      (λ (s : OrSet Value). Unit)
      (λ a b. ok (orset.merge Value-discrete a b))
      (orset.merge Value-discrete)
      (orset.state Value-discrete)
or_set_example = or_set-MergeLaws Value-discrete

tag_present : ◌≢◌ {A = String} "b:1" ""
unfolding string_dec
tag_present e = let h : false ≡ true = ap (λ s. is_yes (string_dec s "")) e in ground arith

survives_example :
    (b : OrSet Value) × (orset.add Value-discrete itself (text "x") "b:1" fresh ≡ ok ("b:1", b))
    × (orset.contains Value-discrete itself
          (text "x")
          (orset.merge Value-discrete (orset.remove Value-discrete itself (text "x") observed) b)
        ≡ true)
    × (orset.contains Value-discrete itself
          (text "x")
          (orset.merge Value-discrete b (orset.remove Value-discrete itself (text "x") observed))
        ≡ true)
unfolding is_quantum_value member orset.Add-discrete Value-discrete
survives_example =
    add-survives-remove Value-discrete itself (text "x") "b:1" observed fresh refl tag_present refl
      refl refl

abbrev older : VersionVector
older = record { replica_id = "a"; versions = ("a", 1) ∷ [] }

abbrev newest : VersionVector
newest = record { replica_id = "a"; versions = ("a", 2) ∷ ("b", 1) ∷ [] }

least_example : ge_on (version.merge older newest).versions newest.versions ≡ true
unfolding get string_dec
least_example = (merge_least older newest newest (refl, (refl, tt))).1

-- a stand-in for the JSON encoder
abbrev shown : Value → String
shown (text s) = s
shown _ = ""

register_example :
    MergeLaws (IsValid lamport) (register.merge shown) (join shown) (register.state shown)
register_example = register-MergeLaws shown lamport refl

abbrev early : Register
early = record {
  replica_id = "a";
  policy = version_dominance;
  value = text "early";
  timestamp = 1;
  writer = "a";
  version = ("a", 2) ∷ [];
}

abbrev late : Register
late = record {
  replica_id = "b";
  policy = version_dominance;
  value = text "late";
  timestamp = 2;
  writer = "b";
  version = [];
}

dominance_example :
    (m n : Register) × (register.merge shown early late ≡ ok m)
    × (register.merge shown late early ≡ ok n)
    × (m.timestamp ≡ 1)
    × (n.timestamp ≡ 2)
    × (m.timestamp ≢ n.timestamp)
unfolding dominates ge_on df_fabric.Prelude.all df_fabric.Prelude.union string_dec
    df_fabric.Crdt.Counts.count_of get version.gt_on df_fabric.Prelude.any
dominance_example = merge-not_comm shown early late refl refl refl (omega arith)

abbrev parted : PartitionModel
parted = record {
  partitions_possible = true;
  bounded_duration = true;
  max_partition_ticks = some 10;
  asymmetric = false;
}

abbrev four_replicas : FailureModel
four_replicas = record {
  crash_stop = true;
  message_loss = false;
  reliable_retransmit = true;
  byzantine = false;
  max_concurrent_failures = 2;
  replicas = 4;
  failover = false;
  anti_entropy = true;
  crdt_declared = false;
}

require_example : require causal parted four_replicas ≡ ok (evaluate causal parted four_replicas)
require_example = (require_lem causal parted four_replicas).1 (λ h. refl)

abbrev two_replicas : entropy.AntiEntropy GCounter ℕ
two_replicas = entropy.new (("a", left_counter) ∷ ("b", right_counter) ∷ [])

relabelled : (i : String) (c : GCounter) → grow.value (record c { replica_id = i }) ≡ grow.value c
unfolding grow.value
relabelled i c = refl

-- A stand-in for the hash of a counter is its value.
sync_example :
    (rec : entropy.SyncRecord ℕ) × (s : entropy.AntiEntropy GCounter ℕ) × (entropy.sync ℕ_discrete
        (λ a b. ok (grow.merge a b))
        grow.value
        (λ i c. record c { replica_id = i })
        (λ c. null)
        0
        "a"
        "b"
        two_replicas
      ≡ ok (rec, s))
unfolding get string_dec
sync_example =
    let (rec, s, e, _, _, _, _) =
      (sync_lem ℕ_discrete (λ a b. ok (grow.merge a b)) grow.value
          (λ i c. record c { replica_id = i }) (λ c. null) relabelled 0 "a" "b" two_replicas).0
        left_counter right_counter (grow.merge left_counter right_counter) refl refl refl in
    (rec, s, e)
