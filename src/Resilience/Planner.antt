-- ===== src/Resilience/Planner.antt =====
-- `RecoveryPlanner.classify` and `explain` of resilience.py. A reason is named by its rule.
pub mod Classes
use df_fabric.Prelude.{
  ℕ, String, List, [], ◌∷◌, ◌++◌, Bool, true, false, ◌&&◌, ◌||◌, not, Option, none, some, ltb, ◌==◌,
  is_yes, any, if◌then◌else◌,
}
use df_fabric.Resilience.Scenario.{
  ScenarioId, worker_crash, process_crash, domain_loss, node_unavailable, memory_exhaustion,
  classical_link_timeout, classical_packet_loss, dropped_message, duplicate_message,
  corrupt_message, quantum_link_failure, ebit_generation_failure, ebit_expiration,
  stale_calibration, qpu_unavailable, route_invalidation, route_degradation,
  coherence_deadline_exceeded, checkpoint_corruption, shard_corruption, stale_topology,
  stale_reservation, Context, or_else, FailureEvent,
}

-- lang.RECOVERY_CLASSES
pub data RecoveryClass : Type 0 where
  retry_safe restart_from_classical_boundary reroute_safe regenerate_entanglement : RecoveryClass
  reprepare_known_state rollback_classical_only recovery_target_specific : RecoveryClass
  recovery_impossible : RecoveryClass

pub data Rule : Type 0 where
  i1 i2 i3 i4 i5 r1 r2 r3 r4 r5 r6 r7 r8 r9 : Rule

-- the class that the branch of a rule assigns
unfoldable pub class_of : Rule → RecoveryClass
class_of i1 = recovery_impossible
class_of i2 = recovery_impossible
class_of i3 = recovery_impossible
class_of i4 = recovery_impossible
class_of i5 = recovery_impossible
class_of r1 = regenerate_entanglement
class_of r2 = reprepare_known_state
class_of r3 = reroute_safe
class_of r4 = recovery_target_specific
class_of r5 = restart_from_classical_boundary
class_of r6 = rollback_classical_only
class_of r7 = retry_safe
class_of r8 = restart_from_classical_boundary
class_of r9 = restart_from_classical_boundary

-- The tests `sid in (…)` of each rule.
unfoldable pub is_entanglement : ScenarioId → Bool
is_entanglement ebit_generation_failure = true
is_entanglement ebit_expiration = true
is_entanglement _ = false

unfoldable pub can_reprepare : ScenarioId → Bool
can_reprepare worker_crash = true
can_reprepare process_crash = true
can_reprepare qpu_unavailable = true
can_reprepare stale_calibration = true
can_reprepare coherence_deadline_exceeded = true
can_reprepare quantum_link_failure = true
can_reprepare _ = false

unfoldable pub can_reroute : ScenarioId → Bool
can_reroute route_invalidation = true
can_reroute route_degradation = true
can_reroute quantum_link_failure = true
can_reroute node_unavailable = true
can_reroute domain_loss = true
can_reroute _ = false

unfoldable pub can_roll_back : ScenarioId → Bool
can_roll_back checkpoint_corruption = true
can_roll_back shard_corruption = true
can_roll_back memory_exhaustion = true
can_roll_back worker_crash = true
can_roll_back process_crash = true
can_roll_back _ = false

unfoldable pub can_retry : ScenarioId → Bool
can_retry dropped_message = true
can_retry duplicate_message = true
can_retry corrupt_message = true
can_retry classical_packet_loss = true
can_retry classical_link_timeout = true
can_retry stale_reservation = true
can_retry stale_topology = true
can_retry _ = false

unfoldable pub is_deadline : ScenarioId → Bool
is_deadline coherence_deadline_exceeded = true
is_deadline _ = false

unfoldable pub is_link_failure : ScenarioId → Bool
is_link_failure quantum_link_failure = true
is_link_failure _ = false

abbrev pub is_some : {A : Type 0} → Option A → Bool
is_some none = false
is_some (some a) = true

-- What `classify` reads from the failure and the context before it decides.
pub record Facts : Type 0 where
  pub sid : ScenarioId
  pub unknown_q : Bool
  pub known_classically : Bool
  pub from_classical_checkpoint : Bool
  pub requires_duplication : Bool
  pub routes : ℕ
  pub boundary : Bool
  pub idempotent : Bool
  pub classical_only : Bool
  pub target_specific : Bool

unfoldable pub facts_of : {D : Type 0} → FailureEvent D → Context → Facts
facts_of ev c =
    let unknown = or_else c.quantum_state_unknown ev.quantum_state_at_risk in
    record {
      sid = ev.scenario_id;
      unknown_q = unknown;
      known_classically = or_else c.state_classically_known false;
      from_classical_checkpoint = or_else c.restore_from_classical_checkpoint false;
      requires_duplication = or_else c.requires_duplication false;
      routes = or_else c.route_alternatives 0;
      boundary = is_some c.admissible_boundary;
      idempotent = or_else c.idempotent false;
      classical_only = or_else c.classical_only (not unknown);
      target_specific = or_else c.target_specific false;
    }

-- the ordinary classes, where no rule of impossibility has fired
unfoldable pub ordinary_rule : Facts → Rule
ordinary_rule f =
    if is_entanglement f.sid
    then r1
    else if f.known_classically && can_reprepare f.sid
    then r2
    else if can_reroute f.sid && ltb 0 f.routes
    then r3
    else if f.target_specific
    then r4
    else if f.classical_only && f.boundary
    then r5
    else if f.classical_only && can_roll_back f.sid
    then r6
    else if f.idempotent || can_retry f.sid
    then r7
    else if f.unknown_q && f.boundary
    then r8
    else if f.unknown_q
    then i5
    else r9

unfoldable pub rule_of : Facts → Rule
rule_of f =
    if f.unknown_q && not f.known_classically && f.from_classical_checkpoint
    then i1
    else if f.unknown_q && not f.known_classically && f.requires_duplication
    then i2
    else if is_deadline f.sid && f.unknown_q && not f.known_classically && not f.boundary
    then i3
    else if is_link_failure f.sid
        && f.unknown_q
        && f.routes == 0
        && not f.boundary
        && not f.known_classically
    then i4
    else ordinary_rule f

pub record ClassificationRecord : Type 0 where
  pub scenario_id : ScenarioId
  pub recovery_class : RecoveryClass
  pub rule_id : Rule

-- `classify`: the class, and the planner's records with one more
unfoldable pub classify :
    {D : Type 0}
    → FailureEvent D
    → Context
    → List ClassificationRecord
    → RecoveryClass × List ClassificationRecord
unfolding facts_of rule_of class_of
classify ev c records =
    let rule = rule_of (facts_of ev c) in
    (
      class_of rule,
      records
          ++ (record {
            scenario_id = ev.scenario_id;
            recovery_class = class_of rule;
            rule_id = rule;
          }
              ∷ []),
    )
