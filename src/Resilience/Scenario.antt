-- ===== src/Resilience/Scenario.antt =====
-- The scenario catalog and `FailureInjector.inject` of resilience.py. The drawn detail of an event,
-- and the seed derived by SHA-256, are parameters; the prose descriptions are not modelled.
use df_fabric.Prelude.{
  ℕ, suc, String, List, [], ◌∷◌, ◌++◌, Bool, true, false, ◌||◌, Option, none, some, is_yes,
  string_dec, if◌then◌else◌,
}
use df_fabric.Prelude.Dict.{keys, Dict, get}
use df_fabric.Prelude.Result.{◌>>=◌, ok, err}
use df_fabric.Resilience.Error.{Raises, unknown_scenario}

pub data ScenarioId : Type 0 where
  worker_crash process_crash domain_loss node_unavailable memory_exhaustion : ScenarioId
  classical_link_timeout classical_packet_loss dropped_message duplicate_message : ScenarioId
  corrupt_message quantum_link_failure ebit_generation_failure ebit_expiration : ScenarioId
  stale_calibration qpu_unavailable route_invalidation route_degradation : ScenarioId
  coherence_deadline_exceeded checkpoint_corruption shard_corruption stale_topology : ScenarioId
  stale_reservation : ScenarioId

pub data Kind : Type 0 where
  classical quantum storage topology : Kind

pub record Scenario : Type 0 where
  pub kind : Kind
  pub subject : String
  pub detectable : Bool
  pub quantum_state_at_risk : Bool

abbrev pub entry : Kind → String → Bool → Bool → Scenario
entry k s d q = record { kind = k; subject = s; detectable = d; quantum_state_at_risk = q }

-- SCENARIOS
unfoldable pub scenario_of : ScenarioId → Scenario
scenario_of worker_crash = entry classical "worker" true false
scenario_of process_crash = entry classical "process" true false
scenario_of domain_loss = entry classical "domain" true false
scenario_of node_unavailable = entry classical "node" true false
scenario_of memory_exhaustion = entry classical "worker" true false
scenario_of classical_link_timeout = entry classical "link" true false
scenario_of classical_packet_loss = entry classical "link" true false
scenario_of dropped_message = entry classical "message" true false
scenario_of duplicate_message = entry classical "message" true false
scenario_of corrupt_message = entry classical "message" true false
scenario_of quantum_link_failure = entry quantum "quantum_link" true true
scenario_of ebit_generation_failure = entry quantum "ebit" true false
scenario_of ebit_expiration = entry quantum "ebit" true false
scenario_of stale_calibration = entry quantum "device" false true
scenario_of qpu_unavailable = entry quantum "qpu" true true
scenario_of route_invalidation = entry topology "route" true true
scenario_of route_degradation = entry topology "route" false true
scenario_of coherence_deadline_exceeded = entry quantum "qstate" true true
scenario_of checkpoint_corruption = entry storage "checkpoint" true false
scenario_of shard_corruption = entry storage "shard" true false
scenario_of stale_topology = entry topology "topology" false false
scenario_of stale_reservation = entry topology "reservation" true false

-- SCENARIO_INDEX: the ids as the source spells them
abbrev pub scenario_index : Dict String ScenarioId
scenario_index =
    ("worker_crash", worker_crash)
    ∷ ("process_crash", process_crash)
    ∷ ("domain_loss", domain_loss)
    ∷ ("node_unavailable", node_unavailable)
    ∷ ("memory_exhaustion", memory_exhaustion)
    ∷ ("classical_link_timeout", classical_link_timeout)
    ∷ ("classical_packet_loss", classical_packet_loss)
    ∷ ("dropped_message", dropped_message)
    ∷ ("duplicate_message", duplicate_message)
    ∷ ("corrupt_message", corrupt_message)
    ∷ ("quantum_link_failure", quantum_link_failure)
    ∷ ("ebit_generation_failure", ebit_generation_failure)
    ∷ ("ebit_expiration", ebit_expiration)
    ∷ ("stale_calibration", stale_calibration)
    ∷ ("qpu_unavailable", qpu_unavailable)
    ∷ ("route_invalidation", route_invalidation)
    ∷ ("route_degradation", route_degradation)
    ∷ ("coherence_deadline_exceeded", coherence_deadline_exceeded)
    ∷ ("checkpoint_corruption", checkpoint_corruption)
    ∷ ("shard_corruption", shard_corruption)
    ∷ ("stale_topology", stale_topology)
    ∷ ("stale_reservation", stale_reservation)
    ∷ []

-- The context of a failure: a key that is not there is `none`.
pub record Context : Type 0 where
  pub quantum_state_unknown : Option Bool
  pub state_classically_known : Option Bool
  pub restore_from_classical_checkpoint : Option Bool
  pub requires_duplication : Option Bool
  pub route_alternatives : Option ℕ
  pub admissible_boundary : Option String
  pub idempotent : Option Bool
  pub classical_only : Option Bool
  pub target_specific : Option Bool
  pub detector_extended : Option Bool

-- an empty context
abbrev pub no_context : Context
no_context = record {
  quantum_state_unknown = none;
  state_classically_known = none;
  restore_from_classical_checkpoint = none;
  requires_duplication = none;
  route_alternatives = none;
  admissible_boundary = none;
  idempotent = none;
  classical_only = none;
  target_specific = none;
  detector_extended = none;
}

-- `c.get(key, default)`
abbrev pub or_else : {A : Type 0} → Option A → A → A
or_else none d = d
or_else (some a) d = a

pub record FailureEvent (D : Type 0) : Type 0 where
  pub scenario_id : ScenarioId
  pub kind : Kind
  pub subject : String
  pub target : String
  pub seed : ℕ
  pub derived_seed : ℕ
  pub detected : Bool
  pub quantum_state_at_risk : Bool
  pub detail : D
  pub logical_time : ℕ

pub record FailureInjector (D : Type 0) : Type 0 where
  pub seed : ℕ
  pub events : List (FailureEvent D)
  pub time : ℕ

module _ {D : Type 0} (draw : ScenarioId → ℕ → D) (derive_seed : ScenarioId → ℕ → ℕ) where
  -- the event of a known scenario
  unfoldable pub event_of : ScenarioId → String → Context → ℕ → ℕ → FailureEvent D
  unfolding scenario_of
  event_of i target c seed time =
      let sc = scenario_of i in
      record {
        scenario_id = i;
        kind = sc.kind;
        subject = sc.subject;
        target = if is_yes (string_dec target "-") then sc.subject else target;
        seed = seed;
        derived_seed = derive_seed i seed;
        detected = sc.detectable || or_else c.detector_extended false;
        quantum_state_at_risk = sc.quantum_state_at_risk || or_else c.quantum_state_unknown false;
        detail = draw i (derive_seed i seed);
        logical_time = time;
      }

  unfoldable pub inject :
      String → String → Context → FailureInjector D → Raises (FailureEvent D × FailureInjector D)
  unfolding event_of
  inject s target c j = elim (get string_dec scenario_index s) [
    | none ↦ err unknown_scenario
    | some i ↦
        let ev = event_of i target c j.seed (suc j.time) in
        ok (ev, record j { events = j.events ++ (ev ∷ []); time = suc j.time })
  ]

  -- `inject_all`: every scenario of the catalog, in its order, at its target or "-"
  unfoldable pub inject_each :
      List String
      → Dict String String
      → FailureInjector D
      → Raises (List (FailureEvent D) × FailureInjector D)
  unfolding inject
  inject_each [] targets j = ok ([], j)
  inject_each (s ∷ ss) targets j = do
    (ev, j') ← inject s (or_else (get string_dec targets s) "-") no_context j
    (evs, j'') ← inject_each ss targets j'
    ok (ev ∷ evs, j'')

  unfoldable pub inject_all :
      Dict String String → FailureInjector D → Raises (List (FailureEvent D) × FailureInjector D)
  unfolding inject_each
  inject_all targets j = inject_each (keys scenario_index) targets j
