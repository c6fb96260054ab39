-- ===== src/Resilience/Campaign.antt =====
-- `run_campaign` and `campaign_summary` of resilience.py: each scenario is injected, classified and
-- handed to the supervision tree. The prose of a reason and the hashes are not modelled.
pub mod Entries
use df_fabric.Prelude.{
  ℕ, suc, ◌+◌, String, List, [], ◌∷◌, ◌++◌, Bool, true, false, ◌&&◌, Option, none, some, string_dec,
  length, ltb, if◌then◌else◌, is_yes,
}
use df_fabric.Prelude.Dict.{Dict, get}
use df_fabric.Prelude.Result.{Result, ok, err, ◌>>=◌, ◌>>◌}
use df_fabric.Resilience.Error.{ResilienceError, Raises, unknown_scenario, supervision_escalation}
use df_fabric.Resilience.Scenario.{
  no_context, ScenarioId, Scenario, scenario_of, scenario_index, Context, FailureEvent,
  FailureInjector, inject, worker_crash, process_crash, domain_loss, node_unavailable,
  memory_exhaustion, classical_link_timeout, classical_packet_loss, dropped_message,
  duplicate_message, corrupt_message, quantum_link_failure, ebit_generation_failure,
  ebit_expiration, stale_calibration, qpu_unavailable, route_invalidation, route_degradation,
  coherence_deadline_exceeded, checkpoint_corruption, shard_corruption, stale_topology,
  stale_reservation,
}
use df_fabric.Resilience.Planner.{
  RecoveryClass, recovery_impossible, Rule, ClassificationRecord, classify,
}
use df_fabric.Resilience.Supervision.{
  Decision, Deed, retry, restart, reroute, escalate, abort, Tree, handle, task,
}
use df_fabric.Resilience.Supervision as supervision
use Prim.Native.String.{◌++◌ as text_append}

abbrev classical_context : Context
classical_context = record no_context { classical_only = some true }

-- DEFAULT_CONTEXTS
unfoldable pub default_context : ScenarioId → Context
default_context worker_crash = record classical_context { admissible_boundary = some "B_CLASSICAL" }
default_context process_crash = record classical_context {
  admissible_boundary = some "B_CLASSICAL";
}
default_context domain_loss = record classical_context { route_alternatives = some 1 }
default_context node_unavailable = record classical_context { route_alternatives = some 1 }
default_context memory_exhaustion = classical_context
default_context classical_link_timeout = record classical_context { idempotent = some true }
default_context classical_packet_loss = record classical_context { idempotent = some true }
default_context dropped_message = record classical_context { idempotent = some true }
default_context duplicate_message = record classical_context { idempotent = some true }
default_context corrupt_message = record classical_context { idempotent = some true }
default_context quantum_link_failure = record no_context {
  quantum_state_unknown = some true;
  route_alternatives = some 1;
}
default_context ebit_generation_failure = no_context
default_context ebit_expiration = no_context
default_context stale_calibration = record no_context { state_classically_known = some true }
default_context qpu_unavailable = record no_context {
  quantum_state_unknown = some true;
  admissible_boundary = some "B_PREP";
}
default_context route_invalidation = record no_context { route_alternatives = some 2 }
default_context route_degradation = record no_context { route_alternatives = some 1 }
default_context coherence_deadline_exceeded = record no_context {
  quantum_state_unknown = some true;
  admissible_boundary = some "B_PREP";
}
default_context checkpoint_corruption = classical_context
default_context shard_corruption = classical_context
default_context stale_topology = record classical_context { idempotent = some true }
default_context stale_reservation = record classical_context { idempotent = some true }

abbrev override : {A : Type 0} → Option A → Option A → Option A
override old none = old
override old (some a) = some a

-- `dict.update`
unfoldable pub update : Context → Context → Context
update c d = record {
  quantum_state_unknown = override c.quantum_state_unknown d.quantum_state_unknown;
  state_classically_known = override c.state_classically_known d.state_classically_known;
  restore_from_classical_checkpoint =
      override c.restore_from_classical_checkpoint d.restore_from_classical_checkpoint;
  requires_duplication = override c.requires_duplication d.requires_duplication;
  route_alternatives = override c.route_alternatives d.route_alternatives;
  admissible_boundary = override c.admissible_boundary d.admissible_boundary;
  idempotent = override c.idempotent d.idempotent;
  classical_only = override c.classical_only d.classical_only;
  target_specific = override c.target_specific d.target_specific;
  detector_extended = override c.detector_extended d.detector_extended;
}

abbrev or_no_context : Option Context → Context
or_no_context none = no_context
or_no_context (some c) = c

-- `ctxs.get(sid)` of the merged contexts
unfoldable pub context_of : Dict String Context → String → ScenarioId → Context
unfolding default_context update
context_of contexts s i = update (default_context i) (or_no_context (get string_dec contexts s))

pub record CampaignEntry : Type 0 where
  pub scenario_id : String
  pub injected : Bool
  pub detected : Bool
  pub classification : RecoveryClass
  pub action : Deed
  pub recovered : Bool
  pub rule_id : Rule

-- `action in ("retry", "restart", "reroute")`
abbrev pub is_recovery : Deed → Bool
is_recovery retry = true
is_recovery restart = true
is_recovery reroute = true
is_recovery _ = false

-- the action of a decision, and "abort" past the top; no other exception is caught
abbrev pub action_or_abort : Result ResilienceError Decision → Raises Deed
action_or_abort (ok d) = ok d.action
action_or_abort (err supervision_escalation) = ok abort
action_or_abort (err e) = err e

abbrev or_unknown : Option ScenarioId → Raises ScenarioId
or_unknown none = err unknown_scenario
or_unknown (some i) = ok i

-- `for s in ids: if s not in SCENARIO_INDEX`
unfoldable pub check_known : List String → Raises (Unit {0})
check_known [] = ok tt
check_known (s ∷ ss) = do or_unknown (get string_dec scenario_index s); check_known ss

pub record Campaign (D : Type 0) : Type 0 where
  pub injector : FailureInjector D
  pub records : List ClassificationRecord
  pub tree : Tree

module _ {D : Type 0} (draw : ScenarioId → ℕ → D) (derive_seed : ScenarioId → ℕ → ℕ) where
  -- the entry of an event whose class has been handled
  unfoldable pub entry_of : String → FailureEvent D → ClassificationRecord → Deed → CampaignEntry
  entry_of s ev r action = record {
    scenario_id = s;
    injected = true;
    detected = ev.detected;
    classification = r.recovery_class;
    action = action;
    recovered = ev.detected && is_recovery action;
    rule_id = r.rule_id;
  }

  abbrev record_of : FailureEvent D → Context → ClassificationRecord
  record_of ev c = record {
    scenario_id = ev.scenario_id;
    recovery_class = (classify ev c []).0;
    rule_id = df_fabric.Resilience.Planner.rule_of (df_fabric.Resilience.Planner.facts_of ev c);
  }

  -- one round of the loop
  unfoldable pub run_scenario :
      Dict String Context → String → Campaign D → Raises (CampaignEntry × Campaign D)
  unfolding context_of inject classify handle entry_of
  run_scenario contexts s g = do
    i ← or_unknown (get string_dec scenario_index s)
    let c = context_of contexts s i
    (ev, injector) ← inject draw derive_seed s (scenario_of i).subject c g.injector
    let records = (classify ev c g.records).1
    let (decision, tree) =
        handle task (text_append s (text_append ":" ev.target)) (classify ev c g.records).0 g.tree
    action ← action_or_abort decision
    ok (
      entry_of s ev (record_of ev c) action,
      record { injector = injector; records = records; tree = tree },
    )

  unfoldable pub run_each :
      Dict String Context → List String → Campaign D → Raises (List CampaignEntry)
  unfolding run_scenario
  run_each contexts [] g = ok []
  run_each contexts (s ∷ ss) g = do
    (e, g') ← run_scenario contexts s g
    es ← run_each contexts ss g'
    ok (e ∷ es)

  unfoldable pub run_campaign : List String → ℕ → Dict String Context → Raises (List CampaignEntry)
  unfolding check_known run_each
  run_campaign ids seed contexts = do
    check_known ids
    run_each contexts ids (record {
      injector = record { seed = seed; events = []; time = 0 };
      records = [];
      tree = supervision.new;
    })

-- `campaign_summary`; the classes are counted by a function in place of a sorted dictionary
pub record CampaignSummary : Type 0 where
  pub scenarios : ℕ
  pub detected : ℕ
  pub recovered : ℕ
  pub impossible : ℕ
  pub by_class : RecoveryClass → ℕ

unfoldable pub Class-discrete : Discrete RecoveryClass
Class-discrete = hlevel

-- `sum(1 for e in entries if p(e))`
unfoldable pub count_entries : (CampaignEntry → Bool) → List CampaignEntry → ℕ
count_entries p [] = 0
count_entries p (e ∷ es) = let rest = count_entries p es in if p e then suc rest else rest

unfoldable pub count_class : List CampaignEntry → RecoveryClass → ℕ
unfolding count_entries Class-discrete
count_class es c = count_entries (λ e. is_yes (Class-discrete e.classification c)) es

unfoldable pub campaign_summary : List CampaignEntry → CampaignSummary
unfolding count_entries count_class
campaign_summary es = record {
  scenarios = length es;
  detected = count_entries (λ e. e.detected) es;
  recovered = count_entries (λ e. e.recovered) es;
  impossible = count_class es recovery_impossible;
  by_class = count_class es;
}
