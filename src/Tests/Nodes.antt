-- ===== src/Tests/Nodes.antt =====
-- pk_components at concrete inputs: the components of a node and of its fleet.
use df_fabric.Prelude.{
  ℕ, ◌<◌, String, List, [], ◌∷◌, Bool, true, false, not, all, any, filter, member, none, some, ◌≡◌,
  ◌≢◌, refl, arith, inl, inr, string_dec, ap, is_yes,
}
use df_fabric.Prelude.Dict.{Dict, get, put}
use df_fabric.Prelude.Result.{ok, err}
use df_fabric.Prelude.Least.{get_elem?, update_at}
use df_fabric.Pk.Policy.{Rule, PolicyEngine, allow, deny, subset, evaluate, load}
use df_fabric.Pk.Policy.Precedence.{evaluate-allow, load-overrides_deny}
use df_fabric.Pk.Rollout.{
  Rollout, GateVerdict, run_wave, new, gate_failed, pin, single, admit, rollback, revert, nth_wave,
  touched_of, update_all,
}
use df_fabric.Pk.Rollout.Reversal.{
  Call, pin_call, admit_call, wave_call, runs, all_on, is_uniform, runs-versions,
  run_wave-unhealthy,
}
use df_fabric.Pk.Attestation.{Attestor, Evidence, hardware, attest, level_of}
use df_fabric.Pk.Attestation.Trust.{attest-level}
use df_fabric.Pk.Supervisor.{
  NodeSupervisor, ready, draining, stopped, illegal_transition, drain, legal, drain_order,
}
use df_fabric.Pk.Supervisor as supervisor
use df_fabric.Pk.Supervisor.Drain as draining_
use df_fabric.Pk.Supervisor.Drain.{drain_lem, runs-stopped}
use df_fabric.Pk.Autonomy.{AutonomyController, Decision, decide, tier, sustain}
use df_fabric.Pk.Autonomy.Narrowing.{decide-narrows}
use df_fabric.Pk.FairShare.{FairShare, claim, share_violation, within_own, held}
use df_fabric.Pk.FairShare.Reservation.{claim_lem}
use df_fabric.Pk.Accelerator.{
  smaller, Accelerator, Requirement, allocate, is_candidate, scrub_required, hold,
  no_matching_accelerator,
}
use df_fabric.Pk.Accelerator.Scrubbing.{allocate_lem, allocate-blocked}

abbrev estate_deny : Rule
estate_deny = record {
  name = "no-egress";
  effect = deny;
  match = ("zone", "dmz") ∷ [];
  scope = "estate";
}

abbrev tenant_allow : Rule
tenant_allow = record {
  name = "app";
  effect = allow;
  match = ("app", "web") ∷ ("port", "443") ∷ [];
  scope = "tenant";
}

abbrev asked : Dict String String
asked = ("zone", "dmz") ∷ ("app", "web") ∷ ("port", "443") ∷ []

abbrev engine : PolicyEngine
engine = record {
  environment = "prod";
  version = "v1";
  rules = estate_deny ∷ tenant_allow ∷ [];
  loaded_at = 0;
}

allow_example : (evaluate asked 5 engine).effect ≡ allow
unfolding df_fabric.Pk.Policy.matches any all get string_dec
allow_example = (evaluate-allow asked 5 engine).1 refl

overrides_example :
    (s : PolicyEngine) × (load (estate_deny ∷ tenant_allow ∷ []) "v2" (some true) 7 engine
      ≡ ok ("v2", s))
    × ((evaluate asked 7 s).effect ≡ allow)
unfolding df_fabric.Pk.Policy.matches subset any all get string_dec
overrides_example =
    load-overrides_deny estate_deny tenant_allow "v2" asked 7 engine (refl, refl) (refl, refl) refl
      (omega arith) (refl, refl)

abbrev fleet : Dict String String
fleet = ("n1", "v1") ∷ ("n2", "v1") ∷ []

abbrev waves : List (List String)
waves = ("n1" ∷ []) ∷ ("n2" ∷ []) ∷ []

abbrev rollout_calls : List Call
rollout_calls =
    pin_call fleet ∷ admit_call (some true) ∷ wave_call true [] ∷ wave_call false [] ∷ []

versions_example : all_on "v1" (runs rollout_calls (new "v2" waves)).versions ≡ true
unfolding pin single admit run_wave rollback revert nth_wave touched_of update_all put string_dec
    member filter all
versions_example = ((runs-versions "v2" waves rollout_calls).1 "v1" refl).2 refl

abbrev rolling : Rollout
rolling = record (new "v2" waves) {
  pinned_target = some "v1";
  verified = true;
  wave_index = 1;
  versions = ("n1", "v2") ∷ ("n2", "v1") ∷ [];
}

unhealthy_example :
    (v : GateVerdict) × (t : Rollout) × (run_wave false [] rolling ≡ ok (some v, t))
    × (v.rolled_back ≡ true)
    × (all_on "v1" t.versions ≡ true)
    × ((healthy : Bool) (later : List String) → run_wave healthy later t ≡ err gate_failed)
unfolding is_uniform nth_wave all string_dec
unhealthy_example = run_wave-unhealthy [] rolling "v1" ("n2" ∷ []) refl refl refl refl refl

abbrev attestor : Attestor
attestor = record {
  environment = "prod";
  accepted = "m1" ∷ [];
  spent_nonces = [];
  quarantined = [];
  verdicts = [];
}

abbrev evidence : Evidence
evidence = record { node = "n1"; measurements = "m1" ∷ []; nonce = "once"; hardware_rooted = true }

-- a stand-in for SHA-256 over the evidence
abbrev bind : Evidence → String
bind e = e.nonce

attest_example : level_of "n1" 50 (attest bind evidence 0 attestor).1 ≡ hardware
unfolding member all string_dec
attest_example = (((attest-level bind evidence 0 attestor).1 refl).2 refl).2 50

abbrev node : NodeSupervisor
node = record {
  node = "n1";
  state = ready;
  workloads = ("w1", "trusted") ∷ ("w2", "hostile") ∷ [];
  health = [];
  breaches = [];
}

drain_example :
    (drain ("w1" ∷ []) 9 5 node).1.workloads
    ≡ filter (λ e. member string_dec ("w1" ∷ []) e.0) node.workloads
unfolding legal drain_order supervisor.ranked supervisor.drain_index string_dec
drain_example = (((drain_lem ("w1" ∷ []) 9 5 node).1 refl).1 ("w2" ∷ "w1" ∷ []) refl).0

abbrev node_calls : List draining_.Call
node_calls = draining_.drain_call [] 9 5 ∷ []

stopped_example :
    (draining_.runs (draining_.transition_call ready ∷ []) (draining_.runs node_calls node)).state
    ≡ stopped
unfolding drain legal supervisor.transition drain_order supervisor.ranked supervisor.drain_index
    supervisor.release_all supervisor.delete member filter string_dec
stopped_example = (runs-stopped node_calls (draining_.transition_call ready ∷ []) node refl refl).1

abbrev site : AutonomyController
site = record {
  site = "dub";
  granted_at = 0;
  lease_ticks = 100;
  partitioned_since = some 0;
  decisions = [];
  policy_cached_at = 0;
}

abbrev late : Decision × AutonomyController
late = (
  record {
    kind = "restart";
    subject = "w1";
    at = 50;
    tier = sustain;
    policy_age = df_fabric.Prelude.Int.pos 50;
  },
  record site {
    decisions =
        record {
          kind = "restart";
          subject = "w1";
          at = 50;
          tier = sustain;
          policy_age = df_fabric.Prelude.Int.pos 50;
        }
        ∷ [];
  },
)

narrows_example :
    (d : Decision) × (decide "restart" "w1" 10 site ≡ ok (d, record site { decisions = d ∷ [] }))
unfolding decide tier member string_dec
narrows_example = decide-narrows "restart" "w1" 10 50 0 site (omega arith) late (inl refl)

abbrev shares : FairShare
shares = record { reserved = ("a", 4) ∷ ("b", 6) ∷ []; used = []; capacity = 10 }

claim_example : claim "a" 5 shares ≡ err share_violation
unfolding within_own get string_dec df_fabric.Pk.FairShare.total df_fabric.Pk.FairShare.unmet
claim_example =
    (claim_lem "a" 5 shares (refl, (refl, tt))).1
      (λ h. elim h [ inl e ↦ omega arith | inr e ↦ omega arith ])

abbrev small : Accelerator
small = record {
  device = "gpu0";
  generation = "g1";
  memory_gb = 16;
  features = [];
  partitions = [];
  holder = none;
  last_tenant = some "a";
  scrubbed = false;
}

abbrev large : Accelerator
large = record small { device = "gpu1"; memory_gb = 32; last_tenant = none; scrubbed = true }

abbrev needed : Requirement
needed = record {
  tenant = "b";
  workload = "w";
  memory_gb = 8;
  generation = none;
  features = [];
  partition = none;
}

blocked_example :
    (allocate needed (large ∷ small ∷ large ∷ []) ≡ err scrub_required)
    × (i : ℕ) × (e : Accelerator) × (get_elem? (large ∷ large ∷ []) i ≡ some e)
    × (allocate needed (large ∷ large ∷ [])
        ≡ ok (hold needed e, update_at (hold needed) i (large ∷ large ∷ [])))
unfolding is_candidate smaller all any
blocked_example =
    let (refused, granted) =
      allocate-blocked needed small (large ∷ []) (large ∷ []) (refl, refl, refl) refl refl in
    let (i, e, at, taken) = granted refl refl in (refused, i, e, at, taken)

abbrev huge : Requirement
huge = record needed { memory_gb = 64 }

allocate_example : allocate huge (small ∷ large ∷ []) ≡ err no_matching_accelerator
unfolding is_candidate all
allocate_example = ((allocate_lem huge (small ∷ large ∷ [])).1).1 refl
