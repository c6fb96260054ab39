-- ===== src/Tests/Graphs.antt =====
-- The intent plane, the replicated key and the placement at concrete inputs.
use df_fabric.Prelude.{
  false, suc, ◌≤◌, none, some, ℕ, List, [], ◌∷◌, true, all, any, filter, member, ◌≡◌, refl,
  string_dec, length,
}
use df_fabric.Prelude.Dict.{put, get}
use df_fabric.Prelude.Result.{ok}
use df_fabric.Pk.Intent.{
  Key, key_dec, sort_keys, declare, order, pending_of, ready_of, advance, rounds, empty,
}
use df_fabric.Pk.Intent.Acyclic.{Call, declare_call, runs, order_lem}
use df_fabric.Pk.Replication.{
  Write, ReplicatedKey, converged, place, apply, is_known, repeats, successor, survivors, settle,
}
use df_fabric.Pk.Replication.Siblings.{
  apply_call, resolve_call, is_sound, accounted, Same, runs_sound, apply-accounts,
}
use df_fabric.Pk.Replication.Siblings as siblings
use df_fabric.Prelude.Text.{sorted}
use df_fabric.Prelude.Least.{get_elem?, unbeaten, update_at}
use df_fabric.Pk.Placement.{
  Workload, WorkloadClass, NodeReport, Placement, process, wasm, microvm, untrusted, classify,
  is_candidate, better, occupy, offers, tier_index, required_tier, tiers_from,
}
use df_fabric.Pk.Placement as placement
use df_fabric.Pk.Placement.Isolation.{place_lem}

abbrev net : Key
net = ("t1", ("prod", "network"))

abbrev app : Key
app = ("t1", ("prod", "app"))

abbrev declared : List (Call ℕ)
declared =
    declare_call "t1" "prod" "app" 1 (net ∷ []) ∷ declare_call "t1" "prod" "network" 2 [] ∷ []

graph_example : length (net ∷ app ∷ []) ≡ length (runs declared empty).nodes
unfolding declare order pending_of rounds put key_dec string_dec any member filter ready_of
    sort_keys advance
graph_example = ((order_lem declared).0 (net ∷ app ∷ []) refl).0

abbrev first : Write
first = record { key = "k"; value = "v1"; site = "dub"; vector = ("dub", 1) ∷ [] }

abbrev second : Write
second = record { key = "k"; value = "v2"; site = "ams"; vector = ("ams", 1) ∷ [] }

abbrev unwritten : ReplicatedKey
unwritten = record {
  key = "k";
  replicas = "dub" ∷ "ams" ∷ [];
  siblings = [];
  discarded = [];
  max_siblings = 8;
  quarantine = [];
}

sound_example :
    is_sound
      (siblings.runs (apply_call first ∷ apply_call second ∷ resolve_call "m" "dub" ∷ []) unwritten)
    ≡ true
unfolding all
sound_example =
    runs_sound (apply_call first ∷ apply_call second ∷ resolve_call "m" "dub" ∷ []) unwritten refl

abbrev written : ReplicatedKey
written = record unwritten { siblings = first ∷ [] }

accounts_example : Same (accounted written) (first ∷ accounted unwritten)
unfolding apply is_known place settle survivors successor repeats any all filter member get put
    string_dec
accounts_example = (apply-accounts first unwritten converged written refl).0

abbrev workload : Workload
workload = record {
  name = "w";
  tenant = "t1";
  provenance = "public";
  latency_sensitive = false;
  needs = "gpu" ∷ [];
  site_affinity = none;
}

abbrev public_class : WorkloadClass
public_class = record {
  workload = "w";
  trust_class = untrusted;
  required = microvm;
  is_interactive = false;
  hardware = "gpu" ∷ [];
}

abbrev weak : NodeReport
weak = record {
  name = "n1";
  site = "eu";
  tiers = process ∷ wasm ∷ [];
  capabilities = "gpu" ∷ [];
  free_slots = 2;
  reported_at = 0;
  thermally_excluded = false;
  occupants = [];
}

abbrev strong : NodeReport
strong = record weak { name = "n2"; tiers = process ∷ microvm ∷ [] }

-- Only the second node can isolate the workload.
place_example :
    (i : ℕ) × (n : NodeReport) × (p : Placement) × (get_elem? (weak ∷ strong ∷ []) i ≡ some n)
    × (is_candidate workload untrusted 5 n ≡ true)
    × (unbeaten (is_candidate workload untrusted 5) (better untrusted) n (weak ∷ strong ∷ [])
        ≡ true)
    × (placement.place workload (weak ∷ strong ∷ []) 5 60
        ≡ ok (p, update_at (occupy workload) i (weak ∷ strong ∷ [])))
    × (suc ((occupy workload n).free_slots) ≡ n.free_slots)
    × (p.node ≡ n.name)
    × (offers n p.tier ≡ true)
    × (tier_index (required_tier untrusted) ≤ tier_index p.tier)
unfolding sorted classify is_candidate tiers_from all any filter member string_dec
place_example = (place_lem workload (weak ∷ strong ∷ []) 5 60 public_class refl).1 refl
