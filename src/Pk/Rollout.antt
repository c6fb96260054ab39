-- ===== src/Pk/Rollout.antt =====
-- pk/pk_components/gap08_ota_lifecycle_rollback/component.py: a staged update of a fleet behind health
-- gates. A method that raises leaves the rollout as it was.
pub mod Reversal
use df_fabric.Prelude.{
  ℕ, zero, suc, String, List, [], ◌∷◌, ◌++◌, Bool, true, false, not, Option, none, some, all,
  filter, map, member, is_yes, string_dec, if◌then◌else◌,
}
use df_fabric.Prelude.Dict.{Dict, put, values, is_some}
use df_fabric.Prelude.Text.{sorted}
use df_fabric.Prelude.Result.{Result, ok, err, ◌>>=◌, ◌>>◌, raise_if}

pub data RolloutError : Type 0 where
  bundle_rejected gate_failed no_rollback_target runtime_error : RolloutError

pub record GateVerdict : Type 0 where
  pub wave : ℕ
  pub touched : List String
  pub deferred : List String
  pub healthy : Bool
  pub rolled_back : Bool

pub record Rollout : Type 0 where
  pub bundle : String
  pub waves : List (List String)
  pub pinned_target : Option String
  pub verified : Bool
  pub wave_index : ℕ
  pub versions : Dict String String
  pub deferred : List String
  pub history : List GateVerdict
  pub rolled_back : Bool

abbrev pub Raises : Type 0 → Type 0
Raises = Result RolloutError

-- `Rollout(bundle, waves)`
abbrev pub new : String → List (List String) → Rollout
new bundle waves = record {
  bundle = bundle;
  waves = waves;
  pinned_target = none;
  verified = false;
  wave_index = 0;
  versions = [];
  deferred = [];
  history = [];
  rolled_back = false;
}

-- the one element of a set of texts, given with repetitions
unfoldable pub single : List String → Raises String
single [] = err no_rollback_target
single (v ∷ vs) = if all (λ w. is_yes (string_dec w v)) vs then ok v else err no_rollback_target

unfoldable pub pin : Dict String String → Rollout → Raises (String × Rollout)
unfolding single
pin current t = do
  raise_if (is_some t.pinned_target) runtime_error
  v ← single (values current)
  ok (v, record t { pinned_target = some v; versions = current })

-- `verification` is `None`, or what its key "verified" says
unfoldable pub admit : Option Bool → Rollout → Raises Rollout
admit none t = err bundle_rejected
admit (some v) t = do raise_if (not v) bundle_rejected; ok (record t { verified = true })

-- the versions with every node of the bundle back on the target
unfoldable pub revert : String → String → Dict String String → Dict String String
revert bundle target [] = []
revert bundle target ((n, v) ∷ d) =
    (n, if is_yes (string_dec v bundle) then target else v) ∷ revert bundle target d

-- `fleet_on`, and the nodes that a rollback reverts
unfoldable pub fleet_on : String → Dict String String → List String
fleet_on version d = sorted (map (λ e. e.0) (filter (λ e. is_yes (string_dec e.1 version)) d))

unfoldable pub rollback : Rollout → Raises (List String × Rollout)
unfolding revert fleet_on
rollback t = elim t.pinned_target [
  | none ↦ err no_rollback_target
  | some p ↦ ok (
    fleet_on t.bundle t.versions,
    record t { versions = revert t.bundle p t.versions; rolled_back = true },
  )
]

-- the nodes of a wave: whom it updates, and whom it defers
unfoldable pub touched_of : List String → List String → List String
touched_of offline wave = filter (λ n. not (member string_dec offline n)) wave

unfoldable pub deferred_of : List String → List String → List String
deferred_of offline wave = filter (λ n. member string_dec offline n) wave

unfoldable pub update_all : String → List String → Dict String String → Dict String String
update_all bundle [] d = d
update_all bundle (n ∷ ns) d = update_all bundle ns (put string_dec d n bundle)

unfoldable pub nth_wave : ℕ → List (List String) → Option (List String)
nth_wave n [] = none
nth_wave zero (w ∷ ws) = some w
nth_wave (suc n) (w ∷ ws) = nth_wave n ws

verdict_of : Bool → List String → List String → Rollout → GateVerdict
unfolding touched_of deferred_of
verdict_of healthy offline wave t = record {
  wave = suc t.wave_index;
  touched = touched_of offline wave;
  deferred = t.deferred ++ deferred_of offline wave;
  healthy = healthy;
  rolled_back = not healthy;
}

-- the wave is rolled out and written down
apply_wave : Bool → List String → List String → Rollout → Rollout
unfolding touched_of deferred_of update_all verdict_of
apply_wave healthy offline wave t = record t {
  versions = update_all t.bundle (touched_of offline wave) t.versions;
  wave_index = suc t.wave_index;
  deferred = t.deferred ++ deferred_of offline wave;
  history = t.history ++ (verdict_of healthy offline wave t ∷ []);
}

-- `run_wave`; no verdict where the rollout is complete
unfoldable pub run_wave : Bool → List String → Rollout → Raises (Option GateVerdict × Rollout)
unfolding apply_wave nth_wave verdict_of rollback
run_wave healthy offline t = do
  raise_if (not t.verified) bundle_rejected
  raise_if (not (is_some t.pinned_target)) no_rollback_target
  raise_if t.rolled_back gate_failed
  elim (nth_wave t.wave_index t.waves) [
    | none ↦ ok (none, t)
    | some wave ↦
        let v = verdict_of healthy offline wave t in
        let t' = apply_wave healthy offline wave t in
        if healthy then ok (some v, t') else (do (ns, t'') ← rollback t'; ok (some v, t''))
  ]
