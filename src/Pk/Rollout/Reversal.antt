-- ===== src/Pk/Rollout/Reversal.antt =====
-- What a rollout leaves on the fleet, whatever is called.
use df_fabric.Prelude.{
  String, List, [], ◌∷◌, Bool, true, false, not, ◌&&◌, ◌||◌, Option, none, some, all, is_yes,
  string_dec, ◌≡◌, refl, arith, all_mono, all-map, Bool-cases, subst, is_empty, Option-cases, inl,
  inr,
}
use df_fabric.Prelude.Dict.{Dict, put, values, all-put}
use df_fabric.Prelude.Result.{ok, err, Result-cases, ok-injective}
use df_fabric.Pk.Rollout.{
  Raises, Rollout, GateVerdict, no_rollback_target, gate_failed, pin, admit, rollback, run_wave,
  apply_wave, update_all, revert, single, new, nth_wave, touched_of, verdict_of,
}

-- Every node is on `p`, or on one of `p` and `b`.
abbrev pub all_on : String → Dict String String → Bool
all_on p d = all (λ e. is_yes (string_dec e.1 p)) d

abbrev pub within : String → String → Dict String String → Bool
within p b d = all (λ e. is_yes (string_dec e.1 p) || is_yes (string_dec e.1 b)) d

-- Before a target is pinned no version is known; then every node is on the target or the bundle, and
-- on the target only where nothing is verified or the rollout is rolled back.
unfoldable pub is_uniform : Rollout → Bool
is_uniform t = elim t.pinned_target [
  | none ↦ is_empty t.versions && not t.rolled_back
  | some p ↦
      within p t.bundle t.versions
      && ((t.verified || all_on p t.versions) && (not t.rolled_back || all_on p t.versions))
]

update_all-within :
    (p b : String) (ns : List String) (d : Dict String String)
    → within p b d ≡ true
    → within p b (update_all b ns d) ≡ true
unfolding update_all
update_all-within p b [] d h = h
update_all-within p b (n ∷ ns) d h = update_all-within p b ns (put string_dec d n b) (
    all-put string_dec (λ v. is_yes (string_dec v p) || is_yes (string_dec v b)) d n b h
      (ground arith))

revert-all_on :
    (p b : String) (d : Dict String String) → within p b d ≡ true → all_on p (revert b p d) ≡ true
unfolding revert all
revert-all_on p b [] h = refl
revert-all_on p b ((n, v) ∷ d) h = ground (arith, revert-all_on p b d)

single-all_on : (d : Dict String String) (v : String) → single (values d) ≡ ok v → all_on v d ≡ true
unfolding single all
single-all_on [] v h = refl
single-all_on ((n, w) ∷ d) v h = elim (Bool-cases (all (λ u. is_yes (string_dec u w)) (values d))) [
  | inl e ↦
      let same : w ≡ v = ok-injective w v (rw e at h) in
      subst (λ v. all_on v ((n, w) ∷ d) ≡ true) same
        (ground (arith, all-map (λ u. is_yes (string_dec u w)) (λ (e : String × String). e.1) d))
  | inr e ↦ absurd (let wrong : err no_rollback_target ≡ ok v = rw e at h in cc)
]

all_on-within : (p b : String) (d : Dict String String) → all_on p d ≡ true → within p b d ≡ true
all_on-within p b d h =
    all_mono (λ e. is_yes (string_dec e.1 p))
      (λ e. is_yes (string_dec e.1 p) || is_yes (string_dec e.1 b)) d (λ e h. ground arith) h

-- The calls that the owner of a rollout can make.
pub data Call : Type 0 where
  pin_call : Dict String String → Call
  admit_call : Option Bool → Call
  wave_call : Bool → List String → Call
  rollback_call : Call

-- A call that raises leaves the rollout as it was.
abbrev after : {A : Type 0} → Raises (A × Rollout) → Rollout → Rollout
after (ok (a, t')) t = t'
after (err e) t = t

abbrev after_admit : Raises Rollout → Rollout → Rollout
after_admit (ok t') t = t'
after_admit (err e) t = t

abbrev pub step : Call → Rollout → Rollout
step (pin_call d) t = after (pin d t) t
step (admit_call v) t = after_admit (admit v t) t
step (wave_call healthy offline) t = after (run_wave healthy offline t) t
step rollback_call t = after (rollback t) t

abbrev pub runs : List Call → Rollout → Rollout
runs [] t = t
runs (c ∷ cs) t = runs cs (step c t)

pin-uniform :
    (d : Dict String String) (t : Rollout)
    → is_uniform t ≡ true
    → is_uniform (step (pin_call d) t) ≡ true
unfolding pin is_uniform
pin-uniform d t u = elim (Result-cases (single (values d))) [
  | inl (v, e) ↦ elim (Option-cases t.pinned_target) [
    | inl n ↦ ground (arith, single-all_on d v e, all_on-within v t.bundle d)
    | inr (p, n) ↦ ground arith
  ]
  | inr (x, e) ↦ ground arith
]

admit-uniform :
    (v : Option Bool) (t : Rollout)
    → is_uniform t ≡ true
    → is_uniform (step (admit_call v) t) ≡ true
unfolding admit is_uniform
admit-uniform none t u = u
admit-uniform (some v) t u = ground arith

rollback-uniform : (t : Rollout) → is_uniform t ≡ true → is_uniform (step rollback_call t) ≡ true
unfolding rollback is_uniform
rollback-uniform t u = elim (Option-cases t.pinned_target) [
  | inl e ↦ ground arith
  | inr (p, e) ↦ ground (
    arith,
    revert-all_on p t.bundle t.versions,
    all_on-within p t.bundle (revert t.bundle p t.versions),
  )
]

wave-uniform :
    (healthy : Bool) (offline : List String) (t : Rollout)
    → is_uniform t ≡ true
    → is_uniform (step (wave_call healthy offline) t) ≡ true
unfolding run_wave is_uniform
wave-uniform healthy offline t u = elim (Option-cases t.pinned_target) [
  | inl e ↦ ground arith
  | inr (p, e) ↦ elim (Option-cases (nth_wave t.wave_index t.waves)) [
    | inl n ↦ ground arith
    | inr (wave, n) ↦
        let d = update_all t.bundle (touched_of offline wave) t.versions in
        ground (
          arith,
          update_all-within p t.bundle (touched_of offline wave) t.versions,
          revert-all_on p t.bundle d,
          all_on-within p t.bundle (revert t.bundle p d),
        )
  ]
]

step-uniform : (c : Call) (t : Rollout) → is_uniform t ≡ true → is_uniform (step c t) ≡ true
step-uniform (pin_call d) t u = pin-uniform d t u
step-uniform (admit_call v) t u = admit-uniform v t u
step-uniform (wave_call healthy offline) t u = wave-uniform healthy offline t u
step-uniform rollback_call t u = rollback-uniform t u

runs-uniform : (cs : List Call) (t : Rollout) → is_uniform t ≡ true → is_uniform (runs cs t) ≡ true
runs-uniform [] t u = u
runs-uniform (c ∷ cs) t u = runs-uniform cs (step c t) (step-uniform c t u)

-- Whatever is called on a new rollout, and whether the calls return or raise: no node has a version
-- before a target is pinned; then every node is on the target or on the bundle, and on the target
-- where no bundle is verified or where the rollout is rolled back.
pub runs-versions :
    (bundle : String) (waves : List (List String)) (cs : List Call)
    → let t = runs cs (new bundle waves) in
      (t.pinned_target ≡ none → t.versions ≡ [])
      × ((p : String)
          → t.pinned_target ≡ some p
          → (within p t.bundle t.versions ≡ true)
            × (t.verified ≡ false → all_on p t.versions ≡ true)
            × (t.rolled_back ≡ true → all_on p t.versions ≡ true))
unfolding is_uniform
runs-versions bundle waves cs =
    let u = runs-uniform cs (new bundle waves) refl in (λ e. ground arith, λ p e. ground arith)

-- A wave whose gate fails: of a rollout as `runs` leaves it, verified, pinned to `p`, not rolled back
-- and with a wave left, `run_wave` returns a verdict that says so, every node is on `p` again, and
-- from then on every wave is refused with GateFailed.
pub run_wave-unhealthy :
    (offline : List String) (t : Rollout) (p : String) (wave : List String)
    → is_uniform t ≡ true
    → t.verified ≡ true
    → t.pinned_target ≡ some p
    → t.rolled_back ≡ false
    → nth_wave t.wave_index t.waves ≡ some wave
    → (v : GateVerdict) × (t' : Rollout) × (run_wave false offline t ≡ ok (some v, t'))
      × (v.rolled_back ≡ true)
      × (all_on p t'.versions ≡ true)
      × ((healthy : Bool) (later : List String) → run_wave healthy later t' ≡ err gate_failed)
unfolding run_wave is_uniform
run_wave-unhealthy offline t p wave u a b c n =
    let d = update_all t.bundle (touched_of offline wave) t.versions in
    let t1 = apply_wave false offline wave t in
    let t' = record t1 { versions = revert t.bundle p d; rolled_back = true } in
    (
      verdict_of false offline wave t,
      t',
      ground arith,
      ground arith,
      ground (
        arith,
        update_all-within p t.bundle (touched_of offline wave) t.versions,
        revert-all_on p t.bundle d,
      ),
      λ healthy later. ground arith,
    )
