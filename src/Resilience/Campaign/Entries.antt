-- ===== src/Resilience/Campaign/Entries.antt =====
-- What a campaign reports.
use df_fabric.Prelude.{
  ℕ, suc, String, List, [], ◌∷◌, ◌++◌, map, Bool, true, ◌&&◌, some, ◌≡◌, ◌≢◌, ◌⊎◌, inl, inr, refl,
  ap, ap₂, ◌∙◌, sym, arith, Option-cases, All, string_dec,
}
use df_fabric.Prelude.Dict.{Dict, get}
use df_fabric.Prelude.Result.{Result, ok, err}
use df_fabric.Resilience.Error.{
  ResilienceError, unknown_scenario, supervision_escalation, resilience_error,
  quantum_checkpoint_refused, quantum_rollback_refused, transaction_state_error, out_of_fuel,
}
use df_fabric.Resilience.Scenario.{
  ScenarioId, scenario_of, scenario_index, Context, FailureEvent, FailureInjector, inject, event_of,
}
use df_fabric.Resilience.Planner.{RecoveryClass, recovery_impossible, classify}
use df_fabric.Resilience.Supervision.{Decision, Deed, abort, Tree, handle, task}
use df_fabric.Resilience.Supervision as supervision
use df_fabric.Resilience.Supervision.Escalation.{Ends, handle-Ends, handle-class}
use df_fabric.Resilience.Campaign.{
  Campaign, CampaignEntry, action_or_abort, is_recovery, check_known, context_of, entry_of,
  record_of, run_scenario, run_each, run_campaign,
}
use Prim.Native.String.{◌++◌ as text_append}

action-Ends :
    (r : Result ResilienceError Decision) → Ends r → (a : Deed) × (action_or_abort r ≡ ok a)
action-Ends (ok d) h = (d.action, refl)
action-Ends (err supervision_escalation) h = (abort, refl)
action-Ends (err resilience_error) h = absurd (ground arith)
action-Ends (err unknown_scenario) h = absurd (ground arith)
action-Ends (err quantum_checkpoint_refused) h = absurd (ground arith)
action-Ends (err quantum_rollback_refused) h = absurd (ground arith)
action-Ends (err transaction_state_error) h = absurd (ground arith)
action-Ends (err out_of_fuel) h = absurd (ground arith)

action-impossible :
    (subject : String) (c : RecoveryClass) (t : Tree) (a : Deed)
    → action_or_abort (handle task subject c t).0 ≡ ok a
    → is_recovery a ≡ true
    → c ≢ recovery_impossible
action-impossible subject c t a e helps same =
    let (d, ends, aborts, _) = (handle-class task subject t).0 in
    let here : (handle task subject c t).0 ≡ ok d =
      ap (λ x. (handle task subject x t).0) same ∙ ends in
    let got : ok d.action ≡ ok a = sym (ap action_or_abort here) ∙ e in ground arith

both-left : (a b : Bool) → (a && b) ≡ true → a ≡ true
both-left a b h = ground arith

both-right : (a b : Bool) → (a && b) ≡ true → b ≡ true
both-right a b h = ground arith

-- A reported recovery was detected, and its class is not RECOVERY_IMPOSSIBLE.
abbrev pub IsHonest : CampaignEntry → Type 0
IsHonest e = e.recovered ≡ true → (e.detected ≡ true) × (e.classification ≢ recovery_impossible)

module _ {D : Type 0} (draw : ScenarioId → ℕ → D) (derive_seed : ScenarioId → ℕ → ℕ) where
  inject_lem :
      (s target : String) (c : Context) (j : FailureInjector D) (i : ScenarioId)
      → get string_dec scenario_index s ≡ some i
      → (ev : FailureEvent D) × (j' : FailureInjector D) × (inject draw derive_seed s target c j
          ≡ ok (ev, j'))
  unfolding inject
  inject_lem s target c j i g =
      let ev = event_of draw derive_seed i target c j.seed (suc j.time) in
      (ev, record j { events = j.events ++ (ev ∷ []); time = suc j.time }, ground arith)

  run_scenario_lem :
      (contexts : Dict String Context) (s : String) (g : Campaign D) (i : ScenarioId)
      → get string_dec scenario_index s ≡ some i
      → (e : CampaignEntry) × (g' : Campaign D) × (run_scenario draw derive_seed contexts s g
          ≡ ok (e, g'))
        × (e.scenario_id ≡ s)
        × IsHonest e
  unfolding run_scenario entry_of classify
  run_scenario_lem contexts s g i known =
      let c = context_of contexts s i in
      let (ev, j, injected) = inject_lem s (scenario_of i).subject c g.injector i known in
      let cls = (classify ev c g.records).0 in
      let subject = text_append s (text_append ":" ev.target) in
      let (a, acted) =
        action-Ends (handle task subject cls g.tree).0 (handle-Ends task subject cls g.tree) in
      (
        entry_of draw derive_seed s ev (record_of draw derive_seed ev c) a,
        record {
          injector = j;
          records = (classify ev c g.records).1;
          tree = (handle task subject cls g.tree).1;
        },
        rw (known, injected, acted) refl,
        refl,
        λ r. (
          both-left ev.detected (is_recovery a) r,
          action-impossible subject cls g.tree a acted (both-right ev.detected (is_recovery a) r),
        ),
      )

  run_each_lem :
      (contexts : Dict String Context) (ss : List String) (g : Campaign D)
      → check_known ss ≡ ok tt
      → (es : List CampaignEntry) × (run_each draw derive_seed contexts ss g ≡ ok es)
        × (map (λ e. e.scenario_id) es ≡ ss)
        × All IsHonest es
  unfolding run_each check_known
  run_each_lem contexts [] g h = ([], refl, refl, tt)
  run_each_lem contexts (s ∷ ss) g h = elim (Option-cases (get string_dec scenario_index s)) [
    | inl unknown ↦ absurd (ground arith)
    | inr (i, known) ↦
        let (e, g', ran, named, honest) = run_scenario_lem contexts s g i known in
        let (es, rest, names, all_honest) = run_each_lem contexts ss g' (ground arith) in
        (e ∷ es, rw (ran, rest) refl, ap₂ (λ x xs. x ∷ xs) named names, (honest, all_honest))
  ]

  check_known-fails :
      (ss : List String) → (check_known ss ≡ ok tt) ⊎ (check_known ss ≡ err unknown_scenario)
  unfolding check_known
  check_known-fails [] = inl refl
  check_known-fails (s ∷ ss) = elim (Option-cases (get string_dec scenario_index s)) [
    | inl unknown ↦ inr (rw unknown refl)
    | inr (i, known) ↦ rw known (check_known-fails ss)
  ]

  -- A campaign over known scenarios returns, with one entry for each in their order; an entry that
  -- reports a recovery has been detected, and its class is not RECOVERY_IMPOSSIBLE. A campaign with an
  -- unknown scenario raises UnknownScenarioError.
  pub run_campaign_lem :
      (ids : List String) (seed : ℕ) (contexts : Dict String Context)
      → (check_known ids ≡ ok tt
          → (es : List CampaignEntry) × (run_campaign draw derive_seed ids seed contexts ≡ ok es)
            × (map (λ e. e.scenario_id) es ≡ ids)
            × All IsHonest es)
        × (check_known ids ≢ ok tt
            → run_campaign draw derive_seed ids seed contexts ≡ err unknown_scenario)
  unfolding run_campaign
  run_campaign_lem ids seed contexts = (
    λ known.
        let (es, ran, names, honest) =
          run_each_lem contexts ids
            (record {
              injector = record { seed = seed; events = []; time = 0 };
              records = [];
              tree = supervision.new;
            })
            known in
        (es, rw (known, ran) refl, names, honest),
    λ unknown. elim (check_known-fails ids) [
      | inl known ↦ absurd (unknown known)
      | inr e ↦ rw e refl
    ],
  )
