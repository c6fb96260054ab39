-- ===== src/Pk/Gate/Policy.antt =====
-- When the gate says GO, CONDITIONAL_GO or NO_GO.
use df_fabric.Prelude.{
  ℕ, sym, ◌∙◌, all-append, String, List, [], ◌∷◌, ◌++◌, Bool, true, false, not, ◌&&◌, ◌≡◌, ◌↔◌,
  refl, arith, all, filter, is_empty, filter-none, is_empty-map, is_empty-append,
}
use df_fabric.Prelude.Result.{ok, ok-injective}
use df_fabric.Pk.Evidence.{Body, EvidenceLedger}
use df_fabric.Pk.Checklist.{Finding, is_blocked, is_partial, operations, observability}
use df_fabric.Pk.Workflow.{Component, WorkflowResult, StageResult, run, assess_each, check_ids}
use df_fabric.Pk.Workflow.Certified.{blocked_ids-none, run-certified}
use df_fabric.Pk.Gate.{
  go, conditional_go, no_go, evaluate, blockers_of, blockers_all, conditions_of, conditions_all,
  failed_stages, partial_ids,
}

-- No finding is blocked and every stage passed.
abbrev pub is_free : WorkflowResult → Bool
is_free r = all (λ f. not (is_blocked f.status)) r.findings && all (λ s. s.ok) r.stages

-- No finding is partial.
abbrev pub is_settled : WorkflowResult → Bool
is_settled r = all (λ f. not (is_partial f.status)) r.findings

failed-oks : (ss : List StageResult) → is_empty (failed_stages ss) ≡ all (λ s. s.ok) ss
unfolding failed_stages filter all
failed-oks [] = refl
failed-oks (s ∷ ss) = ground (arith, failed-oks ss)

partial_ids-none :
    (fs : List Finding) → is_empty (partial_ids fs) ≡ all (λ f. not (is_partial f.status)) fs
unfolding partial_ids check_ids
partial_ids-none fs = ground (
  arith,
  is_empty-map (λ (f : Finding). f.check_id) (filter (λ f. is_partial f.status) fs),
  filter-none (λ (f : Finding). is_partial f.status) fs,
)

blockers_of-none : (r : WorkflowResult) → is_empty (blockers_of r) ≡ is_free r
unfolding blockers_of
blockers_of-none r = ground (arith, blocked_ids-none r.findings, failed-oks r.stages)

conditions_of-none : (r : WorkflowResult) → is_empty (conditions_of r) ≡ is_settled r
unfolding conditions_of
conditions_of-none r = ground (arith, partial_ids-none r.findings)

blockers_all-none : (rs : List WorkflowResult) → is_empty (blockers_all rs) ≡ all is_free rs
unfolding blockers_all all
blockers_all-none [] = refl
blockers_all-none (r ∷ rs) = ground (
  arith,
  is_empty-append (blockers_of r) (blockers_all rs),
  blockers_of-none r,
  blockers_all-none rs,
)

conditions_all-none : (rs : List WorkflowResult) → is_empty (conditions_all rs) ≡ all is_settled rs
unfolding conditions_all all
conditions_all-none [] = refl
conditions_all-none (r ∷ rs) = ground (
  arith,
  is_empty-append (conditions_of r) (conditions_all rs),
  conditions_of-none r,
  conditions_all-none rs,
)

-- The verdict is NO_GO exactly when some result has a blocked finding or a stage that did not pass,
-- GO exactly when there is neither nor a partial finding in any result, and CONDITIONAL_GO exactly
-- when only partial findings stand in the way; whether a result says that it is certified plays no
-- part.
pub evaluate-verdict :
    (now : String) (rs : List WorkflowResult)
    → (((evaluate now rs).verdict ≡ no_go) ↔ (all is_free rs ≡ false))
      × (((evaluate now rs).verdict ≡ go) ↔ ((all is_free rs && all is_settled rs) ≡ true))
      × (((evaluate now rs).verdict ≡ conditional_go)
          ↔ ((all is_free rs && not (all is_settled rs)) ≡ true))
unfolding evaluate
evaluate-verdict now rs = ground (arith, blockers_all-none rs, conditions_all-none rs)

-- The gate refuses a certified element exactly when a finding on operations or on observability is
-- blocked: the two dimensions that the workflow certifies without a look at what is blocked.
pub certified-verdict :
    (digest : Body StageResult → String) (clock : ℕ → String) (c : Component) (now : String)
    (l l' : EvidenceLedger StageResult) (w : WorkflowResult) (ops obs : List Finding)
    → run digest clock c l ≡ (ok w, l')
    → w.certified ≡ true
    → assess_each c (operations ∷ []) ≡ ok ops
    → assess_each c (observability ∷ []) ≡ ok obs
    → ((evaluate now (w ∷ [])).verdict ≡ no_go)
      ↔ (all (λ f. not (is_blocked f.status)) (ops ++ obs) ≡ false)
unfolding all
certified-verdict digest clock c now l l' w ops obs e a eo eb =
    let (_, _, _, fine, early, ops', obs', split, free, eo', eb') =
      run-certified digest clock c l l' w e a in
    let po : ops' ≡ ops = ok-injective ops' ops (sym eo' ∙ eo) in
    let pb : obs' ≡ obs = ok-injective obs' obs (sym eb' ∙ eb) in
    ground (
      arith,
      (evaluate-verdict now (w ∷ [])).0,
      all-append (λ (f : Finding). not (is_blocked f.status)) (early ++ ops') obs',
      all-append (λ (f : Finding). not (is_blocked f.status)) early ops',
      all-append (λ (f : Finding). not (is_blocked f.status)) ops obs,
    )
