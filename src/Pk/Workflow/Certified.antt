-- ===== src/Pk/Workflow/Certified.antt =====
-- What a certified run of the workflow has established.
use df_fabric.Prelude.{
  ℕ, String, List, [], ◌∷◌, ◌++◌, Bool, true, false, not, ◌&&◌, ◌≡◌, refl, arith, all, all-append,
  member, inl, inr, sym, ◌∙◌, ap, is_empty, is_empty-map, filter, filter-none, subst, length, ◌==◌,
  string_dec,
}
use df_fabric.Prelude.Result.{Result, ok, err, Result-cases, ok-injective}
use df_fabric.Pk.Error.{PkError}
use df_fabric.Pk.Evidence.{Body, EvidenceLedger}
use df_fabric.Pk.Checklist.{
  ChecklistItem, Stage, Finding, w0, w7, w8, w9, operations, observability, is_blocked,
}
use df_fabric.Pk.Contract.{validate}
use df_fabric.Pk.Workflow.{
  Component, StageResult, WorkflowResult, run_stage, run_stages, run, conclude, record_stage,
  not_reached, may_halt, stages, assess_each, blocked_ids, missing_ids, check_ids,
}

pub blocked_ids-none :
    (fs : List Finding) → is_empty (blocked_ids fs) ≡ all (λ f. not (is_blocked f.status)) fs
unfolding blocked_ids check_ids
blocked_ids-none fs = ground (
  arith,
  is_empty-map (λ (f : Finding). f.check_id) (filter (λ f. is_blocked f.status) fs),
  filter-none (λ (f : Finding). is_blocked f.status) fs,
)

missing_ids-none :
    (items : List ChecklistItem) (fs : List Finding)
    → is_empty (missing_ids items fs)
      ≡ all (λ i. not (not (member string_dec (check_ids fs) i.check_id))) items
unfolding missing_ids
missing_ids-none items fs =
    is_empty-map (λ (i : ChecklistItem). i.check_id)
      (filter (λ i. not (member string_dec (check_ids fs) i.check_id)) items)
    ∙ filter-none (λ (i : ChecklistItem). not (member string_dec (check_ids fs) i.check_id)) items

not-not-all : {A : Type 0} (p : A → Bool) (xs : List A) → all (λ x. not (not (p x))) xs ≡ all p xs
unfolding all
not-not-all p [] = refl
not-not-all p (x ∷ xs) = ground (arith, not-not-all p xs)

module _ (digest : Body StageResult → String) (clock : ℕ → String) (c : Component) where
  -- Every stage of the list was run, one after another, and passed.
  abbrev pub Passed : List Stage → List Finding → EvidenceLedger StageResult → List Finding → Type 0
  Passed [] fs l fs' = fs ≡ fs'
  Passed (s ∷ ss) fs l fs' =
      (r : StageResult) × (l' : EvidenceLedger StageResult) × (run_stage digest c s fs l ≡ ok r)
      × (r.ok ≡ true)
      × Passed ss (fs ++ r.findings) l' fs'

  abbrev Returns :
      List Stage
      → Bool
      → List StageResult
      → List Finding
      → EvidenceLedger StageResult
      → List StageResult
      → List Finding
      → EvidenceLedger StageResult
      → Type 0
  Returns ss halted done fs l done' fs' l' =
      run_stages digest clock c ss halted done fs l ≡ (ok (done', fs'), l')

  -- Results stay: what all results at the end satisfy, those at the start do.
  run_stages-keeps :
      (ss : List Stage) (halted : Bool) (done done' : List StageResult) (fs fs' : List Finding)
      (l l' : EvidenceLedger StageResult)
      → Returns ss halted done fs l done' fs' l'
      → all (λ r. r.ok) done' ≡ true
      → all (λ r. r.ok) done ≡ true
  unfolding run_stages
  run_stages-keeps [] halted done done' fs fs' l l' e a = ground arith
  run_stages-keeps (s ∷ ss) true done done' fs fs' l l' e a = ground (
    arith,
    run_stages-keeps ss true (done ++ (not_reached s ∷ [])) done' fs fs' l l' e a,
    all-append (λ (r : StageResult). r.ok) done (not_reached s ∷ []),
  )
  run_stages-keeps (s ∷ ss) false done done' fs fs' l l' e a =
      elim (Result-cases (run_stage digest c s fs l)) [
        | inl (r, q) ↦ ground (
          arith,
          run_stages-keeps ss (not r.ok && may_halt s) (done ++ (r ∷ [])) done' (fs ++ r.findings)
              fs' (record_stage digest clock c r l) l' (rw q at e) a,
          all-append (λ (r : StageResult). r.ok) done (r ∷ []),
        )
        | inr (x, q) ↦ absurd (let raised : (err x, l) ≡ (ok (done', fs'), l') = rw q at e in cc)
      ]

  run_stages-Passed :
      (ss : List Stage) (done done' : List StageResult) (fs fs' : List Finding)
      (l l' : EvidenceLedger StageResult)
      → Returns ss false done fs l done' fs' l'
      → all (λ r. r.ok) done' ≡ true
      → Passed ss fs l fs'
  unfolding run_stages all
  run_stages-Passed [] done done' fs fs' l l' e a = cc
  run_stages-Passed (s ∷ ss) done done' fs fs' l l' e a =
      elim (Result-cases (run_stage digest c s fs l)) [
        | inl (r, q) ↦
            let e' : Returns ss (not r.ok && may_halt s) (done ++ (r ∷ [])) (fs ++ r.findings)
                (record_stage digest clock c r l) done' fs' l' =
              rw q at e in
            let fine : r.ok ≡ true = ground (
              arith,
              run_stages-keeps ss (not r.ok && may_halt s) (done ++ (r ∷ [])) done'
                  (fs ++ r.findings) fs' (record_stage digest clock c r l) l' e' a,
              all-append (λ (r : StageResult). r.ok) done (r ∷ []),
            ) in
            let goes_on : (not r.ok && may_halt s) ≡ false = ground arith in
            (
              r,
              record_stage digest clock c r l,
              q,
              fine,
              run_stages-Passed ss (done ++ (r ∷ [])) done' (fs ++ r.findings) fs'
                  (record_stage digest clock c r l) l'
                  (subst
                    (λ h.
                      Returns ss h (done ++ (r ∷ [])) (fs ++ r.findings)
                        (record_stage digest clock c r l) done' fs' l')
                    goes_on e')
                  a,
            )
        | inr (x, q) ↦ absurd (let raised : (err x, l) ≡ (ok (done', fs'), l') = rw q at e in cc)
      ]

  Passed-stages :
      (l l' : EvidenceLedger StageResult) (w : WorkflowResult)
      → run digest clock c l ≡ (ok w, l')
      → w.certified ≡ true
      → Passed stages [] l w.findings
        × (all (λ r. r.ok) w.stages ≡ true)
        × (length w.findings ≡ length c.checklist)
  unfolding run conclude
  Passed-stages l l' w e a = go (run_stages digest clock c stages false [] [] l) refl
    where
      go :
          (o : Result PkError (List StageResult × List Finding) × EvidenceLedger StageResult)
          → run_stages digest clock c stages false [] [] l ≡ o
          → Passed stages [] l w.findings
            × (all (λ r. r.ok) w.stages ≡ true)
            × (length w.findings ≡ length c.checklist)
      go (err x, l'') q = absurd (let raised : (err x, l'') ≡ (ok w, l') = rw q at e in cc)
      go (ok (done, fs), l'') q =
          let e' : (ok (conclude c done fs l''), l'') ≡ (ok w, l') = rw q at e in
          let same : w ≡ conclude c done fs l'' =
            sym (ok-injective (conclude c done fs l'') w (ap (λ p. p.0) e')) in
          let d : w.stages ≡ done = ap (λ (w : WorkflowResult). w.stages) same in
          let f : w.findings ≡ fs = ap (λ (w : WorkflowResult). w.findings) same in
          let t : w.certified ≡ (all (λ r. r.ok) done && (length fs == length c.checklist)) =
            ap (λ (w : WorkflowResult). w.certified) same in
          let fine : all (λ r. r.ok) done ≡ true = ground arith in
          (
            subst (Passed stages [] l) (sym f)
                (run_stages-Passed stages [] done [] fs l l'' q fine),
            ground arith,
            ground arith,
          )

  run_stage-contract :
      (fs : List Finding) (l : EvidenceLedger StageResult) (r : StageResult)
      → run_stage digest c w0 fs l ≡ ok r
      → r.ok ≡ true
      → validate c.contract ≡ []
  unfolding run_stage
  run_stage-contract fs l r e a = ground arith

  run_stage-unblocked :
      (fs : List Finding) (l : EvidenceLedger StageResult) (r : StageResult)
      → run_stage digest c w7 fs l ≡ ok r
      → r.ok ≡ true
      → is_empty (blocked_ids (fs ++ r.findings)) ≡ true
  unfolding run_stage
  run_stage-unblocked fs l r e a = ground arith

  run_stage-released :
      (fs : List Finding) (l : EvidenceLedger StageResult) (r : StageResult)
      → run_stage digest c w8 fs l ≡ ok r
      → assess_each c (operations ∷ []) ≡ ok r.findings
  unfolding run_stage
  run_stage-released fs l r e = ground arith

  run_stage-closed :
      (fs : List Finding) (l : EvidenceLedger StageResult) (r : StageResult)
      → run_stage digest c w9 fs l ≡ ok r
      → r.ok ≡ true
      → (assess_each c (observability ∷ []) ≡ ok r.findings)
        × (is_empty (missing_ids c.checklist (fs ++ r.findings)) ≡ true)
  unfolding run_stage
  run_stage-closed fs l r e a = ground arith

  -- What a certified run has established: the contract has no defect, every requirement of the
  -- checklist is answered by a finding and there are as many of either, every stage passed, and no
  -- finding is blocked but those of the last two dimensions assessed, operations and observability,
  -- which stand behind all others and are taken as they come.
  pub run-certified :
      (l l' : EvidenceLedger StageResult) (w : WorkflowResult)
      → run digest clock c l ≡ (ok w, l')
      → w.certified ≡ true
      → (validate c.contract ≡ [])
        × (all (λ i. member string_dec (check_ids w.findings) i.check_id) c.checklist ≡ true)
        × (length w.findings ≡ length c.checklist)
        × (all (λ r. r.ok) w.stages ≡ true)
        × (early ops obs : List Finding) × (w.findings ≡ (early ++ ops) ++ obs)
        × (all (λ f. not (is_blocked f.status)) early ≡ true)
        × (assess_each c (operations ∷ []) ≡ ok ops)
        × (assess_each c (observability ∷ []) ≡ ok obs)
  run-certified l l' w e a =
      let (p0, fine, count) = Passed-stages l l' w e a in
      let p7 = p0.4.4.4.4.4.4.4 in
      let p8 = p7.4 in
      let p9 = p8.4 in
      let (answered, closed) = run_stage-closed _ _ p9.0 p9.2 p9.3 in
      let unblocked = run_stage-unblocked _ _ p7.0 p7.2 p7.3 in
      (
        run_stage-contract [] l p0.0 p0.2 p0.3,
        sym (
              not-not-all
                (λ (i : ChecklistItem). member string_dec (check_ids w.findings) i.check_id)
                c.checklist)
            ∙ sym (missing_ids-none c.checklist w.findings)
            ∙ subst (λ fs. is_empty (missing_ids c.checklist fs) ≡ true) p9.4 closed,
        count,
        fine,
        _,
        p8.0.findings,
        p9.0.findings,
        sym p9.4,
        sym (blocked_ids-none _) ∙ unblocked,
        run_stage-released _ _ p8.0 p8.2,
        answered,
      )
