-- ===== src/Pk/Workflow.antt =====
-- pk/pk_core/workflow.py: the W0-W9 workflow of a component. The handlers of the component's class
-- are a parameter, the ledger is the state that the engine keeps, and the clock shows a text at each
-- record.
pub mod Certified
use df_fabric.Prelude.{
  ℕ, String, List, [], ◌∷◌, ◌++◌, Bool, true, false, not, ◌&&◌, ◌||◌, length, ◌==◌, all, filter,
  is_empty, map, member, is_yes, string_dec, if◌then◌else◌,
}
use df_fabric.Prelude.Dict.{values, keys}
use df_fabric.Prelude.Text.{str, join, is_blank, concat}
use df_fabric.Prelude.Result.{Result, ok, err, ◌>>=◌}
use df_fabric.Prelude.Exec
use df_fabric.Prelude.Exec.{Exec}
use df_fabric.Pk.Error.{PkError, Raises}
use df_fabric.Pk.Contract.{Contract, ContractDefect, Dependency, validate}
use df_fabric.Pk.Checklist.{
  Dimension, Stage, w0, w1, w2, w3, w4, w5, w6, w7, w8, w9, Finding, ChecklistItem, assess,
  is_blocked, stage_dimensions, stage_name, stage_value, dimension_value, passing,
}
use df_fabric.Pk.Evidence.{Body, ChainDefect, EvidenceLedger, append, head, verify}

pub data StageDefect : Type 0 where
  contract_defect : ContractDefect → StageDefect
  no_interfaces : StageDefect
  no_reason no_schema blocked_requirement uncovered_requirement : String → StageDefect
  chain_defect : ChainDefect → StageDefect

pub record StageResult : Type 0 where
  pub stage : Stage
  pub ok : Bool
  pub summary : String
  pub findings : List Finding
  pub defects : List StageDefect

pub record WorkflowResult : Type 0 where
  pub element : String
  pub name : String
  pub certified : Bool
  pub stages : List StageResult
  pub findings : List Finding
  pub evidence_head : String

-- a component: what the engine reads of it
pub record Component : Type 0 where
  pub element_id : String
  pub element_name : String
  pub checklist_name : String
  pub contract : Contract
  pub checklist : List ChecklistItem
  pub handler : Dimension → List ChecklistItem → Raises (List Finding)

-- `for dim in dims: produced.extend(component.assess(dim))`
unfoldable pub assess_each : Component → List Dimension → Raises (List Finding)
assess_each c [] = ok []
assess_each c (d ∷ ds) = do
  fs ← assess c.handler c.checklist d
  gs ← assess_each c ds
  ok (fs ++ gs)

unreasoned : List Dependency → List StageDefect
unreasoned [] = []
unreasoned (d ∷ ds) =
    let rest = unreasoned ds in
    if d.required && is_blank d.why then no_reason d.name ∷ rest else rest

unschemed : List (String × String) → List StageDefect
unschemed [] = []
unschemed ((n, schema) ∷ ds) =
    let rest = unschemed ds in if is_blank schema then no_schema n ∷ rest else rest

-- `_integration_defects`
unfoldable pub integration_defects : Contract → List StageDefect
unfolding unreasoned unschemed
integration_defects c =
    (if is_empty c.interfaces then no_interfaces ∷ [] else [])
    ++ (unreasoned c.dependencies ++ unschemed c.interfaces)

unfoldable pub check_ids : List Finding → List String
check_ids fs = map (λ f. f.check_id) fs

-- the ids of the blocked findings
unfoldable pub blocked_ids : List Finding → List String
unfolding check_ids
blocked_ids fs = check_ids (filter (λ f. is_blocked f.status) fs)

-- the requirements that no finding answers
unfoldable pub missing_ids : List ChecklistItem → List Finding → List String
unfolding check_ids
missing_ids items fs =
    map (λ i. i.check_id) (filter (λ i. not (member string_dec (check_ids fs) i.check_id)) items)

label : Stage → List Finding → String
label s produced = concat (
    stage_name s
    ∷ " "
    ∷ stage_value s
    ∷ ": "
    ∷ dims (stage_dimensions s)
    ∷ " ("
    ∷ str (length produced)
    ∷ " findings)"
    ∷ [])
  where
    dims : List Dimension → String
    dims [] = "no checklist dimension"
    dims (d ∷ ds) = join ", " (map dimension_value (d ∷ ds))

abbrev counted : String → ℕ → String → String
counted before n after = concat (before ∷ str n ∷ after ∷ [])

abbrev passed : Stage → List Finding → StageResult
unfolding label
passed s produced = record {
  stage = s;
  ok = true;
  summary = label s produced;
  findings = produced;
  defects = [];
}

abbrev refused : Stage → String → List Finding → List StageDefect → StageResult
refused s summary produced defects = record {
  stage = s;
  ok = false;
  summary = summary;
  findings = produced;
  defects = defects;
}

module _ (digest : Body StageResult → String) where
  -- W9: the chain is intact and every requirement is answered
  close_out : Component → List Finding → List Finding → EvidenceLedger StageResult → StageResult
  unfolding passed
  close_out c so_far produced l =
      let bad = verify digest l in
      let absent = missing_ids c.checklist (so_far ++ produced) in
      if not (is_empty bad)
      then refused w9 "evidence chain is not intact" produced (map chain_defect bad)
      else if not (is_empty absent)
      then refused w9 (counted "" (length absent) " requirements never answered") produced
          (map uncovered_requirement absent)
      else passed w9 produced

  -- what a stage makes of the findings it produced
  stage_result :
      Component → Stage → List Finding → List Finding → EvidenceLedger StageResult → StageResult
  unfolding close_out passed
  stage_result c w4 so_far produced l =
      let bad = integration_defects c.contract in
      record {
        stage = w4;
        ok = is_empty bad;
        summary =
            if is_empty bad
            then "integration wiring verified"
            else counted "" (length bad) " integration defects";
        findings = [];
        defects = bad;
      }
  stage_result c w7 so_far produced l =
      let bad = blocked_ids (so_far ++ produced) in
      if is_empty bad
      then passed w7 produced
      else refused w7 (counted "certification refused: " (length bad) " blocked requirements")
          produced (map blocked_requirement bad)
  stage_result c w9 so_far produced l = close_out c so_far produced l
  stage_result c s so_far produced l = passed s produced

  assessed_stage :
      Component → Stage → List Finding → EvidenceLedger StageResult → Raises StageResult
  unfolding stage_result assess_each
  assessed_stage c s so_far l = do
    produced ← assess_each c (stage_dimensions s)
    ok (stage_result c s so_far produced l)

  -- `_run_stage`
  unfoldable pub run_stage :
      Component → Stage → List Finding → EvidenceLedger StageResult → Raises StageResult
  unfolding assessed_stage
  run_stage c w0 so_far l =
      let bad = validate c.contract in
      if is_empty bad
      then assessed_stage c w0 so_far l
      else ok (
          refused w0 (counted "context lock refused: " (length bad) " contract defects") []
            (map contract_defect bad))
  run_stage c s so_far l = assessed_stage c s so_far l

abbrev pub may_halt : Stage → Bool
may_halt w0 = true
may_halt w7 = true
may_halt _ = false

abbrev pub not_reached : Stage → StageResult
not_reached s = record {
  stage = s;
  ok = false;
  summary = "not reached: an earlier stage halted the run";
  findings = [];
  defects = [];
}

abbrev pub stages : List Stage
stages = w0 ∷ w1 ∷ w2 ∷ w3 ∷ w4 ∷ w5 ∷ w6 ∷ w7 ∷ w8 ∷ w9 ∷ []

-- the result of the stages `done` with their findings
unfoldable pub conclude :
    Component → List StageResult → List Finding → EvidenceLedger StageResult → WorkflowResult
conclude c done fs l = record {
  element = c.element_id;
  name = if is_yes (string_dec c.element_name "") then c.checklist_name else c.element_name;
  certified = all (λ r. r.ok) done && (length fs == length c.checklist);
  stages = done;
  findings = fs;
  evidence_head = head l;
}

module _ (digest : Body StageResult → String) (clock : ℕ → String) where
  -- `self.ledger.append(...)` of a stage's result
  unfoldable pub record_stage :
      Component → StageResult → EvidenceLedger StageResult → EvidenceLedger StageResult
  record_stage c r l =
      (append digest c.element_id (stage_name r.stage) r.summary r (clock (length l)) l).1

  -- the loop over the stages that are left
  unfoldable pub run_stages :
      Component
      → List Stage
      → Bool
      → List StageResult
      → List Finding
      → Exec PkError (EvidenceLedger StageResult) (List StageResult × List Finding)
  unfolding record_stage
  run_stages c [] halted done fs = Exec.pure (done, fs)
  run_stages c (s ∷ ss) true done fs = run_stages c ss true (done ++ (not_reached s ∷ [])) fs
  run_stages c (s ∷ ss) false done fs = λ l.
      Exec.continue (run_stage digest c s fs l)
        (λ r l'.
          run_stages c ss (not r.ok && may_halt s) (done ++ (r ∷ [])) (fs ++ r.findings)
            (record_stage c r l'))
        l

  -- `WorkflowEngine.run`
  unfoldable pub run : Component → Exec PkError (EvidenceLedger StageResult) WorkflowResult
  unfolding run_stages conclude
  run c =
      Exec.◌>>=◌ (run_stages c stages false [] [])
        λ (done, fs) l. Exec.pure (conclude c done fs l) l
