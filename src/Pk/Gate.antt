-- ===== src/Pk/Gate.antt =====
-- pk/pk_core/gate.py: the verdict over workflow results. A coverage is a fraction, the number of
-- passing findings over the number of findings.
pub mod Policy
use df_fabric.Prelude.{
  ℕ, String, List, [], ◌∷◌, ◌++◌, Bool, true, false, not, length, filter, is_empty, if◌then◌else◌,
  map,
}
use df_fabric.Pk.Checklist.{
  Finding, Stage, Status, satisfied, partial, blocked, not_applicable, is_blocked, is_partial,
  passing,
}
use df_fabric.Pk.Workflow.{WorkflowResult, StageResult, check_ids, blocked_ids}

pub data Verdict : Type 0 where
  go conditional_go no_go : Verdict

pub data Blocker : Type 0 where
  blocked_requirements : String → List String → Blocker
  stages_not_passed : String → List Stage → Blocker

pub data Condition : Type 0 where
  partial_requirements : String → List String → Condition

-- `WorkflowResult.counts`
pub record Counts : Type 0 where
  pub satisfied : ℕ
  pub partial : ℕ
  pub blocked : ℕ
  pub not_applicable : ℕ

pub record ElementRow : Type 0 where
  pub element : String
  pub name : String
  pub certified : Bool
  pub coverage : ℕ × ℕ
  pub counts : Counts
  pub failed_stages : List Stage
  pub evidence_head : String

pub record GateResult : Type 0 where
  pub verdict : Verdict
  pub generated_at : String
  pub elements : List ElementRow
  pub blockers : List Blocker
  pub conditions : List Condition

abbrev is_satisfied : Status → Bool
is_satisfied satisfied = true
is_satisfied _ = false

abbrev is_not_applicable : Status → Bool
is_not_applicable not_applicable = true
is_not_applicable _ = false

count_status : (Status → Bool) → List Finding → ℕ
count_status p fs = length (filter (λ f. p f.status) fs)

-- `counts`
unfoldable pub counts : List Finding → Counts
unfolding count_status
counts fs = record {
  satisfied = count_status is_satisfied fs;
  partial = count_status is_partial fs;
  blocked = count_status is_blocked fs;
  not_applicable = count_status is_not_applicable fs;
}

-- `coverage`
unfoldable pub coverage : List Finding → ℕ × ℕ
unfolding count_status passing
coverage fs = (count_status passing fs, length fs)

unfoldable pub partial_ids : List Finding → List String
unfolding check_ids
partial_ids fs = check_ids (filter (λ f. is_partial f.status) fs)

unfoldable pub failed_stages : List StageResult → List Stage
failed_stages ss = map (λ s. s.stage) (filter (λ s. not s.ok) ss)

unfoldable pub blockers_of : WorkflowResult → List Blocker
unfolding blocked_ids failed_stages
blockers_of r =
    (if is_empty (blocked_ids r.findings)
      then []
      else blocked_requirements r.element (blocked_ids r.findings) ∷ [])
    ++ (if is_empty (failed_stages r.stages)
        then []
        else stages_not_passed r.element (failed_stages r.stages) ∷ [])

unfoldable pub conditions_of : WorkflowResult → List Condition
unfolding partial_ids
conditions_of r =
    if is_empty (partial_ids r.findings)
    then []
    else partial_requirements r.element (partial_ids r.findings) ∷ []

unfoldable pub row_of : WorkflowResult → ElementRow
unfolding coverage counts failed_stages
row_of r = record {
  element = r.element;
  name = r.name;
  certified = r.certified;
  coverage = coverage r.findings;
  counts = counts r.findings;
  failed_stages = failed_stages r.stages;
  evidence_head = r.evidence_head;
}

unfoldable pub blockers_all : List WorkflowResult → List Blocker
unfolding blockers_of
blockers_all [] = []
blockers_all (r ∷ rs) = blockers_of r ++ blockers_all rs

unfoldable pub conditions_all : List WorkflowResult → List Condition
unfolding conditions_of
conditions_all [] = []
conditions_all (r ∷ rs) = conditions_of r ++ conditions_all rs

-- `ConformanceGate.evaluate`
unfoldable pub evaluate : String → List WorkflowResult → GateResult
unfolding row_of blockers_all conditions_all
evaluate now rs = record {
  verdict =
      if not (is_empty (blockers_all rs))
      then no_go
      else if not (is_empty (conditions_all rs))
      then conditional_go
      else go;
  generated_at = now;
  elements = map row_of rs;
  blockers = blockers_all rs;
  conditions = conditions_all rs;
}
