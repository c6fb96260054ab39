-- ===== src/Tests/Kernel.antt =====
-- pk_core at concrete inputs: a component of two requirements, one of them on operations and blocked.
use df_fabric.Prelude.{ℕ, String, List, [], ◌∷◌, true, false, all, ◌≡◌, refl, string_dec}
use df_fabric.Prelude.Result.{Result, ok, err}
use df_fabric.Pk.{PkError, Raises}
use df_fabric.Prelude.{filter, any, member}
use df_fabric.Prelude.Dict.{get}
use df_fabric.Prelude.Text.{codes_eq, lower, concat, join, is_blank, strip, str}
use df_fabric.Pk.Evidence.{
  Body, EvidenceLedger, append, verify, genesis, verify_from, defects_at, head, head_from, seal,
}
use df_fabric.Pk.Evidence.Seal.{verify-append, verify-seal}
use df_fabric.Pk.Contract.{
  Contract, validate, need, further_defects, missing, overlap, lacks_relation,
}
use df_fabric.Pk.Checklist.{
  ChecklistItem, Dimension, Finding, Status, architecture, operations, satisfied, blocked, w0,
  assess, for_dimension, same_ids, dimension_ordinal, dimension_value, stage_name, stage_value,
}
use df_fabric.Pk.Workflow.{
  Component, StageResult, WorkflowResult, run, run_stages, run_stage, conclude, record_stage,
  assess_each, integration_defects, blocked_ids, missing_ids, check_ids,
}
use df_fabric.Pk.Workflow.Certified.{run-certified}
use df_fabric.Pk.Gate.{evaluate, no_go}
use df_fabric.Pk.Gate.Policy.{evaluate-verdict, certified-verdict}

-- a stand-in for SHA-256
abbrev digest : {P : Type 0} → Body P → String
digest b = b.summary

abbrev intake : Body ℕ
intake = record {
  sequence = 0;
  element = "E-01";
  stage = "W0";
  summary = "context locked";
  payload = 7;
  recorded_at = "noon";
  previous = genesis;
}

abbrev one_record : EvidenceLedger ℕ
one_record = record { body = intake; self_digest = "context locked" } ∷ []

append_example :
    verify digest (append digest "E-01" "W1" "baseline" 8 "later" one_record).1
    ≡ verify digest one_record
append_example = verify-append digest "E-01" "W1" "baseline" 8 "later" one_record

seal_example : (append digest "E-01" "W0" "context locked" 7 "noon" []).1 ≡ one_record
unfolding append verify string_dec
seal_example =
    verify-seal digest (append digest "E-01" "W0" "context locked" 7 "noon" []).1 one_record refl
      refl refl refl ((λ e. refl), tt)

abbrev contract : Contract
contract = record {
  element = "E-01";
  name = "element";
  responsibility = "it answers";
  owns = "answers" ∷ [];
  not_owns = "questions" ∷ [];
  dependencies =
      record { name = "up"; relation = "upstream"; why = "input"; required = true }
      ∷ record { name = "down"; relation = "downstream"; why = "output"; required = true }
      ∷ [];
  source_of_truth = "the ledger";
  assumptions = "a" ∷ "b" ∷ [];
  boundaries = ("tenant", "t") ∷ ("environment", "e") ∷ ("site", "s") ∷ ("workload", "w") ∷ [];
  mandatory = "m" ∷ [];
  optional = [];
  non_goals = "n" ∷ [];
  interfaces = ("api", "SCHEMA/1") ∷ [];
  threats = "x" ∷ "y" ∷ "z" ∷ [];
  failure_modes = "f" ∷ "g" ∷ [];
  slos = record { name = "slo"; objective = "99"; error_budget = "1" } ∷ [];
  signals = ("i", "i") ∷ ("j", "j") ∷ ("k", "k") ∷ [];
}

abbrev answer : Status → List ChecklistItem → List Finding
answer s [] = []
answer s (i ∷ is) =
    record {
      check_id = i.check_id;
      status = s;
      stage = w0;
      statement = "answered";
      artifacts = [];
      note = "";
    }
    ∷ answer s is

abbrev handler : Dimension → List ChecklistItem → Raises (List Finding)
handler operations is = ok (answer blocked is)
handler _ is = ok (answer satisfied is)

abbrev component : Component
component = record {
  element_id = "E-01";
  element_name = "element";
  checklist_name = "element";
  contract = contract;
  checklist =
      record {
        check_id = "E-01-001";
        ordinal = 1;
        dimension = architecture;
        requirement = "it has a scope";
      }
      ∷ record {
        check_id = "E-01-091";
        ordinal = 91;
        dimension = operations;
        requirement = "it can be released";
      }
      ∷ [];
  handler = handler;
}

abbrev clock : ℕ → String
clock n = "noon"

abbrev ran : Result PkError WorkflowResult × EvidenceLedger StageResult
ran = run digest clock component []

abbrev result_of : Result PkError WorkflowResult → WorkflowResult
result_of (ok w) = w
result_of (err x) = record {
  element = "";
  name = "";
  certified = false;
  stages = [];
  findings = [];
  evidence_head = "";
}

ran_ok : run digest clock component [] ≡ (ok (result_of ran.0), ran.1)
unfolding string_dec run run_stages run_stage conclude record_stage assess_each integration_defects
    blocked_ids missing_ids check_ids validate need further_defects missing overlap lacks_relation
    assess for_dimension same_ids dimension_ordinal dimension_value stage_name stage_value append
    verify verify_from defects_at head head_from seal filter any all member get codes_eq lower
    concat join is_blank strip str
ran_ok = refl

ran_certified : (result_of ran.0).certified ≡ true
unfolding string_dec run run_stages run_stage conclude record_stage assess_each integration_defects
    blocked_ids missing_ids check_ids validate need further_defects missing overlap lacks_relation
    assess for_dimension same_ids dimension_ordinal dimension_value stage_name stage_value append
    verify verify_from defects_at head head_from seal filter any all member get codes_eq lower
    concat join is_blank strip str
ran_certified = refl

certified_example : validate component.contract ≡ []
certified_example =
    (run-certified digest clock component [] ran.1 (result_of ran.0) ran_ok ran_certified).0

abbrev unready : Finding
unready = record {
  check_id = "E-01-091";
  status = blocked;
  stage = w0;
  statement = "answered";
  artifacts = [];
  note = "";
}

refused_example : (evaluate "noon" (result_of ran.0 ∷ [])).verdict ≡ no_go
unfolding assess_each assess for_dimension dimension_ordinal same_ids filter all member string_dec
refused_example =
    (certified-verdict digest clock component "noon" [] ran.1 (result_of ran.0) (unready ∷ []) []
        ran_ok ran_certified refl refl).1
      refl

abbrev result : WorkflowResult
result = record {
  element = "E-01";
  name = "element";
  certified = false;
  stages = [];
  findings = unready ∷ [];
  evidence_head = genesis;
}

verdict_example : (evaluate "noon" (result ∷ [])).verdict ≡ no_go
unfolding all
verdict_example = ((evaluate-verdict "noon" (result ∷ [])).0).1 refl
