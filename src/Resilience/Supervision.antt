-- ===== src/Resilience/Supervision.antt =====
-- `Supervisor` and `SupervisionTree` of resilience.py. Budgets are natural numbers.
pub mod Escalation
use df_fabric.Prelude.{
  ℕ, zero, suc, ◌+◌, String, List, [], ◌∷◌, ◌++◌, Bool, true, false, Option, none, some, ltb,
  string_dec, if◌then◌else◌,
}
use df_fabric.Prelude.Dict.{Dict, get, put}
use df_fabric.Prelude.Result.{Result, ok, err}
use df_fabric.Resilience.Error.{ResilienceError, supervision_escalation, out_of_fuel}
use df_fabric.Resilience.Planner.{
  RecoveryClass, retry_safe, restart_from_classical_boundary, reroute_safe, regenerate_entanglement,
  reprepare_known_state, rollback_classical_only, recovery_target_specific, recovery_impossible,
}

pub data Level : Type 0 where
  task worker domain federation : Level

pub data Deed : Type 0 where
  retry restart reroute escalate abort : Deed

pub record Decision : Type 0 where
  pub level : Level
  pub subject : String
  pub action : Deed
  pub recovery_class : RecoveryClass
  pub attempt : ℕ
  pub escalated_from : Option Level

pub record Supervisor : Type 0 where
  pub max_attempts : ℕ
  pub attempts : Dict String ℕ

pub record Tree : Type 0 where
  pub task_node : Supervisor
  pub worker_node : Supervisor
  pub domain_node : Supervisor
  pub federation_node : Supervisor
  pub decisions : List Decision

-- `SupervisionTree()` with the default budgets
abbrev pub new : Tree
new = record {
  task_node = record { max_attempts = 2; attempts = [] };
  worker_node = record { max_attempts = 2; attempts = [] };
  domain_node = record { max_attempts = 1; attempts = [] };
  federation_node = record { max_attempts = 1; attempts = [] };
  decisions = [];
}

-- `self.nodes[level]`
abbrev pub node : Level → Tree → Supervisor
node task t = t.task_node
node worker t = t.worker_node
node domain t = t.domain_node
node federation t = t.federation_node

abbrev pub set_node : Level → Supervisor → Tree → Tree
set_node task s t = record t { task_node = s }
set_node worker s t = record t { worker_node = s }
set_node domain s t = record t { domain_node = s }
set_node federation s t = record t { federation_node = s }

-- `parent`, as the constructor links it
abbrev pub parent : Level → Option Level
parent task = some worker
parent worker = some domain
parent domain = some federation
parent federation = none

-- the action for a class within the budget
unfoldable pub action_of : RecoveryClass → Deed
action_of reroute_safe = reroute
action_of retry_safe = retry
action_of regenerate_entanglement = retry
action_of restart_from_classical_boundary = restart
action_of reprepare_known_state = restart
action_of rollback_classical_only = restart
action_of _ = escalate

abbrev pub or_zero : Option ℕ → ℕ
or_zero none = 0
or_zero (some n) = n

abbrev pub is_impossible : RecoveryClass → Bool
is_impossible recovery_impossible = true
is_impossible _ = false

-- `decide`: the action, the attempt, and the supervisor that has counted it
unfoldable pub decide : String → RecoveryClass → Supervisor → (Deed × ℕ) × Supervisor
unfolding action_of
decide subject c s =
    let n = or_zero (get string_dec s.attempts subject) + 1 in
    (
      (
        if is_impossible c then abort else if ltb s.max_attempts n then escalate else action_of c,
        n,
      ),
      record s { attempts = put string_dec s.attempts subject n },
    )

abbrev pub is_escalate : Deed → Bool
is_escalate escalate = true
is_escalate _ = false

-- one round of the loop of `handle`: the decision at a level, and the tree after it
unfoldable pub decide_at : Level → Option Level → String → RecoveryClass → Tree → Decision × Tree
unfolding decide
decide_at level from subject c t =
    let ((action, n), s) = decide subject c (node level t) in
    let d : Decision = record {
      level = level;
      subject = subject;
      action = action;
      recovery_class = c;
      attempt = n;
      escalated_from = from;
    } in
    (d, record (set_node level s t) { decisions = t.decisions ++ (d ∷ []) })

-- `while True`, on fuel: up the parents until an action other than to escalate
unfoldable pub handle_loop :
    ℕ
    → Level
    → Option Level
    → String
    → RecoveryClass
    → Tree
    → Result ResilienceError Decision × Tree
handle_loop zero level from subject c t = (err out_of_fuel, t)
handle_loop (suc fuel) level from subject c t =
    let (d, t') = decide_at level from subject c t in
    let up : Result ResilienceError Decision × Tree = elim (parent level) [
      | none ↦ (err supervision_escalation, t')
      | some above ↦ handle_loop fuel above (some level) subject c t'
    ] in
    if is_escalate d.action then up else (ok d, t')

-- `handle`: four levels
unfoldable pub handle :
    Level → String → RecoveryClass → Tree → Result ResilienceError Decision × Tree
unfolding handle_loop
handle start subject c t = handle_loop 4 start none subject c t
