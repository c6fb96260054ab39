-- ===== src/Resilience/Transaction.antt =====
-- `RecoveryTransaction` of resilience.py. Of the reason only the names in it are modelled, not its
-- wording; `live_state_hash` of `as_dict` is not modelled.
pub mod Rollback
pub mod Methods
pub mod Snapshot
use df_fabric.Prelude.{
  String, List, [], ◌∷◌, Bool, true, false, not, Option, none, some, if◌then◌else◌, string_dec,
  is_yes,
}
use df_fabric.Prelude.Dict.{Dict, get, put, has, keys}
use df_fabric.Prelude.Text.{sorted}
use df_fabric.Prelude.Exec.{Exec, pure, raise, raise_when, modify, ◌>>=◌, ◌>>◌}
use df_fabric.Payload.{Value, null}
use df_fabric.Resilience.Error.{ResilienceError, transaction_state_error, quantum_rollback_refused}
use df_fabric.Resilience.Quantum.{is_quantum_payload}

pub data TransactionState : Type 0 where
  in_progress committed rolled_back refused : TransactionState

pub data Reason : Type 0 where
  no_reason : Reason
  unknown_state : List String → Reason
  from_journal : Reason

pub record Registration : Type 0 where
  pub classically_known : Bool
  pub class_name : String

pub record TransactionRecord : Type 0 where
  pub transaction_id : String
  pub state : TransactionState
  pub classical_keys : List String
  pub quantum_keys : List String
  pub reason : Reason

pub record Transaction : Type 0 where
  pub transaction_id : String
  pub state : TransactionState
  pub journal : Dict String Value
  pub quantum : Dict String Registration
  pub live : Dict String Value
  pub reason : Reason

-- `RecoveryTransaction(transaction_id)`
abbrev pub new : String → Transaction
new i = record {
  transaction_id = i;
  state = in_progress;
  journal = [];
  quantum = [];
  live = [];
  reason = no_reason;
}

abbrev pub Action : Type 0 → Type 0
Action = Exec ResilienceError Transaction

abbrev pub is_open : TransactionState → Bool
is_open in_progress = true
is_open _ = false

-- `d.setdefault(k, v)`
unfoldable pub set_default : Dict String Value → String → Value → Dict String Value
set_default d k v = if has string_dec d k then d else put string_dec d k v

abbrev pub or_null : Option Value → Value
or_null none = null
or_null (some v) = v

-- an entry of the journal, and the new live value
unfoldable pub store : String → Value → Value → Transaction → Transaction
unfolding set_default
store k prior v t = record t {
  journal = set_default t.journal k prior;
  live = put string_dec t.live k v;
}

-- the exception of every method of a closed transaction
unfoldable pub check_open : Action (Unit {0})
check_open t = raise_when (not (is_open t.state)) transaction_state_error t

unfoldable pub record_classical : String → Value → Action (Unit {0})
unfolding check_open store
record_classical k v = do
  check_open
  raise_when (is_quantum_payload v) quantum_rollback_refused
  modify (store k v v)

unfoldable pub record_each : Dict String Value → Action (Unit {0})
unfolding record_classical
record_each [] = pure tt
record_each ((k, v) ∷ d) = do record_classical k v; record_each d

unfoldable pub begin : Dict String Value → Action (Unit {0})
unfolding check_open record_each
begin snapshot = do check_open; record_each snapshot

-- a key that is not live is journalled with None
unfoldable pub write : String → Value → Action (Unit {0})
unfolding check_open store
write k v = do
  check_open
  raise_when (is_quantum_payload v) quantum_rollback_refused
  modify (λ t. store k (or_null (get string_dec t.live k)) v t)

-- the payload is known by the name of its class only
unfoldable pub register_quantum : String → String → Bool → Action (Unit {0})
register_quantum k class_name known = modify (λ t. record t {
  quantum =
      put string_dec t.quantum k (record { classically_known = known; class_name = class_name });
})

unfoldable pub record_of : Transaction → TransactionRecord
unfolding sorted
record_of t = record {
  transaction_id = t.transaction_id;
  state = t.state;
  classical_keys = sorted (keys t.journal);
  quantum_keys = sorted (keys t.quantum);
  reason = t.reason;
}

unfoldable pub commit : Action TransactionRecord
unfolding check_open record_of
commit = do check_open; modify (λ t. record t { state = committed }); λ t. pure (record_of t) t

-- `k for k, v in self._quantum.items() if not v["classically_known"]`
unfoldable pub unknown_keys : Dict String Registration → List String
unknown_keys [] = []
unknown_keys ((k, r) ∷ d) =
    let rest = unknown_keys d in if r.classically_known then rest else k ∷ rest

-- `for k, v in self._journal.items(): self._live[k] = v`
unfoldable pub restore : Dict String Value → Dict String Value → Dict String Value
restore [] live = live
restore ((k, v) ∷ journal) live = restore journal (put string_dec live k v)

abbrev pub is_empty : List String → Bool
is_empty [] = true
is_empty (x ∷ xs) = false

-- the transaction that a rollback leaves
unfoldable pub undone : Transaction → Transaction
unfolding restore
undone t = record t { live = restore t.journal t.live; state = rolled_back; reason = from_journal }

-- the transaction that a refused rollback leaves
unfoldable pub refusal : Transaction → Transaction
unfolding sorted
refusal t = record t { state = refused; reason = unknown_state (sorted (unknown_keys t.quantum)) }

unfoldable pub rollback : Action TransactionRecord
unfolding check_open record_of unknown_keys undone refusal
rollback = do
  check_open
  λ t.
      if is_empty (unknown_keys t.quantum)
      then pure (record_of (undone t)) (undone t)
      else raise quantum_rollback_refused (refusal t)

-- `live_state`, as the sorted dictionary shows it
abbrev pub live_state : Transaction → String → Option Value
live_state t = get string_dec t.live
