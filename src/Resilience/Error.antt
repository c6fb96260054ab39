-- ===== src/Resilience/Error.antt =====
-- The exception classes of resilience.py; the texts of the messages are not modelled.
-- `out_of_fuel` is the model's own.
use df_fabric.Prelude.Result.{Result}

pub data ResilienceError : Type 0 where
  resilience_error unknown_scenario quantum_checkpoint_refused quantum_rollback_refused :
      ResilienceError
  transaction_state_error supervision_escalation out_of_fuel : ResilienceError

abbrev pub Raises : Type 0 → Type 0
Raises = Result ResilienceError
