-- ===== src/Resilience/Quantum.antt =====
-- `_is_quantum_payload` of resilience.py: unlike `is_quantum_value` of crdt.py it does not look at
-- the keys of a dictionary.
use df_fabric.Prelude.{Bool, false, ◌||◌, is_yes, string_dec}
use df_fabric.Payload.{Value, Values, Items, text, object, seq, dict, nil, cons, end, item}
use df_fabric.Crdt.Quantum.{is_qstate_token, has_quantum_type}

unfoldable mutual
  pub is_quantum_payload : Value → Bool
  is_quantum_payload (object o) =
      o.is_qstate || is_yes (string_dec o.class_name "QuantumPayload") || has_quantum_type o
  is_quantum_payload (text s) = is_qstate_token s
  is_quantum_payload (seq vs) = any_payload vs
  is_quantum_payload (dict d) = any_payload_item d
  is_quantum_payload _ = false

  pub any_payload : Values → Bool
  any_payload nil = false
  any_payload (cons v vs) = is_quantum_payload v || any_payload vs

  pub any_payload_item : Items → Bool
  any_payload_item end = false
  any_payload_item (item k v d) = is_quantum_payload v || any_payload_item d
