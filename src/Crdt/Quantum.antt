-- ===== src/Crdt/Quantum.antt =====
-- `is_quantum_value` and `reject_quantum` of crdt.py.
use df_fabric.Prelude.{
  String, Bool, false, ◌||◌, List, [], ◌∷◌, map, Option, none, some, any, is_yes, string_dec,
  if◌then◌else◌,
}
use df_fabric.Prelude.Text.{codes, codes_eq, strip, upper}
use df_fabric.Prelude.Result.{ok, err}
use df_fabric.Payload.{Object, Value, text, seq, dict, object, Values, nil, cons, Items, end, item}
use df_fabric.Crdt.Error.{Raises, quantum_replication_rejected}

-- lang.QUANTUM_OWNED_TYPES
abbrev pub quantum_owned_types : List String
quantum_owned_types =
    "qubit" ∷ "qudit" ∷ "qreg" ∷ "ket" ∷ "pure_state" ∷ "mixed_state" ∷ "density" ∷ "subsystem"
    ∷ "bipartite_state" ∷ "multipartite_state" ∷ "entangled_state" ∷ "separable_state" ∷ "ebit" ∷ []

-- `value.strip().upper() == QSTATE_TOKEN`
unfoldable pub is_qstate_token : String → Bool
unfolding codes_eq strip upper
is_qstate_token s = codes_eq (map upper (strip (codes s))) (codes "QSTATE")

-- `t in lang.QUANTUM_OWNED_TYPES`, where `t` is `type_`, or `type` where that is None or empty
unfoldable pub has_quantum_type : Object → Bool
unfolding string_dec any
has_quantum_type o = owned (first o.type_ o.type)
  where
    first : Option String → Option String → Option String
    first none u = u
    first (some t) u = if is_yes (string_dec t "") then u else some t

    owned : Option String → Bool
    owned none = false
    owned (some t) = any (λ q. is_yes (string_dec t q)) quantum_owned_types

unfoldable mutual
  unfolding is_qstate_token has_quantum_type string_dec

  pub is_quantum_value : Value → Bool
  is_quantum_value (text s) = is_qstate_token s
  is_quantum_value (object o) =
      o.is_qstate || is_yes (string_dec o.class_name "QuantumPayload") || has_quantum_type o
  is_quantum_value (seq vs) = any_quantum vs
  is_quantum_value (dict d) = any_quantum_item d
  is_quantum_value _ = false

  pub any_quantum : Values → Bool
  any_quantum nil = false
  any_quantum (cons v vs) = is_quantum_value v || any_quantum vs

  pub any_quantum_item : Items → Bool
  any_quantum_item end = false
  any_quantum_item (item k v d) = is_quantum_value k || is_quantum_value v || any_quantum_item d

unfoldable pub reject_quantum : Value → Raises Value
reject_quantum v = if is_quantum_value v then err quantum_replication_rejected else ok v
