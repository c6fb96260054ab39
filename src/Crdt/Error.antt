-- ===== src/Crdt/Error.antt =====
-- The exception classes of crdt.py; the texts of the messages are not modelled.
use df_fabric.Prelude.Result.{Result}

pub data CrdtError : Type 0 where
  crdt_error quantum_replication_rejected merge_type_error consistency_guarantee_blocked : CrdtError

abbrev pub Raises : Type 0 → Type 0
Raises = Result CrdtError
