-- ===== src/Crdt/GCounter.antt =====
-- `GCounter` of crdt.py.
pub mod Methods
use df_fabric.Prelude.{ℕ, ◌+◌, String, [], Option}
use df_fabric.Prelude.Int.{ℤ, pos, negsuc}
use df_fabric.Prelude.Result.{ok, err, ◌>>=◌, ◌>>◌}
use df_fabric.Payload.{Value}
use df_fabric.Crdt.Error.{Raises, crdt_error}
use df_fabric.Crdt.Quantum.{reject_quantum}
use df_fabric.Crdt.Counts.{Counts, bump, merge_max, total, IsCounts, view}

pub record GCounter : Type 0 where
  pub replica_id : String
  pub counts : Counts

-- `GCounter(replica_id)`
abbrev pub new : String → GCounter
new r = record { replica_id = r; counts = [] }

unfoldable pub increment : ℤ → GCounter → Raises GCounter
increment (negsuc n) c = err crdt_error
increment (pos n) c = do
  reject_quantum (Value.int (pos n))
  ok (record c { counts = bump c.counts c.replica_id n })

unfoldable pub merge : GCounter → GCounter → GCounter
merge a b = record { replica_id = a.replica_id; counts = merge_max a.counts b.counts }

unfoldable pub value : GCounter → ℕ
value c = total c.counts

abbrev pub IsValid : GCounter → Type 0
IsValid c = IsCounts c.counts

abbrev pub state : GCounter → String → Option ℕ
state c = view c.counts
