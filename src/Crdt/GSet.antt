-- ===== src/Crdt/GSet.antt =====
-- `GSet` of crdt.py. Its elements stand in no order: `value()` sorts them. `E` is the type of elements
-- up to Python's equality and hash, which `element_of` takes a value to.
pub mod Methods
use df_fabric.Prelude.{String, List, Bool, union, member}
use df_fabric.Prelude.{add as set_add}
use df_fabric.Prelude.Result.{ok, ◌>>=◌, ◌>>◌}
use df_fabric.Payload.{Value}
use df_fabric.Crdt.Error.{Raises}
use df_fabric.Crdt.Quantum.{reject_quantum}

pub record GSet (E : Type 0) : Type 0 where
  pub replica_id : String
  pub elements : List E

module _ {E : Type 0} (dec : Discrete E) where
  unfoldable pub merge : GSet E → GSet E → GSet E
  merge a b = record { replica_id = a.replica_id; elements = union dec a.elements b.elements }

  -- what `state()` shows: which elements are there
  abbrev pub state : GSet E → E → Bool
  state s = member dec s.elements

  module _ (element_of : Value → E) where
    unfoldable pub add : Value → GSet E → Raises (GSet E)
    add e s = do
      reject_quantum e
      ok (record s { elements = set_add dec s.elements (element_of e) })

    unfoldable pub contains : Value → GSet E → Bool
    contains e s = member dec s.elements (element_of e)
