-- ===== src/Payload.antt =====
-- The Python values that replicas, checkpoints and transactions hold, as the quantum guards read them:
-- they treat a list, a tuple and a set alike, so all are `seq`, and an object shows the attributes that
-- they look at. Python's equality of values, under which True is 1 and a set has no order, is not the
-- equality of this type: what tests for it takes it as a parameter.
use df_fabric.Prelude.{String, Bool, Option}
use df_fabric.Prelude.Int.{ℤ}

pub record Object : Type 0 where
  pub is_qstate : Bool
  pub class_name : String
  pub type_ : Option String
  pub type : Option String

mutual
  pub data Value : Type 0 where
    null : Value
    bool : Bool → Value
    int : ℤ → Value
    text : String → Value
    seq : Values → Value
    dict : Items → Value
    object : Object → Value

  pub data Values : Type 0 where
    nil : Values
    cons : Value → Values → Values

  pub data Items : Type 0 where
    end : Items
    item : Value → Value → Items → Items
