-- ===== src/Pk/Error.antt =====
-- The exception classes of pk_core and of the modelled components; the texts of the messages are
-- not modelled.
use df_fabric.Prelude.Result.{Result}

pub data PkError : Type 0 where
  value_error : PkError

abbrev pub Raises : Type 0 → Type 0
Raises = Result PkError
