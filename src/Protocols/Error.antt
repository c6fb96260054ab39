-- ===== src/Protocols/Error.antt =====
-- `ProtocolError` of protocols.py; the texts of the messages are not modelled.
use df_fabric.Prelude.Result.{Result}

pub data ProtocolError : Type 0 where
  protocol_error : ProtocolError

abbrev pub Raises : Type 0 → Type 0
Raises = Result ProtocolError
