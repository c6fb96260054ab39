-- ===== src/Protocols/Ebit.antt =====
-- `EbitLedger` of protocols.py. A fidelity is a float: its type and the test that it lies in [0, 1]
-- are parameters. Epochs are natural numbers.
pub mod State
pub mod Lifecycle
pub mod Methods
pub mod Guarantees
pub mod Inventory
use df_fabric.Prelude.{
  ℕ, suc, ◌+◌, String, List, [], ◌∷◌, ◌++◌, Bool, true, false, ◌&&◌, ◌||◌, not, Option, none, some,
  ltb, leb, is_yes, string_dec, if◌then◌else◌,
}
use df_fabric.Prelude.{any}
use Prim.Native.String.{◌++◌ as text_append}
use df_fabric.Prelude.Dict.{Dict, get, put, keys}
use df_fabric.Prelude.Text.{sorted, str, text_ltb}
use df_fabric.Prelude.Result.{ok, err}
use df_fabric.Prelude.Exec.{Exec, pure, raise, lift, modify, raise_when, gets, ◌>>=◌, ◌>>◌}
use df_fabric.Protocols.Error.{ProtocolError, protocol_error, Raises}
use State.{
  EprState, requested, generating, heralded, reserved, consumed, expired, failed, released,
  Epr-discrete, allowed, admits, is_terminal, is_usable,
}

-- An entry of `provenance`: no state before the request.
pub record Transition : Type 0 where
  pub from : Option EprState
  pub to : EprState
  pub epoch : ℕ
  pub note : String

pub record Event : Type 0 where
  pub ebit_id : String
  pub state : EprState
  pub epoch : ℕ
  pub note : String

pub record EbitRecord (F : Type 0) : Type 0 where
  pub ebit_id : String
  pub endpoint_a : String
  pub endpoint_b : String
  pub creation_epoch : ℕ
  pub fidelity : F
  pub expiry : ℕ
  pub owner_protocol : String
  pub state : EprState
  pub provenance : List Transition

pub record EbitLedger (F : Type 0) : Type 0 where
  pub prefix : String
  pub records : Dict String (EbitRecord F)
  pub counter : ℕ
  pub events : List Event

-- `EbitLedger(prefix)`
abbrev pub new : {F : Type 0} → String → EbitLedger F
new prefix = record { prefix = prefix; records = []; counter = 0; events = [] }

-- `tuple(sorted((a, b)))`
unfoldable pub endpoint_pair : String → String → String × String
endpoint_pair a b = if text_ltb b a then (b, a) else (a, b)

-- `f"{n:06d}"`
unfoldable pub padded : ℕ → String
padded n =
    text_append
      (if ltb n 10
        then "00000"
        else if ltb n 100
        then "0000"
        else if ltb n 1000
        then "000"
        else if ltb n 10000
        then "00"
        else if ltb n 100000
        then "0"
        else "")
      (str n)

abbrev pub Action : Type 0 → Type 0 → Type 0
Action F = Exec ProtocolError (EbitLedger F)

abbrev pub or_unknown : {A : Type 0} → Option A → Raises A
or_unknown none = err protocol_error
or_unknown (some a) = ok a

module _ {F : Type 0} where
  unfoldable pub new_id : Action F String
  unfolding padded
  new_id s = (
    ok (text_append s.prefix (text_append "-" (padded (suc s.counter)))),
    record s { counter = suc s.counter },
  )

  unfoldable pub get_record : String → Action F (EbitRecord F)
  get_record i s = (or_unknown (get string_dec s.records i), s)

  -- writes a record back: in the source it is changed in place
  unfoldable pub write : EbitRecord F → EbitLedger F → EbitLedger F
  write r s = record s { records = put string_dec s.records r.ebit_id r }

  unfoldable pub log_event : EbitRecord F → EprState → ℕ → String → EbitLedger F → EbitLedger F
  log_event r t epoch note s = record s {
    events =
        s.events ++ (record { ebit_id = r.ebit_id; state = t; epoch = epoch; note = note } ∷ []);
  }

  -- the record after a transition
  unfoldable pub moved : EbitRecord F → EprState → ℕ → String → EbitRecord F
  moved r t epoch note = record r {
    provenance =
        r.provenance ++ (record { from = some r.state; to = t; epoch = epoch; note = note } ∷ []);
    state = t;
  }

  -- `_transition`
  unfoldable pub transition : EbitRecord F → EprState → ℕ → String → Action F (EbitRecord F)
  unfolding write log_event moved
  transition r t epoch note s =
      if admits r.state t
      then (ok (moved r t epoch note), log_event r t epoch note (write (moved r t epoch note) s))
      else (err protocol_error, s)

  -- `_check_live`
  unfoldable pub check_live : EbitRecord F → ℕ → Action F (Unit {0})
  check_live r epoch = raise_when (ltb r.expiry epoch) protocol_error

  abbrev requested_record : String → String → String → ℕ → ℕ → String → F → EbitRecord F
  requested_record i a b epoch expiry owner fidelity = record {
    ebit_id = i;
    endpoint_a = a;
    endpoint_b = b;
    creation_epoch = epoch;
    fidelity = fidelity;
    expiry = expiry;
    owner_protocol = owner;
    state = requested;
    provenance = record { from = none; to = requested; epoch = epoch; note = "request" } ∷ [];
  }

  -- the record under a new owner, if one is given
  abbrev owned : EbitRecord F → Option String → EbitRecord F
  owned r none = r
  owned r (some o) = record r { owner_protocol = o }

  unfoldable pub generate : String → ℕ → Action F (EbitRecord F)
  unfolding get_record transition
  generate i epoch = do r ← get_record i; transition r generating epoch "generation started"

  unfoldable pub reserve : String → String → ℕ → Action F (EbitRecord F)
  unfolding get_record transition write check_live
  reserve i owner epoch = do
    r ← get_record i
    raise_when (not (is_yes (Epr-discrete r.state heralded))) protocol_error
    check_live r epoch
    modify (write (record r { owner_protocol = owner }))
    transition (record r { owner_protocol = owner }) reserved epoch
        (text_append "reserved by " owner)

  -- the three tests on the state; CONSUMED and EXPIRED are not usable either
  unfoldable pub consume : String → ℕ → Option String → Action F (EbitRecord F)
  unfolding get_record transition write check_live
  consume i epoch owner = do
    r ← get_record i
    raise_when (is_yes (Epr-discrete r.state consumed)) protocol_error
    raise_when (is_yes (Epr-discrete r.state expired)) protocol_error
    raise_when (not (is_usable r.state)) protocol_error
    check_live r epoch
    modify (write (owned r owner))
    transition (owned r owner) consumed epoch
        (text_append "consumed by " (owned r owner).owner_protocol)

  unfoldable pub release : String → ℕ → Action F (EbitRecord F)
  unfolding get_record transition
  release i epoch = do r ← get_record i; transition r released epoch "released unused"

  unfoldable pub fail : String → ℕ → String → Action F (EbitRecord F)
  unfolding get_record transition
  fail i epoch reason = do r ← get_record i; transition r failed epoch reason

  -- `expire` of one ebit
  unfoldable pub expire : String → ℕ → Action F (List String)
  unfolding get_record transition
  expire i epoch = do r ← get_record i; transition r expired epoch "explicit expiry"; pure (i ∷ [])

  -- one round of `expire` without an id: whether the ebit was expired
  unfoldable pub expire_step : String → ℕ → Action F Bool
  unfolding get_record transition
  expire_step i epoch = do
    r ← get_record i
    if is_terminal r.state || leb epoch r.expiry then pure false else do
      transition r expired epoch
          (text_append "epoch " (text_append (str epoch) (text_append " > expiry " (str r.expiry))))
      pure true

  unfoldable pub expire_each : List String → ℕ → Action F (List String)
  unfolding expire_step
  expire_each [] epoch = pure []
  expire_each (i ∷ is) epoch = do
    hit ← expire_step i epoch
    rest ← expire_each is epoch
    pure (if hit then i ∷ rest else rest)

  -- `expire` without an id: every ebit that is past its expiry and in no terminal state
  unfoldable pub expire_all : ℕ → Action F (List String)
  unfolding expire_each
  expire_all epoch s = expire_each (sorted (keys s.records)) epoch s

module _ {F : Type 0} (in_unit : F → Bool) where
  unfoldable pub request : String → String → ℕ → ℕ → String → F → Action F String
  unfolding new_id write log_event
  request a b epoch expiry owner fidelity = do
    raise_when (is_yes (string_dec a b)) protocol_error
    raise_when (ltb expiry epoch) protocol_error
    raise_when (not (in_unit fidelity)) protocol_error
    i ← new_id
    let rec = requested_record i a b epoch expiry owner fidelity
    modify (λ s. log_event rec requested epoch "request" (write rec s))
    pure i

  -- the fidelity is written before the transition is tried
  unfoldable pub herald : String → Option F → ℕ → Action F (EbitRecord F)
  unfolding get_record transition write
  herald i none epoch = do
    r ← get_record i
    transition r heralded epoch "heralded by the link layer"
  herald i (some f) epoch = do
    r ← get_record i
    raise_when (not (in_unit f)) protocol_error
    modify (write (record r { fidelity = f }))
    transition (record r { fidelity = f }) heralded epoch "heralded by the link layer"
