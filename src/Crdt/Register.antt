-- ===== src/Crdt/Register.antt =====
-- `LWWRegister` of crdt.py. `canon` is `_canon`: the JSON text that Python's encoder gives a value.
-- Timestamps are natural numbers.
pub mod Order
pub mod Merge
pub mod Dominance
use df_fabric.Prelude.{
  ℕ, suc, max, String, [], Bool, true, false, Option, none, some, ltb, ◌&&◌, string_dec, is_yes,
  if◌then◌else◌, ◌==◌, not,
}
use df_fabric.Prelude.Dict.{put}
use df_fabric.Prelude.Text.{text_ltb}
use df_fabric.Prelude.Result.{ok, err, ◌>>=◌, ◌>>◌}
use df_fabric.Payload.{Value}
use df_fabric.Crdt.Error.{Raises, crdt_error, merge_type_error}
use df_fabric.Crdt.Quantum.{reject_quantum}
use df_fabric.Crdt.Counts.{Counts, count_of, merge_max, view}
use df_fabric.Crdt.Version.{ge_on, gt_on}

pub data Policy : Type 0 where
  lamport wall_clock version_dominance : Policy

unfoldable pub Policy-discrete : Discrete Policy
Policy-discrete = hlevel

-- `policy in CLOCK_POLICIES`
unfoldable pub policy_of : String → Raises Policy
policy_of s =
    if is_yes (string_dec s "LAMPORT_THEN_REPLICA_ID")
    then ok lamport
    else if is_yes (string_dec s "DECLARED_WALL_CLOCK_THEN_REPLICA_ID")
    then ok wall_clock
    else if is_yes (string_dec s "VERSION_VECTOR_DOMINANCE_THEN_REPLICA_ID")
    then ok version_dominance
    else err crdt_error

pub record Register : Type 0 where
  pub replica_id : String
  pub policy : Policy
  pub value : Value
  pub timestamp : ℕ
  pub writer : String
  pub version : Counts

-- `__post_init__` of every register that the constructor makes: an empty writer becomes its replica
unfoldable pub init_writer : String → String → String
unfolding string_dec
init_writer r w = if is_yes (string_dec w "") then r else w

-- `LWWRegister(replica_id, policy)` and `__post_init__`: an unknown policy raises
unfoldable pub new : String → String → Raises Register
unfolding policy_of init_writer
new r p = do
  policy ← policy_of p
  ok (record {
    replica_id = r;
    policy = policy;
    value = Value.null;
    timestamp = 0;
    writer = init_writer r "";
    version = [];
  })

-- `self.timestamp + 1` where no timestamp is given
abbrev pub next_time : Option ℕ → ℕ → ℕ
next_time none now = suc now
next_time (some t) now = t

unfoldable pub set : Value → Option ℕ → Register → Raises Register
set v timestamp r = do
  reject_quantum v
  let t = next_time timestamp r.timestamp in
      ok (record r {
        timestamp = t;
        value = v;
        writer = r.replica_id;
        version = put string_dec r.version r.replica_id (max (count_of r.version r.replica_id) t);
      })

abbrev pub uses_dominance : Policy → Bool
uses_dominance version_dominance = true
uses_dominance _ = false

-- what `state()` shows and the hash sees
pub record State : Type 0 where
  pub text : String
  pub timestamp : ℕ
  pub writer : String
  pub policy : Policy
  pub counts : String → Option ℕ

module _ (canon : Value → String) where
  -- the total order below the version test: timestamp, then writer, then canonical text
  unfoldable pub newer : Register → Register → Bool
  newer a b =
      if not (a.timestamp == b.timestamp)
      then ltb b.timestamp a.timestamp
      else if not (is_yes (string_dec a.writer b.writer))
      then text_ltb b.writer a.writer
      else text_ltb (canon b.value) (canon a.value)

  -- `_dominates`; the second test on versions there only passes on to the total order
  unfoldable pub dominates : Register → Register → Bool
  unfolding newer
  dominates a b =
      if uses_dominance a.policy && (ge_on a.version b.version && gt_on a.version b.version)
      then true
      else newer a b

  unfoldable pub merge : Register → Register → Raises Register
  unfolding dominates init_writer
  merge a b =
      if not (is_yes (Policy-discrete a.policy b.policy))
      then err merge_type_error
      else (let win = if dominates a b then a else b in
          ok (record {
            replica_id = a.replica_id;
            policy = a.policy;
            value = win.value;
            timestamp = win.timestamp;
            writer = init_writer a.replica_id win.writer;
            version = merge_max a.version b.version;
          }))

  abbrev pub state : Register → State
  state r = record {
    text = canon r.value;
    timestamp = r.timestamp;
    writer = r.writer;
    policy = r.policy;
    counts = view r.version;
  }
