-- ===== src/Crdt/Register/Dominance.antt =====
-- The version policy of `LWWRegister`.
use df_fabric.Prelude.{◌<◌, ◌≡◌, ◌≢◌, refl, true, false, arith, String}
use df_fabric.Prelude.Result.{ok}
use df_fabric.Payload.{Value}
use df_fabric.Crdt.Counts.{merge_max}
use df_fabric.Crdt.Version.{VersionVector}
use df_fabric.Crdt.Version.{dominates as vector_dominates}
use df_fabric.Crdt.Version.Order.{dominates-order}
use df_fabric.Crdt.Register.{Register, version_dominance, newer, merge, init_writer}

abbrev vector : Register → VersionVector
vector r = record { replica_id = r.replica_id; versions = r.version }

module _ (canon : Value → String) where
  -- Under the version policy, if one register dominates another by versions and has the smaller
  -- timestamp, each of the two orders of merging keeps the register on its left: the timestamps of
  -- the results differ, so the merge is not commutative.
  pub merge-not_comm :
      (a b : Register)
      → a.policy ≡ version_dominance
      → b.policy ≡ version_dominance
      → vector_dominates (vector a) (vector b) ≡ true
      → a.timestamp < b.timestamp
      → (m n : Register) × (merge canon a b ≡ ok m)
        × (merge canon b a ≡ ok n)
        × (m.timestamp ≡ a.timestamp)
        × (n.timestamp ≡ b.timestamp)
        × (m.timestamp ≢ n.timestamp)
  unfolding merge vector_dominates newer
  merge-not_comm a b pa pb above older =
      let asym : vector_dominates (vector b) (vector a) ≡ false =
        (dominates-order (vector a) (vector b) (vector a)).1 above in
      (
        record {
          replica_id = a.replica_id;
          policy = a.policy;
          value = a.value;
          timestamp = a.timestamp;
          writer = init_writer a.replica_id a.writer;
          version = merge_max a.version b.version;
        },
        record {
          replica_id = b.replica_id;
          policy = b.policy;
          value = b.value;
          timestamp = b.timestamp;
          writer = init_writer b.replica_id b.writer;
          version = merge_max b.version a.version;
        },
        ground arith,
        ground arith,
        refl,
        refl,
        omega arith,
      )
