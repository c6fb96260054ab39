-- ===== src/Crdt/Register/Merge.antt =====
-- The merge laws of `LWWRegister` under a policy that is a total order.
use df_fabric.Prelude.{
  ◌==◌, not, ltb, is_yes, ◌≡◌, ◌≢◌, refl, ap, Bool, false, arith, String, string_dec, if◌then◌else◌,
  ◌∙◌, sym, ap₂, Bool-cases, inl, inr,
}
use df_fabric.Prelude.Result.{ok}
use df_fabric.Payload.{Value}
use df_fabric.Crdt.Laws.{MergeLaws}
use df_fabric.Crdt.Counts.{merge_max, IsCounts}
use df_fabric.Crdt.Counts.Merge.{
  merge_max-IsCounts, merge_max_comm, merge_max_assoc, merge_max_idem, merge_max_cong,
}
use df_fabric.Crdt.Register.{
  Register, Policy, uses_dominance, newer, merge, State, state, not, text_ltb, init_writer,
}
use df_fabric.Crdt.Register.Order.{newer_asymm, newer_trans, newer_total, newer_between}

-- A register with no version key twice, the given policy and a writer that is not empty.
pub record IsValid (p : Policy) (r : Register) : Type 0 where
  pub versions : IsCounts r.version
  pub policy : r.policy ≡ p
  pub written : r.writer ≢ ""

init_writer-written : (r w : String) → w ≢ "" → init_writer r w ≡ w
unfolding init_writer
init_writer-written r w h = ground arith

module _ (canon : Value → String) where
  -- The result of a merge of registers under one policy that is a total order.
  abbrev pub join : Register → Register → Register
  join a b =
      let win = if newer canon a b then a else b in
      record {
        replica_id = a.replica_id;
        policy = a.policy;
        value = win.value;
        timestamp = win.timestamp;
        writer = win.writer;
        version = merge_max a.version b.version;
      }

  abbrev pick : Register → Register → Register
  pick a b = if newer canon a b then a else b

  newer-join_left : (a b c : Register) → newer canon (join a b) c ≡ newer canon (pick a b) c
  unfolding newer
  newer-join_left a b c = refl

  newer-join_right : (a b c : Register) → newer canon a (join b c) ≡ newer canon a (pick b c)
  unfolding newer
  newer-join_right a b c = refl

  state_newer : State → State → Bool
  state_newer a b =
      if not (a.timestamp == b.timestamp)
      then ltb b.timestamp a.timestamp
      else if not (is_yes (string_dec a.writer b.writer))
      then text_ltb b.writer a.writer
      else text_ltb b.text a.text

  newer-state :
      (a b c d : Register)
      → state canon a ≡ state canon c
      → state canon b ≡ state canon d
      → newer canon a b ≡ newer canon c d
  unfolding newer state_newer
  newer-state a b c d e f = ap₂ state_newer e f

  module _ (p : Policy) (total : uses_dominance p ≡ false) where
    join-state_comm :
        (a b : Register)
        → IsValid p a
        → IsValid p b
        → state canon (join a b) ≡ state canon (join b a)
    join-state_comm a b ha hb = ground (
      arith,
      newer_asymm canon a b,
      newer_asymm canon b a,
      newer_total canon a b,
      merge_max_comm a.version b.version ha.versions hb.versions,
    )

    join-state_assoc :
        (a b c : Register)
        → IsValid p a
        → IsValid p b
        → IsValid p c
        → state canon (join (join a b) c) ≡ state canon (join a (join b c))
    join-state_assoc a b c ha hb hc = ground (
      arith,
      newer-join_left a b c,
      newer-join_right a b c,
      newer_trans canon a b c,
      newer_between canon a b c,
      merge_max_assoc a.version b.version c.version hb.versions hc.versions,
    )

    writer-join : (a b : Register) → IsValid p a → IsValid p b → (join a b).writer ≢ ""
    writer-join a b ha hb = elim (Bool-cases (newer canon a b)) [
      | inl e ↦ rw e ha.written
      | inr e ↦ rw e hb.written
    ]

    merge-join : (a b : Register) → IsValid p a → IsValid p b → merge canon a b ≡ ok (join a b)
    unfolding merge
    merge-join a b ha hb =
        let same : a.policy ≡ b.policy = ha.policy ∙ sym hb.policy in
        let plain : uses_dominance a.policy ≡ false = ap uses_dominance ha.policy ∙ total in
        let w : init_writer a.replica_id (join a b).writer ≡ (join a b).writer =
          init_writer-written a.replica_id (join a b).writer (writer-join a b ha hb) in
        rw (plain) (ground arith)

    join-IsValid : (a b : Register) → IsValid p a → IsValid p b → IsValid p (join a b)
    join-IsValid a b ha hb = record {
      versions = merge_max-IsCounts a.version b.version ha.versions;
      policy = ha.policy;
      written = writer-join a b ha hb;
    }

    join-state_cong :
        (a b c d : Register)
        → IsValid p a
        → IsValid p b
        → IsValid p c
        → IsValid p d
        → state canon a ≡ state canon c
        → state canon b ≡ state canon d
        → state canon (join a b) ≡ state canon (join c d)
    join-state_cong a b c d ha hb hc hd e f = ground (
      arith,
      newer-state a b c d e f,
      merge_max_cong a.version b.version c.version d.version hb.versions hd.versions
          (ap (λ s. s.counts) e) (ap (λ s. s.counts) f),
    )

    -- Under a policy that is a total order (Lamport or wall clock) merge returns without error, and is
    -- commutative, associative and idempotent in what `state()` shows and the hash sees, on registers
    -- of that policy whose writer is not empty and whose versions have no key twice; it keeps such
    -- registers.
    pub register-MergeLaws : MergeLaws (IsValid p) (merge canon) join (state canon)
    register-MergeLaws = record {
      merges = merge-join;
      closed = join-IsValid;
      comm = join-state_comm;
      assoc = join-state_assoc;
      idem = λ a ha. ground (arith, merge_max_idem a.version ha.versions);
      cong = join-state_cong;
    }
