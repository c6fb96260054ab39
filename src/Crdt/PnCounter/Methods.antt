-- ===== src/Crdt/PnCounter/Methods.antt =====
-- The merge laws of `PNCounter`, and what its methods do to the value.
use df_fabric.Prelude.{suc, ◌+◌, ◌≡◌, refl, ap, ap₂, arith}
use df_fabric.Prelude.Int.{ℤ, pos, negsuc, pos_part, neg_part, sub_ℕ}
use df_fabric.Prelude.Result.{ok}
use df_fabric.Crdt.Quantum.{reject_quantum, is_quantum_value}
use df_fabric.Crdt.Laws.{MergeLaws}
use df_fabric.Crdt.Counts.{bump}
use df_fabric.Crdt.Counts.Merge.{
  merge_max-IsCounts, merge_max_comm, merge_max_assoc, merge_max_idem, merge_max_cong,
}
use df_fabric.Crdt.Counts.Total.{total-bump}
use df_fabric.Crdt.PnCounter.{PnCounter, increment, decrement, merge, value, IsValid, state}

abbrev pair : {A : Type 0} → A → A → A × A
pair a b = (a, b)

-- merge is commutative, associative and idempotent in what `state()` shows, on counters whose
-- dictionaries have no key twice, and it keeps such dictionaries.
pub pn_counter-MergeLaws : MergeLaws IsValid (λ a b. ok (merge a b)) merge state
unfolding merge
pn_counter-MergeLaws = record {
  merges = λ a b ha hb. refl;
  closed = λ a b ha hb. (
    merge_max-IsCounts a.positive b.positive ha.0,
    merge_max-IsCounts a.negative b.negative ha.1,
  );
  comm = λ a b ha hb.
      ap₂ pair (merge_max_comm a.positive b.positive ha.0 hb.0)
        (merge_max_comm a.negative b.negative ha.1 hb.1);
  assoc = λ a b c ha hb hc.
      ap₂ pair (merge_max_assoc a.positive b.positive c.positive hb.0 hc.0)
        (merge_max_assoc a.negative b.negative c.negative hb.1 hc.1);
  idem = λ a ha. ap₂ pair (merge_max_idem a.positive ha.0) (merge_max_idem a.negative ha.1);
  cong = λ a b c d ha hb hc hd p q.
      ap₂ pair
        (merge_max_cong a.positive b.positive c.positive d.positive hb.0 hd.0 (ap (λ s. s.0) p)
          (ap (λ s. s.0) q))
        (merge_max_cong a.negative b.negative c.negative d.negative hb.1 hd.1 (ap (λ s. s.1) p)
          (ap (λ s. s.1) q));
}

-- a + n, for an integer a.
abbrev pub plus : ℤ → ℤ → ℤ
plus a b = sub_ℕ (pos_part a + pos_part b) (neg_part a + neg_part b)

abbrev pub negate : ℤ → ℤ
negate a = sub_ℕ (neg_part a) (pos_part a)

-- increment by n adds n to the value and decrement by n takes n from it, for every integer n, also
-- a negative one, which each passes to the other; neither raises.
pub increment-decrement :
    (n : ℤ) (c : PnCounter)
    → ((c' : PnCounter) × (increment n c ≡ ok c') × (value c' ≡ plus (value c) n))
      × ((c' : PnCounter) × (decrement n c ≡ ok c') × (value c' ≡ plus (value c) (negate n)))
unfolding increment decrement value reject_quantum is_quantum_value
increment-decrement (pos n) c = (
  (
    record c { positive = bump c.positive c.replica_id n },
    refl,
    ground (arith, total-bump c.positive c.replica_id n),
  ),
  (
    record c { negative = bump c.negative c.replica_id n },
    refl,
    ground (arith, total-bump c.negative c.replica_id n),
  ),
)
increment-decrement (negsuc n) c = (
  (
    record c { negative = bump c.negative c.replica_id (suc n) },
    refl,
    ground (arith, total-bump c.negative c.replica_id (suc n)),
  ),
  (
    record c { positive = bump c.positive c.replica_id (suc n) },
    refl,
    ground (arith, total-bump c.positive c.replica_id (suc n)),
  ),
)
