-- ===== src/Crdt/GCounter/Methods.antt =====
-- The merge laws of `GCounter`, and what its methods do to the value.
use df_fabric.Prelude.{ℕ, ◌+◌, ◌≤◌, ◌≡◌, refl, arith, string_dec}
use df_fabric.Prelude.Dict.{put-IsDict}
use df_fabric.Prelude.Int.{pos, negsuc}
use df_fabric.Prelude.Result.{ok, err}
use df_fabric.Crdt.Error.{crdt_error}
use df_fabric.Crdt.Quantum.{reject_quantum, is_quantum_value}
use df_fabric.Crdt.Laws.{MergeLaws}
use df_fabric.Crdt.Counts.{bump, count_of, merge_max}
use df_fabric.Crdt.Counts.Merge.{
  merge_max-IsCounts, merge_max_comm, merge_max_assoc, merge_max_idem, merge_max_cong,
  view-merge_max,
}
use df_fabric.Crdt.Counts.Total.{total-bump, total_eq, total_mono}
use df_fabric.Crdt.GCounter.{GCounter, increment, merge, value, IsValid, state}

-- merge is commutative, associative and idempotent in what `state()` shows, on counters whose
-- dictionaries have no key twice, and it keeps such dictionaries.
pub g_counter-MergeLaws : MergeLaws IsValid (λ a b. ok (merge a b)) merge state
unfolding merge
g_counter-MergeLaws = record {
  merges = λ a b ha hb. refl;
  closed = λ a b ha hb. merge_max-IsCounts a.counts b.counts ha;
  comm = λ a b ha hb. merge_max_comm a.counts b.counts ha hb;
  assoc = λ a b c ha hb hc. merge_max_assoc a.counts b.counts c.counts hb hc;
  idem = λ a ha. merge_max_idem a.counts ha;
  cong = λ a b c d ha hb hc hd p q. merge_max_cong a.counts b.counts c.counts d.counts hb hd p q;
}

-- On counters whose dictionaries have no key twice, the value of a merge does not depend on the
-- order, and is at least that of either side.
pub value-merge :
    (a b : GCounter)
    → IsValid a
    → IsValid b
    → (value (merge a b) ≡ value (merge b a))
      × (value a ≤ value (merge a b))
      × (value b ≤ value (merge a b))
unfolding value merge count_of
value-merge a b ha hb =
    let m = merge_max-IsCounts a.counts b.counts ha in
    let n = merge_max-IsCounts b.counts a.counts hb in
    (
      total_eq (merge_max a.counts b.counts) (merge_max b.counts a.counts) m n
          (merge_max_comm a.counts b.counts ha hb),
      total_mono a.counts (merge_max a.counts b.counts) ha m
          (λ k. ground (arith, view-merge_max a.counts b.counts k hb)),
      total_mono b.counts (merge_max a.counts b.counts) hb m
          (λ k. ground (arith, view-merge_max a.counts b.counts k hb)),
    )

-- On a counter whose dictionary has no key twice, a non-negative increment succeeds, adds exactly n to the value and keeps the dictionary valid; a
-- negative one raises CRDTError.
pub increment_lem :
    (n : ℕ) (c : GCounter)
    → IsValid c
    → ((c' : GCounter) × (increment (pos n) c ≡ ok c') × (value c' ≡ value c + n) × IsValid c')
      × (increment (negsuc n) c ≡ err crdt_error)
unfolding increment value bump reject_quantum is_quantum_value
increment_lem n c h = (
  (
    record c { counts = bump c.counts c.replica_id n },
    refl,
    total-bump c.counts c.replica_id n,
    put-IsDict string_dec c.counts c.replica_id (count_of c.counts c.replica_id + n) h,
  ),
  refl,
)
