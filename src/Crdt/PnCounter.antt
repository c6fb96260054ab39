-- ===== src/Crdt/PnCounter.antt =====
-- `PNCounter` of crdt.py: a pair of grow-only counters.
pub mod Methods
use df_fabric.Prelude.{ℕ, suc, String, [], Option}
use df_fabric.Prelude.Int.{ℤ, pos, negsuc, sub_ℕ}
use df_fabric.Prelude.Result.{ok, ◌>>=◌, ◌>>◌}
use df_fabric.Payload.{Value}
use df_fabric.Crdt.Error.{Raises}
use df_fabric.Crdt.Quantum.{reject_quantum}
use df_fabric.Crdt.Counts.{Counts, bump, merge_max, total, IsCounts, view}

pub record PnCounter : Type 0 where
  pub replica_id : String
  pub positive : Counts
  pub negative : Counts

-- the part of `increment` below its test, for n ≥ 0
unfoldable pub raise_positive : ℕ → PnCounter → Raises PnCounter
raise_positive n c = do
  reject_quantum (Value.int (pos n))
  ok (record c { positive = bump c.positive c.replica_id n })

-- the part of `decrement` below its test, for n ≥ 0
unfoldable pub raise_negative : ℕ → PnCounter → Raises PnCounter
raise_negative n c = do
  reject_quantum (Value.int (pos n))
  ok (record c { negative = bump c.negative c.replica_id n })

-- `if n < 0: return self.decrement(-n)`
unfoldable pub increment : ℤ → PnCounter → Raises PnCounter
unfolding raise_positive raise_negative
increment (negsuc n) c = raise_negative (suc n) c
increment (pos n) c = raise_positive n c

-- `if n < 0: return self.increment(-n)`
unfoldable pub decrement : ℤ → PnCounter → Raises PnCounter
unfolding raise_positive raise_negative
decrement (negsuc n) c = raise_positive (suc n) c
decrement (pos n) c = raise_negative n c

unfoldable pub merge : PnCounter → PnCounter → PnCounter
merge a b = record {
  replica_id = a.replica_id;
  positive = merge_max a.positive b.positive;
  negative = merge_max a.negative b.negative;
}

unfoldable pub value : PnCounter → ℤ
value c = sub_ℕ (total c.positive) (total c.negative)

abbrev pub IsValid : PnCounter → Type 0
IsValid c = IsCounts c.positive × IsCounts c.negative

abbrev pub state : PnCounter → (String → Option ℕ) × (String → Option ℕ)
state c = (view c.positive, view c.negative)
