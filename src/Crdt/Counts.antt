-- ===== src/Crdt/Counts.antt =====
-- The dictionaries from replica ids to counters that crdt.py merges by pointwise maximum. The
-- counters are natural numbers: every increment is.
pub mod Merge
pub mod Total
use df_fabric.Prelude.{ℕ, ◌+◌, max, String, ◌≡◌, List, [], ◌∷◌, Option, none, some, string_dec}
use df_fabric.Prelude.Dict.{Dict, IsDict, get, put}

abbrev pub Counts : Type 0
Counts = Dict String ℕ

abbrev pub or_zero : Option ℕ → ℕ
or_zero none = 0
or_zero (some n) = n

-- `d.get(k, 0)`
unfoldable pub count_of : Counts → String → ℕ
count_of d k = or_zero (get string_dec d k)

-- `d[k] = d.get(k, 0) + n`
unfoldable pub bump : Counts → String → ℕ → Counts
unfolding count_of
bump d k n = put string_dec d k (count_of d k + n)

-- `for k, v in e.items(): out[k] = max(out.get(k, 0), v)`
unfoldable pub merge_max : Counts → Counts → Counts
unfolding count_of
merge_max out [] = out
merge_max out ((k, v) ∷ e) = merge_max (put string_dec out k (max (count_of out k) v)) e

-- `sum(d.values())`
unfoldable pub total : Counts → ℕ
total [] = 0
total ((k, v) ∷ d) = v + total d

abbrev pub IsCounts : Counts → Type 0
IsCounts = IsDict string_dec

-- What the sorted dictionary of `state()` shows: the count of each key, and which keys are there.
abbrev pub view : Counts → String → Option ℕ
view = get string_dec
