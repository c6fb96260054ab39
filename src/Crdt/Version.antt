-- ===== src/Crdt/Version.antt =====
-- `VersionVector` of crdt.py, and the comparison of versions that `LWWRegister` makes too.
pub mod Order
pub mod Equal
use df_fabric.Prelude.{
  ℕ, String, List, [], ◌∷◌, Bool, true, false, ◌&&◌, ◌||◌, not, none, some, all, any, ltb, leb,
  ◌==◌, union, length, string_dec, if◌then◌else◌, Option,
}
use df_fabric.Prelude.Dict.{get, keys}
use df_fabric.Crdt.Counts.{Counts, count_of, bump, merge_max, IsCounts}

pub record VersionVector : Type 0 where
  pub replica_id : String
  pub versions : Counts

-- `set(self.versions) | set(other.versions)`
abbrev pub all_keys : Counts → Counts → List String
all_keys a b = union string_dec (keys a) (keys b)

-- `all(a.get(k, 0) >= b.get(k, 0) for k in keys)`
unfoldable pub ge_on : Counts → Counts → Bool
ge_on a b = all (λ k. leb (count_of b k) (count_of a k)) (all_keys a b)

-- `any(a.get(k, 0) > b.get(k, 0) for k in keys)`
unfoldable pub gt_on : Counts → Counts → Bool
gt_on a b = any (λ k. ltb (count_of b k) (count_of a k)) (all_keys a b)

unfoldable pub tick : VersionVector → VersionVector
tick v = record v { versions = bump v.versions v.replica_id 1 }

unfoldable pub merge : VersionVector → VersionVector → VersionVector
merge a b = record { replica_id = a.replica_id; versions = merge_max a.versions b.versions }

unfoldable pub dominates : VersionVector → VersionVector → Bool
dominates a b = ge_on a.versions b.versions && gt_on a.versions b.versions

-- an entry stands in `b` with the same count
unfoldable pub has_entry : Counts → String × ℕ → Bool
has_entry b e = at e.1 (get string_dec b e.0)
  where
    at : ℕ → Option ℕ → Bool
    at n none = false
    at n (some m) = n == m

-- `a == b` of two dictionaries: as many entries, and every entry of `a` in `b`
unfoldable pub same_versions : Counts → Counts → Bool
same_versions a b = length a == length b && all (has_entry b) a

unfoldable pub concurrent : VersionVector → VersionVector → Bool
concurrent a b = not (dominates a b || dominates b a || same_versions a.versions b.versions)

pub data Causality : Type 0 where
  equal is_dominating is_dominated is_concurrent : Causality

unfoldable pub compare : VersionVector → VersionVector → Causality
compare a b =
    if same_versions a.versions b.versions
    then equal
    else if dominates a b
    then is_dominating
    else if dominates b a
    then is_dominated
    else is_concurrent
