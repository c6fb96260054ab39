-- ===== src/Pk/Replication.antt =====
-- pk/pk_components/gap05_state_replication_consistency_model/component.py: a replicated key that
-- converges on causality and keeps conflicts open. Counters are natural numbers; the texts of reasons
-- are not modelled.
pub mod Siblings
use df_fabric.Prelude.{
  ℕ, suc, ◌+◌, max, String, List, [], ◌∷◌, ◌++◌, Bool, true, false, not, ◌&&◌, ◌||◌, Option, none,
  some, leb, ltb, ◌==◌, all, any, filter, is_empty, length, map, member, is_yes, string_dec,
  if◌then◌else◌,
}
use df_fabric.Prelude.Dict.{Dict, get, put, keys}
use df_fabric.Prelude.Sort.{sort}
use df_fabric.Prelude.Text.{text_ltb}
use df_fabric.Prelude.Exec.{Exec, pure, raise_when, ◌>>=◌, ◌>>◌}
use df_fabric.Prelude.Result.{Result, ok, err}

pub data ReplicationError : Type 0 where
  unknown_replica unresolved : ReplicationError

abbrev pub Vector : Type 0
Vector = Dict String ℕ

pub record Write : Type 0 where
  pub key : String
  pub value : String
  pub site : String
  pub vector : List (String × ℕ)

fill : List (String × ℕ) → Vector → Vector
fill [] d = d
fill ((s, c) ∷ v) d = fill v (put string_dec d s c)

-- `dict(self.vector)`
unfoldable pub vector_map : Write → Vector
unfolding fill
vector_map w = fill w.vector []

-- `a.get(s, 0)`
abbrev pub count_at : Vector → String → ℕ
count_at a s = elim (get string_dec a s) [ none ↦ 0 | some n ↦ n ]

unfoldable pub dominates : Vector → Vector → Bool
dominates a b =
    all (λ s. leb (count_at b s) (count_at a s)) (keys a ++ keys b)
    && any (λ s. ltb (count_at b s) (count_at a s)) (keys a ++ keys b)

-- the entries at one key are equal
abbrev same_entry : Vector → Vector → String → Bool
same_entry a b s = elim (get string_dec a s) [
  | none ↦ elim (get string_dec b s) [ none ↦ true | some n ↦ false ]
  | some m ↦ elim (get string_dec b s) [ none ↦ false | some n ↦ m == n ]
]

-- `a == b` of two dictionaries
unfoldable pub same_vector : Vector → Vector → Bool
same_vector a b = all (same_entry a b) (keys a ++ keys b)

-- `concurrent`
unfoldable pub concurrent : Vector → Vector → Bool
unfolding same_vector dominates
concurrent a b = not (same_vector a b) && (not (dominates a b) && not (dominates b a))

pub data Reason : Type 0 where
  duplicate : Reason
  superseded_by resolved_by : String → Reason

pub record ReplicatedKey : Type 0 where
  pub key : String
  pub replicas : List String
  pub siblings : List Write
  pub discarded : List (Write × Reason)
  pub max_siblings : ℕ
  pub quarantine : List Write

pub data Outcome : Type 0 where
  converged conflict duplicate_write superseded quarantined : Outcome

-- the order of the sort key `(site, value, vector)`: tuples are compared from the left
vector_ltb : List (String × ℕ) → List (String × ℕ) → Bool
vector_ltb [] [] = false
vector_ltb [] (q ∷ w) = true
vector_ltb (p ∷ v) [] = false
vector_ltb ((s, m) ∷ v) ((t, n) ∷ w) =
    let rest = vector_ltb v w in
    text_ltb s t || (is_yes (string_dec s t) && (ltb m n || (m == n && rest)))

write_ltb : Write → Write → Bool
unfolding vector_ltb
write_ltb a b =
    text_ltb a.site b.site
    || (is_yes (string_dec a.site b.site)
        && (text_ltb a.value b.value
            || (is_yes (string_dec a.value b.value) && vector_ltb a.vector b.vector)))

unfoldable pub sort_writes : List Write → List Write
unfolding sort write_ltb
sort_writes xs = sort write_ltb xs

-- a sibling that is the very write
unfoldable pub repeats : Write → Write → Bool
unfolding vector_map same_vector
repeats w s = same_vector (vector_map s) (vector_map w) && is_yes (string_dec s.value w.value)

unfoldable pub newer : Write → Write → Bool
unfolding vector_map dominates
newer a b = dominates (vector_map a) (vector_map b)

-- the first sibling that causally succeeds the write
unfoldable pub successor : Write → List Write → Option Write
successor w [] = none
successor w (s ∷ ss) = let rest = successor w ss in if newer s w then some s else rest

-- a write that every vector entry and the site of name a replica
unfoldable pub is_known : ReplicatedKey → Write → Bool
unfolding vector_map
is_known k w =
    all (member string_dec k.replicas) (keys (vector_map w)) && member string_dec k.replicas w.site

-- the siblings that the write does not supersede, and those that it does
unfoldable pub survivors : Write → List Write → List Write
survivors w ss = filter (λ s. not (newer w s)) ss

unfoldable pub superseded_of : Write → List Write → List Write
superseded_of w ss = filter (newer w) ss

log : Reason → List Write → List (Write × Reason)
log r ss = map (λ s. (s, r)) ss

-- the siblings after the write, or the quarantine where there would be too many
unfoldable pub settle : Write → ReplicatedKey → Outcome × ReplicatedKey
unfolding survivors superseded_of sort_writes log
settle w k =
    let k' = record k {
      discarded = k.discarded ++ log (superseded_by w.site) (superseded_of w k.siblings);
    } in
    if ltb k.max_siblings (suc (length (survivors w k.siblings)))
    then (quarantined, record k' { quarantine = k.quarantine ++ (w ∷ []) })
    else (
      if is_empty (survivors w k.siblings) then converged else conflict,
      record k' { siblings = sort_writes (survivors w k.siblings ++ (w ∷ [])) },
    )

unfoldable pub place : Write → ReplicatedKey → Outcome × ReplicatedKey
unfolding settle
place w k =
    if any (repeats w) k.siblings
    then (duplicate_write, record k { discarded = k.discarded ++ ((w, duplicate) ∷ []) })
    else elim (successor w k.siblings) [
      | some s ↦
          (superseded, record k { discarded = k.discarded ++ ((w, superseded_by s.site) ∷ []) })
      | none ↦ settle w k
    ]

unfoldable pub apply : Write → ReplicatedKey → Result ReplicationError (Outcome × ReplicatedKey)
unfolding place
apply w k = if is_known k w then ok (place w k) else err unknown_replica

-- `value()`, where there is none yet `None`
unfoldable pub value : ReplicatedKey → Result ReplicationError (Option String)
value k = go k.siblings
  where
    go : List Write → Result ReplicationError (Option String)
    go [] = ok none
    go (w ∷ []) = ok (some w.value)
    go (w ∷ v ∷ ws) = err unresolved

merge_into : Vector → Vector → Vector
merge_into [] m = m
merge_into ((s, c) ∷ v) m = merge_into v (put string_dec m s (max (count_at m s) c))

unfoldable pub merge_all : List Write → Vector → Vector
unfolding merge_into vector_map
merge_all [] m = m
merge_all (w ∷ ws) m = merge_all ws (merge_into (vector_map w) m)

-- `sorted(merged.items())`; no key stands twice
unfoldable pub sort_entries : Vector → List (String × ℕ)
unfolding sort
sort_entries d = sort (λ p q. text_ltb p.0 q.0) d

-- the write that `resolve` puts in the place of all siblings
unfoldable pub winner_of : String → String → ReplicatedKey → Write
unfolding merge_all sort_entries
winner_of v site k =
    let merged = merge_all k.siblings [] in
    record {
      key = k.key;
      value = v;
      site = site;
      vector = sort_entries (put string_dec merged site (suc (count_at merged site)));
    }

unfoldable pub resolve : String → String → ReplicatedKey → Write × ReplicatedKey
unfolding winner_of log
resolve v site k = (
  winner_of v site k,
  record k {
    discarded = k.discarded ++ log (resolved_by site) k.siblings;
    siblings = winner_of v site k ∷ [];
  },
)
