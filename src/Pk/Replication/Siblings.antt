-- ===== src/Pk/Replication/Siblings.antt =====
-- The siblings of a key, and what becomes of a write.
use df_fabric.Prelude.{
  all_both, if◌then◌else◌, suc, ◌+◌, String, List, [], ◌∷◌, ◌++◌, Bool, true, false, not, ◌&&◌,
  none, leb, ltb, all, any, filter, length, map, ◌≡◌, refl, arith, all-append, all_mono, all-map,
  all-filter, Bool-cases, Option-cases, inl, inr, sym, ap, fun_ext, length-append, all-filter_self,
  ◌∙◌,
}
use df_fabric.Prelude.Dict.{keys}
use df_fabric.Prelude.Result.{ok}
use df_fabric.Prelude.Sort.{all-sort, length-sort}
use df_fabric.Pk.Replication.{
  write_ltb, duplicate, superseded_by, quarantined, ReplicatedKey, Write, Reason, Outcome, Vector,
  apply, resolve, survivors, superseded_of, successor, newer, dominates, vector_map, sort_writes,
  is_known, place, settle, winner_of, repeats, log, count_at,
}

sort-all : (p : Write → Bool) (xs : List Write) → all p (sort_writes xs) ≡ all p xs
unfolding sort_writes
sort-all p xs = all-sort write_ltb p xs

sort-length : (xs : List Write) → length (sort_writes xs) ≡ length xs
unfolding sort_writes
sort-length xs = length-sort write_ltb xs

none_less :
    (a : Vector) (ks : List String) → any (λ s. ltb (count_at a s) (count_at a s)) ks ≡ false
unfolding any
none_less a [] = refl
none_less a (k ∷ ks) = ground (arith, none_less a ks)

-- No write is newer than itself.
newer_irrefl : (w : Write) → newer w w ≡ false
unfolding newer dominates
newer_irrefl w = let d = vector_map w in ground (arith, none_less d (keys d ++ keys d))

successor-none :
    (w : Write) (ss : List Write) → successor w ss ≡ none → all (λ s. not (newer s w)) ss ≡ true
unfolding successor all
successor-none w [] h = refl
successor-none w (s ∷ ss) h = ground (arith, successor-none w ss)

-- No sibling is newer than another.
abbrev pub is_antichain : List Write → Bool
is_antichain ss = all (λ a. all (λ b. not (newer a b)) ss) ss

-- The siblings are an antichain within the bound, which lets one stand.
abbrev pub is_sound : ReplicatedKey → Bool
is_sound k =
    is_antichain k.siblings && (leb (length k.siblings) k.max_siblings && leb 1 k.max_siblings)

-- No element of the first list is newer than one of the second.
abbrev apart : List Write → List Write → Bool
apart xs ys = all (λ a. all (λ b. not (newer a b)) ys) xs

apart-filter :
    (p : Write → Bool) (xs ys : List Write)
    → apart xs ys ≡ true
    → apart (filter p xs) (filter p ys) ≡ true
apart-filter p xs ys h =
    all-filter p (λ a. all (λ b. not (newer a b)) (filter p ys)) xs
      (all_mono (λ a. all (λ b. not (newer a b)) ys) (λ a. all (λ b. not (newer a b)) (filter p ys))
        xs (λ a k. all-filter p (λ b. not (newer a b)) ys k) h)

-- A write that no sibling is newer than joins those that it does not supersede.
added-antichain :
    (w : Write) (ss : List Write)
    → is_antichain ss ≡ true
    → successor w ss ≡ none
    → is_antichain (survivors w ss ++ (w ∷ [])) ≡ true
unfolding survivors all
added-antichain w ss a n =
    let kept = filter (λ s. not (newer w s)) ss in
    let ahead : all (λ s. not (newer s w)) kept ≡ true =
      all-filter (λ s. not (newer w s)) (λ s. not (newer s w)) ss (successor-none w ss n) in
    let together : all (λ a. all (λ b. not (newer a b)) kept && not (newer a w)) kept ≡ true =
      all_both (λ a. all (λ b. not (newer a b)) kept) (λ a. not (newer a w)) kept
        (apart-filter (λ s. not (newer w s)) ss ss a) ahead in
    ground (
      arith,
      all-append (λ a. all (λ b. not (newer a b)) (kept ++ (w ∷ []))) kept (w ∷ []),
      all_mono (λ a. all (λ b. not (newer a b)) kept && not (newer a w))
          (λ a. all (λ b. not (newer a b)) (kept ++ (w ∷ []))) kept
          (λ a h. ground (arith, all-append (λ b. not (newer a b)) kept (w ∷ []))) together,
      all-append (λ b. not (newer w b)) kept (w ∷ []),
      all-filter_self (λ s. not (newer w s)) ss,
      newer_irrefl w,
    )

sort-antichain : (ss : List Write) → is_antichain (sort_writes ss) ≡ is_antichain ss
sort-antichain ss =
    sort-all (λ a. all (λ b. not (newer a b)) (sort_writes ss)) ss
    ∙ ap (λ p. all p ss) (fun_ext λ a. sort-all (λ b. not (newer a b)) ss)

place_sound : (w : Write) (k : ReplicatedKey) → is_sound k ≡ true → is_sound (place w k).1 ≡ true
unfolding place settle
place_sound w k u = elim (Bool-cases (any (repeats w) k.siblings)) [
  | inl r ↦ ground arith
  | inr r ↦ elim (Option-cases (successor w k.siblings)) [
    | inr (s, n) ↦ ground arith
    | inl n ↦
        let ss = survivors w k.siblings ++ (w ∷ []) in
        ground (
          arith,
          added-antichain w k.siblings,
          sort-antichain ss,
          sort-length ss,
          length-append (survivors w k.siblings) (w ∷ []),
        )
  ]
]

-- The calls on a key; one that raises leaves it as it was.
pub data Call : Type 0 where
  apply_call : Write → Call
  resolve_call : String → String → Call

abbrev pub step : Call → ReplicatedKey → ReplicatedKey
step (apply_call w) k = if is_known k w then (place w k).1 else k
step (resolve_call v site) k = (resolve v site k).1

abbrev pub runs : List Call → ReplicatedKey → ReplicatedKey
runs [] k = k
runs (c ∷ cs) k = runs cs (step c k)

step_sound : (c : Call) (k : ReplicatedKey) → is_sound k ≡ true → is_sound (step c k) ≡ true
unfolding resolve all
step_sound (apply_call w) k u = ground (arith, place_sound w k u)
step_sound (resolve_call v site) k u = ground (arith, newer_irrefl (winner_of v site k))

-- Whatever is called on a key whose siblings are within a bound that lets one stand, and none of them
-- newer than another, this stays so.
pub runs_sound :
    (cs : List Call) (k : ReplicatedKey) → is_sound k ≡ true → is_sound (runs cs k) ≡ true
runs_sound [] k u = u
runs_sound (c ∷ cs) k u = runs_sound cs (step c k) (step_sound c k u)

-- All writes that a key has seen and still knows.
abbrev pub accounted : ReplicatedKey → List Write
accounted k = k.siblings ++ (map (λ e. e.0) k.discarded ++ k.quarantine)

-- The same writes, whatever their order and number.
abbrev pub Same : List Write → List Write → Type 0
Same xs ys = (p : Write → Bool) → all p xs ≡ all p ys

all-parts :
    (p q : Write → Bool) (xs : List Write)
    → (all p (filter (λ x. not (q x)) xs) && all p (filter q xs)) ≡ all p xs
unfolding all filter
all-parts p q [] = refl
all-parts p q (x ∷ xs) = ground (arith, all-parts p q xs)

log-all : (p : Write → Bool) (r : Reason) (ss : List Write) → all (λ e. p e.0) (log r ss) ≡ all p ss
unfolding all log
log-all p r [] = refl
log-all p r (s ∷ ss) = ground (arith, log-all p r ss)

-- The test of all writes, part by part.
abbrev all_parts : (Write → Bool) → ReplicatedKey → Bool
all_parts p k = all p k.siblings && (all (λ e. p e.0) k.discarded && all p k.quarantine)

all-accounted : (p : Write → Bool) (k : ReplicatedKey) → all p (accounted k) ≡ all_parts p k
all-accounted p k = ground (
  arith,
  all-append p k.siblings (map (λ e. e.0) k.discarded ++ k.quarantine),
  all-append p (map (λ e. e.0) k.discarded) k.quarantine,
  all-map p (λ (e : Write × Reason). e.0) k.discarded,
)

discard-parts :
    (p : Write → Bool) (w : Write) (r : Reason) (k : ReplicatedKey)
    → all_parts p (record k { discarded = k.discarded ++ ((w, r) ∷ []) }) ≡ (p w && all_parts p k)
unfolding all
discard-parts p w r k =
    ground (arith, all-append (λ (e : Write × Reason). p e.0) k.discarded ((w, r) ∷ []))

settle-parts :
    (p : Write → Bool) (w : Write) (k : ReplicatedKey)
    → all_parts p (settle w k).1 ≡ (p w && all_parts p k)
unfolding settle survivors superseded_of all
settle-parts p w k =
    let kept = filter (λ s. not (newer w s)) k.siblings in
    let dropped = log (superseded_by w.site) (filter (newer w) k.siblings) in
    ground (
      arith,
      all-append (λ (e : Write × Reason). p e.0) k.discarded dropped,
      log-all p (superseded_by w.site) (filter (newer w) k.siblings),
      all-append p k.quarantine (w ∷ []),
      sort-all p (kept ++ (w ∷ [])),
      all-append p kept (w ∷ []),
      all-parts p (newer w) k.siblings,
    )

place-parts :
    (p : Write → Bool) (w : Write) (k : ReplicatedKey)
    → all_parts p (place w k).1 ≡ (p w && all_parts p k)
unfolding place
place-parts p w k = elim (Bool-cases (any (repeats w) k.siblings)) [
  | inl r ↦ rw r (discard-parts p w duplicate k)
  | inr r ↦ rw r (elim (Option-cases (successor w k.siblings)) [
    | inr (s, n) ↦ rw n (discard-parts p w (superseded_by s.site) k)
    | inl n ↦ rw n (settle-parts p w k)
  ])
]

filter-lengths :
    (q : Write → Bool) (xs : List Write)
    → length (filter (λ x. not (q x)) xs) + length (filter q xs) ≡ length xs
unfolding filter
filter-lengths q [] = refl
filter-lengths q (x ∷ xs) = ground (arith, filter-lengths q xs)

length-zero : (xs : List Write) → length xs ≡ 0 → xs ≡ []
length-zero [] h = refl
length-zero (x ∷ xs) h = absurd (ground arith)

append_nil : (xs : List (Write × Reason)) → xs ++ [] ≡ xs
append_nil [] = refl
append_nil (x ∷ xs) = ap (λ ys. x ∷ ys) (append_nil xs)

-- A write that finds no room supersedes no sibling.
full-keeps :
    (w : Write) (k : ReplicatedKey)
    → is_sound k ≡ true
    → ltb k.max_siblings (suc (length (survivors w k.siblings))) ≡ true
    → superseded_of w k.siblings ≡ []
unfolding survivors superseded_of
full-keeps w k u h =
    length-zero (filter (newer w) k.siblings) (ground (arith, filter-lengths (newer w) k.siblings))

place-quarantined :
    (w : Write) (k : ReplicatedKey)
    → is_sound k ≡ true
    → (place w k).0 ≡ quarantined
    → (place w k).1 ≡ record k { quarantine = k.quarantine ++ (w ∷ []) }
unfolding place settle log
place-quarantined w k u q = ground (arith, full-keeps w k u, append_nil k.discarded)

-- Nothing is lost by a write: an `apply` that returns leaves, among the siblings, the discarded and
-- the quarantined writes, exactly the write and those that stood there before; and where the siblings
-- were sound and the write is quarantined, nothing but the quarantine has changed.
pub apply-accounts :
    (w : Write) (k : ReplicatedKey) (o : Outcome) (k' : ReplicatedKey)
    → apply w k ≡ ok (o, k')
    → Same (accounted k') (w ∷ accounted k)
      × (is_sound k ≡ true
          → o ≡ quarantined
          → k' ≡ record k { quarantine = k.quarantine ++ (w ∷ []) })
unfolding apply all
apply-accounts w k o k' e =
    let same : place w k ≡ (o, k') = ground arith in
    (
      λ p.
          ground
            (arith, all-accounted p k, all-accounted p k', place-parts p w k, ap (λ r. r.1) same),
      λ u q. sym (ap (λ r. r.1) same) ∙ place-quarantined w k u (ap (λ r. r.0) same ∙ q),
    )
