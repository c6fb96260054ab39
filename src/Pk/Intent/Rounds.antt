-- ===== src/Pk/Intent/Rounds.antt =====
-- What one round of the order does to the keys that still wait.
use df_fabric.Prelude.{
  ◌==◌, filter-none, all_both, map-length, ◌+◌, List, [], ◌∷◌, Bool, true, false, not, ◌&&◌, ◌||◌,
  all, filter, is_empty, length, map, member, is_yes, ◌≡◌, refl, arith, sym, ap, ◌∙◌, all_mono,
  filter-cong, all-filter, all_of_filter, all-map,
}
use df_fabric.Prelude.Dict.{keys}
use df_fabric.Prelude.Sort.{all-sort, member-sort, length-sort}
use df_fabric.Pk.Intent.{key_ltb, Key, Edges, key_dec, sort_keys, ready_of, advance}

sort-all : (p : Key → Bool) (xs : List Key) → all p (sort_keys xs) ≡ all p xs
unfolding sort_keys
sort-all p xs = all-sort key_ltb p xs

sort-member : (xs : List Key) (k : Key) → member key_dec (sort_keys xs) k ≡ member key_dec xs k
unfolding sort_keys
sort-member xs k = member-sort key_ltb key_dec xs k

sort-length : (xs : List Key) → length (sort_keys xs) ≡ length xs
unfolding sort_keys
sort-length xs = length-sort key_ltb xs

-- No key twice, and every dependency is a key.
abbrev pub distinct : Edges → Bool
distinct [] = true
distinct (e ∷ p) = all (λ f. not (is_yes (key_dec f.0 e.0))) p && distinct p

abbrev pub closed_in : Edges → Edges → Bool
closed_in q p = all (λ e. all (member key_dec (keys q)) e.1) p

-- The keys that wait for nothing, in any order.
abbrev idle : Edges → List Key
idle p = map (λ e. e.0) (filter (λ e. is_empty e.1) p)

idle-absent :
    (k : Key) (p : Edges)
    → all (λ f. not (is_yes (key_dec f.0 k))) p ≡ true
    → member key_dec (idle p) k ≡ false
unfolding member filter all
idle-absent k [] h = refl
idle-absent k (e ∷ p) h = ground (arith, idle-absent k p)

-- The entry of a key waits for nothing exactly where the key is idle.
abbrev agrees : Edges → Key × List Key → Bool
agrees p e =
    (member key_dec (idle p) e.0 && is_empty e.1)
    || (not (member key_dec (idle p) e.0) && not (is_empty e.1))

agrees-cons :
    (f e : Key × List Key) (p : Edges)
    → (not (is_yes (key_dec e.0 f.0)) && agrees p e) ≡ true
    → agrees (f ∷ p) e ≡ true
unfolding member filter
agrees-cons f e p h = ground arith

idle-entries : (p : Edges) → distinct p ≡ true → all (agrees p) p ≡ true
unfolding member filter all
idle-entries [] h = refl
idle-entries (f ∷ p) h =
    let others : all (λ e. not (is_yes (key_dec e.0 f.0)) && agrees p e) p ≡ true =
      all_both (λ e. not (is_yes (key_dec e.0 f.0))) (agrees p) p (ground arith)
        (idle-entries p (ground arith)) in
    let rest : all (agrees (f ∷ p)) p ≡ true =
      all_mono (λ e. not (is_yes (key_dec e.0 f.0)) && agrees p e) (agrees (f ∷ p)) p
        (λ e k. agrees-cons f e p k) others in
    let first : agrees (f ∷ p) f ≡ true = ground (arith, idle-absent f.0 p) in ground arith

ready-member : (p : Edges) (k : Key) → member key_dec (ready_of p) k ≡ member key_dec (idle p) k
unfolding ready_of
ready-member p k = sort-member (idle p) k

-- The entries that a round keeps are those that wait for something.
pub kept-filter :
    (p : Edges)
    → distinct p ≡ true
    → filter (λ e. not (member key_dec (ready_of p) e.0)) p ≡ filter (λ e. not (is_empty e.1)) p
kept-filter p h =
    filter-cong (λ e. not (member key_dec (ready_of p) e.0)) (λ e. not (is_empty e.1)) (agrees p) p
      (λ e k. ground (arith, ready-member p e.0)) (idle-entries p h)

-- A waiting entry's key is not ready.
pub waits-unready :
    (p : Edges)
    → distinct p ≡ true
    → all (λ e. is_empty e.1 || not (member key_dec (ready_of p) e.0)) p ≡ true
waits-unready p h =
    all_mono (agrees p) (λ e. is_empty e.1 || not (member key_dec (ready_of p) e.0)) p
      (λ e k. ground (arith, ready-member p e.0)) (idle-entries p h)

parts-length :
    (p : Edges)
    → length (filter (λ e. is_empty e.1) p) + length (filter (λ e. not (is_empty e.1)) p) ≡ length p
unfolding filter
parts-length [] = refl
parts-length (e ∷ p) = ground (arith, parts-length p)

abbrev pub drop : List Key → Key × List Key → Key × List Key
drop ready e = (e.0, filter (λ d. not (member key_dec ready d)) e.1)

abbrev pub kept : List Key → Edges → Edges
kept ready p = filter (λ e. not (member key_dec ready e.0)) p

advance-length : (ready : List Key) (p : Edges) → length (advance ready p) ≡ length (kept ready p)
unfolding advance
advance-length ready p = map-length (drop ready) (kept ready p)

ready-length : (p : Edges) → length (ready_of p) ≡ length (filter (λ e. is_empty e.1) p)
unfolding ready_of
ready-length p =
    sort-length (idle p) ∙ map-length (λ (e : Key × List Key). e.0) (filter (λ e. is_empty e.1) p)

-- A round passes every key on: those that are ready, and those that still wait.
pub round-length :
    (p : Edges)
    → distinct p ≡ true
    → length (ready_of p) + length (advance (ready_of p) p) ≡ length p
round-length p h = ground (
  arith,
  ready-length p,
  advance-length (ready_of p) p,
  ap length (kept-filter p h),
  parts-length p,
)

pub advance-all :
    (q : Key × List Key → Bool) (ready : List Key) (p : Edges)
    → all q (advance ready p) ≡ all (λ e. q (drop ready e)) (kept ready p)
unfolding advance
advance-all q ready p = all-map q (drop ready) (kept ready p)

parts-all :
    (q : Key × List Key → Bool) (p : Edges)
    → (all q (filter (λ e. is_empty e.1) p) && all q (filter (λ e. not (is_empty e.1)) p)) ≡ all q p
unfolding all filter
parts-all q [] = refl
parts-all q (e ∷ p) = ground (arith, parts-all q p)

ready-all :
    (q : Key → Bool) (p : Edges)
    → all q (ready_of p) ≡ all (λ e. q e.0) (filter (λ e. is_empty e.1) p)
unfolding ready_of
ready-all q p =
    sort-all q (idle p) ∙ all-map q (λ (e : Key × List Key). e.0) (filter (λ e. is_empty e.1) p)

pub round-keys :
    (q : Key → Bool) (p : Edges)
    → distinct p ≡ true
    → (all q (ready_of p) && all q (keys (advance (ready_of p) p))) ≡ all q (keys p)
round-keys q p h = ground (
  arith,
  ready-all q p,
  all-map q (λ (e : Key × List Key). e.0) (advance (ready_of p) p),
  advance-all (λ e. q e.0) (ready_of p) p,
  ap (all (λ e. q e.0)) (kept-filter p h),
  parts-all (λ e. q e.0) p,
  all-map q (λ (e : Key × List Key). e.0) p,
)

advance-keys :
    (q : Key → Bool) (ready : List Key) (p : Edges)
    → all (λ e. q e.0) p ≡ true
    → all (λ e. q e.0) (advance ready p) ≡ true
advance-keys q ready p h =
    advance-all (λ e. q e.0) ready p
    ∙ all-filter (λ e. not (member key_dec ready e.0)) (λ e. q e.0) p h

pub advance-distinct :
    (ready : List Key) (p : Edges) → distinct p ≡ true → distinct (advance ready p) ≡ true
unfolding advance filter
advance-distinct ready [] h = refl
advance-distinct ready (e ∷ p) h =
    ground
      (arith, advance-keys (λ k. not (is_yes (key_dec k e.0))) ready p, advance-distinct ready p)

pub advance-member :
    (ready : List Key) (p : Edges) (k : Key)
    → member key_dec (keys (advance ready p)) k
      ≡ (member key_dec (keys p) k && not (member key_dec ready k))
unfolding advance filter member
advance-member ready [] k = refl
advance-member ready (e ∷ p) k = ground (arith, advance-member ready p k)

pub advance-closed :
    (ready : List Key) (p : Edges)
    → closed_in p p ≡ true
    → closed_in (advance ready p) (advance ready p) ≡ true
advance-closed ready p h =
    let later = member key_dec (keys (advance ready p)) in
    advance-all (λ e. all later e.1) ready p
    ∙ all-filter (λ e. not (member key_dec ready e.0)) (λ e. all later (drop ready e).1) p
        (all_mono (λ e. all (member key_dec (keys p)) e.1) (λ e. all later (drop ready e).1) p
          (λ e k.
            all_of_filter (λ d. not (member key_dec ready d)) later e.1
            ∙ all_mono (member key_dec (keys p))
                (λ d. not (not (member key_dec ready d)) || later d) e.1
                (λ d m. ground (arith, advance-member ready p d)) k)
          h)

pub length-is_empty : {A : Type 0} (xs : List A) → is_empty xs ≡ (length xs == 0)
length-is_empty [] = refl
length-is_empty (x ∷ xs) = ground arith

-- Where no key is ready, every entry waits for something.
pub unready-waits :
    (p : Edges) → is_empty (ready_of p) ≡ true → all (λ e. not (is_empty e.1)) p ≡ true
unready-waits p h =
    sym (filter-none (λ (e : Key × List Key). is_empty e.1) p)
    ∙ ground (
      arith,
      ready-length p,
      length-is_empty (ready_of p),
      length-is_empty (filter (λ e. is_empty e.1) p),
    )
