-- ===== src/Pk/Intent/Order.antt =====
-- What the rounds of the order return.
use df_fabric.Prelude.{
  if◌then◌else◌, is_empty-map, ℕ, zero, suc, ◌≤◌, List, [], ◌∷◌, ◌++◌, Bool, true, false, not, ◌&&◌,
  ◌||◌, any, all, filter, is_empty, length, member, is_yes, ◌≡◌, refl, arith, sym, ◌∙◌, all_mono,
  all-append, all_both, length-append, all_of_filter, all-map, subst, Bool-cases, inl, inr,
}
use df_fabric.Prelude.Dict.{keys}
use df_fabric.Prelude.Result.{◌>>=◌, ok, err, Result-cases}
use df_fabric.Pk.Intent.{
  Key, Edges, Raises, key_dec, ready_of, advance, rounds, IntentError, cycle_error,
}
use df_fabric.Pk.Intent.Rounds.{
  distinct, closed_in, round-length, round-keys, advance-distinct, advance-closed, waits-unready,
  advance-all, unready-waits, drop, length-is_empty,
}

-- `d` stands before every place of `k`.
abbrev pub earlier : Key → Key → List Key → Bool
earlier d k [] = true
earlier d k (x ∷ xs) = not (is_yes (key_dec x k)) && (is_yes (key_dec x d) || earlier d k xs)

-- Every key stands behind all that it waits for.
abbrev pub placed : List Key → Edges → Bool
placed out p = all (λ e. all (λ d. earlier d e.0 out) e.1) p

earlier-append :
    (d k : Key) (xs ys : List Key)
    → member key_dec xs k ≡ false
    → (member key_dec xs d || earlier d k ys) ≡ true
    → earlier d k (xs ++ ys) ≡ true
unfolding member
earlier-append d k [] ys m h = h
earlier-append d k (x ∷ xs) ys m h = ground (arith, earlier-append d k xs ys)

placed-entry :
    (ready out : List Key) (e : Key × List Key)
    → (is_empty e.1 || not (member key_dec ready e.0)) ≡ true
    → (not (not (member key_dec ready e.0)) || all (λ d. earlier d e.0 out) (drop ready e).1) ≡ true
    → all (λ d. earlier d e.0 (ready ++ out)) e.1 ≡ true
unfolding all
placed-entry ready out (k, []) u w = refl
placed-entry ready out (k, d ∷ ds) u w =
    all_mono (λ d. not (not (member key_dec ready d)) || earlier d k out)
      (λ d. earlier d k (ready ++ out)) (d ∷ ds)
      (λ d h. earlier-append d k ready out (ground arith) (ground arith))
      (sym (all_of_filter (λ d. not (member key_dec ready d)) (λ d. earlier d k out) (d ∷ ds))
        ∙ ground arith)

-- What a round puts in front and what follows stand in order, if what follows does.
placed-round :
    (p : Edges) (out : List Key)
    → distinct p ≡ true
    → placed out (advance (ready_of p) p) ≡ true
    → placed (ready_of p ++ out) p ≡ true
placed-round p out h k =
    let ready = ready_of p in
    let unready = λ (e : Key × List Key). is_empty e.1 || not (member key_dec ready e.0) in
    let waits = λ (e : Key × List Key). all (λ d. earlier d e.0 out) (drop ready e).1 in
    all_mono (λ e. unready e && (not (not (member key_dec ready e.0)) || waits e))
      (λ e. all (λ d. earlier d e.0 (ready ++ out)) e.1) p
      (λ e b. placed-entry ready out e (ground arith) (ground arith))
      (all_both unready (λ e. not (not (member key_dec ready e.0)) || waits e) p (waits-unready p h)
        (sym (all_of_filter (λ e. not (member key_dec ready e.0)) waits p)
          ∙ sym (advance-all (λ e. all (λ d. earlier d e.0 out) e.1) ready p)
          ∙ k))

-- What one round returns, over what the others do.
abbrev one_round : List Key → Raises (List Key) → Raises (List Key)
one_round ready rest =
    if is_empty ready then err cycle_error else (do out ← rest; ok (ready ++ out))

rounds-step :
    (n : ℕ) (p : Edges)
    → is_empty p ≡ false
    → rounds (suc n) p ≡ one_round (ready_of p) (rounds n (advance (ready_of p) p))
unfolding rounds
rounds-step n [] h = cc
rounds-step n (e ∷ p) h = refl

-- What the rounds return.
abbrev pub Ordered : Edges → List Key → Type 0
Ordered p out =
    (length out ≡ length p)
    × ((q : Key → Bool) → all q out ≡ all q (keys p))
    × (placed out p ≡ true)

pub rounds-Ordered :
    (n : ℕ) (p : Edges) (out : List Key) → distinct p ≡ true → rounds n p ≡ ok out → Ordered p out
unfolding rounds all
rounds-Ordered n [] out h e =
    let nothing : [] ≡ out = ground arith in subst (Ordered []) nothing (refl, λ q. refl, refl)
rounds-Ordered zero (x ∷ p) out h e = absurd (ground arith)
rounds-Ordered (suc n) (x ∷ p) out h e =
    let ready = ready_of (x ∷ p) in
    elim (Result-cases (rounds n (advance ready (x ∷ p)))) [
      | inr (y, q) ↦ absurd (ground (arith, rounds-step n (x ∷ p)))
      | inl (rest, q) ↦
          let (count, same, order) =
            rounds-Ordered n (advance ready (x ∷ p)) rest (advance-distinct ready (x ∷ p) h) q in
          let result : out ≡ ready ++ rest = ground (arith, rounds-step n (x ∷ p)) in
          subst (Ordered (x ∷ p)) (sym result) (
            ground (arith, length-append ready rest, round-length (x ∷ p)),
            λ t. ground (arith, all-append t ready rest, same t, round-keys t (x ∷ p)),
            placed-round (x ∷ p) rest h order,
          )
    ]

-- Some of the keys wait for one another: each has an entry that waits for one of them.
abbrev pub Stuck : Edges → List Key → Type 0
Stuck p ks =
    (is_empty ks ≡ false)
    × (all (λ k. any (λ e. is_yes (key_dec e.0 k) && any (member key_dec ks) e.1) p) ks ≡ true)

pub any-filter : (p q : Key → Bool) (xs : List Key) → any q (filter p xs) ≡ true → any q xs ≡ true
unfolding any filter
any-filter p q [] h = h
any-filter p q (x ∷ xs) h = ground (arith, any-filter p q xs)

any-advance :
    (k : Key) (ks ready : List Key) (p : Edges)
    → any (λ e. is_yes (key_dec e.0 k) && any (member key_dec ks) e.1) (advance ready p) ≡ true
    → any (λ e. is_yes (key_dec e.0 k) && any (member key_dec ks) e.1) p ≡ true
unfolding any filter advance
any-advance k ks ready [] h = h
any-advance k ks ready (e ∷ p) h = ground (
  arith,
  any-advance k ks ready p,
  any-filter (λ d. not (member key_dec ready d)) (member key_dec ks) e.1,
)

Stuck-advance : (ks ready : List Key) (p : Edges) → Stuck (advance ready p) ks → Stuck p ks
Stuck-advance ks ready p (some_, h) = (
  some_,
  all_mono (λ k. any (λ e. is_yes (key_dec e.0 k) && any (member key_dec ks) e.1) (advance ready p))
      (λ k. any (λ e. is_yes (key_dec e.0 k) && any (member key_dec ks) e.1) p) ks
      (λ k m. any-advance k ks ready p m) h,
)

-- What every entry satisfies, some entry with the key of each does.
entry_of_each :
    (f : Key × List Key → Bool) (p : Edges)
    → all f p ≡ true
    → all (λ e. any (λ g. is_yes (key_dec g.0 e.0) && f g) p) p ≡ true
unfolding any all
entry_of_each f [] h = refl
entry_of_each f (x ∷ p) h = ground (
  arith,
  all_mono (λ e. any (λ g. is_yes (key_dec g.0 e.0) && f g) p)
      (λ e. is_yes (key_dec x.0 e.0) && f x || any (λ g. is_yes (key_dec g.0 e.0) && f g) p) p
      (λ e m. ground arith) (entry_of_each f p (ground arith)),
)

any_of_all :
    (q : Key → Bool) (xs : List Key) → not (is_empty xs) ≡ true → all q xs ≡ true → any q xs ≡ true
unfolding any all
any_of_all q [] n h = cc
any_of_all q (x ∷ xs) n h = ground arith

all-Stuck :
    (p : Edges)
    → is_empty p ≡ false
    → closed_in p p ≡ true
    → is_empty (ready_of p) ≡ true
    → Stuck p (keys p)
all-Stuck p n c r =
    let f = λ (e : Key × List Key). any (member key_dec (keys p)) e.1 in
    let each : all f p ≡ true =
      all_mono (λ e. not (is_empty e.1) && all (member key_dec (keys p)) e.1) f p
        (λ e m. any_of_all (member key_dec (keys p)) e.1 (ground arith) (ground arith))
        (all_both (λ e. not (is_empty e.1)) (λ e. all (member key_dec (keys p)) e.1) p
          (unready-waits p r) c) in
    (
      is_empty-map (λ (e : Key × List Key). e.0) p ∙ n,
      all-map (λ k. any (λ g. is_yes (key_dec g.0 k) && f g) p) (λ (e : Key × List Key). e.0) p
          ∙ entry_of_each f p each,
    )

-- How the rounds fail.
abbrev Cyclic : Edges → IntentError → Type 0
Cyclic p x = (x ≡ cycle_error) × (ks : List Key) × Stuck p ks

pub rounds-Cyclic :
    (n : ℕ) (p : Edges) (x : IntentError)
    → distinct p ≡ true
    → closed_in p p ≡ true
    → length p ≤ n
    → rounds n p ≡ err x
    → Cyclic p x
unfolding rounds
rounds-Cyclic n [] x h c l e = absurd (ground arith)
rounds-Cyclic zero (y ∷ p) x h c l e = absurd (ground arith)
rounds-Cyclic (suc n) (y ∷ p) x h c l e =
    let ready = ready_of (y ∷ p) in
    let failed : one_round ready (rounds n (advance ready (y ∷ p))) ≡ err x =
      sym (rounds-step n (y ∷ p) refl) ∙ e in
    elim (Bool-cases (is_empty ready)) [
      | inl none_ ↦
          let stuck = all-Stuck (y ∷ p) refl c none_ in (ground arith, keys (y ∷ p), stuck)
      | inr some_ ↦
          let fewer : length (advance ready (y ∷ p)) ≤ n =
            ground (arith, round-length (y ∷ p) h, length-is_empty ready) in
          elim (Result-cases (rounds n (advance ready (y ∷ p)))) [
            | inl (rest, q) ↦ absurd (ground arith)
            | inr (z, q) ↦
                let (kind, ks, stuck) =
                  rounds-Cyclic n (advance ready (y ∷ p)) z (advance-distinct ready (y ∷ p) h)
                    (advance-closed ready (y ∷ p) c) fewer q in
                (ground arith, ks, Stuck-advance ks ready (y ∷ p) stuck)
          ]
    ]
