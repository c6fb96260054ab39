-- ===== src/Pk/Accelerator/Scrubbing.antt =====
-- Which device a workload gets, and what a device that is not clean does to the others.
use df_fabric.Prelude.{
  ℕ, Bool, ◌∷◌, ◌++◌, ◌&&◌, any, any-all-not, true, false, not, ◌||◌, ◌≡◌, arith, some, all, ◌↔◌,
  Option-cases, inl, inr,
}
use df_fabric.Prelude.Text.{text_asymm, text_between}
use df_fabric.Prelude.Result.{ok, err}
use df_fabric.Prelude.Least.{
  get_elem?, least, least-none, none-least, least_lem, least-first, least-satisfies, unbeaten,
  update_at,
}
use df_fabric.Pk.Accelerator.{
  Accelerator, Pool, Requirement, is_candidate, smaller, undeclared, hold, allocate, scrub_required,
  no_matching_accelerator,
}

smaller_between : (a b c : Accelerator) → smaller a c ≡ true → (smaller a b || smaller b c) ≡ true
unfolding smaller
smaller_between a b c h = ground (arith, text_between a.device b.device c.device)

smaller_asymm : (a b : Accelerator) → smaller a b ≡ true → smaller b a ≡ false
unfolding smaller
smaller_asymm a b h = ground (arith, text_asymm a.device b.device)

-- An allocation that succeeds takes a free and clean device that meets the requirement and declares
-- the partition, the least of those that are free and meet it; it alone changes, to be held by the
-- tenant. An allocation is refused for want of a device exactly when none that is free meets the
-- requirement.
pub allocate_lem :
    (q : Requirement) (pool : Pool)
    → ((d : Accelerator) (pool' : Pool)
        → allocate q pool ≡ ok (d, pool')
        → (i : ℕ) × (b : Accelerator) × (get_elem? pool i ≡ some b)
          × (is_candidate q b ≡ true)
          × (b.scrubbed ≡ true)
          × (undeclared q b ≡ false)
          × (unbeaten (is_candidate q) smaller b pool ≡ true)
          × (d ≡ hold q b)
          × (pool' ≡ update_at (hold q) i pool))
      × ((allocate q pool ≡ err no_matching_accelerator)
          ↔ (all (λ e. not (is_candidate q e)) pool ≡ true))
unfolding allocate
allocate_lem q pool = elim (Option-cases (least (is_candidate q) smaller pool)) [
  | inl n ↦ (
    λ d pool' e. absurd (ground arith),
    (λ e. least-none (is_candidate q) smaller pool n, λ a. ground arith),
  )
  | inr ((i, b), n) ↦
      let (at, fits, first) =
        least_lem (is_candidate q) smaller smaller_asymm smaller_between pool i b n in
      (
        λ d pool' e.
            (i, b, at, fits, ground arith, ground arith, first, ground arith, ground arith),
        (
          λ e. absurd (ground arith),
          λ a. absurd (ground (arith, none-least (is_candidate q) smaller pool)),
        ),
      )
]

-- `d` comes before every free device of the pool that meets the requirement.
abbrev pub precedes : Requirement → Accelerator → Pool → Bool
precedes q d pool = all (λ c. not (is_candidate q c) || smaller d c) pool

-- Every free device of the pool that meets the requirement is clean and declares the partition.
abbrev pub all_usable : Requirement → Pool → Bool
all_usable q pool = all (λ c. not (is_candidate q c) || (c.scrubbed && not (undeclared q c))) pool

allocate-least :
    (q : Requirement) (pool : Pool) (i : ℕ) (d : Accelerator)
    → least (is_candidate q) smaller pool ≡ some (i, d)
    → (d.scrubbed && not (undeclared q d)) ≡ true
    → allocate q pool ≡ ok (hold q d, update_at (hold q) i pool)
unfolding allocate
allocate-least q pool i d n h = ground arith

-- A free device that is not clean, meets the requirement and declares the partition stands in the
-- way of all others, when it comes before every other free device that meets the requirement: the
-- allocation raises ScrubRequired. It succeeds in the pool without that device, if there is another
-- free device that meets the requirement and each of these is clean and declares the partition.
pub allocate-blocked :
    (q : Requirement) (d : Accelerator) (pre post : Pool)
    → (is_candidate q d ≡ true) × (d.scrubbed ≡ false) × (undeclared q d ≡ false)
    → precedes q d pre ≡ true
    → precedes q d post ≡ true
    → (allocate q (pre ++ (d ∷ post)) ≡ err scrub_required)
      × (any (is_candidate q) (pre ++ post) ≡ true
          → all_usable q (pre ++ post) ≡ true
          → (i : ℕ) × (e : Accelerator) × (get_elem? (pre ++ post) i ≡ some e)
            × (allocate q (pre ++ post) ≡ ok (hold q e, update_at (hold q) i (pre ++ post))))
unfolding allocate
allocate-blocked q d pre post hd a b = (
  (let (i, n) = least-first (is_candidate q) smaller smaller_asymm d pre post hd.0 a b in
      ground arith),
  λ some_fits usable. elim (Option-cases (least (is_candidate q) smaller (pre ++ post))) [
    | inl n ↦ absurd (
        ground (
          arith,
          least-none (is_candidate q) smaller (pre ++ post) n,
          any-all-not (is_candidate q) (pre ++ post),
        ))
    | inr ((i, e), n) ↦
        let (at, _, _) =
          least_lem (is_candidate q) smaller smaller_asymm smaller_between (pre ++ post) i e n in
        let ready : (e.scrubbed && not (undeclared q e)) ≡ true =
          least-satisfies (is_candidate q) smaller (λ c. c.scrubbed && not (undeclared q c))
            (pre ++ post) i e usable n in
        (i, e, at, allocate-least q (pre ++ post) i e n ready)
  ],
)
