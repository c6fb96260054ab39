-- ===== src/Resilience/Checkpoint/Blocks.antt =====
-- The blocks of a checkpoint.
use df_fabric.Prelude.{
  ℕ, zero, suc, ◌+◌, ◌≤◌, ◌<◌, List, [], ◌∷◌, ◌++◌, ◌≡◌, ◌≢◌, refl, ap, length, arith, String,
  Bool-cases, leb, inl, inr, ◌∙◌, All,
}
use df_fabric.Prelude.Int.{pos}
use df_fabric.Resilience.Checkpoint.{
  CheckpointBlock, first_bytes, later_bytes, chunks, block_bytes, differing, change_at, number,
  corrupted,
}

unfoldable pub joined : List (List ℕ) → List ℕ
joined [] = []
joined (c ∷ cs) = c ++ joined cs

append-nil : (xs : List ℕ) → xs ++ [] ≡ xs
append-nil [] = refl
append-nil (x ∷ xs) = ap (λ r. x ∷ r) (append-nil xs)

first-later : (n : ℕ) (raw : List ℕ) → first_bytes n raw ++ later_bytes n raw ≡ raw
unfolding first_bytes later_bytes
first-later zero raw = refl
first-later (suc n) [] = refl
first-later (suc n) (b ∷ raw) = ap (λ r. b ∷ r) (first-later n raw)

length-first : (n : ℕ) (raw : List ℕ) → length (first_bytes n raw) ≤ n
unfolding first_bytes
length-first zero raw = omega arith
length-first (suc n) [] = omega arith
length-first (suc n) (b ∷ raw) = omega (arith, length-first n raw)

length-later : (n : ℕ) (raw : List ℕ) → n ≤ length raw → length (later_bytes n raw) + n ≡ length raw
unfolding later_bytes
length-later zero raw h = omega arith
length-later (suc n) [] h = absurd (omega arith)
length-later (suc n) (b ∷ raw) h = omega (arith, length-later n raw (omega arith))

-- With as much fuel as bytes, the chunks together are the encoding, none is longer than a block, and
-- there is at least one.
pub chunks_lem :
    (fuel : ℕ) (raw : List ℕ)
    → length raw ≤ fuel
    → (joined (chunks fuel raw) ≡ raw)
      × All (λ c. length c ≤ block_bytes) (chunks fuel raw)
      × (0 < length (chunks fuel raw))
unfolding chunks joined
chunks_lem zero [] h = (refl, (omega arith, tt), omega arith)
chunks_lem zero (b ∷ raw) h = absurd (omega arith)
chunks_lem (suc fuel) raw h = elim (Bool-cases (leb (length raw) block_bytes)) [
  | inl short ↦ rw short (append-nil raw, (ground arith, tt), omega arith)
  | inr long ↦
      let over : block_bytes ≤ length raw = ground arith in
      let (whole, small, some_) =
        chunks_lem fuel (later_bytes block_bytes raw)
          (omega (arith, length-later block_bytes raw over)) in
      rw long (
        ap (λ r. first_bytes block_bytes raw ++ r) whole ∙ first-later block_bytes raw,
        (length-first block_bytes raw, small),
        omega arith,
      )
]

pub differing_self : (bs : List CheckpointBlock) → differing bs bs ≡ []
unfolding differing
differing_self [] = refl
differing_self (b ∷ bs) = ground (arith, differing_self bs)

module _ (digest : List ℕ → String) where
  -- No checksum is its own corruption.
  abbrev pub Changes : List CheckpointBlock → Type 0
  Changes bs = All (λ b. (corrupted digest b).checksum ≢ b.checksum) bs

  pub differing-change :
      (n i : ℕ) (cs : List (List ℕ))
      → i < length (number digest n cs)
      → Changes (number digest n cs)
      → differing (number digest n cs) (change_at (corrupted digest) i (number digest n cs))
        ≡ pos (n + i) ∷ []
  unfolding differing change_at number
  differing-change n i [] h w = absurd (omega arith)
  differing-change n zero (c ∷ cs) h w =
      ground (arith, w.0, differing_self (number digest (suc n) cs))
  differing-change n (suc i) (c ∷ cs) h w =
      ground (arith, differing-change (suc n) i cs (omega arith) w.1)
