-- ===== src/Crdt/Counts/Total.antt =====
-- The sum of the counts of a dictionary.
use native.Mathlib.Nat.{le_antisymm, le_of_eq}
use df_fabric.Prelude.{
  ℕ, ◌+◌, ◌≤◌, String, ◌≡◌, sym, ap, [], ◌∷◌, Option, none, ite, string_dec, arith,
}
use df_fabric.Prelude.Dict.{get, put}
use df_fabric.Crdt.Counts.{Counts, or_zero, count_of, bump, total, IsCounts, view}

-- The dictionary without a key.
unfoldable pub remove : String → Counts → Counts
remove k [] = []
remove k ((j, v) ∷ d) = ite (string_dec j k) d ((j, v) ∷ remove k d)

pub get-remove :
    (k j : String) (d : Counts)
    → IsCounts d
    → view (remove k d) j ≡ ite (string_dec k j) none (view d j)
unfolding remove get
get-remove k j [] h = ground arith
get-remove k j ((i, v) ∷ d) h = ground (arith, get-remove k j d h.1)

pub remove-IsCounts : (k : String) (d : Counts) → IsCounts d → IsCounts (remove k d)
unfolding remove get
remove-IsCounts k [] h = tt
remove-IsCounts k ((i, v) ∷ d) h = ground (arith, remove-IsCounts k d h.1, get-remove k i d h.1)

total-remove : (k : String) (d : Counts) → IsCounts d → total d ≡ count_of d k + total (remove k d)
unfolding remove get total count_of
total-remove k [] h = omega arith
total-remove k ((i, v) ∷ d) h = ground (arith, total-remove k d h.1)

-- If every count of `d` is at most that of `e`, so is the sum.
pub total_mono :
    (d e : Counts)
    → IsCounts d
    → IsCounts e
    → ((k : String) → count_of d k ≤ count_of e k)
    → total d ≤ total e
unfolding get total count_of
total_mono [] e hd he h = omega arith
total_mono ((i, v) ∷ d) e hd he h =
    let rest = remove i e in
    let below : (k : String) → count_of d k ≤ count_of rest k =
      λ k. ground (arith, h k, get-remove i k e he) in
    ground (arith, h i, total-remove i e he, total_mono d rest hd.1 (remove-IsCounts i e he) below)

pub total_eq : (d e : Counts) → IsCounts d → IsCounts e → view d ≡ view e → total d ≡ total e
unfolding count_of
total_eq d e hd he p =
    le_antisymm
      (total_mono d e hd he (λ k. le_of_eq (ap (λ (f : String → Option ℕ). or_zero (f k)) p)))
      (total_mono e d he hd (λ k. le_of_eq (ap (λ (f : String → Option ℕ). or_zero (f k)) (sym p))))

pub total-bump : (d : Counts) (k : String) (n : ℕ) → total (bump d k n) ≡ total d + n
unfolding bump total count_of get put
total-bump [] k n = omega arith
total-bump ((i, v) ∷ d) k n = ground (arith, total-bump d k n)
