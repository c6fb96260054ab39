-- ===== src/Prelude/Sort.antt =====
-- Python's `sorted`, which is stable, over a strict order.
use Prim.Native.Nat.{suc}
use mathlib.Core.Path.{◌≡◌, refl}
use mathlib.Core.Bool.{Bool, ◌&&◌, ◌||◌}
use mathlib.Core.List.{List, [], ◌∷◌}
use native.Mathlib.Omega.{arith}
use df_fabric.Prelude.Tests.{if◌then◌else◌, is_yes}
use df_fabric.Prelude.Lists.{all, length}
use df_fabric.Prelude.Sets.{member}

module _ {A : Type 0} (less : A → A → Bool) where
  insert : A → List A → List A
  insert x [] = x ∷ []
  insert x (y ∷ ys) = let rest = insert x ys in if less y x then y ∷ rest else x ∷ y ∷ ys

  unfoldable pub sort : List A → List A
  unfolding insert
  sort [] = []
  sort (x ∷ xs) = insert x (sort xs)

  all-insert : (p : A → Bool) (x : A) (ys : List A) → all p (insert x ys) ≡ (p x && all p ys)
  unfolding insert all
  all-insert p x [] = refl
  all-insert p x (y ∷ ys) = ground (arith, all-insert p x ys)

  pub all-sort : (p : A → Bool) (xs : List A) → all p (sort xs) ≡ all p xs
  unfolding sort all
  all-sort p [] = refl
  all-sort p (x ∷ xs) = ground (arith, all-insert p x (sort xs), all-sort p xs)

  length-insert : (x : A) (ys : List A) → length (insert x ys) ≡ suc (length ys)
  unfolding insert
  length-insert x [] = refl
  length-insert x (y ∷ ys) = ground (arith, length-insert x ys)

  pub length-sort : (xs : List A) → length (sort xs) ≡ length xs
  unfolding sort
  length-sort [] = refl
  length-sort (x ∷ xs) = ground (arith, length-insert x (sort xs), length-sort xs)

  module _ (dec : Discrete A) where
    member-insert :
        (x : A) (ys : List A) (k : A)
        → member dec (insert x ys) k ≡ (is_yes (dec x k) || member dec ys k)
    unfolding insert member
    member-insert x [] k = refl
    member-insert x (y ∷ ys) k = ground (arith, member-insert x ys k)

    pub member-sort : (xs : List A) (k : A) → member dec (sort xs) k ≡ member dec xs k
    unfolding sort member
    member-sort [] k = refl
    member-sort (x ∷ xs) k = ground (arith, member-insert x (sort xs) k, member-sort xs k)
