-- ===== src/Prelude/Least.antt =====
-- The least element of a list that passes a test, with its place: Python's `min` over a comprehension.
use Prim.Native.Nat.{ℕ, zero, suc}
use mathlib.Core.Path.{◌≡◌, refl}
use mathlib.Core.Bool.{Bool, true, false, not, ◌&&◌, ◌||◌}
use mathlib.Core.Logic.{inl, inr}
use mathlib.Core.Option.{Option, none, some}
use mathlib.Core.List.{List, [], ◌∷◌, ◌++◌}
use native.Mathlib.Omega.{arith}
use df_fabric.Prelude.Tests.{if◌then◌else◌, Bool-cases, Option-cases}
use df_fabric.Prelude.Lists.{all, all_mono}

module _ {A : Type 0} where
  -- `xs[i]`
  abbrev pub get_elem? : List A → ℕ → Option A
  get_elem? [] i = none
  get_elem? (x ∷ xs) zero = some x
  get_elem? (x ∷ xs) (suc i) = get_elem? xs i

  -- The element at a place changed.
  unfoldable pub update_at : (A → A) → ℕ → List A → List A
  update_at f i [] = []
  update_at f zero (x ∷ xs) = f x ∷ xs
  update_at f (suc i) (x ∷ xs) = x ∷ update_at f i xs

module _ {A : Type 0} (p : A → Bool) (less : A → A → Bool) where
  unfoldable pub least : List A → Option (ℕ × A)
  least [] = none
  least (x ∷ xs) =
      let rest = least xs in
      elim rest [
        | none ↦ if p x then some (0, x) else none
        | some (i, y) ↦ if p x && not (less y x) then some (0, x) else some (suc i, y)
      ]

  -- No element that passes is less than `x`.
  abbrev pub unbeaten : A → List A → Bool
  unbeaten x xs = all (λ y. not (p y && less y x)) xs

  pub least-none : (xs : List A) → least xs ≡ none → all (λ y. not (p y)) xs ≡ true
  unfolding least all
  least-none [] h = refl
  least-none (x ∷ xs) h = ground (arith, least-none xs)

  pub none-least : (xs : List A) → all (λ y. not (p y)) xs ≡ true → least xs ≡ none
  unfolding least all
  none-least [] h = refl
  none-least (x ∷ xs) h = ground (arith, none-least xs)

  module _ (asymm : (a b : A) → less a b ≡ true → less b a ≡ false)
      (between : (a b c : A) → less a c ≡ true → (less a b || less b c) ≡ true) where
    unbeaten_trans :
        (x y : A) (xs : List A) → less y x ≡ false → unbeaten y xs ≡ true → unbeaten x xs ≡ true
    unfolding all
    unbeaten_trans x y [] h u = refl
    unbeaten_trans x y (z ∷ xs) h u = ground (arith, between z y x, unbeaten_trans x y xs h)

    pub least_lem :
        (xs : List A) (i : ℕ) (x : A)
        → least xs ≡ some (i, x)
        → (get_elem? xs i ≡ some x) × (p x ≡ true) × (unbeaten x xs ≡ true)
    unfolding least all
    least_lem [] i x h = cc
    least_lem (y ∷ xs) i x h = elim (Option-cases (least xs)) [
      | inl n ↦ ground (
        arith,
        all_mono (λ z. not (p z)) (λ z. not (p z && less z y)) xs (λ z k. ground arith),
        least-none xs n,
        asymm y x,
      )
      | inr ((j, z), n) ↦ elim (Bool-cases (p y && not (less z y))) [
        | inl c ↦ ground (arith, least_lem xs j z, unbeaten_trans y z xs, asymm y y)
        | inr c ↦ ground (arith, least_lem xs j z, asymm z y)
      ]
    ]

  -- What all elements that pass satisfy, the least of them satisfies.
  pub least-satisfies :
      (r : A → Bool) (xs : List A) (i : ℕ) (x : A)
      → all (λ c. not (p c) || r c) xs ≡ true
      → least xs ≡ some (i, x)
      → r x ≡ true
  unfolding least all
  least-satisfies r [] i x a h = cc
  least-satisfies r (y ∷ xs) i x a h = elim (Option-cases (least xs)) [
    | inl n ↦ ground arith
    | inr ((j, z), n) ↦ ground (arith, least-satisfies r xs j z)
  ]

  -- An element that passes and is less than all others that pass is the least one.
  pub least-first :
      (asymm : (a b : A) → less a b ≡ true → less b a ≡ false) (x : A) (xs ys : List A)
      → p x ≡ true
      → all (λ c. not (p c) || less x c) xs ≡ true
      → all (λ c. not (p c) || less x c) ys ≡ true
      → (i : ℕ) × (least (xs ++ (x ∷ ys)) ≡ some (i, x))
  unfolding least all
  least-first asymm x [] ys h a b = elim (Option-cases (least ys)) [
    | inl n ↦ (0, ground arith)
    | inr ((j, z), n) ↦ (0, ground (arith, least-satisfies (less x) ys j z b n, asymm x z))
  ]
  least-first asymm x (y ∷ xs) ys h a b =
      let (i, e) = least-first asymm x xs ys h (ground arith) b in
      (suc i, ground (arith, asymm x y))
