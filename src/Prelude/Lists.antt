-- ===== src/Prelude/Lists.antt =====
-- Lists measured by native numbers, Boolean quantifiers and predicates on all elements.
use Prim.Native.Nat.{ℕ, suc, ◌+◌}
use mathlib.Core.Path.{◌≡◌, refl, ap}
use mathlib.Core.Bool.{Bool, true, false, not, ◌&&◌, ◌||◌}
use mathlib.Core.List.{List, [], ◌∷◌, ◌++◌, map}
use native.Mathlib.Omega.{arith}

module _ {ℓ} {A : Type ℓ} where
  abbrev pub length : List A → ℕ
  length [] = 0
  length (x ∷ xs) = suc (length xs)

  pub length-append : (xs ys : List A) → length (xs ++ ys) ≡ length xs + length ys
  length-append [] ys = omega arith
  length-append (x ∷ xs) ys = omega (arith, length-append xs ys)

  -- Python's `any` and `all` over a list.
  unfoldable pub any : (A → Bool) → List A → Bool
  any p [] = false
  any p (x ∷ xs) = p x || any p xs

  unfoldable pub all : (A → Bool) → List A → Bool
  all p [] = true
  all p (x ∷ xs) = p x && all p xs

abbrev pub All {ℓ κ} : {A : Type ℓ} → (A → Type κ) → List A → Type κ
All P [] = Unit
All P (x ∷ xs) = P x × All P xs

module _ {ℓ} {A : Type ℓ} where
  pub all_of_each : (p : A → Bool) (xs : List A) → ((x : A) → p x ≡ true) → all p xs ≡ true
  unfolding all
  all_of_each p [] h = refl
  all_of_each p (x ∷ xs) h = ground (arith, h x, all_of_each p xs h)

module _ {ℓ} {A : Type ℓ} where
  -- `[x for x in xs if p(x)]`
  unfoldable pub filter : (A → Bool) → List A → List A
  filter p [] = []
  filter p (x ∷ xs) = let rest = filter p xs in elim (p x) [ true ↦ x ∷ rest | false ↦ rest ]

  -- `not xs`
  abbrev pub is_empty : List A → Bool
  is_empty [] = true
  is_empty (x ∷ xs) = false

  pub all-append : (p : A → Bool) (xs ys : List A) → all p (xs ++ ys) ≡ (all p xs && all p ys)
  unfolding all
  all-append p [] ys = refl
  all-append p (x ∷ xs) ys = ground (arith, all-append p xs ys)

  -- Nothing passes the test exactly when everything passes its negation.
  pub filter-none : (p : A → Bool) (xs : List A) → is_empty (filter p xs) ≡ all (λ x. not (p x)) xs
  unfolding filter all
  filter-none p [] = refl
  filter-none p (x ∷ xs) = ground (arith, filter-none p xs)

pub is_empty-map {ℓ κ} :
    {A : Type ℓ} {B : Type κ} (f : A → B) (xs : List A) → is_empty (map f xs) ≡ is_empty xs
is_empty-map f [] = refl
is_empty-map f (x ∷ xs) = refl

pub is_empty-append {ℓ} :
    {A : Type ℓ} (xs ys : List A) → is_empty (xs ++ ys) ≡ (is_empty xs && is_empty ys)
is_empty-append [] ys = refl
is_empty-append (x ∷ xs) ys = refl

module _ {ℓ} {A : Type ℓ} where
  pub all_mono :
      (p q : A → Bool) (xs : List A)
      → ((x : A) → p x ≡ true → q x ≡ true)
      → all p xs ≡ true
      → all q xs ≡ true
  unfolding all
  all_mono p q [] h a = refl
  all_mono p q (x ∷ xs) h a = ground (arith, h x, all_mono p q xs h)

  -- What all elements satisfy, all that a filter keeps satisfy.
  pub all-filter : (p q : A → Bool) (xs : List A) → all q xs ≡ true → all q (filter p xs) ≡ true
  unfolding all filter
  all-filter p q [] h = refl
  all-filter p q (x ∷ xs) h = ground (arith, all-filter p q xs)

  pub all-filter_self : (p : A → Bool) (xs : List A) → all p (filter p xs) ≡ true
  unfolding all filter
  all-filter_self p [] = refl
  all-filter_self p (x ∷ xs) = ground (arith, all-filter_self p xs)

  pub all_of_filter :
      (p q : A → Bool) (xs : List A) → all q (filter p xs) ≡ all (λ x. not (p x) || q x) xs
  unfolding all filter
  all_of_filter p q [] = refl
  all_of_filter p q (x ∷ xs) = ground (arith, all_of_filter p q xs)

  pub any-all-not : (p : A → Bool) (xs : List A) → any p xs ≡ not (all (λ x. not (p x)) xs)
  unfolding any all
  any-all-not p [] = refl
  any-all-not p (x ∷ xs) = ground (arith, any-all-not p xs)

pub all-map {ℓ κ} :
    {A : Type ℓ} {B : Type κ} (p : B → Bool) (f : A → B) (xs : List A)
    → all p (map f xs) ≡ all (λ x. p (f x)) xs
unfolding all
all-map p f [] = refl
all-map p f (x ∷ xs) = ground (arith, all-map p f xs)

module _ {ℓ} {A : Type ℓ} where
  pub filter-filter :
      (p q : A → Bool) (xs : List A) → filter p (filter q xs) ≡ filter (λ x. q x && p x) xs
  unfolding filter
  filter-filter p q [] = refl
  filter-filter p q (x ∷ xs) = ground (arith, filter-filter p q xs)

  -- Two tests that agree on all elements keep the same ones.
  pub filter-cong :
      (p q r : A → Bool) (xs : List A)
      → ((x : A) → r x ≡ true → p x ≡ q x)
      → all r xs ≡ true
      → filter p xs ≡ filter q xs
  unfolding filter all
  filter-cong p q r [] h a = refl
  filter-cong p q r (x ∷ xs) h a = ground (arith, h x, filter-cong p q r xs h)

  pub filter-all : (p : A → Bool) (xs : List A) → all p xs ≡ true → filter p xs ≡ xs
  unfolding filter all
  filter-all p [] h = refl
  filter-all p (x ∷ xs) h = ground (arith, filter-all p xs)

  pub all_both :
      (p q : A → Bool) (xs : List A)
      → all p xs ≡ true
      → all q xs ≡ true
      → all (λ x. p x && q x) xs ≡ true
  unfolding all
  all_both p q [] h k = refl
  all_both p q (x ∷ xs) h k = ground (arith, all_both p q xs)

pub map-length {ℓ κ} :
    {A : Type ℓ} {B : Type κ} (f : A → B) (xs : List A) → length (map f xs) ≡ length xs
map-length f [] = refl
map-length f (x ∷ xs) = ap suc (map-length f xs)
