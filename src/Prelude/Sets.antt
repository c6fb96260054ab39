-- ===== src/Prelude/Sets.antt =====
-- Python's `set`, as a list in which membership is all that is observed.
use mathlib.Core.Path.{◌≡◌, fun_ext, ap}
use mathlib.Core.Bool.{Bool, true, false, ◌||◌}
use mathlib.Core.List.{List, [], ◌∷◌}
use native.Mathlib.Omega.{arith}
use mathlib.Core.Logic.{inl, inr}
use df_fabric.Prelude.Lists.{any, all}
use df_fabric.Prelude.Tests.{is_yes, Bool-cases}

module _ {ℓ} {A : Type ℓ} (dec : Discrete A) where
  -- `x in s`
  unfoldable pub member : List A → A → Bool
  member [] x = false
  member (y ∷ ys) x = is_yes (dec y x) || member ys x

  -- `s.add(x)`
  unfoldable pub add : List A → A → List A
  unfolding member
  add s x = elim (member s x) [ true ↦ s | false ↦ x ∷ s ]

  -- `s | t`
  unfoldable pub union : List A → List A → List A
  unfolding add
  union s [] = s
  union s (y ∷ ys) = add (union s ys) y

  pub member-add : (s : List A) (x y : A) → member (add s x) y ≡ (is_yes (dec x y) || member s y)
  unfolding add member
  member-add s x y = ground arith

  pub member-union : (s t : List A) (y : A) → member (union s t) y ≡ (member s y || member t y)
  unfolding union member
  member-union s [] y = ground arith
  member-union s (x ∷ t) y = ground (arith, member-union s t y, member-add (union s t) x y)

  -- A test that passes on a member passes on some element, and conversely.
  pub any_of_member :
      (p : A → Bool) (s : List A) (x : A) → member s x ≡ true → p x ≡ true → any p s ≡ true
  unfolding any member
  any_of_member p [] x m h = cc
  any_of_member p (y ∷ s) x m h = ground (arith, any_of_member p s x)

  pub member_of_any :
      (p : A → Bool) (s : List A) → any p s ≡ true → (x : A) × (member s x ≡ true) × (p x ≡ true)
  unfolding any member
  member_of_any p [] h = absurd (cc)
  member_of_any p (y ∷ s) h = elim (Bool-cases (p y)) [
    | inl e ↦ (y, ground arith, e)
    | inr e ↦ let (x, m, q) = member_of_any p s (ground arith) in (x, ground arith, q)
  ]

  pub union_comm : (s t : List A) → member (union s t) ≡ member (union t s)
  union_comm s t = fun_ext (λ x. ground (arith, member-union s t x, member-union t s x))

  pub union_assoc : (s t u : List A) → member (union (union s t) u) ≡ member (union s (union t u))
  union_assoc s t u = fun_ext (λ x. ground (
    arith,
    member-union (union s t) u x,
    member-union s t x,
    member-union s (union t u) x,
    member-union t u x,
  ))

  pub union_idem : (s : List A) → member (union s s) ≡ member s
  union_idem s = fun_ext (λ x. ground (arith, member-union s s x))

  pub union_cong :
      (s t u v : List A)
      → member s ≡ member u
      → member t ≡ member v
      → member (union s t) ≡ member (union u v)
  union_cong s t u v p q = fun_ext (λ x. cc (
    member-union s t x,
    member-union u v x,
    ap (λ (f : A → Bool). f x) p,
    ap (λ (f : A → Bool). f x) q,
  ))

  pub all_at_member :
      (p : A → Bool) (s : List A) (x : A) → all p s ≡ true → member s x ≡ true → p x ≡ true
  unfolding all member
  all_at_member p [] x h m = cc
  all_at_member p (y ∷ s) x h m = ground (arith, all_at_member p s x)
