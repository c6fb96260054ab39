-- ===== src/Prelude/Dict.antt =====
-- Python's `dict`: an association list in insertion order, at most one entry to a key.
use mathlib.Core.Path.{◌≡◌, refl}
use mathlib.Core.Logic.{ite}
use mathlib.Core.Bool.{Bool, true, false}
use mathlib.Core.Option.{Option, none, some}
use mathlib.Core.List.{List, [], ◌∷◌, map}
use native.Mathlib.Omega.{arith}
use df_fabric.Prelude.Lists.{all}

abbrev pub Dict {ℓ} : Type ℓ → Type ℓ → Type ℓ
Dict K V = List (K × V)

abbrev pub is_some {ℓ} : {A : Type ℓ} → Option A → Bool
is_some none = false
is_some (some a) = true

abbrev pub keys {ℓ} : {K V : Type ℓ} → Dict K V → List K
keys = map (λ e. e.0)

abbrev pub values {ℓ} : {K V : Type ℓ} → Dict K V → List V
values = map (λ e. e.1)

module _ {ℓ} {K V : Type ℓ} (dec : Discrete K) where
  -- `d.get(k)`
  unfoldable pub get : Dict K V → K → Option V
  get [] k = none
  get ((j, v) ∷ d) k = ite (dec j k) (some v) (get d k)

  -- `d[k] = v`: an old key keeps its place, a new one goes to the end
  unfoldable pub put : Dict K V → K → V → Dict K V
  put [] k v = (k, v) ∷ []
  put ((j, w) ∷ d) k v = ite (dec j k) ((j, v) ∷ d) ((j, w) ∷ put d k v)

  -- `k in d`
  abbrev pub has : Dict K V → K → Bool
  has d k = is_some (get d k)

  -- No key twice.
  abbrev pub IsDict : Dict K V → Type ℓ
  IsDict [] = Unit
  IsDict ((j, v) ∷ d) = (get d j ≡ none) × IsDict d

  pub get-put :
      (d : Dict K V) (k j : K) (v : V) → get (put d k v) j ≡ ite (dec k j) (some v) (get d j)
  unfolding get put
  get-put [] k j v = refl
  get-put ((i, w) ∷ d) k j v = ground (arith, get-put d k j v)

  pub put-IsDict : (d : Dict K V) (k : K) (v : V) → IsDict d → IsDict (put d k v)
  unfolding get put
  put-IsDict [] k v h = (refl, tt)
  put-IsDict ((i, w) ∷ d) k v h = ground (arith, put-IsDict d k v h.1, get-put d k i v)

-- What all values satisfy, they satisfy after a write of a value that does.
pub all-put {ℓ} :
    {K V : Type ℓ} (dec : Discrete K) (q : V → Bool) (d : Dict K V) (k : K) (v : V)
    → all (λ e. q e.1) d ≡ true
    → q v ≡ true
    → all (λ e. q e.1) (put dec d k v) ≡ true
unfolding put all
all-put dec q [] k v h e = ground arith
all-put dec q ((j, w) ∷ d) k v h e = ground (arith, all-put dec q d k v)
