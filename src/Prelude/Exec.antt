-- ===== src/Prelude/Exec.antt =====
-- Methods that change an object and may raise: what was written before a raise stays written, so
-- the object comes back beside the error too.
use df_fabric.Prelude.Result.{Result, ok, err}
use mathlib.Core.Bool.{Bool, true, false}

abbrev pub Exec : Type 0 → Type 0 → Type 0 → Type 0
Exec E S A = S → Result E A × S

module _ {E S A : Type 0} where
  abbrev pub pure : A → Exec E S A
  pure a s = (ok a, s)

  abbrev pub raise : E → Exec E S A
  raise e s = (err e, s)

  abbrev pub lift : Result E A → Exec E S A
  lift r s = (r, s)

  abbrev pub gets : (S → A) → Exec E S A
  gets f s = (ok (f s), s)

abbrev pub modify : {E S : Type 0} → (S → S) → Exec E S (Unit {0})
modify f s = (ok tt, f s)

-- `if bad: raise e`
abbrev pub raise_when : {E S : Type 0} → Bool → E → Exec E S (Unit {0})
raise_when true e s = (err e, s)
raise_when false e s = (ok tt, s)

module _ {E S A B : Type 0} where
  abbrev pub continue : Result E A → (A → Exec E S B) → Exec E S B
  continue (ok a) f s = f a s
  continue (err e) f s = (err e, s)

  infixl 5 ◌>>=◌ ◌>>◌
  abbrev pub ◌>>=◌ : Exec E S A → (A → Exec E S B) → Exec E S B
  ◌>>=◌ m f s = let (r, s') = m s in continue r f s'

  abbrev pub ◌>>◌ : Exec E S A → Exec E S B → Exec E S B
  m >> n = m >>= λ _. n
