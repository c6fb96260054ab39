-- ===== src/Crdt/Laws.antt =====
-- What crdt.py asks of every `merge` (lines 19-25): the interface between the replicated types and
-- the anti-entropy that merges them. `state` is what `state()` shows, and what is hashed.
use df_fabric.Prelude.{◌≡◌}
use df_fabric.Prelude.Result.{ok}
use df_fabric.Crdt.Error.{Raises}

pub record MergeLaws {A S : Type 0} (IsValid : A → Type 0) (merge : A → A → Raises A)
    (join : A → A → A) (state : A → S) : Type 0 where
  pub merges : (a b : A) → IsValid a → IsValid b → merge a b ≡ ok (join a b)
  pub closed : (a b : A) → IsValid a → IsValid b → IsValid (join a b)
  pub comm : (a b : A) → IsValid a → IsValid b → state (join a b) ≡ state (join b a)
  pub assoc :
      (a b c : A)
      → IsValid a
      → IsValid b
      → IsValid c
      → state (join (join a b) c) ≡ state (join a (join b c))
  pub idem : (a : A) → IsValid a → state (join a a) ≡ state a
  pub cong :
      (a b c d : A)
      → IsValid a
      → IsValid b
      → IsValid c
      → IsValid d
      → state a ≡ state c
      → state b ≡ state d
      → state (join a b) ≡ state (join c d)
