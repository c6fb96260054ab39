-- ===== src/Resilience/Transaction/Snapshot.antt =====
-- The snapshot that a recovery transaction begins with, and its end.
use df_fabric.Prelude.{
  String, true, false, some, List, [], ◌∷◌, ◌≡◌, refl, ◌∙◌, string_dec, arith, ap,
}
use df_fabric.Prelude.Dict.{Dict, get, IsDict, get-put}
use df_fabric.Prelude.Result.{ok}
use df_fabric.Payload.{Value}
use df_fabric.Resilience.Transaction.{
  Transaction, TransactionRecord, is_open, is_empty, unknown_keys, rollback, write, commit, begin,
  register_quantum, record_classical, record_each, check_open, new, live_state, undone, set_default,
  store,
}
use df_fabric.Resilience.Transaction.Rollback.{after, rollback_lem}
use df_fabric.Resilience.Transaction.Methods.{
  Call, begins, records, writes, registers, commits, rolls_back, run, runs, run-Effect, Effect,
  same, stores, restores, IsClassical, IsSound, runs-IsSound,
}
use df_fabric.Resilience.Quantum.{is_quantum_payload}

-- Each entry of the dictionary stands in the journal.
abbrev Journals : Dict String Value → Transaction → Type 0
Journals d t =
    (k : String) (v : Value) → get string_dec d k ≡ some v → get string_dec t.journal k ≡ some v

Effect-Journals :
    {t u : Transaction} (d : Dict String Value) → Journals d t → Effect t u → Journals d u
unfolding store undone set_default
Effect-Journals d h (same u p q) k v g = ground (arith, h k v g)
Effect-Journals d h (stores {u} e i prior w q from) k v g =
    let old = Effect-Journals d h e k v g in ground (arith, get-put string_dec u.journal i k prior)
Effect-Journals d h (restores e) k v g = Effect-Journals d h e k v g

runs-Journals :
    (cs : List Call) (d : Dict String Value) (t : Transaction)
    → Journals d t
    → Journals d (runs cs t)
runs-Journals [] d t h = h
runs-Journals (c ∷ cs) d t h = runs-Journals cs d (run c t) (Effect-Journals d h (run-Effect c t))

record_classical_lem :
    (t : Transaction) (k : String) (v : Value)
    → is_open t.state ≡ true
    → is_quantum_payload v ≡ false
    → record_classical k v t ≡ (ok tt, store k v v t)
unfolding record_classical check_open
record_classical_lem t k v opened plain = rw (opened, plain) refl

-- What recording a dictionary does.
record Recorded (d : Dict String Value) (t u : Transaction) : Type 0 where
  opened : is_open u.state ≡ true
  journal :
      (k : String)
      → get string_dec u.journal k ≡ after (get string_dec t.journal k) (get string_dec d k)

record_each_lem :
    (d : Dict String Value) (t : Transaction)
    → is_open t.state ≡ true
    → IsDict string_dec d
    → IsClassical d
    → (record_each d t ≡ (ok tt, (record_each d t).1)) × Recorded d t (record_each d t).1
unfolding record_each store set_default get
record_each_lem [] t opened h plain =
    (refl, record { opened = opened; journal = λ k. ground arith })
record_each_lem ((i, w) ∷ d) t opened h plain =
    let q : is_quantum_payload w ≡ false = plain i w (ground arith) in
    let (e, r) = record_each_lem d (store i w w t) opened h.1 (λ k v g. plain k v (ground arith)) in
    rw (record_classical_lem t i w opened q) (
      e,
      record {
        opened = r.opened;
        journal = λ k. ground (arith, r.journal k, get-put string_dec t.journal i k w);
      },
    )

pub new-IsSound : (i : String) → IsSound (new i)
unfolding get
new-IsSound i = record {
  dict = tt;
  journal = λ k v e. absurd (ground arith);
  live = λ k v e. absurd (ground arith);
}

-- A transaction that begins with a snapshot of classical values, no key twice, begins without error.
-- Whatever is called then, if it is still open and has registered no unknown quantum state, a
-- rollback returns and gives every key of the snapshot its value in the snapshot.
pub begin-rollback :
    (i : String) (d : Dict String Value) (cs : List Call)
    → IsDict string_dec d
    → IsClassical d
    → ((begin d (new i)).0 ≡ ok tt)
      × (is_open (runs cs (begin d (new i)).1).state ≡ true
          → is_empty (unknown_keys (runs cs (begin d (new i)).1).quantum) ≡ true
          → (r : TransactionRecord) × ((rollback (runs cs (begin d (new i)).1)).0 ≡ ok r)
            × ((k : String) (v : Value)
                → get string_dec d k ≡ some v
                → live_state (rollback (runs cs (begin d (new i)).1)).1 k ≡ some v))
unfolding begin check_open get
begin-rollback i d cs h plain =
    let (e, r) = record_each_lem d (new i) refl h plain in
    let t = (record_each d (new i)).1 in
    let first : Journals d t = λ k v g. ground (arith, r.journal k) in
    let sound = runs-IsSound (begins d ∷ cs) (new i) (new-IsSound i) in
    (
      ap (λ p. p.0) e,
      λ opened known.
          let (_, _, third) = rollback_lem (runs cs t) sound.dict in
          let (record_, returns, _, _, shows) = third opened known in
          (record_, returns, λ k v g. ground (arith, shows k, runs-Journals cs d t first k v g)),
    )

-- A call on a transaction that is no longer open leaves its state, its journal and its live values.
closed-run :
    (c : Call) (t : Transaction)
    → is_open t.state ≡ false
    → ((run c t).state ≡ t.state) × ((run c t).journal ≡ t.journal) × ((run c t).live ≡ t.live)
unfolding begin record_classical write register_quantum commit rollback check_open
closed-run (begins d) t h = (rw (run, h) refl, rw (run, h) refl, rw (run, h) refl)
closed-run (records k v) t h = (rw (run, h) refl, rw (run, h) refl, rw (run, h) refl)
closed-run (writes k v) t h = (rw (run, h) refl, rw (run, h) refl, rw (run, h) refl)
closed-run (registers k c known) t h = (refl, refl, refl)
closed-run commits t h = (rw (run, h) refl, rw (run, h) refl, rw (run, h) refl)
closed-run rolls_back t h = (rw (run, h) refl, rw (run, h) refl, rw (run, h) refl)

-- A committed, rolled back or refused transaction stays so whatever is called, and neither its
-- journal nor its live values change again.
pub closed-runs :
    (cs : List Call) (t : Transaction)
    → is_open t.state ≡ false
    → ((runs cs t).state ≡ t.state)
      × ((runs cs t).journal ≡ t.journal)
      × ((runs cs t).live ≡ t.live)
closed-runs [] t h = (refl, refl, refl)
closed-runs (c ∷ cs) t h =
    let (s, j, l) = closed-run c t h in
    let (s', j', l') = closed-runs cs (run c t) (ap is_open s ∙ h) in (s' ∙ s, j' ∙ j, l' ∙ l)
