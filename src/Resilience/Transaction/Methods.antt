-- ===== src/Resilience/Transaction/Methods.antt =====
-- Sequences of calls on a recovery transaction.
use df_fabric.Prelude.{
  String, Bool, false, some, List, [], ◌∷◌, ◌≡◌, refl, sym, string_dec, arith, Bool-cases, inl, inr,
  ◌⊎◌, subst, Option-cases,
}
use df_fabric.Prelude.Dict.{Dict, get, put, IsDict, get-put, put-IsDict}
use df_fabric.Prelude.Exec.{continue}
use df_fabric.Prelude.Result.{ok, err, Result}
use df_fabric.Payload.{Value}
use df_fabric.Resilience.Transaction.{
  Transaction, is_open, is_empty, unknown_keys, restore, rollback, write, commit, begin,
  register_quantum, record_classical, record_each, or_null, check_open, undone, set_default, store,
  refusal, ResilienceError, Action,
}
use df_fabric.Resilience.Transaction.Rollback.{get-restore}
use df_fabric.Resilience.Quantum.{is_quantum_payload}

pub data Call : Type 0 where
  begins : Dict String Value → Call
  records writes : String → Value → Call
  registers : String → String → Bool → Call
  commits rolls_back : Call

-- the transaction after a call, whether it returns or raises
abbrev pub run : Call → Transaction → Transaction
run (begins d) t = (begin d t).1
run (records k v) t = (record_classical k v t).1
run (writes k v) t = (write k v t).1
run (registers k c known) t = (register_quantum k c known t).1
run commits t = (commit t).1
run rolls_back t = (rollback t).1

abbrev pub runs : List Call → Transaction → Transaction
runs [] t = t
runs (c ∷ cs) t = runs cs (run c t)

-- No value of the dictionary is quantum.
abbrev pub IsClassical : Dict String Value → Type 0
IsClassical d =
    (k : String) (v : Value) → get string_dec d k ≡ some v → is_quantum_payload v ≡ false

-- What a call may do to the journal and the live state.
pub data Effect (t : Transaction) : Transaction → Type 0 where
  same : (u : Transaction) → u.journal ≡ t.journal → u.live ≡ t.live → Effect t u
  stores :
      {u : Transaction}
      → Effect t u
      → (k : String) (prior v : Value) → is_quantum_payload v ≡ false
      → (prior ≡ v) ⊎ (prior ≡ or_null (get string_dec u.live k))
      → Effect t (store k prior v u)
  restores : {u : Transaction} → Effect t u → Effect t (undone u)

record_classical-Effect :
    (s t : Transaction) (k : String) (v : Value) → Effect s t → Effect s (record_classical k v t).1
unfolding record_classical check_open
record_classical-Effect s t k v e = elim (Bool-cases (is_open t.state)) [
  | inl opened ↦ elim (Bool-cases (is_quantum_payload v)) [
    | inl q ↦ rw (opened, q) e
    | inr q ↦ rw (opened, q) (stores e k v v q (inl refl))
  ]
  | inr closed ↦ rw closed e
]

continue-Effect :
    {A B : Type 0} (s t : Transaction) (r : Result ResilienceError A) (k : A → Action B)
    → Effect s t
    → ((a : A) → Effect s (k a t).1)
    → Effect s (continue r k t).1
continue-Effect s t (ok a) k e next = next a
continue-Effect s t (err x) k e next = e

record_each-Effect :
    (d : Dict String Value) (s t : Transaction) → Effect s t → Effect s (record_each d t).1
unfolding record_each
record_each-Effect [] s t e = e
record_each-Effect ((k, v) ∷ d) s t e =
    let u = (record_classical k v t).1 in
    continue-Effect s u (record_classical k v t).0 (λ _. record_each d)
      (record_classical-Effect s t k v e)
      (λ _. record_each-Effect d s u (record_classical-Effect s t k v e))

begin-Effect : (t : Transaction) (d : Dict String Value) → Effect t (begin d t).1
unfolding begin check_open
begin-Effect t d = elim (Bool-cases (is_open t.state)) [
  | inl opened ↦ rw opened (record_each-Effect d t t (same t refl refl))
  | inr closed ↦ rw closed (same t refl refl)
]

write-Effect : (t : Transaction) (k : String) (v : Value) → Effect t (write k v t).1
unfolding write check_open
write-Effect t k v = elim (Bool-cases (is_open t.state)) [
  | inl opened ↦ elim (Bool-cases (is_quantum_payload v)) [
    | inl q ↦ rw (opened, q) (same t refl refl)
    | inr q ↦
        rw (opened, q)
          (stores (same t refl refl) k (or_null (get string_dec t.live k)) v q (inr refl))
  ]
  | inr closed ↦ rw closed (same t refl refl)
]

commit-Effect : (t : Transaction) → Effect t (commit t).1
unfolding commit check_open
commit-Effect t = elim (Bool-cases (is_open t.state)) [
  | inl opened ↦ rw opened (same _ refl refl)
  | inr closed ↦ rw closed (same t refl refl)
]

rollback-Effect : (t : Transaction) → Effect t (rollback t).1
unfolding rollback check_open refusal
rollback-Effect t = elim (Bool-cases (is_open t.state)) [
  | inl opened ↦ elim (Bool-cases (is_empty (unknown_keys t.quantum))) [
    | inl known ↦ rw (opened, known) (restores (same t refl refl))
    | inr unknown ↦ rw (opened, unknown) (same (refusal t) refl refl)
  ]
  | inr closed ↦ rw closed (same t refl refl)
]

pub run-Effect : (c : Call) (t : Transaction) → Effect t (run c t)
unfolding register_quantum
run-Effect (begins d) t = begin-Effect t d
run-Effect (records k v) t = record_classical-Effect t t k v (same t refl refl)
run-Effect (writes k v) t = write-Effect t k v
run-Effect (registers k c known) t = same (register_quantum k c known t).1 refl refl
run-Effect commits t = commit-Effect t
run-Effect rolls_back t = rollback-Effect t

-- No quantum value, and no journal key twice.
pub record IsSound (t : Transaction) : Type 0 where
  pub dict : IsDict string_dec t.journal
  pub journal : IsClassical t.journal
  pub live : IsClassical t.live

or_null-classical :
    (d : Dict String Value) (k : String)
    → IsClassical d
    → is_quantum_payload (or_null (get string_dec d k)) ≡ false
unfolding is_quantum_payload
or_null-classical d k h = elim (Option-cases (get string_dec d k)) [
  | inl e ↦ rw e refl
  | inr (v, e) ↦ rw e (h k v e)
]

put-IsClassical :
    (d : Dict String Value) (k : String) (v : Value)
    → IsClassical d
    → is_quantum_payload v ≡ false
    → IsClassical (put string_dec d k v)
put-IsClassical d k v h q j w e = ground (arith, get-put string_dec d k j v, h j w)

set_default-IsClassical :
    (d : Dict String Value) (k : String) (v : Value)
    → IsClassical d
    → is_quantum_payload v ≡ false
    → IsClassical (set_default d k v)
unfolding set_default
set_default-IsClassical d k v h q j w e = ground (arith, h j w, put-IsClassical d k v h q j w)

restore-IsClassical :
    (j l : Dict String Value)
    → IsDict string_dec j
    → IsClassical j
    → IsClassical l
    → IsClassical (restore j l)
restore-IsClassical j l d hj hl k v e = ground (arith, get-restore j l k d, hj k v, hl k v)

set_default-IsDict :
    (d : Dict String Value) (k : String) (v : Value)
    → IsDict string_dec d
    → IsDict string_dec (set_default d k v)
unfolding set_default
set_default-IsDict d k v h = ground (arith, put-IsDict string_dec d k v h)

pub Effect-IsSound : {t u : Transaction} → IsSound t → Effect t u → IsSound u
unfolding store undone
Effect-IsSound h (same u p q) = record {
  dict = subst (IsDict string_dec) (sym p) h.dict;
  journal = subst IsClassical (sym p) h.journal;
  live = subst IsClassical (sym q) h.live;
}
Effect-IsSound h (stores {u} e k prior v q from) =
    let s = Effect-IsSound h e in
    let plain : is_quantum_payload prior ≡ false =
      ground (arith, or_null-classical u.live k s.live) in
    record {
      dict = set_default-IsDict u.journal k prior s.dict;
      journal = set_default-IsClassical u.journal k prior s.journal plain;
      live = put-IsClassical u.live k v s.live q;
    }
Effect-IsSound h (restores {u} e) =
    let s = Effect-IsSound h e in
    record {
      dict = s.dict;
      journal = s.journal;
      live = restore-IsClassical u.journal u.live s.dict s.journal s.live;
    }

-- After any calls, returning or raising, a transaction holds no quantum value, in its journal or in
-- its live state, and no journal key twice, if it held none before.
pub runs-IsSound : (cs : List Call) (t : Transaction) → IsSound t → IsSound (runs cs t)
runs-IsSound [] t h = h
runs-IsSound (c ∷ cs) t h = runs-IsSound cs (run c t) (Effect-IsSound h (run-Effect c t))
