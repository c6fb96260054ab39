-- ===== src/Resilience/Transaction/Rollback.antt =====
-- What a rollback of a recovery transaction restores.
use df_fabric.Prelude.{
  String, true, false, none, some, [], ◌∷◌, ◌≡◌, refl, string_dec, arith, Option,
}
use df_fabric.Prelude.Dict.{Dict, get, put, IsDict, get-put, put-IsDict}
use df_fabric.Prelude.Result.{ok, err}
use df_fabric.Payload.{Value, null}
use df_fabric.Resilience.Error.{transaction_state_error, quantum_rollback_refused}
use df_fabric.Resilience.Transaction.{
  Transaction, TransactionRecord, rolled_back, refused, is_open, is_empty, unknown_keys, restore,
  rollback, write, live_state, set_default, store, or_null, record_of, undone,
}
use df_fabric.Resilience.Quantum.{is_quantum_payload}

-- the journal's value where it has one
abbrev pub after : Option Value → Option Value → Option Value
after none l = l
after (some v) l = some v

pub get-restore :
    (j l : Dict String Value) (k : String)
    → IsDict string_dec j
    → get string_dec (restore j l) k ≡ after (get string_dec j k) (get string_dec l k)
unfolding restore get
get-restore [] l k h = refl
get-restore ((i, v) ∷ j) l k h =
    ground (arith, get-restore j (put string_dec l i v) k h.1, get-put string_dec l i k v)

-- A rollback of a transaction whose journal has no key twice has three endings. A closed transaction raises and is as it was. An open one that has
-- registered unknown quantum state raises, is REFUSED and keeps its live state. Any other becomes
-- ROLLED_BACK: each key of the journal has the journal's value, every other key is as it was.
pub rollback_lem :
    (t : Transaction)
    → IsDict string_dec t.journal
    → (is_open t.state ≡ false → rollback t ≡ (err transaction_state_error, t))
      × (is_open t.state ≡ true
          → is_empty (unknown_keys t.quantum) ≡ false
          → ((rollback t).0 ≡ err quantum_rollback_refused)
            × ((rollback t).1.state ≡ refused)
            × ((rollback t).1.live ≡ t.live))
      × (is_open t.state ≡ true
          → is_empty (unknown_keys t.quantum) ≡ true
          → (r : TransactionRecord) × ((rollback t).0 ≡ ok r)
            × (r.state ≡ rolled_back)
            × ((rollback t).1.state ≡ rolled_back)
            × ((k : String)
                → live_state (rollback t).1 k
                  ≡ after (get string_dec t.journal k) (get string_dec t.live k)))
unfolding rollback record_of undone
rollback_lem t h = (
  λ closed. rw closed refl,
  λ opened unknown.
      (rw (opened, unknown) refl, rw (opened, unknown) refl, rw (opened, unknown) refl),
  λ opened known. (
    record_of (undone t),
    rw (opened, known) refl,
    refl,
    rw (opened, known) refl,
    λ k. rw (opened, known) (get-restore t.journal t.live k h),
  ),
)

write_lem :
    (t : Transaction) (k : String) (v : Value)
    → is_open t.state ≡ true
    → is_quantum_payload v ≡ false
    → write k v t ≡ (ok tt, store k (or_null (get string_dec t.live k)) v t)
unfolding write
write_lem t k v opened plain = rw (opened, plain) refl

store_unset :
    (t : Transaction) (k : String) (v : Value)
    → IsDict string_dec t.journal
    → is_open t.state ≡ true
    → is_empty (unknown_keys t.quantum) ≡ true
    → get string_dec t.journal k ≡ none
    → get string_dec t.live k ≡ none
    → live_state (rollback (store k (or_null (get string_dec t.live k)) v t)).1 k ≡ some null
unfolding store set_default
store_unset t k v h opened known fresh unset =
    let prior = or_null (get string_dec t.live k) in
    let (_, _, third) =
      rollback_lem (store k prior v t) (ground (arith, put-IsDict string_dec t.journal k prior)) in
    let (r, _, _, _, shows) = third opened known in
    ground (arith, shows k, get-put string_dec t.journal k k prior)

-- In an open transaction that has registered no unknown quantum state and whose journal has no key
-- twice, a write of a classical value to a key with no live value and no entry in the journal
-- returns, and a rollback then leaves the key with the live value None: it is not removed again.
pub rollback-write_unset :
    (t : Transaction) (k : String) (v : Value)
    → IsDict string_dec t.journal
    → is_open t.state ≡ true
    → is_empty (unknown_keys t.quantum) ≡ true
    → is_quantum_payload v ≡ false
    → get string_dec t.journal k ≡ none
    → get string_dec t.live k ≡ none
    → ((write k v t).0 ≡ ok tt) × (live_state (rollback (write k v t).1).1 k ≡ some null)
rollback-write_unset t k v h opened known plain fresh unset =
    let t' = store k (or_null (get string_dec t.live k)) v t in
    let wrote : write k v t ≡ (ok tt, t') = write_lem t k v opened plain in
    rw wrote (refl, store_unset t k v h opened known fresh unset)
