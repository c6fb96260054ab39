-- ===== src/Resilience/Checkpoint/Methods.antt =====
-- The methods of `CheckpointStore`, one after another.
use df_fabric.Prelude.{
  ℕ, ◌+◌, ◌≤◌, ◌<◌, String, List, [], ◌∷◌, ◌≡◌, ◌≢◌, refl, ap, length, arith, string_dec, Bool,
  true, false, Bool-cases, inl, inr, ◌∙◌, ◌&&◌, not, some, suc, subst,
}
use df_fabric.Prelude.Dict.{Dict, get, put, get-put}
use df_fabric.Prelude.Int.{pos, negsuc}
use df_fabric.Prelude.Result.{ok, err}
use df_fabric.Payload.{Value}
use df_fabric.Resilience.Error.{resilience_error, quantum_checkpoint_refused}
use df_fabric.Resilience.Quantum.{is_quantum_payload}
use df_fabric.Resilience.Checkpoint.{
  Checkpoint, CheckpointKind, CheckpointStore, Verification, checkpoint_kind_of, is_prep, blocks_of,
  corrupted, corrupt, change_at, load_record, save, verify, load, chunks, differing, is_nil,
}
use df_fabric.Resilience.Checkpoint.Blocks.{Changes, differing_self, differing-change}

-- A payload that may be saved: quantum only as a classically known preparation, and a preparation
-- only with the assertion that it is known.
abbrev pub Admits : CheckpointKind → Value → Bool → Type 0
Admits kind v known =
    (is_quantum_payload v ≡ true → is_prep kind ≡ true) × (is_prep kind ≡ true → known ≡ true)

module _ (encode : Value → List ℕ) (digest : List ℕ → String) where
  load_record-stored :
      (i : String) (s : CheckpointStore) (c : Checkpoint)
      → get string_dec s.store i ≡ some c
      → load_record i s ≡ ok c
  unfolding load_record
  load_record-stored i s c g = rw g refl

  verify-stored :
      (i : String) (s : CheckpointStore) (c : Checkpoint)
      → get string_dec s.store i ≡ some c
      → verify encode digest i s
        ≡ ok (record {
          checkpoint_id = i;
          ok = is_nil (differing (blocks_of encode digest c.payload) c.blocks);
          corrupt_blocks = differing (blocks_of encode digest c.payload) c.blocks;
          blocks = length c.blocks;
        })
  unfolding verify
  verify-stored i s c g = rw (load_record-stored i s c g) refl

  load-stored :
      (i : String) (s : CheckpointStore) (c : Checkpoint)
      → get string_dec s.store i ≡ some c
      → (differing (blocks_of encode digest c.payload) c.blocks ≡ []
          → load encode digest i s ≡ ok c.payload)
        × (is_nil (differing (blocks_of encode digest c.payload) c.blocks) ≡ false
            → load encode digest i s ≡ err resilience_error)
  unfolding load
  load-stored i s c g = (
    λ h. rw (verify-stored i s c g, h, load_record-stored i s c g) refl,
    λ h. rw (verify-stored i s c g, h) refl,
  )

  -- A payload of a known kind that may be saved is: it loads again as it was, every block verifies,
  -- and every other checkpoint is as before. A payload that may not raises QuantumCheckpointRefused,
  -- and an unknown kind ResilienceError.
  pub save-load :
      (i k : String) (v : Value) (scope : String) (known : Bool) (provenance : Dict String Value)
      (s : CheckpointStore)
      → ((kind : CheckpointKind)
          → checkpoint_kind_of k ≡ ok kind
          → (Admits kind v known
              → (c : Checkpoint) × (s' : CheckpointStore) × (save encode digest i k v scope known
                    provenance s
                  ≡ ok (c, s'))
                × (load encode digest i s' ≡ ok v)
                × ((j : String) → j ≢ i → get string_dec s'.store j ≡ get string_dec s.store j))
            × (¬ Admits kind v known
                → save encode digest i k v scope known provenance s
                  ≡ err quantum_checkpoint_refused))
        × (checkpoint_kind_of k ≡ err resilience_error
            → save encode digest i k v scope known provenance s ≡ err resilience_error)
  unfolding save
  save-load i k v scope known provenance s = (
    λ kind e. (
      λ (q, p).
          let c : Checkpoint = record {
            checkpoint_id = i;
            kind = kind;
            scope = scope;
            payload = v;
            blocks = blocks_of encode digest v;
            logical_time = suc s.time;
            provenance = provenance;
          } in
          let s' : CheckpointStore = record {
            store = put string_dec s.store i c;
            time = suc s.time;
          } in
          let stored : get string_dec s'.store i ≡ some c =
            ground (arith, get-put string_dec s.store i i c) in
          let plain : (is_quantum_payload v && not (is_prep kind && known)) ≡ false =
            ground arith in
          let asserted : (is_prep kind && not known) ≡ false = ground arith in
          (
            c,
            s',
            rw (e, plain, asserted) refl,
            (load-stored i s' c stored).0 (differing_self (blocks_of encode digest v)),
            λ j n. ground (arith, get-put string_dec s.store i j c),
          ),
      λ n. elim (Bool-cases (is_quantum_payload v && not (is_prep kind && known))) [
        | inl q ↦ rw (e, q) refl
        | inr q ↦ elim (Bool-cases (is_prep kind && not known)) [
          | inl p ↦ rw (e, q, p) refl
          | inr p ↦ absurd (n ((λ x. ground arith), λ x. ground arith))
        ]
      ],
    ),
    λ e. rw e refl,
  )

  zero_plus : {n : ℕ} → 0 + n ≡ n
  zero_plus = omega arith

  differing-corrupted :
      (c : Checkpoint) (n : ℕ)
      → c.blocks ≡ blocks_of encode digest c.payload
      → Changes digest c.blocks
      → n < length c.blocks
      → differing (blocks_of encode digest c.payload) (change_at (corrupted digest) n c.blocks)
        ≡ pos n ∷ []
  unfolding blocks_of
  differing-corrupted c n whole changes inside =
      let cs = chunks (length (encode c.payload)) (encode c.payload) in
      ap (λ bs. differing (blocks_of encode digest c.payload) (change_at (corrupted digest) n bs))
        whole
      ∙ differing-change digest 0 n cs (subst (λ bs. n < length bs) whole inside)
          (subst (Changes digest) whole changes)
      ∙ ap (λ m. pos m ∷ []) zero_plus

  -- A checkpoint whose blocks are those of its payload, under a digest that changes each of its
  -- checksums: to corrupt one of its blocks is found by `verify` at that very block, and `load` then
  -- raises; an index at or above the number of blocks is refused, and so is every negative one.
  pub corrupt-verify :
      (i : String) (n : ℕ) (s : CheckpointStore) (c : Checkpoint)
      → get string_dec s.store i ≡ some c
      → c.blocks ≡ blocks_of encode digest c.payload
      → Changes digest c.blocks
      → (n < length c.blocks
          → (c' : Checkpoint) × (s' : CheckpointStore) × (w : Verification) × (corrupt encode digest
                i
                (pos n)
                s
              ≡ ok (c', s'))
            × (verify encode digest i s' ≡ ok w)
            × (w.corrupt_blocks ≡ pos n ∷ [])
            × (load encode digest i s' ≡ err resilience_error))
        × (length c.blocks ≤ n → corrupt encode digest i (pos n) s ≡ err resilience_error)
        × ((m : ℕ) → corrupt encode digest i (negsuc m) s ≡ err resilience_error)
  unfolding corrupt
  corrupt-verify i n s c g whole changes = (
    λ inside.
        let c' = record c { blocks = change_at (corrupted digest) n c.blocks } in
        let s' = record s { store = put string_dec s.store i c' } in
        let stored : get string_dec s'.store i ≡ some c' =
          ground (arith, get-put string_dec s.store i i c') in
        let found = differing-corrupted c n whole changes inside in
        (
          c',
          s',
          _,
          rw (load_record-stored i s c g) (ground arith),
          verify-stored i s' c' stored,
          found,
          (load-stored i s' c' stored).1 (ap is_nil found),
        ),
    λ outside. rw (load_record-stored i s c g) (ground arith),
    λ m. rw (load_record-stored i s c g) refl,
  )
