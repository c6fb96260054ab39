-- ===== src/Crdt/AntiEntropy/Exchange.antt =====
-- One exchange of `AntiEntropy`.
use df_fabric.Prelude.{
  ℕ, String, [], ◌∷◌, ◌++◌, false, ◌≡◌, ◌≢◌, ◌↔◌, none, some, arith, string_dec, ite, ◌∙◌, ap,
}
use df_fabric.Prelude.Dict.{get, put, get-put}
use df_fabric.Prelude.Result.{ok, err}
use df_fabric.Payload.{Value}
use df_fabric.Crdt.Error.{Raises, crdt_error}
use df_fabric.Crdt.AntiEntropy.{AntiEntropy, SyncRecord, sync, sync_record, tick}

module _ {A H : Type 0} (hash_dec : Discrete H) (merge : A → A → Raises A) (state_hash : A → H)
    (relabel : String → A → A) (value : A → Value)
    (same : (i : String) (r : A) → state_hash (relabel i r) ≡ state_hash r) where
  -- A registered replica has the hash of `m`.
  abbrev Holds : AntiEntropy A H → String → A → Type 0
  Holds s k m = (r : A) × (get string_dec s.replicas k ≡ some r) × (state_hash r ≡ state_hash m)

  -- Where a new replica id does not change the hash: an exchange between two registered replicas that can be merged leaves both with the hash of the
  -- merge and every other replica as it was; its record says that nothing changed exactly when both
  -- had that hash before. An exchange whose first replica is unknown raises CRDTError.
  pub sync_lem :
      (round : ℕ) (a b : String) (s : AntiEntropy A H)
      → ((ra rb m : A)
          → get string_dec s.replicas a ≡ some ra
          → get string_dec s.replicas b ≡ some rb
          → merge ra rb ≡ ok m
          → (rec : SyncRecord H) × (s' : AntiEntropy A H) × (sync hash_dec merge state_hash relabel
                value round a b s
              ≡ ok (rec, s'))
            × ((k : String)
                → k ≢ a
                → k ≢ b
                → get string_dec s'.replicas k ≡ get string_dec s.replicas k)
            × Holds s' a m
            × Holds s' b m
            × ((rec.changed ≡ false)
                ↔ ((state_hash ra ≡ state_hash m) × (state_hash rb ≡ state_hash m))))
        × (get string_dec s.replicas a ≡ none
            → sync hash_dec merge state_hash relabel value round a b s ≡ err crdt_error)
  unfolding sync
  sync_lem round a b s = (met, λ h. ground arith)
    where
      met :
          (ra rb m : A)
          → get string_dec s.replicas a ≡ some ra
          → get string_dec s.replicas b ≡ some rb
          → merge ra rb ≡ ok m
          → (rec : SyncRecord H) × (s' : AntiEntropy A H) × (sync hash_dec merge state_hash relabel
                value round a b s
              ≡ ok (rec, s'))
            × ((k : String)
                → k ≢ a
                → k ≢ b
                → get string_dec s'.replicas k ≡ get string_dec s.replicas k)
            × Holds s' a m
            × Holds s' b m
            × ((rec.changed ≡ false)
                ↔ ((state_hash ra ≡ state_hash m) × (state_hash rb ≡ state_hash m)))
      met ra rb m ga gb e =
          let one = put string_dec s.replicas a (relabel a m) in
          let s' : AntiEntropy A H = record {
            replicas = put string_dec one b (relabel b m);
            history =
                s.history
                ++ (sync_record hash_dec merge state_hash relabel value round a b ra rb m ∷ []);
            version = tick s.version;
          } in
          let at : (k : String)
              → get string_dec s'.replicas k
                ≡ ite (string_dec b k) (some (relabel b m))
                    (ite (string_dec a k) (some (relabel a m)) (get string_dec s.replicas k)) =
            λ k.
              get-put string_dec one b k (relabel b m)
              ∙ ap (ite (string_dec b k) (some (relabel b m)))
                  (get-put string_dec s.replicas a k (relabel a m)) in
          (
            sync_record hash_dec merge state_hash relabel value round a b ra rb m,
            s',
            ground arith,
            λ k na nb. ground (arith, at k),
            (
              ite (string_dec b a) (relabel b m) (relabel a m),
              ground (arith, at a),
              ground (arith, same b m, same a m),
            ),
            (relabel b m, ground (arith, at b), same b m),
            ground arith,
          )
