-- ===== src/Crdt/AntiEntropy.antt =====
-- `AntiEntropy` of crdt.py, for any replicated type: its merge, its state hash, `copy` with a new
-- `replica_id`, and its value as a Python value.
pub mod Exchange
use df_fabric.Prelude.{
  ℕ, zero, suc, ◌+◌, String, List, [], ◌∷◌, ◌++◌, map, Bool, true, false, ◌&&◌, ◌||◌, not, Option,
  none, some, all, length, is_yes, string_dec, if◌then◌else◌, ltb,
}
use df_fabric.Prelude.Dict.{Dict, get, put, has, keys}
use df_fabric.Prelude.Text.{sorted}
use df_fabric.Prelude.Result.{ok, err, ◌>>=◌, ◌>>◌, raise_if}
use df_fabric.Payload.{Value}
use df_fabric.Crdt.Error.{Raises, crdt_error, quantum_replication_rejected}
use df_fabric.Crdt.Quantum.{is_quantum_value}
use df_fabric.Crdt.Version.{VersionVector, tick}

pub record SyncRecord (H : Type 0) : Type 0 where
  pub round_index : ℕ
  pub a : String
  pub b : String
  pub a_hash_before : H
  pub b_hash_before : H
  pub merged_hash : H
  pub changed : Bool

pub record AntiEntropy (A H : Type 0) : Type 0 where
  pub replicas : Dict String A
  pub history : List (SyncRecord H)
  pub version : VersionVector

pub record ConvergenceReport (H : Type 0) : Type 0 where
  pub converged : Bool
  pub rounds : ℕ
  pub replicas : List String
  pub final_hash : Option H
  pub exchanges : List (SyncRecord H)
  pub final_value : Option Value

-- `AntiEntropy(replicas)`
abbrev pub new : {A H : Type 0} → Dict String A → AntiEntropy A H
new d = record {
  replicas = d;
  history = [];
  version = record { replica_id = "anti_entropy"; versions = [] };
}

-- `itertools.combinations(ids, 2)`
unfoldable pub combinations : List String → List (String × String)
combinations [] = []
combinations (x ∷ xs) = map (λ y. (x, y)) xs ++ combinations xs

-- The dictionary's value at a key that is there: KeyError otherwise.
abbrev pub lookup : {A : Type 0} → Dict String A → String → Raises A
lookup d k = elim (get string_dec d k) [ none ↦ err crdt_error | some r ↦ ok r ]

module _ {A H : Type 0} (hash_dec : Discrete H) (merge : A → A → Raises A) (state_hash : A → H)
    (relabel : String → A → A) (value : A → Value) where
  unfoldable pub add_replica : String → A → AntiEntropy A H → Raises (AntiEntropy A H)
  add_replica i r s = do
    raise_if (has string_dec s.replicas i) crdt_error
    raise_if (is_quantum_value (value r)) quantum_replication_rejected
    ok (record s { replicas = put string_dec s.replicas i r })

  -- the record that an exchange leaves
  unfoldable pub sync_record : ℕ → String → String → A → A → A → SyncRecord H
  sync_record round a b ra rb merged = record {
    round_index = round;
    a = a;
    b = b;
    a_hash_before = state_hash ra;
    b_hash_before = state_hash rb;
    merged_hash = state_hash merged;
    changed =
        not (is_yes (hash_dec (state_hash ra) (state_hash merged)))
        || not (is_yes (hash_dec (state_hash rb) (state_hash merged)));
  }

  unfoldable pub sync :
      ℕ → String → String → AntiEntropy A H → Raises (SyncRecord H × AntiEntropy A H)
  unfolding sync_record
  sync round a b s = do
    ra ← lookup s.replicas a
    rb ← lookup s.replicas b
    merged ← merge ra rb
    let rec = sync_record round a b ra rb merged in
        ok (
          rec,
          record {
            replicas =
                put string_dec (put string_dec s.replicas a (relabel a merged)) b
                  (relabel b merged);
            history = s.history ++ (rec ∷ []);
            version = tick s.version;
          },
        )

  -- one pass over the pairs: whether an exchange changed something
  unfoldable pub sync_pairs :
      ℕ → List (String × String) → Bool → AntiEntropy A H → Raises (Bool × AntiEntropy A H)
  unfolding sync
  sync_pairs round [] changed s = ok (changed, s)
  sync_pairs round ((a, b) ∷ ps) changed s = do
    (rec, s') ← sync round a b s
    sync_pairs round ps (changed || rec.changed) s'

  -- `{self.replicas[i].state_hash() for i in ids}`, as a list
  unfoldable pub hashes : List String → AntiEntropy A H → Raises (List H)
  hashes [] s = ok []
  hashes (i ∷ is) s = do r ← lookup s.replicas i; hs ← hashes is s; ok (state_hash r ∷ hs)

  -- `len(hashes) == 1`
  unfoldable pub agree : List H → Bool
  agree [] = false
  agree (h ∷ hs) = all (λ g. is_yes (hash_dec h g)) hs

  -- `for r in range(max_rounds)`, from round `done` on, with `left` rounds left; the result holds
  -- the number of rounds made
  unfoldable pub run_rounds : ℕ → ℕ → List String → AntiEntropy A H → Raises (ℕ × AntiEntropy A H)
  unfolding sync_pairs hashes agree
  run_rounds zero done ids s = ok (done, s)
  run_rounds (suc left) done ids s = do
    (changed, s') ← sync_pairs done (combinations ids) false s
    hs ← hashes ids s'
    let rest = run_rounds left (suc done) ids s' in
        if agree hs && not changed then ok (suc done, s') else rest

  -- the report on the replicas as they stand after the rounds
  unfoldable pub report : ℕ → List String → AntiEntropy A H → Raises (ConvergenceReport H)
  unfolding hashes agree
  report rounds ids s = do
    hs ← hashes ids s
    first ← first_of ids s
    ok (record {
      converged = agree hs;
      rounds = rounds;
      replicas = ids;
      final_hash = if agree hs then head hs else none;
      exchanges = s.history;
      final_value = if agree hs then some (value first) else none;
    })
    where
      first_of : List String → AntiEntropy A H → Raises A
      first_of [] s = err crdt_error
      first_of (i ∷ is) s = lookup s.replicas i

      head : List H → Option H
      head [] = none
      head (h ∷ hs) = some h

  -- with fewer than two replicas there is nothing to exchange
  unfoldable pub report_alone : List String → AntiEntropy A H → Raises (ConvergenceReport H)
  report_alone [] s = ok (record {
    converged = true;
    rounds = 0;
    replicas = [];
    final_hash = none;
    exchanges = [];
    final_value = none;
  })
  report_alone (i ∷ is) s = do
    r ← lookup s.replicas i
    ok (record {
      converged = true;
      rounds = 0;
      replicas = i ∷ is;
      final_hash = some (state_hash r);
      exchanges = [];
      final_value = some (value r);
    })

  unfoldable pub converge : ℕ → AntiEntropy A H → Raises (ConvergenceReport H × AntiEntropy A H)
  unfolding run_rounds report report_alone sorted combinations
  converge max_rounds s =
      let ids = sorted (keys s.replicas) in
      if ltb (length ids) 2
      then (do r ← report_alone ids s; ok (r, s))
      else (do (rounds, s') ← run_rounds max_rounds 0 ids s; r ← report rounds ids s'; ok (r, s'))
