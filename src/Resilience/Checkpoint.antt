-- ===== src/Resilience/Checkpoint.antt =====
-- `CheckpointStore` of resilience.py. `encode` is the UTF-8 of `_canon`, and `digest` the first 32
-- hexadecimal digits of SHA-256; a payload is a value, so nobody changes it after it is saved.
pub mod Blocks
pub mod Methods
use df_fabric.Prelude.{
  ℕ, zero, suc, ◌+◌, ◌<◌, String, List, [], ◌∷◌, ◌++◌, Bool, true, false, not, ◌&&◌, ◌==◌, Option,
  none, some, if◌then◌else◌, string_dec, is_yes, length, leb, ltb,
}
use df_fabric.Prelude.Dict.{Dict, get, put}
use df_fabric.Prelude.Int.{ℤ, pos, negsuc}
use df_fabric.Prelude.Text.{codes}
use df_fabric.Prelude.Result.{ok, err, raise_if, ◌>>=◌, ◌>>◌}
use df_fabric.Payload.{Value}
use df_fabric.Resilience.Error.{
  ResilienceError, resilience_error, quantum_checkpoint_refused, Raises,
}
use df_fabric.Resilience.Quantum.{is_quantum_payload}

-- CHECKPOINT_KINDS
pub data CheckpointKind : Type 0 where
  classical_compiler source ir scheduler classical_measurement : CheckpointKind
  classically_known_state_prep simulator_state : CheckpointKind

-- `kind in CHECKPOINT_KINDS`
unfoldable pub checkpoint_kind_of : String → Raises CheckpointKind
checkpoint_kind_of s =
    if is_yes (string_dec s "classical_compiler")
    then ok classical_compiler
    else if is_yes (string_dec s "source")
    then ok source
    else if is_yes (string_dec s "ir")
    then ok ir
    else if is_yes (string_dec s "scheduler")
    then ok scheduler
    else if is_yes (string_dec s "classical_measurement")
    then ok classical_measurement
    else if is_yes (string_dec s "classically_known_state_prep")
    then ok classically_known_state_prep
    else if is_yes (string_dec s "simulator_state")
    then ok simulator_state
    else err resilience_error

abbrev pub is_prep : CheckpointKind → Bool
is_prep classically_known_state_prep = true
is_prep _ = false

pub record CheckpointBlock : Type 0 where
  pub index : ℕ
  pub checksum : String
  pub nbytes : ℕ

pub record Checkpoint : Type 0 where
  pub checkpoint_id : String
  pub kind : CheckpointKind
  pub scope : String
  pub payload : Value
  pub blocks : List CheckpointBlock
  pub logical_time : ℕ
  pub provenance : Dict String Value

pub record CheckpointStore : Type 0 where
  pub store : Dict String Checkpoint
  pub time : ℕ

-- what `verify` returns; the token is a text for `ok`
pub record Verification : Type 0 where
  pub checkpoint_id : String
  pub ok : Bool
  pub corrupt_blocks : List ℤ
  pub blocks : ℕ

abbrev pub empty_store : CheckpointStore
empty_store = record { store = []; time = 0 }

-- `raw[:n]` and `raw[n:]`
unfoldable pub first_bytes : ℕ → List ℕ → List ℕ
first_bytes zero raw = []
first_bytes (suc n) [] = []
first_bytes (suc n) (b ∷ raw) = b ∷ first_bytes n raw

unfoldable pub later_bytes : ℕ → List ℕ → List ℕ
later_bytes zero raw = raw
later_bytes (suc n) [] = []
later_bytes (suc n) (b ∷ raw) = later_bytes n raw

abbrev pub block_bytes : ℕ
block_bytes = 256

-- the chunks at 0, 256, …: one at least, on fuel
unfoldable pub chunks : ℕ → List ℕ → List (List ℕ)
unfolding first_bytes later_bytes
chunks zero raw = raw ∷ []
chunks (suc fuel) raw =
    let rest = chunks fuel (later_bytes block_bytes raw) in
    if leb (length raw) block_bytes then raw ∷ [] else first_bytes block_bytes raw ∷ rest

-- the block indices whose checksums differ, and -1 where the numbers of blocks do
unfoldable pub differing : List CheckpointBlock → List CheckpointBlock → List ℤ
differing [] [] = []
differing [] (a ∷ actual) = negsuc 0 ∷ []
differing (e ∷ expected) [] = negsuc 0 ∷ []
differing (e ∷ expected) (a ∷ actual) =
    let rest = differing expected actual in
    if is_yes (string_dec e.checksum a.checksum) then rest else pos e.index ∷ rest

abbrev pub is_nil : List ℤ → Bool
is_nil [] = true
is_nil (x ∷ xs) = false

-- `blocks[i] = f(blocks[i])` inside the list
unfoldable pub change_at :
    (CheckpointBlock → CheckpointBlock) → ℕ → List CheckpointBlock → List CheckpointBlock
change_at f i [] = []
change_at f zero (b ∷ bs) = f b ∷ bs
change_at f (suc i) (b ∷ bs) = b ∷ change_at f i bs

abbrev or_missing : Option Checkpoint → Raises Checkpoint
or_missing none = err resilience_error
or_missing (some c) = ok c

-- `load_record`
unfoldable pub load_record : String → CheckpointStore → Raises Checkpoint
load_record i s = or_missing (get string_dec s.store i)

module _ (digest : List ℕ → String) where
  -- the blocks of the chunks, numbered from `n`
  unfoldable pub number : ℕ → List (List ℕ) → List CheckpointBlock
  number n [] = []
  number n (c ∷ cs) =
      record { index = n; checksum = digest c; nbytes = length c } ∷ number (suc n) cs

  -- the block that `corrupt` writes
  unfoldable pub corrupted : CheckpointBlock → CheckpointBlock
  corrupted b = record b { checksum = digest (codes "corrupt" ++ codes b.checksum) }

module _ (encode : Value → List ℕ) (digest : List ℕ → String) where
  -- `_blocks`
  unfoldable pub blocks_of : Value → List CheckpointBlock
  unfolding number chunks
  blocks_of v = number digest 0 (chunks (length (encode v)) (encode v))

  unfoldable pub save :
      String
      → String
      → Value
      → String
      → Bool
      → Dict String Value
      → CheckpointStore
      → Raises (Checkpoint × CheckpointStore)
  unfolding checkpoint_kind_of blocks_of
  save i k v scope known provenance s = do
    kind ← checkpoint_kind_of k
    raise_if (is_quantum_payload v && not (is_prep kind && known)) quantum_checkpoint_refused
    raise_if (is_prep kind && not known) quantum_checkpoint_refused
    let c : Checkpoint = record {
      checkpoint_id = i;
      kind = kind;
      scope = scope;
      payload = v;
      blocks = blocks_of v;
      logical_time = suc s.time;
      provenance = provenance;
    } in
        ok (c, record { store = put string_dec s.store i c; time = suc s.time })

  unfoldable pub verify : String → CheckpointStore → Raises Verification
  unfolding load_record blocks_of differing
  verify i s = do
    c ← load_record i s
    let bad = differing (blocks_of c.payload) c.blocks in
        ok (record {
          checkpoint_id = i;
          ok = is_nil bad;
          corrupt_blocks = bad;
          blocks = length c.blocks;
        })

  unfoldable pub corrupt : String → ℤ → CheckpointStore → Raises (Checkpoint × CheckpointStore)
  unfolding load_record change_at corrupted
  corrupt i (negsuc n) s = do c ← load_record i s; err resilience_error
  corrupt i (pos n) s = do
    c ← load_record i s
    raise_if (not (ltb n (length c.blocks))) resilience_error
    let c' = record c { blocks = change_at (corrupted digest) n c.blocks } in
        ok (c', record s { store = put string_dec s.store i c' })

  unfoldable pub load : String → CheckpointStore → Raises Value
  unfolding load_record verify
  load i s = do
    v ← verify i s
    raise_if (not v.ok) resilience_error
    c ← load_record i s
    ok c.payload
