-- ===== src/Tests/Recovery.antt =====
-- resilience.py at concrete inputs.
use df_fabric.Prelude.{
  ℕ, All, map, ◌≤◌, ◌<◌, String, List, [], ◌∷◌, ◌++◌, Bool, true, false, Option, none, some, ◌≡◌,
  ◌≢◌, refl, arith, string_dec, ap, is_yes, inl, inr, length, if◌then◌else◌, ◌==◌,
}
use df_fabric.Prelude.Dict.{Dict, get}
use df_fabric.Prelude.Int.{pos}
use df_fabric.Prelude.Result.{ok, err}
use df_fabric.Payload.{Value, text, null}
use df_fabric.Resilience.{resilience_error}
use df_fabric.Resilience.Scenario.{ScenarioId}
use df_fabric.Resilience.Planner.{retry_safe}
use df_fabric.Resilience.Supervision.{handle, task, domain, retry, abort, Decision}
use df_fabric.Resilience.Supervision as supervision
use df_fabric.Resilience.Supervision.Escalation.{Ends, handle-Ends}
use df_fabric.Resilience.Campaign.{CampaignEntry, run_campaign, check_known}
use df_fabric.Resilience.Campaign.Entries.{IsHonest, run_campaign_lem}
use df_fabric.Resilience.Checkpoint.{
  Checkpoint, CheckpointStore, save, load, corrupt, chunks, empty_store, block_bytes,
  checkpoint_kind_of, ir, Verification, blocks_of,
}
use df_fabric.Resilience.Checkpoint as checkpoint
use df_fabric.Resilience.Checkpoint.Blocks.{Changes}
use df_fabric.Resilience.Checkpoint.Methods.{Admits, save-load, corrupt-verify}
use df_fabric.Resilience.Transaction.{
  Transaction, rollback, begin, in_progress, committed, live_state, write,
}
use df_fabric.Resilience.Transaction as transaction
use df_fabric.Resilience.Transaction.Rollback.{rollback-write_unset}
use df_fabric.Resilience.Transaction.Methods.{Call, registers, runs, IsClassical}
use df_fabric.Resilience.Transaction.Snapshot.{begin-rollback}
use df_fabric.Resilience.Quantum.{is_quantum_payload}
use df_fabric.Crdt.Quantum

handle_example : Ends (handle task "t" retry_safe supervision.new).0
handle_example = handle-Ends task "t" retry_safe supervision.new

-- stand-ins for the canonical encoding and for the digest
abbrev encoded : Value → List ℕ
encoded (text s) = 1 ∷ 2 ∷ 3 ∷ []
encoded _ = []

abbrev sum_digest : List ℕ → String
sum_digest [] = "-"
sum_digest (c ∷ cs) = if c == 1 then "one" else "other"

x-classical : is_quantum_payload (text "x") ≡ false
unfolding is_quantum_payload df_fabric.Crdt.Quantum.is_qstate_token
x-classical = refl

x-Admits : Admits ir (text "x") false
x-Admits = ((λ q. ground (arith, x-classical)), λ p. ground arith)

save_example :
    (c : Checkpoint) × (s : CheckpointStore) × (save encoded sum_digest "cp" "ir"
        (text "x")
        "worker"
        false
        []
        empty_store
      ≡ ok (c, s))
    × (load encoded sum_digest "cp" s ≡ ok (text "x"))
    × ((j : String) → j ≢ "cp" → get string_dec s.store j ≡ get string_dec empty_store.store j)
unfolding checkpoint_kind_of string_dec
save_example =
    ((save-load encoded sum_digest "cp" "ir" (text "x") "worker" false [] empty_store).0 ir refl).0
      x-Admits

abbrev held : Checkpoint
held = record {
  checkpoint_id = "cp";
  kind = ir;
  scope = "worker";
  payload = text "x";
  blocks = blocks_of encoded sum_digest (text "x");
  logical_time = 1;
  provenance = [];
}

abbrev holding : CheckpointStore
holding = record { store = ("cp", held) ∷ []; time = 1 }

held-Changes : Changes sum_digest held.blocks
unfolding blocks_of checkpoint.number chunks checkpoint.corrupted string_dec
held-Changes =
    ((λ e. let h : false ≡ true = ap (λ s. is_yes (string_dec s "one")) e in ground arith), tt)

one_block : 0 < length held.blocks
unfolding blocks_of checkpoint.number chunks
one_block = omega arith

corrupt_example :
    (c : Checkpoint) × (s : CheckpointStore) × (w : Verification) × (corrupt encoded sum_digest "cp"
        (pos 0)
        holding
      ≡ ok (c, s))
    × (checkpoint.verify encoded sum_digest "cp" s ≡ ok w)
    × (w.corrupt_blocks ≡ pos 0 ∷ [])
    × (load encoded sum_digest "cp" s ≡ err resilience_error)
unfolding get string_dec
corrupt_example =
    (corrupt-verify encoded sum_digest "cp" 0 holding held refl refl held-Changes).0 one_block

abbrev opened : Transaction
opened = record (transaction.new "tx") {
  journal = ("k", text "old") ∷ [];
  live = ("k", text "new") ∷ [];
}

unset_example :
    ((write "z" (text "v") opened).0 ≡ ok tt)
    × (live_state (rollback (write "z" (text "v") opened).1).1 "z" ≡ some null)
unfolding get string_dec transaction.unknown_keys is_quantum_payload
    df_fabric.Crdt.Quantum.is_qstate_token
unset_example = rollback-write_unset opened "z" (text "v") (refl, tt) refl refl refl refl refl

abbrev shot : Dict String Value
shot = ("k", text "x") ∷ []

shot-IsClassical : IsClassical shot
unfolding get
shot-IsClassical k v e = ground (arith, x-classical)

abbrev touches : List Call
touches = registers "q" "QuantumPayload" true ∷ []

snapshot_example :
    (r : transaction.TransactionRecord) × ((rollback
        (runs touches (begin shot (transaction.new "tx")).1)).0
      ≡ ok r)
    × ((k : String) (v : Value)
        → get string_dec shot k ≡ some v
        → live_state (rollback (runs touches (begin shot (transaction.new "tx")).1)).1 k ≡ some v)
unfolding get begin is_quantum_payload transaction.unknown_keys transaction.register_quantum
    Quantum.is_qstate_token df_fabric.Prelude.Dict.put
snapshot_example = (begin-rollback "tx" shot touches (refl, tt) shot-IsClassical).1 refl refl

abbrev no_detail : ScenarioId → ℕ → ℕ
no_detail i n = 0

campaign_example :
    (es : List CampaignEntry) × (run_campaign no_detail no_detail
        ("worker_crash" ∷ "ebit_expiration" ∷ [])
        7
        []
      ≡ ok es)
    × (map (λ e. e.scenario_id) es ≡ "worker_crash" ∷ "ebit_expiration" ∷ [])
    × All IsHonest es
unfolding check_known get string_dec
campaign_example =
    (run_campaign_lem no_detail no_detail ("worker_crash" ∷ "ebit_expiration" ∷ []) 7 []).0 refl
