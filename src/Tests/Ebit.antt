-- ===== src/Tests/Ebit.antt =====
-- `EbitLedger` at concrete inputs. A fidelity is given in hundredths.
use df_fabric.Prelude.{
  ℕ, All, String, List, [], ◌∷◌, Bool, none, some, ◌≡◌, ◌≢◌, refl, arith, string_dec, leb, Option,
  subst, ◌∙◌,
}
use df_fabric.Prelude.Dict.{get}
use df_fabric.Prelude.Result.{ok, err}
use df_fabric.Protocols.{protocol_error}
use df_fabric.Protocols.Ebit.{Transition, EbitRecord, EbitLedger, herald, consume}
use df_fabric.Protocols.Ebit.State.{admits, is_usable, requested, generating, heralded, consumed}
use df_fabric.Protocols.Ebit.Lifecycle.{IsRecord, Lifecycle, IsLedger, IsStep, born, then}
use df_fabric.Protocols.Ebit.Inventory.{inventory, IsConsumable, inventory-consume}
use df_fabric.Protocols.Ebit.Methods.{Call, generates, heralds, expires_all}
use df_fabric.Protocols.Ebit.Guarantees.{runs, runs-IsStep, consume_once, herald_refused}

abbrev in_hundred : ℕ → Bool
in_hundred f = leb f 100

abbrev pair : EbitRecord ℕ
pair = record {
  ebit_id = "EB-000001";
  endpoint_a = "n1";
  endpoint_b = "n2";
  creation_epoch = 0;
  fidelity = 100;
  expiry = 9;
  owner_protocol = "-";
  state = heralded;
  provenance = [];
}

abbrev ledger : EbitLedger ℕ
ledger = record { prefix = "EB"; records = ("EB-000001", pair) ∷ []; counter = 1; events = [] }

abbrev requests : Transition
requests = record { from = none; to = requested; epoch = 0; note = "request" }

abbrev fresh : EbitRecord ℕ
fresh = record pair { state = requested; provenance = requests ∷ [] }

abbrev holding : EbitRecord ℕ → EbitLedger ℕ
holding r = record ledger { records = ("EB-000001", r) ∷ [] }

abbrev generates_pair : Transition
generates_pair = record {
  from = some requested;
  to = generating;
  epoch = 1;
  note = "generation started";
}

abbrev heralds_pair : Transition
heralds_pair = record {
  from = some generating;
  to = heralded;
  epoch = 2;
  note = "heralded by the link layer";
}

abbrev ready : EbitRecord ℕ
ready = record pair { provenance = requests ∷ generates_pair ∷ heralds_pair ∷ [] }

holding-IsLedger :
    (q : EbitRecord ℕ)
    → q.ebit_id ≡ "EB-000001"
    → Lifecycle q.provenance q.state
    → IsLedger (holding q)
unfolding get
holding-IsLedger q named life i r g = elim (string_dec "EB-000001" i) [
  | yes e ↦
      let same : q ≡ r = ground arith in
      subst (IsRecord i) same (record { named = named ∙ e; history = life })
  | no n ↦ absurd (ground arith)
]

abbrev calls : List (Call ℕ)
calls = generates "EB-000001" 1 ∷ heralds "EB-000001" (some 90) 2 ∷ expires_all 12 ∷ []

runs_example : IsStep (holding fresh) (runs in_hundred calls (holding fresh))
runs_example =
    runs-IsStep in_hundred calls (holding fresh)
      (holding-IsLedger fresh refl (born requests refl refl))

consume_example :
    (r : EbitRecord ℕ) × ((consume "EB-000001" 3 none ledger).0 ≡ ok r)
    × (r.state ≡ consumed)
    × ((epoch : ℕ) (owner : Option String)
        → (consume "EB-000001" epoch owner (consume "EB-000001" 3 none ledger).1).0
          ≡ err protocol_error)
unfolding get string_dec is_usable
consume_example = (consume_once ledger "EB-000001" pair 3 none refl refl).0 refl (omega arith)

not_generating : heralded ≢ generating
not_generating e = ground arith

herald_example :
    ((herald in_hundred "EB-000001" (some 50) 3 ledger).0 ≡ err protocol_error)
    × (get string_dec (herald in_hundred "EB-000001" (some 50) 3 ledger).1.records "EB-000001"
        ≡ some (record pair { fidelity = 50 }))
unfolding get string_dec
herald_example =
    herald_refused in_hundred ledger "EB-000001" pair 50 3 refl refl not_generating refl

ready-Lifecycle : Lifecycle ready.provenance heralded
unfolding admits
ready-Lifecycle =
    then (then (born requests refl refl) generates_pair refl refl) heralds_pair refl refl

inventory_example :
    All (IsConsumable (holding ready) 3 none) (inventory "n2" "n1" 3 (holding ready))
inventory_example =
    inventory-consume (holding ready) "n2" "n1" 3 none (holding-IsLedger ready refl ready-Lifecycle)
