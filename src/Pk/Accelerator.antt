-- ===== src/Pk/Accelerator.antt =====
-- pk/pk_components/gap11_accelerator_scheduling/component.py: exclusive devices, scrubbed between
-- tenants. A method that raises changes nothing.
pub mod Scrubbing
use df_fabric.Prelude.{
  ℕ, zero, suc, String, List, [], ◌∷◌, Bool, true, false, not, ◌&&◌, ◌||◌, Option, none, some, leb,
  ltb, ◌==◌, all, any, filter, member, is_yes, string_dec, if◌then◌else◌,
}
use df_fabric.Prelude.Dict.{Dict, is_some}
use df_fabric.Prelude.Text.{text_ltb}
use df_fabric.Prelude.Least.{least, update_at}
use df_fabric.Prelude.Result.{Result, ok, err, ◌>>=◌, ◌>>◌, raise_if}

pub data AcceleratorError : Type 0 where
  no_matching_accelerator scrub_required undeclared_partition : AcceleratorError

abbrev pub Raises : Type 0 → Type 0
Raises = Result AcceleratorError

-- a tenant, a workload and a partition
abbrev pub Holder : Type 0
Holder = String × String × Option String

pub record Accelerator : Type 0 where
  pub device : String
  pub generation : String
  pub memory_gb : ℕ
  pub features : List String
  pub partitions : List String
  pub holder : Option Holder
  pub last_tenant : Option String
  pub scrubbed : Bool

abbrev pub Pool : Type 0
Pool = List Accelerator

-- what a workload asks for
pub record Requirement : Type 0 where
  pub tenant : String
  pub workload : String
  pub memory_gb : ℕ
  pub generation : Option String
  pub features : List String
  pub partition : Option String

abbrev pub is_free : Accelerator → Bool
is_free d = not (is_some d.holder)

unfoldable pub matches : Requirement → Accelerator → Bool
matches q d =
    elim q.generation [ none ↦ true | some g ↦ is_yes (string_dec d.generation g) ]
    && (leb q.memory_gb d.memory_gb && all (member string_dec d.features) q.features)

-- `scrub(succeeds=...)`
unfoldable pub scrub : Bool → Accelerator → Accelerator
scrub succeeds d = record d { scrubbed = succeeds }

unfoldable pub is_candidate : Requirement → Accelerator → Bool
unfolding matches
is_candidate q d = is_free d && matches q d

-- the key `(memory_gb, device)`
unfoldable pub smaller : Accelerator → Accelerator → Bool
smaller a b =
    ltb a.memory_gb b.memory_gb || (a.memory_gb == b.memory_gb && text_ltb a.device b.device)

abbrev pub undeclared : Requirement → Accelerator → Bool
undeclared q d = elim q.partition [ none ↦ false | some p ↦ not (member string_dec d.partitions p) ]

-- the two tests on a device that is not clean
abbrev pub of_other_tenant : Requirement → Accelerator → Bool
of_other_tenant q d =
    elim d.last_tenant [ none ↦ false | some t ↦ not (is_yes (string_dec t q.tenant)) ]
    && not d.scrubbed

abbrev pub hold : Requirement → Accelerator → Accelerator
hold q d = record d { holder = some (q.tenant, q.workload, q.partition) }

unfoldable pub allocate : Requirement → Pool → Raises (Accelerator × Pool)
unfolding is_candidate smaller least update_at
allocate q pool = elim (least (is_candidate q) smaller pool) [
  | none ↦ err no_matching_accelerator
  | some (i, d) ↦ do
    raise_if (undeclared q d) undeclared_partition
    raise_if (of_other_tenant q d) scrub_required
    raise_if (not d.scrubbed) scrub_required
    ok (hold q d, update_at (hold q) i pool)
]

abbrev pub vacate : Accelerator → Accelerator
vacate d = elim d.holder [
  | none ↦ d
  | some (t, w, p) ↦ record d { holder = none; last_tenant = some t; scrubbed = false }
]

-- the first device of the name that is held
unfoldable pub release : String → Pool → Pool
release name [] = []
release name (d ∷ ds) =
    let rest = release name ds in
    if is_yes (string_dec d.device name) && is_some d.holder then vacate d ∷ ds else d ∷ rest
