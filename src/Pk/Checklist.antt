-- ===== src/Pk/Checklist.antt =====
-- pk/pk_core/identity.py, checklist.py and the part of component.py that answers a checklist: the
-- ten dimensions, the ten workflow stages, the requirements of an element and the findings.
use df_fabric.Prelude.{
  ℕ, ◌-◌, ◌/◌, String, List, [], ◌∷◌, Bool, true, false, not, ◌&&◌, length, ◌==◌, leb, all, filter,
  string_dec, member, map, if◌then◌else◌,
}
use df_fabric.Prelude.Result.{ok, err, raise_if, ◌>>=◌, ◌>>◌}
use df_fabric.Pk.Error.{Raises, value_error}

pub data Dimension : Type 0 where
  architecture requirements interfaces implementation security : Dimension
  resilience performance observability testing operations : Dimension

pub data Stage : Type 0 where
  w0 w1 w2 w3 w4 w5 w6 w7 w8 w9 : Stage

pub data Status : Type 0 where
  satisfied partial blocked not_applicable : Status

-- `Status.passing`
unfoldable pub passing : Status → Bool
passing satisfied = true
passing not_applicable = true
passing _ = false

abbrev pub is_blocked : Status → Bool
is_blocked blocked = true
is_blocked _ = false

abbrev pub is_partial : Status → Bool
is_partial partial = true
is_partial _ = false

pub record ChecklistItem : Type 0 where
  pub check_id : String
  pub ordinal : ℕ
  pub dimension : Dimension
  pub requirement : String

pub record Finding : Type 0 where
  pub check_id : String
  pub status : Status
  pub stage : Stage
  pub statement : String
  pub artifacts : List String
  pub note : String

-- the dimensions in their order
abbrev pub dimensions : List Dimension
dimensions =
    architecture ∷ requirements ∷ interfaces ∷ implementation ∷ security ∷ resilience ∷ performance
    ∷ observability ∷ testing ∷ operations ∷ []

abbrev nth : ℕ → List Dimension → Raises Dimension
nth n [] = err value_error
nth n (d ∷ ds) = let rest = nth (n - 1) ds in if n == 0 then ok d else rest

-- `Dimension.for_ordinal`
unfoldable pub for_ordinal : ℕ → Raises Dimension
for_ordinal n = if leb 1 n && leb n 100 then nth ((n - 1) / 10) dimensions else err value_error

-- `DIMENSIONS.index(self)`
unfoldable pub dimension_ordinal : Dimension → ℕ
dimension_ordinal architecture = 0
dimension_ordinal requirements = 1
dimension_ordinal interfaces = 2
dimension_ordinal implementation = 3
dimension_ordinal security = 4
dimension_ordinal resilience = 5
dimension_ordinal performance = 6
dimension_ordinal observability = 7
dimension_ordinal testing = 8
dimension_ordinal operations = 9

-- the values of `Dimension`
unfoldable pub dimension_value : Dimension → String
dimension_value architecture = "Architecture & Scope"
dimension_value requirements = "Requirements & Semantics"
dimension_value interfaces = "Interfaces & Integration"
dimension_value implementation = "Implementation & Configuration"
dimension_value security = "Security, Trust & Isolation"
dimension_value resilience = "Resilience & Failure Handling"
dimension_value performance = "Performance & Resource Efficiency"
dimension_value observability = "Observability & Explainability"
dimension_value testing = "Testing & Certification"
dimension_value operations = "Operations, Release & Governance"

-- `Stage.name`
unfoldable pub stage_name : Stage → String
stage_name w0 = "W0"
stage_name w1 = "W1"
stage_name w2 = "W2"
stage_name w3 = "W3"
stage_name w4 = "W4"
stage_name w5 = "W5"
stage_name w6 = "W6"
stage_name w7 = "W7"
stage_name w8 = "W8"
stage_name w9 = "W9"

-- `Stage.value`
unfoldable pub stage_value : Stage → String
stage_value w0 = "Intake & Context Lock"
stage_value w1 = "Baseline & Gap Analysis"
stage_value w2 = "Design & Acceptance Definition"
stage_value w3 = "Implementation"
stage_value w4 = "Integration"
stage_value w5 = "Security & Hardening"
stage_value w6 = "Resilience & Performance"
stage_value w7 = "Verification & Certification"
stage_value w8 = "Release & Rollback"
stage_value w9 = "Evidence Closeout"

-- STAGE_DIMENSIONS
abbrev pub stage_dimensions : Stage → List Dimension
stage_dimensions w0 = architecture ∷ []
stage_dimensions w1 = requirements ∷ []
stage_dimensions w2 = interfaces ∷ []
stage_dimensions w3 = implementation ∷ []
stage_dimensions w4 = []
stage_dimensions w5 = security ∷ []
stage_dimensions w6 = resilience ∷ performance ∷ []
stage_dimensions w7 = testing ∷ []
stage_dimensions w8 = operations ∷ []
stage_dimensions w9 = observability ∷ []

-- `checklist.for_dimension(dimension)`
unfoldable pub for_dimension : List ChecklistItem → Dimension → List ChecklistItem
unfolding dimension_ordinal
for_dimension items d = filter (λ i. dimension_ordinal i.dimension == dimension_ordinal d) items

-- `set(a) == set(b)` of texts
unfoldable pub same_ids : List String → List String → Bool
same_ids a b = all (member string_dec b) a && all (member string_dec a) b

-- `Component.assess`, over the handler of the component's class
unfoldable pub assess :
    (Dimension → List ChecklistItem → Raises (List Finding))
    → List ChecklistItem
    → Dimension
    → Raises (List Finding)
unfolding for_dimension same_ids
assess handler checklist d = do
  let items = for_dimension checklist d
  findings ← handler d items
  raise_if (not (length findings == length items)) value_error
  raise_if (not (same_ids (map (λ i. i.check_id) items) (map (λ f. f.check_id) findings)))
      value_error
  ok findings
