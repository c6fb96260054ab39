-- ===== src/Pk/Autonomy.antt =====
-- pk/pk_components/gap04_disconnected_operation_controller/component.py: what a site may decide for
-- itself while it is cut off. Ticks are natural numbers.
pub mod Narrowing
use df_fabric.Prelude.{
  ℕ, ◌+◌, ◌-◌, String, List, [], ◌∷◌, ◌++◌, Bool, true, false, not, Option, none, some, leb, ltb,
  max, member, string_dec, if◌then◌else◌, length,
}
use df_fabric.Prelude.Int.{ℤ, sub_ℕ}
use df_fabric.Prelude.Result.{Result, ok, err, ◌>>=◌, ◌>>◌, raise_if}

pub data AutonomyError : Type 0 where
  lease_expired not_permitted_at_tier : AutonomyError

abbrev pub Raises : Type 0 → Type 0
Raises = Result AutonomyError

-- TIERS
pub data Tier : Type 0 where
  full sustain freeze expired : Tier

-- PERMITTED
abbrev pub permitted : Tier → List String
permitted full = "restart" ∷ "rebalance" ∷ "admit-known" ∷ "admit-new" ∷ "scale" ∷ []
permitted sustain = "restart" ∷ "rebalance" ∷ "admit-known" ∷ []
permitted freeze = "restart" ∷ []
permitted expired = []

pub record Decision : Type 0 where
  pub kind : String
  pub subject : String
  pub at : ℕ
  pub tier : Tier
  pub policy_age : ℤ

pub record AutonomyController : Type 0 where
  pub site : String
  pub granted_at : ℕ
  pub lease_ticks : ℕ
  pub partitioned_since : Option ℕ
  pub decisions : List Decision
  pub policy_cached_at : ℕ

pub record Reconciliation : Type 0 where
  pub site : String
  pub partitioned_since : Option ℕ
  pub reconnected_at : ℕ
  pub decisions : List Decision
  pub decision_count : ℕ

abbrev pub expires_at : AutonomyController → ℕ
expires_at s = s.granted_at + s.lease_ticks

unfoldable pub renew : ℕ → Bool → AutonomyController → Raises (ℕ × AutonomyController)
renew now reachable s = do
  raise_if (not reachable) lease_expired
  let s' = record s { granted_at = now; partitioned_since = none }
  ok (expires_at s', s')

unfoldable pub partition : ℕ → AutonomyController → AutonomyController
partition now s = record s {
  partitioned_since = elim s.partitioned_since [ none ↦ some now | some t ↦ some t ];
}

-- TIER_AT, over the age of the partition that began at `since`
abbrev tier_at : ℕ → ℕ → Tier
tier_at since now =
    if leb (since + 120) now then freeze else if leb (since + 30) now then sustain else full

unfoldable pub tier : ℕ → AutonomyController → Tier
tier now s =
    if leb (expires_at s) now
    then expired
    else elim s.partitioned_since [ none ↦ full | some since ↦ tier_at since now ]

abbrev pub is_expired : Tier → Bool
is_expired expired = true
is_expired _ = false

unfoldable pub decide :
    String → String → ℕ → AutonomyController → Raises (Decision × AutonomyController)
decide kind subject now s = do
  raise_if (is_expired (tier now s)) lease_expired
  raise_if (not (member string_dec (permitted (tier now s)) kind)) not_permitted_at_tier
  let d : Decision = record {
    kind = kind;
    subject = subject;
    at = now;
    tier = tier now s;
    policy_age = sub_ℕ now s.policy_cached_at;
  }
  ok (d, record s { decisions = s.decisions ++ (d ∷ []) })

-- `reconcile`; the largest policy age of the decisions is not modelled
unfoldable pub reconcile : ℕ → AutonomyController → Reconciliation × AutonomyController
reconcile now s = (
  record {
    site = s.site;
    partitioned_since = s.partitioned_since;
    reconnected_at = now;
    decisions = s.decisions;
    decision_count = length s.decisions;
  },
  record s { decisions = []; partitioned_since = none },
)
