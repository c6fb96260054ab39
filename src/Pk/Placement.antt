-- ===== src/Pk/Placement.antt =====
-- pk/pk_components/sch01_workload_classification_and_runtime_placem/component.py: the class of a
-- workload and the node that it is placed on. Slots and ticks are natural numbers.
pub mod Isolation
use df_fabric.Prelude.{
  ℕ, ◌+◌, ◌-◌, String, List, [], ◌∷◌, Bool, true, false, not, ◌&&◌, ◌||◌, Option, none, some, leb,
  ltb, ◌==◌, any, all, filter, length, member, is_yes, string_dec, if◌then◌else◌,
}
use df_fabric.Prelude.Dict.{Dict, put, values}
use df_fabric.Prelude.Text.{text_ltb, sorted}
use df_fabric.Prelude.Least.{least, update_at}
use df_fabric.Prelude.Result.{Result, ok, err, ◌>>=◌, ◌>>◌}

pub data PlacementError : Type 0 where
  key_error unplaceable stop_iteration : PlacementError

abbrev pub Raises : Type 0 → Type 0
Raises = Result PlacementError

-- TRUST_ORDER; no provenance has the class "first-party"
pub data Trust : Type 0 where
  trusted first_party third_party untrusted hostile : Trust

-- TIER_ORDER
pub data Tier : Type 0 where
  process wasm unikernel microvm vm : Tier

-- `TIER_ORDER.index(t)`
abbrev pub tier_index : Tier → ℕ
tier_index process = 0
tier_index wasm = 1
tier_index unikernel = 2
tier_index microvm = 3
tier_index vm = 4

-- REQUIRED_TIER
abbrev pub required_tier : Trust → Tier
required_tier trusted = process
required_tier first_party = wasm
required_tier third_party = unikernel
required_tier untrusted = microvm
required_tier hostile = vm

abbrev pub freshness_bound : ℕ
freshness_bound = 30

pub record Workload : Type 0 where
  pub name : String
  pub tenant : String
  pub provenance : String
  pub latency_sensitive : Bool
  pub needs : List String
  pub site_affinity : Option String

pub record NodeReport : Type 0 where
  pub name : String
  pub site : String
  pub tiers : List Tier
  pub capabilities : List String
  pub free_slots : ℕ
  pub reported_at : ℕ
  pub thermally_excluded : Bool
  pub occupants : Dict String String

pub record Placement : Type 0 where
  pub workload : String
  pub tenant : String
  pub node : String
  pub site : String
  pub tier : Tier
  pub trust_class : Trust
  pub lease_expires : ℕ
  pub candidates_considered : ℕ

-- what `classify` returns; the latency class says whether the workload is interactive
pub record WorkloadClass : Type 0 where
  pub workload : String
  pub trust_class : Trust
  pub required : Tier
  pub is_interactive : Bool
  pub hardware : List String

class_of : Workload → Trust → WorkloadClass
class_of w k = record {
  workload = w.name;
  trust_class = k;
  required = required_tier k;
  is_interactive = w.latency_sensitive;
  hardware = sorted w.needs;
}

unfoldable pub classify : Workload → Raises WorkloadClass
unfolding class_of
classify w =
    if is_yes (string_dec w.provenance "internal")
    then ok (class_of w trusted)
    else if is_yes (string_dec w.provenance "partner")
    then ok (class_of w third_party)
    else if is_yes (string_dec w.provenance "public")
    then ok (class_of w untrusted)
    else if is_yes (string_dec w.provenance "quarantined")
    then ok (class_of w hostile)
    else err key_error

abbrev pub is_trusted : Trust → Bool
is_trusted trusted = true
is_trusted _ = false

-- `t in node.tiers`
abbrev pub offers : NodeReport → Tier → Bool
offers n t = any (λ u. tier_index u == tier_index t) n.tiers

-- `TIER_ORDER[floor:]`
unfoldable pub tiers_from : Trust → List Tier
tiers_from k =
    filter (λ t. leb (tier_index (required_tier k)) (tier_index t))
      (process ∷ wasm ∷ unikernel ∷ microvm ∷ vm ∷ [])

unfoldable pub first_of : NodeReport → List Tier → Option Tier
first_of n [] = none
first_of n (t ∷ ts) = let rest = first_of n ts in if offers n t then some t else rest

-- the weakest sufficient tier of a node
unfoldable pub tier_for : Trust → NodeReport → Option Tier
unfolding first_of tiers_from
tier_for k n = first_of n (tiers_from k)

-- the site that a workload asks for; an empty text asks for none
abbrev pub at_site : Workload → NodeReport → Bool
at_site w n = elim w.site_affinity [
  | none ↦ true
  | some s ↦ is_yes (string_dec s "") || is_yes (string_dec n.site s)
]

-- a workload that is not trusted shares no node with another tenant
abbrev pub shares_well : Workload → Trust → NodeReport → Bool
shares_well w k n = is_trusted k || all (λ t. is_yes (string_dec t w.tenant)) (values n.occupants)

-- a node that `candidates` keeps
unfoldable pub is_candidate : Workload → Trust → ℕ → NodeReport → Bool
unfolding tiers_from
is_candidate w k now n =
    (not n.thermally_excluded && ltb 0 n.free_slots)
    && (leb now (n.reported_at + freshness_bound)
        && (at_site w n
            && (all (member string_dec n.capabilities) w.needs
                && (any (offers n) (tiers_from k) && shares_well w k n))))

abbrev pub tier_rank : Trust → NodeReport → ℕ
tier_rank k n = elim (tier_for k n) [ none ↦ 5 | some t ↦ tier_index t ]

-- the order of `score`: the weakest sufficient tier, the most free slots, the name
unfoldable pub better : Trust → NodeReport → NodeReport → Bool
unfolding tier_for
better k a b =
    ltb (tier_rank k a) (tier_rank k b)
    || (tier_rank k a == tier_rank k b
        && (ltb b.free_slots a.free_slots
            || (a.free_slots == b.free_slots && text_ltb a.name b.name)))

unfoldable pub occupy : Workload → NodeReport → NodeReport
occupy w n = record n {
  free_slots = n.free_slots - 1;
  occupants = put string_dec n.occupants w.name w.tenant;
}

abbrev pub placement : Workload → Trust → ℕ → ℕ → List NodeReport → NodeReport → Tier → Placement
placement w k now lease_ticks nodes n t = record {
  workload = w.name;
  tenant = w.tenant;
  node = n.name;
  site = n.site;
  tier = t;
  trust_class = k;
  lease_expires = now + lease_ticks;
  candidates_considered = length (filter (is_candidate w k now) nodes);
}

-- the placement on the node of a place
unfoldable pub place_on :
    Workload
    → Trust
    → ℕ
    → ℕ
    → List NodeReport
    → ℕ × NodeReport
    → Raises (Placement × List NodeReport)
unfolding tier_for occupy update_at
place_on w k now lease_ticks nodes (i, n) = elim (tier_for k n) [
  | none ↦ err stop_iteration
  | some t ↦ ok (placement w k now lease_ticks nodes n t, update_at (occupy w) i nodes)
]

unfoldable pub place : Workload → List NodeReport → ℕ → ℕ → Raises (Placement × List NodeReport)
unfolding classify better place_on is_candidate least
place w nodes now lease_ticks = do
  c ← classify w
  let k = c.trust_class
  elim (least (is_candidate w k now) (better k) nodes) [
    | none ↦ err unplaceable
    | some r ↦ place_on w k now lease_ticks nodes r
  ]
