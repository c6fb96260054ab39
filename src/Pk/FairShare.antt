-- ===== src/Pk/FairShare.antt =====
-- pk/pk_components/gap03_topology_aware_scheduler/component.py: reserved shares of tenants, and the
-- locality cost of a topology. Slots and capacity are natural numbers.
pub mod Reservation
use df_fabric.Prelude.{
  ℕ, ◌+◌, ◌-◌, ◌==◌, String, List, [], ◌∷◌, Bool, true, false, not, ◌&&◌, Option, none, some, ltb,
  filter, map, member, is_yes, string_dec, if◌then◌else◌,
}
use Prim.Native.String.{◌++◌}
use df_fabric.Prelude.Dict.{Dict, get, put, values}
use df_fabric.Prelude.Int.{ℤ, sub_ℕ}
use df_fabric.Prelude.Sort.{sort}
use df_fabric.Prelude.Text.{sorted, text_ltb}
use df_fabric.Prelude.Result.{Result, ok, err, ◌>>=◌, ◌>>◌, raise_if}

pub data SchedulerError : Type 0 where
  not_in_topology share_violation : SchedulerError

abbrev pub Raises : Type 0 → Type 0
Raises = Result SchedulerError

pub record FairShare : Type 0 where
  pub reserved : Dict String ℕ
  pub used : Dict String ℕ
  pub capacity : ℕ

abbrev pub or_zero : Option ℕ → ℕ
or_zero none = 0
or_zero (some n) = n

abbrev pub held : FairShare → String → ℕ
held s tenant = or_zero (get string_dec s.used tenant)

unfoldable pub total : Dict String ℕ → ℕ
total [] = 0
total ((k, n) ∷ d) = n + total d

-- the unmet reservations: `sum(max(0, r - self.held(t)) for t, r in reserved.items())`
unfoldable pub unmet : Dict String ℕ → Dict String ℕ → ℕ
unmet [] used = 0
unmet ((t, r) ∷ d) used = (r - or_zero (get string_dec used t)) + unmet d used

unfoldable pub starved : FairShare → List String
starved s = sorted (map (λ e. e.0) (filter (λ e. ltb (held s e.0) e.1) s.reserved))

-- `surplus`, which is negative where more is reserved or held than there is
unfoldable pub surplus : FairShare → ℤ
unfolding total unmet
surplus s = sub_ℕ s.capacity (total s.used + unmet s.reserved s.used)

-- what the tenant may claim of its own reservation
unfoldable pub within_own : FairShare → String → ℕ
within_own s tenant = or_zero (get string_dec s.reserved tenant) - held s tenant

-- `beyond > self.surplus()`, both sides with the subtracted part moved over
unfoldable pub exceeds : FairShare → String → ℕ → Bool
unfolding total unmet within_own
exceeds s tenant slots =
    ltb (s.capacity + within_own s tenant) (slots + (total s.used + unmet s.reserved s.used))

unfoldable pub claim : String → ℕ → FairShare → Raises FairShare
unfolding exceeds within_own
claim tenant slots s = do
  raise_if (ltb (within_own s tenant) slots && exceeds s tenant slots) share_violation
  ok (record s { used = put string_dec s.used tenant (held s tenant + slots) })

-- a region, a site and a rack
abbrev pub Topology : Type 0
Topology = Dict String (String × String × String)

-- `Topology.path`
unfoldable pub path : Topology → String → Raises (String × String × String)
path t node = elim (get string_dec t node) [ none ↦ err not_in_topology | some p ↦ ok p ]

-- `LEVEL_COST`
abbrev pub rack_cost : ℕ
rack_cost = 1

abbrev pub site_cost : ℕ
site_cost = 10

abbrev pub region_cost : ℕ
region_cost = 100

abbrev same : String → String → Bool
same s t = is_yes (string_dec s t)

abbrev pub distance : String × String × String → String × String × String → ℕ
distance (ra, sa, ka) (rb, sb, kb) =
    if not (same ra rb)
    then region_cost
    else if not (same sa sb)
    then site_cost
    else if not (same ka kb)
    then rack_cost
    else 1

unfoldable pub cost : Topology → String → String → Raises ℕ
unfolding path
cost t a b = if same a b then ok 0 else (do pa ← path t a; pb ← path t b; ok (distance pa pb))

unfoldable pub domain : Topology → String → Raises String
unfolding path
domain t node = do p ← path t node; ok (p.0 ++ ("/" ++ p.1))

-- `{topology.domain(n) for n in spread_from}`
unfoldable pub domains : Topology → List String → Raises (List String)
unfolding domain
domains t [] = ok []
domains t (n ∷ ns) = do d ← domain t n; ds ← domains t ns; ok (d ∷ ds)

-- the candidates with their costs, a failure domain that is taken costing a region more
unfoldable pub scored : Topology → String → List String → List String → Raises (List (ℕ × String))
unfolding cost domain
scored t anchor taken [] = ok []
scored t anchor taken (n ∷ ns) = do
  c ← cost t anchor n
  d ← domain t n
  rest ← scored t anchor taken ns
  ok ((c + (if member string_dec taken d then region_cost else 0), n) ∷ rest)

-- the order of the pairs `(cost, node)`
abbrev pub cheaper : ℕ × String → ℕ × String → Bool
cheaper (c, n) (d, m) = if c == d then text_ltb n m else ltb c d

unfoldable pub rank : Topology → String → List String → List String → Raises (List String)
unfolding scored sort domains
rank t anchor candidates spread_from = do
  taken ← domains t spread_from
  s ← scored t anchor taken candidates
  ok (map (λ e. e.1) (sort cheaper s))
