-- ===== src/Pk/Autonomy/Narrowing.antt =====
-- How the authority of a site changes while it is cut off.
use df_fabric.Prelude.{
  ℕ, ◌≤◌, String, List, [], ◌∷◌, ◌++◌, Bool, true, false, ◌≡◌, ◌⊎◌, inl, inr, refl, arith, member,
  string_dec, all, all-append, ◌∙◌,
}
use df_fabric.Prelude.Int.{sub_ℕ}
use df_fabric.Prelude.Result.{ok, err, Result-cases}
use df_fabric.Pk.Autonomy.{
  AutonomyController, Decision, Tier, full, sustain, freeze, expired, permitted, partition, tier,
  is_expired, decide, reconcile, renew,
}

-- How far a tier is from full authority.
abbrev rank : Tier → ℕ
rank full = 0
rank sustain = 1
rank freeze = 2
rank expired = 3

permitted-narrows :
    (a b : Tier) (kind : String)
    → rank a ≤ rank b
    → member string_dec (permitted b) kind ≡ true
    → member string_dec (permitted a) kind ≡ true
unfolding member
permitted-narrows full full kind h m = m
permitted-narrows full _ kind h m = ground arith
permitted-narrows sustain full kind h m = absurd (omega arith)
permitted-narrows sustain _ kind h m = ground arith
permitted-narrows freeze full kind h m = absurd (omega arith)
permitted-narrows freeze sustain kind h m = absurd (omega arith)
permitted-narrows freeze _ kind h m = ground arith
permitted-narrows expired full kind h m = absurd (omega arith)
permitted-narrows expired sustain kind h m = absurd (omega arith)
permitted-narrows expired freeze kind h m = absurd (omega arith)
permitted-narrows expired expired kind h m = m

tier-rank :
    (now later : ℕ) (s : AutonomyController) → now ≤ later → rank (tier now s) ≤ rank (tier later s)
unfolding tier
tier-rank now later s h = ground arith

partition-rank :
    (since now : ℕ) (s : AutonomyController)
    → rank (tier now s) ≤ rank (tier now (partition since s))
unfolding tier partition
partition-rank since now s = ground arith

expired-permits :
    (t : Tier) (kind : String) → member string_dec (permitted t) kind ≡ true → is_expired t ≡ false
unfolding member
expired-permits full kind m = refl
expired-permits sustain kind m = refl
expired-permits freeze kind m = refl
expired-permits expired kind m = cc

decide-permitted :
    (kind subject : String) (now : ℕ) (s : AutonomyController)
    → (r : Decision × AutonomyController) → decide kind subject now s ≡ ok r
    → member string_dec (permitted (tier now s)) kind ≡ true
unfolding decide
decide-permitted kind subject now s r e = ground arith

decision : String → String → ℕ → AutonomyController → Decision
decision kind subject now s = record {
  kind = kind;
  subject = subject;
  at = now;
  tier = tier now s;
  policy_age = sub_ℕ now s.policy_cached_at;
}

decide_granted :
    (kind subject : String) (now : ℕ) (s : AutonomyController)
    → member string_dec (permitted (tier now s)) kind ≡ true
    → decide kind subject now s
      ≡ ok (
        decision kind subject now s,
        record s { decisions = s.decisions ++ (decision kind subject now s ∷ []) },
      )
unfolding decide decision
decide_granted kind subject now s m = rw (expired-permits (tier now s) kind m, m) refl

-- The authority of a site that is cut off only narrows: what it may decide at a later tick, and what
-- it may decide once a partition is noticed, it may decide now. A decision that is granted is
-- written down.
pub decide-narrows :
    (kind subject : String) (now later since : ℕ) (s : AutonomyController)
    → now ≤ later
    → (r : Decision × AutonomyController)
    → (decide kind subject later s ≡ ok r) ⊎ (decide kind subject now (partition since s) ≡ ok r)
    → (d : Decision) × (decide kind subject now s
        ≡ ok (d, record s { decisions = s.decisions ++ (d ∷ []) }))
decide-narrows kind subject now later since s h r e =
    (decision kind subject now s, decide_granted kind subject now s (granted e))
  where
    granted :
        (decide kind subject later s ≡ ok r) ⊎ (decide kind subject now (partition since s) ≡ ok r)
        → member string_dec (permitted (tier now s)) kind ≡ true
    granted (inl e) =
        permitted-narrows (tier now s) (tier later s) kind (tier-rank now later s h)
          (decide-permitted kind subject later s r e)
    granted (inr e) =
        permitted-narrows (tier now s) (tier now (partition since s)) kind
          (partition-rank since now s) (decide-permitted kind subject now (partition since s) r e)

-- Every decision on record was permitted at the tier that it names.
abbrev pub IsWarranted : AutonomyController → Type 0
IsWarranted s = all (λ d. member string_dec (permitted d.tier) d.kind) s.decisions ≡ true

-- What happens to a controller between two reconciliations.
pub data Event : Type 0 where
  renewed : ℕ → Bool → Event
  cut_off : ℕ → Event
  asked : String → String → ℕ → Event

abbrev pub step : Event → AutonomyController → AutonomyController
step (renewed now reachable) s = elim (renew now reachable s) [ ok (t, s') ↦ s' | err x ↦ s ]
step (cut_off now) s = partition now s
step (asked kind subject now) s = elim (decide kind subject now s) [ ok (d, s') ↦ s' | err x ↦ s ]

abbrev pub runs : List Event → AutonomyController → AutonomyController
runs [] s = s
runs (e ∷ es) s = runs es (step e s)

step-IsWarranted : (e : Event) (s : AutonomyController) → IsWarranted s → IsWarranted (step e s)
unfolding renew partition decision all
step-IsWarranted (renewed now true) s w = w
step-IsWarranted (renewed now false) s w = w
step-IsWarranted (cut_off now) s w = w
step-IsWarranted (asked kind subject now) s w = elim (Result-cases (decide kind subject now s)) [
  | inl (r, e) ↦
      rw (decide_granted kind subject now s (decide-permitted kind subject now s r e), step)
        (all-append (λ (d : Decision). member string_dec (permitted d.tier) d.kind) s.decisions
            (decision kind subject now s ∷ [])
          ∙ ground (arith, decide-permitted kind subject now s r e))
  | inr (x, e) ↦ rw (e, step) w
]

runs-IsWarranted :
    (es : List Event) (s : AutonomyController) → IsWarranted s → IsWarranted (runs es s)
runs-IsWarranted [] s w = w
runs-IsWarranted (e ∷ es) s w = runs-IsWarranted es (step e s) (step-IsWarranted e s w)

-- After any renewals, partitions and requests, the reconciliation of a controller that began with no
-- decisions hands over every decision on record, each permitted at the tier that it names, and leaves
-- none behind.
pub reconcile-runs :
    (es : List Event) (now : ℕ) (s : AutonomyController)
    → s.decisions ≡ []
    → let (r, s') = reconcile now (runs es s) in
      (all (λ d. member string_dec (permitted d.tier) d.kind) r.decisions ≡ true)
      × (r.decisions ≡ (runs es s).decisions)
      × (s'.decisions ≡ [])
unfolding reconcile all
reconcile-runs es now s h = (runs-IsWarranted es s (rw h refl), refl, refl)
