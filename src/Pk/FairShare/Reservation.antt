-- ===== src/Pk/FairShare/Reservation.antt =====
-- What a claim leaves to the other tenants.
use df_fabric.Prelude.{
  ℕ, ◌+◌, ◌-◌, ◌≤◌, String, [], ◌∷◌, ◌≡◌, ◌≢◌, ◌⊎◌, refl, arith, none, string_dec,
}
use df_fabric.Prelude.Dict.{Dict, get, put, get-put, IsDict}
use df_fabric.Prelude.Result.{ok, err}
use df_fabric.Pk.FairShare.{
  FairShare, share_violation, held, or_zero, total, unmet, within_own, claim,
}

-- What is held and what is still reserved fits into the capacity.
abbrev pub IsCovered : FairShare → Type 0
IsCovered s = total s.used + unmet s.reserved s.used ≤ s.capacity

total-put :
    (d : Dict String ℕ) (k : String) (n : ℕ)
    → total (put string_dec d k (or_zero (get string_dec d k) + n)) ≡ total d + n
unfolding total put get
total-put [] k n = omega arith
total-put ((j, m) ∷ d) k n = ground (arith, total-put d k n)

unmet-put_absent :
    (r used : Dict String ℕ) (k : String) (n : ℕ)
    → get string_dec r k ≡ none
    → unmet r (put string_dec used k n) ≡ unmet r used
unfolding unmet get
unmet-put_absent [] used k n h = refl
unmet-put_absent ((t, m) ∷ r) used k n h =
    ground (arith, get-put string_dec used k t n, unmet-put_absent r used k n)

-- To give a tenant `n` slots more takes from the unmet reservations what it had left of its own.
unmet-put :
    (r used : Dict String ℕ) (k : String) (n : ℕ)
    → IsDict string_dec r
    → let own = or_zero (get string_dec r k) - or_zero (get string_dec used k) in
      (n ≤ own
        → unmet r (put string_dec used k (or_zero (get string_dec used k) + n)) + n ≡ unmet r used)
      × (own ≤ n
          → unmet r (put string_dec used k (or_zero (get string_dec used k) + n)) + own
            ≡ unmet r used)
unfolding unmet get
unmet-put [] used k n h = (λ e. omega arith, λ e. omega arith)
unmet-put ((t, m) ∷ r) used k n h =
    let m' = or_zero (get string_dec used k) + n in
    ground (
      arith,
      get-put string_dec used k t m',
      unmet-put r used k n h.1,
      unmet-put_absent r used k m',
    )

-- A claim is granted exactly when the slots lie within what the tenant has left of its reservation,
-- or what they take beyond it is not needed for the unmet reservations of anybody. Granted, it gives
-- the tenant the slots and nobody else any, and where what is held and still reserved fitted into
-- the capacity it does so again; refused, it raises ShareViolation.
pub claim_lem :
    (tenant : String) (slots : ℕ) (s : FairShare)
    → IsDict string_dec s.reserved
    → ((slots ≤ within_own s tenant)
          ⊎ (slots + (total s.used + unmet s.reserved s.used) ≤ s.capacity + within_own s tenant)
        → (s' : FairShare) × (claim tenant slots s ≡ ok s')
          × (held s' tenant ≡ held s tenant + slots)
          × ((other : String) → other ≢ tenant → held s' other ≡ held s other)
          × (IsCovered s → IsCovered s'))
      × (¬ (
            (slots ≤ within_own s tenant)
            ⊎ (slots + (total s.used + unmet s.reserved s.used) ≤ s.capacity + within_own s tenant))
          → claim tenant slots s ≡ err share_violation)
unfolding claim
claim_lem tenant slots s d = (
  λ h. (
    record s { used = put string_dec s.used tenant (held s tenant + slots) },
    ground arith,
    ground (arith, get-put string_dec s.used tenant tenant (held s tenant + slots)),
    λ other n. ground (arith, get-put string_dec s.used tenant other (held s tenant + slots)),
    λ c. ground (arith, total-put s.used tenant slots, unmet-put s.reserved s.used tenant slots d),
  ),
  λ h. ground arith,
)
