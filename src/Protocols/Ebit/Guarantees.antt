-- ===== src/Protocols/Ebit/Guarantees.antt =====
-- Sequences of calls on an `EbitLedger`, and what single calls do on each branch.
use Prim.Native.String.{◌++◌ as text_append}
use df_fabric.Prelude.{
  ℕ, ◌≤◌, String, ◌≡◌, ◌≢◌, refl, List, [], ◌∷◌, Bool, true, false, Option, none, some, arith,
  string_dec, Bool-cases, inl, inr, ◌⊎◌, ◌<◌, suc, ap, is_yes, ◌∙◌, ltb,
}
use df_fabric.Prelude.Dict.{get, put, get-put}
use df_fabric.Prelude.Result.{ok, err}
use df_fabric.Protocols.Error.{protocol_error}
use df_fabric.Protocols.Ebit.State.{
  EprState, requested, generating, heralded, reserved, consumed, expired, failed, released, admits,
  is_terminal, is_usable, Epr-discrete,
}
use df_fabric.Protocols.Ebit.{
  requested_record, padded, EbitRecord, EbitLedger, consume, herald, request, owned, write,
  log_event, moved,
}
use df_fabric.Protocols.Ebit.Lifecycle.{
  Leads, stay, go, IsLedger, IsStep, IsStep-refl, IsLater-trans,
}
use df_fabric.Protocols.Ebit.Methods.{Call, run, run-IsStep}

admits_terminal : (s t : EprState) → is_terminal s ≡ true → admits s t ≡ false
unfolding admits is_terminal
admits_terminal requested t h = cc
admits_terminal generating t h = cc
admits_terminal heralded t h = cc
admits_terminal reserved t h = cc
admits_terminal consumed t h = refl
admits_terminal expired t h = refl
admits_terminal failed t h = refl
admits_terminal released t h = refl

usable_admits :
    (t : EprState)
    → is_usable t ≡ true
    → (admits t consumed ≡ true)
      × (is_yes (Epr-discrete t consumed) ≡ false)
      × (is_yes (Epr-discrete t expired) ≡ false)
unfolding is_usable admits
usable_admits heralded h = (refl, refl, refl)
usable_admits reserved h = (refl, refl, refl)
usable_admits _ h = cc

admits_heralded : (s : EprState) → s ≢ generating → admits s heralded ≡ false
unfolding admits
admits_heralded requested n = refl
admits_heralded generating n = absurd (n refl)
admits_heralded heralded n = refl
admits_heralded reserved n = refl
admits_heralded consumed n = refl
admits_heralded expired n = refl
admits_heralded failed n = refl
admits_heralded released n = refl

Leads_terminal : {s t : EprState} → is_terminal s ≡ true → Leads s t → t ≡ s
Leads_terminal h stay = refl
Leads_terminal {s} h (go {t} {u} p a) =
    let e : t ≡ s = Leads_terminal h p in absurd (ground (arith, admits_terminal s u h))

module _ {F : Type 0} (in_unit : F → Bool) where
  -- the ledger after a list of calls, failing ones included
  pub runs : List (Call F) → EbitLedger F → EbitLedger F
  runs [] s = s
  runs (c ∷ cs) s = runs cs (run in_unit c s)

  -- From a ledger whose records stand under their own ids with lawful histories: after any calls of
  -- methods other than `request`, in any order and whether they return or raise, every record still
  -- has its own id and a history that follows the transition table to its state, and every ebit of the start is
  -- there with its ends, its epochs and a state to which the table leads from its old one.
  pub runs-IsStep : (cs : List (Call F)) (s : EbitLedger F) → IsLedger s → IsStep s (runs cs s)
  unfolding runs
  runs-IsStep [] s h = IsStep-refl s h
  runs-IsStep (c ∷ cs) s h =
      let one = run-IsStep in_unit c s h in
      let rest = runs-IsStep cs (run in_unit c s) one.ledger in
      record {
        ledger = rest.ledger;
        evolves = λ i q g.
            let (r, gr, lr) = one.evolves i q g in
            let (u, gu, lu) = rest.evolves i r gr in (u, gu, IsLater-trans q r u lr lu);
      }

  -- In a ledger whose records stand under their own ids with lawful histories, a consumed, expired,
  -- failed or released ebit stays in that state whatever is called of the methods but `request`.
  pub runs_terminal :
      (cs : List (Call F)) (s : EbitLedger F) (i : String) (q : EbitRecord F)
      → IsLedger s
      → get string_dec s.records i ≡ some q
      → is_terminal q.state ≡ true
      → (r : EbitRecord F) × (get string_dec (runs cs s).records i ≡ some r) × (r.state ≡ q.state)
  runs_terminal cs s i q h g t =
      let (r, gr, lr) = (runs-IsStep cs s h).evolves i q g in (r, gr, Leads_terminal t lr.state)

  -- A request for two distinct ends, with an expiry no earlier than its epoch and a fidelity in range,
  -- succeeds and its record is REQUESTED under the id that it returns; any other raises and changes
  -- nothing.
  pub request_lem :
      (a b : String) (epoch expiry : ℕ) (owner : String) (f : F) (s : EbitLedger F)
      → ((a ≢ b)
          → epoch ≤ expiry
          → in_unit f ≡ true
          → (i : String) × (r : EbitRecord F) × ((request in_unit a b epoch expiry owner f s).0
              ≡ ok i)
            × (get string_dec (request in_unit a b epoch expiry owner f s).1.records i ≡ some r)
            × (r.state ≡ requested)
            × (r.endpoint_a ≡ a)
            × (r.endpoint_b ≡ b)
            × (r.expiry ≡ expiry))
        × ((a ≡ b) ⊎ (expiry < epoch) ⊎ (in_unit f ≡ false)
            → request in_unit a b epoch expiry owner f s ≡ (err protocol_error, s))
  unfolding request
  request_lem a b epoch expiry owner f s =
      let i = text_append s.prefix (text_append "-" (padded (suc s.counter))) in
      let r = requested_record i a b epoch expiry owner f in
      (
        λ n le fits.
            let apart : is_yes (string_dec a b) ≡ false = ground arith in
            let early : ltb expiry epoch ≡ false = ground arith in
            (
              i,
              r,
              rw (apart, early, fits) refl,
              rw (apart, early, fits) (ground (arith, get-put string_dec s.records i i r)),
              refl,
              refl,
              refl,
              refl,
            ),
        λ h. ground arith,
      )

module _ {F : Type 0} where
  spend : EbitRecord F → ℕ → Option String → EbitLedger F → EbitLedger F
  spend r epoch owner s =
      let note = text_append "consumed by " (owned r owner).owner_protocol in
      let r' = moved (owned r owner) consumed epoch note in
      log_event (owned r owner) consumed epoch note (write r' (write (owned r owner) s))

  owned-state : (r : EbitRecord F) (owner : Option String) → (owned r owner).state ≡ r.state
  owned-state r none = refl
  owned-state r (some o) = refl

  spend-stored :
      (s : EbitLedger F) (i : String) (r : EbitRecord F) (epoch : ℕ) (owner : Option String)
      → r.ebit_id ≡ i
      → get string_dec (spend r epoch owner s).records i
        ≡ some (
            moved
              (owned r owner)
              consumed
              epoch
              (text_append "consumed by " (owned r owner).owner_protocol))
  unfolding spend moved log_event write
  spend-stored s i r epoch none named = ground (
    arith,
    get-put string_dec (put string_dec s.records r.ebit_id r) r.ebit_id i
        (moved r consumed epoch (text_append "consumed by " r.owner_protocol)),
  )
  spend-stored s i r epoch (some o) named =
      let q = owned r (some o) in
      ground (
        arith,
        get-put string_dec (put string_dec s.records r.ebit_id q) r.ebit_id i
            (moved q consumed epoch (text_append "consumed by " o)),
      )

  consume_usable :
      (s : EbitLedger F) (i : String) (r : EbitRecord F) (epoch : ℕ) (owner : Option String)
      → get string_dec s.records i ≡ some r
      → is_usable r.state ≡ true
      → epoch ≤ r.expiry
      → consume i epoch owner s ≡ (
        ok (
            moved
              (owned r owner)
              consumed
              epoch
              (text_append "consumed by " (owned r owner).owner_protocol)),
        spend r epoch owner s,
      )
  unfolding consume spend
  consume_usable s i r epoch none g u le =
      let (a, c, x) = usable_admits r.state u in
      let early : ltb r.expiry epoch ≡ false = ground arith in rw (g, c, x, u, early, a) refl
  consume_usable s i r epoch (some o) g u le =
      let (a, c, x) = usable_admits r.state u in
      let early : ltb r.expiry epoch ≡ false = ground arith in rw (g, c, x, u, early, a) refl

  consume_unusable :
      (s : EbitLedger F) (i : String) (r : EbitRecord F) (epoch : ℕ) (owner : Option String)
      → get string_dec s.records i ≡ some r
      → (is_usable r.state ≡ false) ⊎ (r.expiry < epoch)
      → consume i epoch owner s ≡ (err protocol_error, s)
  unfolding consume
  consume_unusable s i r epoch owner g (inl e) =
      elim (Bool-cases (is_yes (Epr-discrete r.state consumed))) [
        | inl c ↦ rw (g, c) refl
        | inr c ↦ elim (Bool-cases (is_yes (Epr-discrete r.state expired))) [
          | inl x ↦ rw (g, c, x) refl
          | inr x ↦ rw (g, c, x, e) refl
        ]
      ]
  consume_unusable s i r epoch owner g (inr late) =
      let early : ltb r.expiry epoch ≡ true = ground arith in
      elim (Bool-cases (is_yes (Epr-discrete r.state consumed))) [
        | inl c ↦ rw (g, c) refl
        | inr c ↦ elim (Bool-cases (is_yes (Epr-discrete r.state expired))) [
          | inl x ↦ rw (g, c, x) refl
          | inr x ↦ elim (Bool-cases (is_usable r.state)) [
            | inl e ↦ rw (g, c, x, e, early) refl
            | inr e ↦ rw (g, c, x, e) refl
          ]
        ]
      ]

  -- On a record under its own id, consume succeeds exactly if the ebit is HERALDED or RESERVED and
  -- the epoch has not passed its expiry; it is CONSUMED then, and to consume it again raises.
  pub consume_once :
      (s : EbitLedger F) (i : String) (r : EbitRecord F) (epoch : ℕ) (owner : Option String)
      → get string_dec s.records i ≡ some r
      → r.ebit_id ≡ i
      → (is_usable r.state ≡ true
          → epoch ≤ r.expiry
          → (r' : EbitRecord F) × ((consume i epoch owner s).0 ≡ ok r')
            × (r'.state ≡ consumed)
            × ((epoch' : ℕ) (owner' : Option String)
                → (consume i epoch' owner' (consume i epoch owner s).1).0 ≡ err protocol_error))
        × ((is_usable r.state ≡ false) ⊎ (r.expiry < epoch)
            → consume i epoch owner s ≡ (err protocol_error, s))
  unfolding moved is_usable spend
  consume_once s i r epoch owner g named = (
    λ u le. (
      after,
      ap (λ p. p.0) (consume_usable s i r epoch owner g u le),
      refl,
      λ epoch' owner'.
          ap (λ p. p.0)
            (consume_unusable (consume i epoch owner s).1 i after epoch' owner'
              (ap (λ p. get string_dec p.1.records i) (consume_usable s i r epoch owner g u le)
                ∙ stored)
              (inl refl)),
    ),
    consume_unusable s i r epoch owner g,
  )
    where
      after : EbitRecord F
      after =
          moved (owned r owner) consumed epoch
            (text_append "consumed by " (owned r owner).owner_protocol)

      stored : get string_dec (spend r epoch owner s).records i ≡ some after
      stored = spend-stored s i r epoch owner named

module _ {F : Type 0} (in_unit : F → Bool) where
  -- To herald an ebit that is not GENERATING and is stored under its own id, with a fidelity in range,
  -- raises, and yet its record then has the fidelity that the refused call gave.
  pub herald_refused :
      (s : EbitLedger F) (i : String) (r : EbitRecord F) (f : F) (epoch : ℕ)
      → get string_dec s.records i ≡ some r
      → r.ebit_id ≡ i
      → r.state ≢ generating
      → in_unit f ≡ true
      → ((herald in_unit i (some f) epoch s).0 ≡ err protocol_error)
        × (get string_dec (herald in_unit i (some f) epoch s).1.records i
            ≡ some (record r { fidelity = f }))
  unfolding herald
  herald_refused s i r f epoch g named n fits =
      let q = record r { fidelity = f } in
      let refused : admits r.state heralded ≡ false = admits_heralded r.state n in
      (
        rw (g, fits, refused) refl,
        rw (g, fits, refused) (ground (arith, get-put string_dec s.records r.ebit_id i q)),
      )
