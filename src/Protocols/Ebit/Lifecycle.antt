-- ===== src/Protocols/Ebit/Lifecycle.antt =====
-- Histories of ebits, and the steps that an `EbitLedger` may make.
use df_fabric.Prelude.{
  ℕ, String, ◌≡◌, refl, List, [], ◌∷◌, ◌++◌, Bool, true, false, none, some, Option-cases,
  Bool-cases, inl, inr, arith, string_dec, ◌∙◌, ap, subst,
}
use df_fabric.Prelude.Dict.{get, get-put}
use df_fabric.Prelude.Exec.{raise_when, ◌>>=◌, ◌>>◌}
use df_fabric.Protocols.Error.{protocol_error}
use df_fabric.Protocols.Ebit.State.{EprState, requested, admits}
use df_fabric.Protocols.Ebit.{
  Transition, EbitRecord, EbitLedger, Action, get_record, write, transition, moved, log_event,
}

-- A history that starts with the request and follows the transition table to the state.
pub data Lifecycle : List Transition → EprState → Type 0 where
  born : (t : Transition) → t.from ≡ none → t.to ≡ requested → Lifecycle (t ∷ []) requested
  then :
      {ts : List Transition} {s : EprState}
      → Lifecycle ts s
      → (t : Transition) → t.from ≡ some s
      → admits s t.to ≡ true
      → Lifecycle (ts ++ (t ∷ [])) t.to

-- Admitted transitions from one state to another.
pub data Leads (s : EprState) : EprState → Type 0 where
  stay : Leads s s
  go : {t u : EprState} → Leads s t → admits t u ≡ true → Leads s u

pub Leads-trans : {s t u : EprState} → Leads s t → Leads t u → Leads s u
Leads-trans p stay = p
Leads-trans p (go q a) = go (Leads-trans p q) a

module _ {F : Type 0} where
  -- The same ebit, later: what identifies it is as it was, and the table leads from state to state.
  pub record IsLater (q r : EbitRecord F) : Type 0 where
    pub ebit_id : r.ebit_id ≡ q.ebit_id
    pub endpoint_a : r.endpoint_a ≡ q.endpoint_a
    pub endpoint_b : r.endpoint_b ≡ q.endpoint_b
    pub creation_epoch : r.creation_epoch ≡ q.creation_epoch
    pub expiry : r.expiry ≡ q.expiry
    pub state : Leads q.state r.state

  pub IsLater-refl : (r : EbitRecord F) → IsLater r r
  IsLater-refl r = record {
    ebit_id = refl;
    endpoint_a = refl;
    endpoint_b = refl;
    creation_epoch = refl;
    expiry = refl;
    state = stay;
  }

  pub IsLater-trans : (p q r : EbitRecord F) → IsLater p q → IsLater q r → IsLater p r
  IsLater-trans p q r a b = record {
    ebit_id = b.ebit_id ∙ a.ebit_id;
    endpoint_a = b.endpoint_a ∙ a.endpoint_a;
    endpoint_b = b.endpoint_b ∙ a.endpoint_b;
    creation_epoch = b.creation_epoch ∙ a.creation_epoch;
    expiry = b.expiry ∙ a.expiry;
    state = Leads-trans a.state b.state;
  }

  -- A record under its own id, with a history that leads to its state.
  pub record IsRecord (i : String) (r : EbitRecord F) : Type 0 where
    pub named : r.ebit_id ≡ i
    pub history : Lifecycle r.provenance r.state

  abbrev pub IsLedger : EbitLedger F → Type 0
  IsLedger s = (i : String) (r : EbitRecord F) → get string_dec s.records i ≡ some r → IsRecord i r

  -- Every ebit of `s` is in `t`, the same or later.
  abbrev pub Evolves : EbitLedger F → EbitLedger F → Type 0
  Evolves s t =
      (i : String) (q : EbitRecord F)
      → get string_dec s.records i ≡ some q
      → (r : EbitRecord F) × (get string_dec t.records i ≡ some r) × IsLater q r

  -- What a call that starts at `s` may leave.
  pub record IsStep (s t : EbitLedger F) : Type 0 where
    pub ledger : IsLedger t
    pub evolves : Evolves s t

  pub IsStep-refl : (s : EbitLedger F) → IsLedger s → IsStep s s
  IsStep-refl s h = record { ledger = h; evolves = λ i q g. (q, g, IsLater-refl q) }

  -- To write a later record in place of the one that is there is a step.
  pub write-IsStep :
      (s t : EbitLedger F) (q r : EbitRecord F)
      → IsStep s t
      → get string_dec t.records r.ebit_id ≡ some q
      → IsLater q r
      → Lifecycle r.provenance r.state
      → IsStep s (write r t)
  unfolding write
  write-IsStep s t q r st g later life = record {
    ledger = λ i p h. elim (string_dec r.ebit_id i) [
      | yes e ↦
          let same : r ≡ p = ground (arith, get-put string_dec t.records r.ebit_id i r) in
          subst (IsRecord i) same (record { named = e; history = life })
      | no n ↦ st.ledger i p (ground (arith, get-put string_dec t.records r.ebit_id i r))
    ];
    evolves = λ i p h.
        let (u, gu, lu) = st.evolves i p h in
        elim (string_dec r.ebit_id i) [
          | yes e ↦
              let same : q ≡ u = ground arith in
              (
                r,
                ground (arith, get-put string_dec t.records r.ebit_id i r),
                IsLater-trans p u r lu (subst (λ x. IsLater x r) same later),
              )
          | no n ↦ (u, ground (arith, get-put string_dec t.records r.ebit_id i r), lu)
        ];
  }

  get-write :
      (r : EbitRecord F) (t : EbitLedger F) → get string_dec (write r t).records r.ebit_id ≡ some r
  unfolding write
  get-write r t = ground (arith, get-put string_dec t.records r.ebit_id r.ebit_id r)

  -- A transition is a step, whether it is admitted or raises.
  pub transition-IsStep :
      (s t : EbitLedger F) (q r : EbitRecord F) (u : EprState) (epoch : ℕ) (note : String)
      → IsStep s t
      → get string_dec t.records r.ebit_id ≡ some q
      → IsLater q r
      → Lifecycle r.provenance r.state
      → IsStep s (transition r u epoch note t).1
  unfolding transition moved log_event
  transition-IsStep s t q r u epoch note st g later life = elim (Bool-cases (admits r.state u)) [
    | inl a ↦
        let m = moved r u epoch note in
        let w =
          write-IsStep s t q m st g
            (record {
              ebit_id = later.ebit_id;
              endpoint_a = later.endpoint_a;
              endpoint_b = later.endpoint_b;
              creation_epoch = later.creation_epoch;
              expiry = later.expiry;
              state = go later.state a;
            })
            (then life (record { from = some r.state; to = u; epoch = epoch; note = note }) refl
              a) in
        rw a (record { ledger = w.ledger; evolves = w.evolves })
    | inr a ↦ rw a st
  ]

  -- A method that begins by looking its ebit up.
  pub lookup-IsStep :
      {A : Type 0} (s t : EbitLedger F) (i : String) (m : EbitRecord F → Action F A)
      → IsStep s t
      → ((r : EbitRecord F)
          → get string_dec t.records r.ebit_id ≡ some r
          → Lifecycle r.provenance r.state
          → IsStep s (m r t).1)
      → IsStep s ((get_record i >>= m) t).1
  unfolding get_record
  lookup-IsStep s t i m st k = elim (Option-cases (get string_dec t.records i)) [
    | inl e ↦ rw e st
    | inr (r, e) ↦
        let good = st.ledger i r e in
        rw e (k r (ap (get string_dec t.records) good.named ∙ e) good.history)
  ]

  -- A test that may raise, and then the rest.
  pub when-IsStep :
      {A : Type 0} (s t : EbitLedger F) (b : Bool) (m : Action F A)
      → IsStep s t
      → IsStep s (m t).1
      → IsStep s ((raise_when b protocol_error >> m) t).1
  when-IsStep s t true m st k = st
  when-IsStep s t false m st k = k

  -- A record that is written back, and a transition of it.
  pub write-transition-IsStep :
      (s t : EbitLedger F) (q r : EbitRecord F) (u : EprState) (epoch : ℕ) (note : String)
      → IsStep s t
      → get string_dec t.records r.ebit_id ≡ some q
      → IsLater q r
      → Lifecycle r.provenance r.state
      → IsStep s (transition r u epoch note (write r t)).1
  write-transition-IsStep s t q r u epoch note st g later life =
      transition-IsStep s (write r t) r r u epoch note (write-IsStep s t q r st g later life)
        (get-write r t) (IsLater-refl r) life
