-- ===== src/Protocols/Ebit/Methods.antt =====
-- The methods of `EbitLedger` other than `request`, and the step that each makes.
use df_fabric.Prelude.Dict.{keys, get}
use df_fabric.Prelude.{
  none, some, List, [], ◌∷◌, ℕ, String, not, Option, ◌≡◌, Bool, is_yes, some, List, ◌∷◌, refl, ltb,
  ap, string_dec, ◌∙◌, Bool-cases, ◌||◌, leb, inl, inr, true,
}
use df_fabric.Protocols.Ebit.State.{
  EprState, generating, heralded, reserved, consumed, expired, failed, released, is_terminal,
  is_usable, Epr-discrete,
}
use df_fabric.Prelude.Result.{Result, ok, err}
use df_fabric.Prelude.Exec.{continue, pure, ◌>>=◌, ◌>>◌}
use df_fabric.Protocols.Error.{ProtocolError}
use df_fabric.Protocols.Ebit.{
  EbitRecord, EbitLedger, Action, get_record, transition, generate, herald, reserve, consume,
  release, fail, expire, expire_step, expire_each, expire_all, owned, ◌>>=◌, sorted, keys,
  text_append, str,
}
use df_fabric.Protocols.Ebit.Lifecycle.{
  Lifecycle, IsLater, IsLater-refl, IsLedger, IsStep, IsStep-refl, transition-IsStep, lookup-IsStep,
  when-IsStep, write-transition-IsStep, stay,
}

-- A call of a method other than `request`.
pub data Call (F : Type 0) : Type 0 where
  generates releases expires : String → ℕ → Call F
  heralds : String → Option F → ℕ → Call F
  reserves : String → String → ℕ → Call F
  consumes : String → ℕ → Option String → Call F
  fails : String → ℕ → String → Call F
  expires_all : ℕ → Call F

module _ {F : Type 0} where
  -- a lookup and one transition
  move-IsStep :
      (s : EbitLedger F) (i : String) (u : EprState) (epoch : ℕ) (note : String)
      → IsLedger s
      → IsStep s ((get_record i >>= λ r. transition r u epoch note) s).1
  move-IsStep s i u epoch note h =
      lookup-IsStep s s i (λ r. transition r u epoch note) (IsStep-refl s h)
        λ r g life. transition-IsStep s s r r u epoch note (IsStep-refl s h) g (IsLater-refl r) life

  continue-IsStep :
      {A B : Type 0} (s t : EbitLedger F) (r : Result ProtocolError A) (k : A → Action F B)
      → IsStep s t
      → ((a : A) (u : EbitLedger F) → IsStep s u → IsStep s (k a u).1)
      → IsStep s (continue r k t).1
  continue-IsStep s t (ok a) k st next = next a t st
  continue-IsStep s t (err e) k st next = st

  -- an action and the rest
  after-IsStep :
      {A B : Type 0} (s t : EbitLedger F) (m : Action F A) (k : A → Action F B)
      → IsStep s (m t).1
      → ((a : A) (u : EbitLedger F) → IsStep s u → IsStep s (k a u).1)
      → IsStep s ((m >>= k) t).1
  after-IsStep s t m k st next = let (r, u) = m t in continue-IsStep s u r k st next

  -- the same ebit with another owner or fidelity
  edited-IsLater :
      (r : EbitRecord F) (f : F) (owner : String)
      → IsLater r (record r { fidelity = f; owner_protocol = owner })
  edited-IsLater r f owner = record {
    ebit_id = refl;
    endpoint_a = refl;
    endpoint_b = refl;
    creation_epoch = refl;
    expiry = refl;
    state = stay;
  }

  reserve-IsStep :
      (s : EbitLedger F) (i owner : String) (epoch : ℕ)
      → IsLedger s
      → IsStep s (reserve i owner epoch s).1
  unfolding reserve
  reserve-IsStep s i owner epoch h = lookup-IsStep s s i _ (IsStep-refl s h) λ r g life.
      when-IsStep s s (not (is_yes (Epr-discrete r.state heralded))) _ (IsStep-refl s h) (
        when-IsStep s s (ltb r.expiry epoch) _ (IsStep-refl s h) (
          write-transition-IsStep s s r (record r { owner_protocol = owner }) reserved epoch
            (text_append "reserved by " owner) (IsStep-refl s h) g
            (edited-IsLater r r.fidelity owner) life))

  owned-IsLater : (r : EbitRecord F) (owner : Option String) → IsLater r (owned r owner)
  owned-IsLater r none = IsLater-refl r
  owned-IsLater r (some o) = edited-IsLater r r.fidelity o

  owned-id : (r : EbitRecord F) (owner : Option String) → (owned r owner).ebit_id ≡ r.ebit_id
  owned-id r none = refl
  owned-id r (some o) = refl

  owned-history :
      (r : EbitRecord F) (owner : Option String)
      → Lifecycle r.provenance r.state
      → Lifecycle (owned r owner).provenance (owned r owner).state
  owned-history r none life = life
  owned-history r (some o) life = life

  consume-IsStep :
      (s : EbitLedger F) (i : String) (epoch : ℕ) (owner : Option String)
      → IsLedger s
      → IsStep s (consume i epoch owner s).1
  unfolding consume
  consume-IsStep s i epoch owner h = lookup-IsStep s s i _ (IsStep-refl s h) λ r g life.
      when-IsStep s s (is_yes (Epr-discrete r.state consumed)) _ (IsStep-refl s h) (
        when-IsStep s s (is_yes (Epr-discrete r.state expired)) _ (IsStep-refl s h) (
          when-IsStep s s (not (is_usable r.state)) _ (IsStep-refl s h) (
            when-IsStep s s (ltb r.expiry epoch) _ (IsStep-refl s h) (
              write-transition-IsStep s s r (owned r owner) consumed epoch
                (text_append "consumed by " (owned r owner).owner_protocol) (IsStep-refl s h)
                (ap (get string_dec s.records) (owned-id r owner) ∙ g) (owned-IsLater r owner)
                (owned-history r owner life)))))

  expire-IsStep :
      (s : EbitLedger F) (i : String) (epoch : ℕ) → IsLedger s → IsStep s (expire i epoch s).1
  unfolding expire
  expire-IsStep s i epoch h =
      lookup-IsStep s s i (λ r. transition r expired epoch "explicit expiry" >> pure (i ∷ []))
        (IsStep-refl s h)
        λ r g life.
          after-IsStep s s (transition r expired epoch "explicit expiry") (λ _. pure (i ∷ []))
            (transition-IsStep s s r r expired epoch "explicit expiry" (IsStep-refl s h) g
              (IsLater-refl r) life)
            (λ _ u st. st)

  expire_step-IsStep :
      (s t : EbitLedger F) (i : String) (epoch : ℕ)
      → IsStep s t
      → IsStep s (expire_step i epoch t).1
  unfolding expire_step
  expire_step-IsStep s t i epoch st = lookup-IsStep s t i _ st λ r g life.
      elim (Bool-cases (is_terminal r.state || leb epoch r.expiry)) [
        | inl e ↦ rw e st
        | inr e ↦
            let note =
              text_append "epoch "
                (text_append (str epoch) (text_append " > expiry " (str r.expiry))) in
            rw e (
              after-IsStep s t (transition r expired epoch note) (λ _. pure true)
                (transition-IsStep s t r r expired epoch note st g (IsLater-refl r) life)
                (λ _ u st'. st'))
      ]

  expire_each-IsStep :
      (is : List String) (s t : EbitLedger F) (epoch : ℕ)
      → IsStep s t
      → IsStep s (expire_each is epoch t).1
  unfolding expire_each
  expire_each-IsStep [] s t epoch st = st
  expire_each-IsStep (i ∷ is) s t epoch st =
      after-IsStep s t (expire_step i epoch) _ (expire_step-IsStep s t i epoch st) λ hit u su.
        after-IsStep s u (expire_each is epoch) _ (expire_each-IsStep is s u epoch su)
          (λ _ v sv. sv)

module _ {F : Type 0} (in_unit : F → Bool) where
  herald-IsStep :
      (s : EbitLedger F) (i : String) (f : Option F) (epoch : ℕ)
      → IsLedger s
      → IsStep s (herald in_unit i f epoch s).1
  unfolding herald
  herald-IsStep s i none epoch h = move-IsStep s i heralded epoch "heralded by the link layer" h
  herald-IsStep s i (some f) epoch h = lookup-IsStep s s i _ (IsStep-refl s h) λ r g life.
      when-IsStep s s (not (in_unit f)) _ (IsStep-refl s h) (
        write-transition-IsStep s s r (record r { fidelity = f }) heralded epoch
          "heralded by the link layer" (IsStep-refl s h) g (edited-IsLater r f r.owner_protocol)
          life)

  -- the ledger after a call, whether it returns or raises
  pub run : Call F → EbitLedger F → EbitLedger F
  run (generates i e) s = (generate i e s).1
  run (heralds i f e) s = (herald in_unit i f e s).1
  run (reserves i o e) s = (reserve i o e s).1
  run (consumes i e o) s = (consume i e o s).1
  run (releases i e) s = (release i e s).1
  run (fails i e n) s = (fail i e n s).1
  run (expires i e) s = (expire i e s).1
  run (expires_all e) s = (expire_all e s).1

  pub run-IsStep : (c : Call F) (s : EbitLedger F) → IsLedger s → IsStep s (run c s)
  unfolding run generate release fail expire_all
  run-IsStep (generates i e) s h = move-IsStep s i generating e "generation started" h
  run-IsStep (heralds i f e) s h = herald-IsStep s i f e h
  run-IsStep (reserves i o e) s h = reserve-IsStep s i o e h
  run-IsStep (consumes i e o) s h = consume-IsStep s i e o h
  run-IsStep (releases i e) s h = move-IsStep s i released e "released unused" h
  run-IsStep (fails i e n) s h = move-IsStep s i failed e n h
  run-IsStep (expires i e) s h = expire-IsStep s i e h
  run-IsStep (expires_all e) s h =
      expire_each-IsStep (sorted (keys s.records)) s s e (IsStep-refl s h)
