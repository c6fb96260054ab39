-- ===== src/Protocols/Ebit/Inventory.antt =====
-- `EbitLedger.inventory`, the usable ebits between two nodes, and `counts`.
use df_fabric.Prelude.{
  ℕ, suc, String, List, [], ◌∷◌, Bool, false, ◌&&◌, Option, none, some, leb, is_yes, string_dec,
  if◌then◌else◌, ◌≡◌, All, Bool-cases, Option-cases, inl, inr, arith,
}
use df_fabric.Prelude.Dict.{get, keys, values}
use df_fabric.Prelude.Result.{ok}
use df_fabric.Prelude.Text.{sorted}
use df_fabric.Protocols.Ebit.{EbitRecord, EbitLedger, endpoint_pair, consume}
use df_fabric.Protocols.Ebit.State.{EprState, Epr-discrete, is_usable, consumed}
use df_fabric.Protocols.Ebit.Lifecycle.{IsLedger}
use df_fabric.Protocols.Ebit.Guarantees.{consume_once}

-- equality of two sorted pairs of nodes
unfoldable pub same_pair : String × String → String × String → Bool
same_pair p q = is_yes (string_dec p.0 q.0) && is_yes (string_dec p.1 q.1)

module _ {F : Type 0} where
  unfoldable pub is_available : String → String → ℕ → EbitRecord F → Bool
  unfolding same_pair
  is_available a b epoch r =
      is_usable r.state
      && same_pair (endpoint_pair r.endpoint_a r.endpoint_b) (endpoint_pair a b)
      && leb epoch r.expiry

  abbrev is_available_at : String → String → ℕ → Option (EbitRecord F) → Bool
  is_available_at a b epoch none = false
  is_available_at a b epoch (some r) = is_available a b epoch r

  -- the available ones of some ids
  unfoldable pub available : String → String → ℕ → EbitLedger F → List String → List String
  unfolding is_available
  available a b epoch s [] = []
  available a b epoch s (i ∷ is) =
      let rest = available a b epoch s is in
      if is_available_at a b epoch (get string_dec s.records i) then i ∷ rest else rest

  unfoldable pub inventory : String → String → ℕ → EbitLedger F → List String
  unfolding available sorted
  inventory a b epoch s = available a b epoch s (sorted (keys s.records))

  -- `counts`, as a function of the state
  unfoldable pub count_state : EprState → List (EbitRecord F) → ℕ
  unfolding Epr-discrete
  count_state q [] = 0
  count_state q (r ∷ rs) =
      let rest = count_state q rs in if is_yes (Epr-discrete r.state q) then suc rest else rest

  unfoldable pub counts : EbitLedger F → EprState → ℕ
  unfolding count_state
  counts s q = count_state q (values s.records)

  -- An ebit that can be consumed.
  abbrev pub IsConsumable : EbitLedger F → ℕ → Option String → String → Type 0
  IsConsumable s epoch owner i =
      (r : EbitRecord F) × ((consume i epoch owner s).0 ≡ ok r) × (r.state ≡ consumed)

  available_lem :
      (s : EbitLedger F) (a b : String) (epoch : ℕ) (owner : Option String) (ids : List String)
      → IsLedger s
      → All (IsConsumable s epoch owner) (available a b epoch s ids)
  unfolding available is_available
  available_lem s a b epoch owner [] h = tt
  available_lem s a b epoch owner (i ∷ is) h =
      let rest = available_lem s a b epoch owner is h in
      elim (Option-cases (get string_dec s.records i)) [
        | inl e ↦ rw e rest
        | inr (r, e) ↦ elim (Bool-cases (is_available a b epoch r)) [
          | inl y ↦
              let (c, ran, state, _) =
                (consume_once s i r epoch owner e (h i r e).named).0 (ground arith)
                  (ground arith) in
              rw (e, y) ((c, ran, state), rest)
          | inr n ↦ rw (e, n) rest
        ]
      ]

  -- In a ledger whose records stand under their own ids with a lawful history, every ebit of the
  -- inventory of two nodes at an epoch can be consumed at that epoch.
  pub inventory-consume :
      (s : EbitLedger F) (a b : String) (epoch : ℕ) (owner : Option String)
      → IsLedger s
      → All (IsConsumable s epoch owner) (inventory a b epoch s)
  unfolding inventory
  inventory-consume s a b epoch owner h =
      available_lem s a b epoch owner (sorted (keys s.records)) h
