-- ===== src/Protocols/Ebit/State.antt =====
-- lang.EPR_STATES, and EBIT_TRANSITIONS, TERMINAL_EBIT_STATES and USABLE_EBIT_STATES of protocols.py.
use df_fabric.Prelude.{List, [], ◌∷◌, Bool, true, false, any, is_yes}

pub data EprState : Type 0 where
  requested generating heralded reserved consumed expired failed released : EprState

unfoldable pub Epr-discrete : Discrete EprState
Epr-discrete = hlevel

unfoldable pub allowed : EprState → List EprState
allowed requested = generating ∷ failed ∷ expired ∷ []
allowed generating = heralded ∷ failed ∷ expired ∷ []
allowed heralded = reserved ∷ consumed ∷ released ∷ expired ∷ []
allowed reserved = consumed ∷ released ∷ expired ∷ []
allowed consumed = []
allowed expired = []
allowed failed = []
allowed released = []

-- `new_state in EBIT_TRANSITIONS[rec.state]`
unfoldable pub admits : EprState → EprState → Bool
unfolding allowed Epr-discrete any
admits s t = any (λ u. is_yes (Epr-discrete t u)) (allowed s)

-- a state with no next state
unfoldable pub is_terminal : EprState → Bool
unfolding allowed
is_terminal s = elim (allowed s) [ [] ↦ true | _ ∷ _ ↦ false ]

unfoldable pub is_usable : EprState → Bool
is_usable heralded = true
is_usable reserved = true
is_usable _ = false
