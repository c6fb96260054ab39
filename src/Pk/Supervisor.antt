-- ===== src/Pk/Supervisor.antt =====
-- pk/pk_components/gap01_edge_node_supervisor/component.py: the lifecycle of a node and its drain.
-- What is written before a raise stays written; the texts of reasons are not modelled.
pub mod Drain
use df_fabric.Prelude.{
  ℕ, ◌+◌, String, List, [], ◌∷◌, ◌++◌, Bool, true, false, not, ◌&&◌, ◌||◌, Option, none, some, leb,
  ltb, ◌==◌, all, filter, is_empty, map, member, is_yes, string_dec, if◌then◌else◌,
}
use df_fabric.Prelude.Dict.{Dict, get, put}
use df_fabric.Prelude.Sort.{sort}
use df_fabric.Prelude.Text.{text_ltb}
use df_fabric.Prelude.Exec.{Exec, pure, raise, raise_when, modify, gets, ◌>>=◌, ◌>>◌}

pub data SupervisorError : Type 0 where
  illegal_transition drain_incomplete value_error : SupervisorError

pub data NodeState : Type 0 where
  joining ready cordoned draining stopped : NodeState

-- TRANSITIONS
unfoldable pub legal : NodeState → NodeState → Bool
legal joining ready = true
legal joining stopped = true
legal ready cordoned = true
legal ready draining = true
legal ready stopped = true
legal cordoned ready = true
legal cordoned draining = true
legal cordoned stopped = true
legal draining stopped = true
legal draining cordoned = true
legal _ _ = false

abbrev pub is_stopped : NodeState → Bool
is_stopped stopped = true
is_stopped _ = false

abbrev pub is_ready : NodeState → Bool
is_ready ready = true
is_ready _ = false

pub record Breach : Type 0 where
  pub at : ℕ
  pub deadline : ℕ
  pub workloads : List String

pub record NodeSupervisor : Type 0 where
  pub node : String
  pub state : NodeState
  pub workloads : Dict String String
  pub health : Dict String ℕ
  pub breaches : List Breach

pub record DrainReport : Type 0 where
  pub complete : Bool
  pub released : List String
  pub remaining : List String

abbrev pub Method : Type 0 → Type 0
Method = Exec SupervisorError NodeSupervisor

-- HEALTH_STALENESS_BOUND
abbrev pub health_staleness_bound : ℕ
health_staleness_bound = 30

unfoldable pub transition : NodeState → Method NodeState
transition to = do
  from ← gets (λ s. s.state)
  raise_when (not (legal from to)) illegal_transition
  busy ← gets (λ s. not (is_empty s.workloads))
  raise_when (is_stopped to && busy) drain_incomplete
  modify (λ s. record s { state = to })
  pure to

-- `accepts_placement`
abbrev pub accepts_placement : NodeSupervisor → Bool
accepts_placement s = is_ready s.state

unfoldable pub healthy_at : ℕ → NodeSupervisor → Bool
healthy_at now s =
    not (is_empty s.health) && all (λ e. leb now (e.1 + health_staleness_bound)) s.health

unfoldable pub report_health : String → ℕ → NodeSupervisor → NodeSupervisor
report_health signal now s = record s { health = put string_dec s.health signal now }

unfoldable pub admit : String → String → Method (Unit {0})
admit workload trust_class = do
  open_ ← gets accepts_placement
  raise_when (not open_) illegal_transition
  modify (λ s. record s { workloads = put string_dec s.workloads workload trust_class })

-- `DRAIN_ORDER.index(c)`
unfoldable pub drain_index : String → Option ℕ
drain_index c =
    if is_yes (string_dec c "hostile")
    then some 0
    else if is_yes (string_dec c "untrusted")
    then some 1
    else if is_yes (string_dec c "third-party")
    then some 2
    else if is_yes (string_dec c "first-party")
    then some 3
    else if is_yes (string_dec c "trusted")
    then some 4
    else none

-- the workloads with the places of their classes; ValueError on an unknown class
unfoldable pub ranked : Dict String String → Option (List (ℕ × String))
unfolding drain_index
ranked [] = some []
ranked ((w, c) ∷ d) =
    let rest = ranked d in
    elim (drain_index c) [
      | none ↦ none
      | some i ↦ elim rest [ none ↦ none | some r ↦ some ((i, w) ∷ r) ]
    ]

abbrev pub sooner : ℕ × String → ℕ × String → Bool
sooner (i, v) (j, w) = ltb i j || (i == j && text_ltb v w)

unfoldable pub drain_order : Dict String String → Option (List String)
unfolding ranked sort
drain_order d = elim (ranked d) [ none ↦ none | some r ↦ some (map (λ e. e.1) (sort sooner r)) ]

-- `del self.workloads[w]`
unfoldable pub delete : Dict String String → String → Dict String String
delete d k = filter (λ e. not (is_yes (string_dec e.0 k))) d

-- the loop over the drain order
unfoldable pub release_all : List String → List String → Dict String String → Dict String String
unfolding delete
release_all stubborn [] d = d
release_all stubborn (w ∷ ws) d =
    release_all stubborn ws (if member string_dec stubborn w then d else delete d w)

-- what follows the loop: the drain is held up by `remaining`, or complete
finish : List String → List String → ℕ → ℕ → Bool → Method DrainReport
finish remaining released now deadline false = do
  modify (λ s. record s {
    breaches = s.breaches ++ (record { at = now; deadline = deadline; workloads = remaining } ∷ []);
  })
  pure (record { complete = false; released = released; remaining = remaining })
finish remaining released now deadline true = do
  transition stopped
  pure (record { complete = true; released = released; remaining = [] })

release_in : List String → ℕ → ℕ → List String → Method DrainReport
unfolding release_all finish
release_in stubborn now deadline order = do
  let remaining = filter (member string_dec stubborn) order
  let released = filter (λ w. not (member string_dec stubborn w)) order
  modify (λ s. record s { workloads = release_all stubborn order s.workloads })
  finish remaining released now deadline (is_empty remaining)

unfoldable pub drain : List String → ℕ → ℕ → Method DrainReport
unfolding release_in drain_order
drain stubborn now deadline = do
  transition draining
  order ← gets (λ s. drain_order s.workloads)
  elim order [ none ↦ raise value_error | some ws ↦ release_in stubborn now deadline ws ]
