-- ===== src/Pk/Contract.antt =====
-- pk/pk_core/contract.py: the binding contract of an element, and what `validate` finds missing.
use df_fabric.Prelude.{
  ℕ, String, List, [], ◌∷◌, ◌++◌, Bool, not, length, ltb, any, filter, is_empty, is_yes, string_dec,
  if◌then◌else◌, map,
}
use df_fabric.Prelude.Dict.{Dict, has}
use df_fabric.Prelude.Text.{is_blank, lower, codes_eq}
use df_fabric.Prelude.Result.{ok, err}
use df_fabric.Pk.Error.{Raises, value_error}

pub record Dependency : Type 0 where
  pub name : String
  pub relation : String
  pub why : String
  pub required : Bool

pub record Slo : Type 0 where
  pub name : String
  pub objective : String
  pub error_budget : String

pub record Contract : Type 0 where
  pub element : String
  pub name : String
  pub responsibility : String
  pub owns : List String
  pub not_owns : List String
  pub dependencies : List Dependency
  pub source_of_truth : String
  pub assumptions : List String
  pub boundaries : Dict String String
  pub mandatory : List String
  pub optional : List String
  pub non_goals : List String
  pub interfaces : Dict String String
  pub threats : List String
  pub failure_modes : List String
  pub slos : List Slo
  pub signals : Dict String String

pub data ContractDefect : Type 0 where
  no_responsibility no_source_of_truth : ContractDefect
  too_few : String → ContractDefect
  missing_boundaries : List String → ContractDefect
  contradictory : List (List ℕ) → ContractDefect
  no_relation : String → ContractDefect

-- `Dependency(...)`, checked by `__post_init__`
unfoldable pub dependency : String → String → String → Bool → Raises Dependency
dependency name relation why required =
    if any (λ r. is_yes (string_dec r relation)) ("upstream" ∷ "downstream" ∷ "peer" ∷ [])
    then ok (record { name = name; relation = relation; why = why; required = required })
    else err value_error

-- `need(value, label, minimum)` of a collection of `n` entries
unfoldable pub need : ℕ → String → ℕ → List ContractDefect
need n label minimum = if ltb n minimum then too_few label ∷ [] else []

abbrev pub required_boundaries : List String
required_boundaries = "tenant" ∷ "environment" ∷ "site" ∷ "workload" ∷ []

-- the required boundaries that are not declared
unfoldable pub missing : Contract → List String
missing c = filter (λ b. not (has string_dec c.boundaries b)) required_boundaries

-- what is owned and disclaimed at once, in lower case; in the order of `owns`, with repetitions
unfoldable pub overlap : Contract → List (List ℕ)
unfolding lower
overlap c = filter (λ o. any (codes_eq o) (map lower c.not_owns)) (map lower c.owns)

unfoldable pub lacks_relation : Contract → String → Bool
lacks_relation c relation = not (any (λ d. is_yes (string_dec d.relation relation)) c.dependencies)

-- the tests behind the counts
unfoldable pub further_defects : Contract → List ContractDefect
unfolding missing overlap lacks_relation
further_defects c =
    (if is_empty (missing c) then [] else missing_boundaries (missing c) ∷ [])
    ++ ((if is_empty (overlap c) then [] else contradictory (overlap c) ∷ [])
        ++ ((if lacks_relation c "upstream" then no_relation "upstream" ∷ [] else [])
            ++ (if lacks_relation c "downstream" then no_relation "downstream" ∷ [] else [])))

unfoldable pub validate : Contract → List ContractDefect
unfolding need further_defects is_blank
validate c =
    (if is_blank c.responsibility then no_responsibility ∷ [] else [])
    ++ ((if is_blank c.source_of_truth then no_source_of_truth ∷ [] else [])
        ++ (need (length c.owns) "owns" 1
            ++ (need (length c.not_owns) "not_owns" 1
                ++ (need (length c.dependencies) "dependencies" 1
                    ++ (need (length c.assumptions) "assumptions" 2
                        ++ (need (length c.mandatory) "mandatory" 1
                            ++ (need (length c.non_goals) "non_goals" 1
                                ++ (need (length c.interfaces) "interfaces" 1
                                    ++ (need (length c.threats) "threats" 3
                                        ++ (need (length c.failure_modes) "failure_modes" 2
                                            ++ (need (length c.slos) "slos" 1
                                                ++ (need (length c.signals) "signals" 3
                                                    ++ further_defects c))))))))))))
