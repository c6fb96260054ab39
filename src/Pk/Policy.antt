-- ===== src/Pk/Policy.antt =====
-- pk/pk_components/gap13_policy_engine/component.py: rules, bundles and their evaluation. A request
-- maps attributes to texts; `verification` holds what its key "verified" says.
pub mod Precedence
use df_fabric.Prelude.{
  ℕ, ◌+◌, ◌-◌, String, List, [], ◌∷◌, Bool, true, false, not, ◌&&◌, ◌||◌, Option, none, some,
  length, ltb, leb, ◌==◌, any, all, filter, is_empty, map, is_yes, string_dec, if◌then◌else◌,
}
use df_fabric.Prelude.Dict.{Dict, get}
use df_fabric.Prelude.Text.{text_ltb}
use df_fabric.Prelude.Result.{Result, ok, err, ◌>>=◌, ◌>>◌, raise_if}

pub data PolicyError : Type 0 where
  bundle_rejected scope_escalation : PolicyError

pub data Effect : Type 0 where
  allow deny : Effect

pub record Rule : Type 0 where
  pub name : String
  pub effect : Effect
  pub match : List (String × String)
  pub scope : String

pub record PolicyEngine : Type 0 where
  pub environment : String
  pub version : String
  pub rules : List Rule
  pub loaded_at : ℕ

pub record PolicyVerdict : Type 0 where
  pub effect : Effect
  pub rule : Option String
  pub version : String
  pub stale : Bool
  pub tie_break : Bool
  pub considered : List String

abbrev pub bundle_staleness_bound : ℕ
bundle_staleness_bound = 300

abbrev pub is_deny : Effect → Bool
is_deny deny = true
is_deny allow = false

abbrev pub specificity : Rule → ℕ
specificity r = length r.match

-- `request.get(k) == v`
abbrev pub holds : Dict String String → String × String → Bool
holds request (k, v) = elim (get string_dec request k) [
  | none ↦ false
  | some w ↦ is_yes (string_dec w v)
]

unfoldable pub matches : Rule → Dict String String → Bool
matches r request = all (holds request) r.match

-- `p in match` and `set(a) <= set(b)`
abbrev pub same_pair : String × String → String × String → Bool
same_pair (k, v) (j, w) = is_yes (string_dec k j) && is_yes (string_dec v w)

unfoldable pub subset : List (String × String) → List (String × String) → Bool
subset a b = all (λ p. any (same_pair p) b) a

-- an estate deny that a tenant rule would widen
abbrev pub widened : Rule → Rule → Bool
widened t r = is_yes (string_dec r.scope "estate") && is_deny r.effect && subset r.match t.match

-- a rule of the bundle that `load` refuses
abbrev pub escalates : List Rule → Rule → Bool
escalates rules t =
    is_yes (string_dec t.scope "tenant") && not (is_deny t.effect) && any (widened t) rules

unfoldable pub load :
    List Rule → String → Option Bool → ℕ → PolicyEngine → Result PolicyError (String × PolicyEngine)
load rules version verification now s = do
  raise_if (elim verification [ none ↦ true | some v ↦ not v ]) bundle_rejected
  raise_if (any (escalates rules) rules) scope_escalation
  ok (version, record s { rules = rules; version = version; loaded_at = now })

-- the sort key `(-specificity, effect != "deny", name)`: `a` comes before `b`
unfoldable pub before : Rule → Rule → Bool
before a b =
    ltb (specificity b) (specificity a)
    || (specificity a == specificity b
        && ((is_deny a.effect && not (is_deny b.effect))
            || ((is_deny a.effect || not (is_deny b.effect))
                && (not (is_deny a.effect) || is_deny b.effect)
                && text_ltb a.name b.name)))

insert : Rule → List Rule → List Rule
insert x [] = x ∷ []
insert x (y ∷ ys) = let rest = insert x ys in if before y x then y ∷ rest else x ∷ y ∷ ys

-- `sorted(matched, key=...)`, which is stable
unfoldable pub ordered : List Rule → List Rule
unfolding insert
ordered [] = []
ordered (x ∷ xs) = insert x (ordered xs)

abbrev pub is_peer : Rule → Rule → Bool
is_peer w r =
    specificity r == specificity w
    && ((is_deny r.effect && not (is_deny w.effect))
        || (not (is_deny r.effect) && is_deny w.effect))

verdict_on : List Rule → List Rule → String → Bool → PolicyVerdict
verdict_on matched [] version stale = record {
  effect = deny;
  rule = none;
  version = version;
  stale = stale;
  tie_break = false;
  considered = [];
}
verdict_on matched (w ∷ ws) version stale = record {
  effect = w.effect;
  rule = some w.name;
  version = version;
  stale = stale;
  tie_break = any (is_peer w) matched;
  considered = map (λ r. r.name) (w ∷ ws);
}

unfoldable pub evaluate : Dict String String → ℕ → PolicyEngine → PolicyVerdict
unfolding verdict_on ordered matches
evaluate request now s =
    let matched = filter (λ r. matches r request) s.rules in
    verdict_on matched (ordered matched) s.version (ltb (s.loaded_at + bundle_staleness_bound) now)
