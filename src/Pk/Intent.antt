-- ===== src/Pk/Intent.antt =====
-- pk/pk_components/pln01_intent_plane/component.py: the graph of what is to be, its order and the plan
-- of a reconciliation. A node is a tenant, an environment and a name; the type of its specification
-- and the equality on it are parameters.
pub mod Rounds
pub mod Order
pub mod Acyclic
use Prim.Derive.{×_discrete}
use df_fabric.Prelude.{
  ℕ, zero, suc, ◌+◌, String, List, [], ◌∷◌, ◌++◌, Bool, true, false, not, ◌&&◌, ◌||◌, Option, none,
  some, any, all, filter, is_empty, length, map, member, is_yes, string_dec, if◌then◌else◌,
}
use df_fabric.Prelude.Dict.{Dict, get, put, has, keys, is_some}
use df_fabric.Prelude.Sort.{sort}
use df_fabric.Prelude.Text.{text_ltb}
use df_fabric.Prelude.Result.{Result, ok, err, ◌>>=◌, ◌>>◌, raise_if}

-- `out_of_fuel` is not an error of the program: it stands for rounds that never end.
pub data IntentError : Type 0 where
  permission_error cycle_error key_error out_of_fuel : IntentError

abbrev pub Raises : Type 0 → Type 0
Raises = Result IntentError

-- a tenant, an environment and a name
abbrev pub Key : Type 0
Key = String × (String × String)

unfoldable pub key_dec : Discrete Key
unfolding string_dec
key_dec = ×_discrete string_dec (×_discrete string_dec string_dec)

-- the order of the keys, from the left
unfoldable pub key_ltb : Key → Key → Bool
key_ltb (s, (e, n)) (t, (f, m)) =
    text_ltb s t
    || (is_yes (string_dec s t) && (text_ltb e f || (is_yes (string_dec e f) && text_ltb n m)))

-- `sorted(keys)`
unfoldable pub sort_keys : List Key → List Key
unfolding sort key_ltb
sort_keys xs = sort key_ltb xs

abbrev pub Edges : Type 0
Edges = Dict Key (List Key)

pub record IntentGraph (S : Type 0) : Type 0 where
  pub nodes : Dict Key S
  pub edges : Edges
  pub version : ℕ

pub data Action : Type 0 where
  create update noop : Action

pub record Step : Type 0 where
  pub step : ℕ
  pub node : Key
  pub action : Action

-- the plan; that it is a dry run is always said
pub record Plan : Type 0 where
  pub graph_version : ℕ
  pub steps : List Step
  pub drifted : List Key

-- `pending`, once the edges to nodes that are not declared are left out
unfoldable pub pending_of : List Key → Edges → Edges
pending_of declared es = map (λ e. (e.0, filter (member key_dec declared) e.1)) es

-- the keys that wait for nothing, in order
unfoldable pub ready_of : Edges → List Key
unfolding sort_keys
ready_of p = sort_keys (map (λ e. e.0) (filter (λ e. is_empty e.1) p))

-- `pending` without the ready keys, as keys and as dependencies
unfoldable pub advance : List Key → Edges → Edges
advance ready p =
    map (λ e. (e.0, filter (λ d. not (member key_dec ready d)) e.1))
      (filter (λ e. not (member key_dec ready e.0)) p)

-- the rounds of `order`
unfoldable pub rounds : ℕ → Edges → Raises (List Key)
unfolding ready_of advance
rounds n [] = ok []
rounds zero (e ∷ p) = err out_of_fuel
rounds (suc n) (e ∷ p) =
    let ready = ready_of (e ∷ p) in
    let rest = rounds n (advance ready (e ∷ p)) in
    if is_empty ready then err cycle_error else (do out ← rest; ok (ready ++ out))

-- `d.pop(key, None)`
unfoldable pub pop : {V : Type 0} → Key → Dict Key V → Dict Key V
pop key d = filter (λ e. not (is_yes (key_dec e.0 key))) d

module _ {S : Type 0} where
  -- `IntentGraph()`
  abbrev pub empty : IntentGraph S
  empty = record { nodes = []; edges = []; version = 0 }

  -- `key` is what is returned
  unfoldable pub declare :
      String → String → String → S → List Key → IntentGraph S → Raises (Key × IntentGraph S)
  declare tenant environment name spec after g = do
    raise_if (any (λ d. not (is_yes (string_dec d.0 tenant))) after) permission_error
    let key : Key = (tenant, (environment, name))
    ok (
      key,
      record {
        nodes = put key_dec g.nodes key spec;
        edges = put key_dec g.edges key after;
        version = suc g.version;
      },
    )

  unfoldable pub retract : Key → IntentGraph S → IntentGraph S
  unfolding pop
  retract key g = record {
    nodes = pop key g.nodes;
    edges = map (λ e. (e.0, filter (λ d. not (is_yes (key_dec d key))) e.1)) (pop key g.edges);
    version = suc g.version;
  }

  unfoldable pub order : IntentGraph S → Raises (List Key)
  unfolding pending_of rounds
  order g = rounds (length g.edges) (pending_of (keys g.nodes) g.edges)

  module _ (same : S → S → Bool) where
    -- `actual.get(key) != spec`
    abbrev pub differs : Dict Key S → Key × S → Bool
    differs actual (key, spec) = elim (get key_dec actual key) [
      | none ↦ true
      | some s ↦ not (same s spec)
    ]

    -- `drift`
    unfoldable pub drift : Dict Key S → IntentGraph S → List Key
    unfolding sort_keys
    drift actual g = sort_keys (map (λ e. e.0) (filter (differs actual) g.nodes))

    -- what a step does
    abbrev pub action : Dict Key S → IntentGraph S → Key → Raises Action
    action actual g key = elim (get key_dec actual key) [
      | none ↦ ok create
      | some a ↦ elim (get key_dec g.nodes key) [
        | none ↦ err key_error
        | some s ↦ ok (if same a s then noop else update)
      ]
    ]

    steps_from : ℕ → Dict Key S → IntentGraph S → List Key → Raises (List Step)
    steps_from n actual g [] = ok []
    steps_from n actual g (k ∷ ks) = do
      a ← action actual g k
      rest ← steps_from (suc n) actual g ks
      ok (record { step = n; node = k; action = a } ∷ rest)

    unfoldable pub plan : IntentGraph S → Dict Key S → Raises Plan
    unfolding order drift steps_from
    plan g actual = do
      out ← order g
      steps ← steps_from 1 actual g out
      ok (record { graph_version = g.version; steps = steps; drifted = drift actual g })
