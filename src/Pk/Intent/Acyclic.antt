-- ===== src/Pk/Intent/Acyclic.antt =====
-- What `order` returns on any graph that is declared.
use df_fabric.Prelude.{
  string_dec, all-filter_self, all_of_filter, all_of_each, fun_ext, ite, String, List, [], ◌∷◌,
  Bool, true, not, ◌&&◌, ◌||◌, any, all, filter, length, map, member, is_yes, ◌≡◌, refl, arith, sym,
  ap, ◌∙◌, all_mono, all-filter, all-map, map-length, subst, Bool-cases, inl, inr,
}
use df_fabric.Prelude.Dict.{Dict, keys, put}
use df_fabric.Prelude.Result.{ok, err}
use df_fabric.Pk.Intent.{
  Key, Edges, Raises, IntentGraph, IntentError, cycle_error, key_dec, pending_of, pop, declare,
  retract, order, empty,
}
use df_fabric.Pk.Intent.Rounds.{distinct, closed_in}
use df_fabric.Pk.Intent.Order.{earlier, placed, Stuck, rounds-Ordered, rounds-Cyclic, any-filter}

-- The keys of a dictionary with one written.
with_key : List Key → Key → List Key
with_key [] k = k ∷ []
with_key (j ∷ ks) k = ite (key_dec j k) (j ∷ ks) (j ∷ with_key ks k)

keys-put :
    {V : Type 0} (d : Dict Key V) (k : Key) (v : V) → keys (put key_dec d k v) ≡ with_key (keys d) k
unfolding put with_key
keys-put [] k v = refl
keys-put ((j, w) ∷ d) k v = ground (arith, keys-put d k v)

keys-pop :
    {V : Type 0} (k : Key) (d : Dict Key V)
    → keys (pop k d) ≡ filter (λ j. not (is_yes (key_dec j k))) (keys d)
unfolding pop filter
keys-pop k [] = refl
keys-pop k ((j, w) ∷ d) = ground (arith, keys-pop k d)

put-all :
    (q : Key → Bool) (d : Edges) (k : Key) (v : List Key)
    → all (λ e. q e.0) d ≡ true
    → q k ≡ true
    → all (λ e. q e.0) (put key_dec d k v) ≡ true
unfolding put all
put-all q [] k v h e = ground arith
put-all q (f ∷ d) k v h e = ground (arith, put-all q d k v)

put-distinct :
    (d : Edges) (k : Key) (v : List Key) → distinct d ≡ true → distinct (put key_dec d k v) ≡ true
unfolding put all
put-distinct [] k v h = refl
put-distinct (e ∷ d) k v h =
    ground (arith, put-all (λ j. not (is_yes (key_dec j e.0))) d k v, put-distinct d k v)

pop-distinct : (k : Key) (d : Edges) → distinct d ≡ true → distinct (pop k d) ≡ true
unfolding pop filter
pop-distinct k [] h = refl
pop-distinct k (e ∷ d) h = ground (
  arith,
  pop-distinct k d,
  all-filter (λ f. not (is_yes (key_dec f.0 k))) (λ f. not (is_yes (key_dec f.0 e.0))) d,
)

map-distinct :
    (f : Key × List Key → List Key) (d : Edges) → distinct (map (λ e. (e.0, f e)) d) ≡ distinct d
map-distinct f [] = refl
map-distinct f (e ∷ d) = ground (
  arith,
  map-distinct f d,
  all-map (λ (g : Key × List Key). not (is_yes (key_dec g.0 e.0))) (λ e. (e.0, f e)) d,
)

map-keys : (f : Key × List Key → List Key) (d : Edges) → keys (map (λ e. (e.0, f e)) d) ≡ keys d
map-keys f [] = refl
map-keys f (e ∷ d) = ap (λ ks. e.0 ∷ ks) (map-keys f d)

-- The calls on a graph; one that raises leaves it as it was.
pub data Call (S : Type 0) : Type 0 where
  declare_call : String → String → String → S → List Key → Call S
  retract_call : Key → Call S

any-pending :
    (k : Key) (ks declared : List Key) (d : Edges)
    → any (λ e. is_yes (key_dec e.0 k) && any (member key_dec ks) e.1) (pending_of declared d)
      ≡ true
    → any (λ e. is_yes (key_dec e.0 k) && any (member key_dec ks) e.1) d ≡ true
unfolding pending_of any
any-pending k ks declared [] h = h
any-pending k ks declared (e ∷ d) h = ground (
  arith,
  any-pending k ks declared d,
  any-filter (member key_dec declared) (member key_dec ks) e.1,
)

Stuck-pending : (ks declared : List Key) (d : Edges) → Stuck (pending_of declared d) ks → Stuck d ks
Stuck-pending ks declared d (some_, h) = (
  some_,
  all_mono
      (λ k.
        any (λ e. is_yes (key_dec e.0 k) && any (member key_dec ks) e.1) (pending_of declared d))
      (λ k. any (λ e. is_yes (key_dec e.0 k) && any (member key_dec ks) e.1) d) ks
      (λ k m. any-pending k ks declared d m) h,
)

placed-pending :
    (out declared : List Key) (d : Edges)
    → placed out (pending_of declared d)
      ≡ all (λ e. all (λ k. not (member key_dec declared k) || earlier k e.0 out) e.1) d
unfolding pending_of
placed-pending out declared d =
    all-map (λ e. all (λ k. earlier k e.0 out) e.1)
      (λ (e : Key × List Key). (e.0, filter (member key_dec declared) e.1)) d
    ∙ ap (λ q. all q d)
        (fun_ext λ e. all_of_filter (member key_dec declared) (λ k. earlier k e.0 out) e.1)

module _ {S : Type 0} where
  -- The nodes and the edges have the same keys, none of them twice.
  abbrev IsGraph : IntentGraph S → Type 0
  IsGraph g = (keys g.nodes ≡ keys g.edges) × (distinct g.edges ≡ true)

  -- What `order` makes of a graph.
  abbrev pending : IntentGraph S → Edges
  pending g = pending_of (keys g.nodes) g.edges

  pending-keys : (g : IntentGraph S) → keys (pending g) ≡ keys g.edges
  unfolding pending_of
  pending-keys g = map-keys (λ e. filter (member key_dec (keys g.nodes)) e.1) g.edges

  pending-distinct : (g : IntentGraph S) → distinct (pending g) ≡ distinct g.edges
  unfolding pending_of
  pending-distinct g = map-distinct (λ e. filter (member key_dec (keys g.nodes)) e.1) g.edges

  nodes-length : (g : IntentGraph S) → IsGraph g → length g.nodes ≡ length g.edges
  nodes-length g (h, d) =
      sym (map-length (λ (e : Key × S). e.0) g.nodes)
      ∙ ap length h
      ∙ map-length (λ (e : Key × List Key). e.0) g.edges

  pending-length : (g : IntentGraph S) → length (pending g) ≡ length g.edges
  unfolding pending_of
  pending-length g =
      map-length (λ (e : Key × List Key). (e.0, filter (member key_dec (keys g.nodes)) e.1)) g.edges

  abbrev after : Raises (Key × IntentGraph S) → IntentGraph S → IntentGraph S
  after (ok (k, g')) g = g'
  after (err x) g = g

  abbrev pub step : Call S → IntentGraph S → IntentGraph S
  step (declare_call tenant environment name spec after_) g =
      after (declare tenant environment name spec after_ g) g
  step (retract_call key) g = retract key g

  abbrev pub runs : List (Call S) → IntentGraph S → IntentGraph S
  runs [] g = g
  runs (c ∷ cs) g = runs cs (step c g)

  step-IsGraph : (c : Call S) (g : IntentGraph S) → IsGraph g → IsGraph (step c g)
  unfolding declare retract
  step-IsGraph (declare_call tenant environment name spec after_) g (h, d) =
      let key : Key = (tenant, (environment, name)) in
      elim (Bool-cases (any (λ d. not (is_yes (string_dec d.0 tenant))) after_)) [
        | inl e ↦ rw e (h, d)
        | inr e ↦ rw e (
          keys-put g.nodes key spec
              ∙ ap (λ ks. with_key ks key) h
              ∙ sym (keys-put g.edges key after_),
          put-distinct g.edges key after_ d,
        )
      ]
  step-IsGraph (retract_call key) g (h, d) = (
    keys-pop key g.nodes
        ∙ ap (filter (λ j. not (is_yes (key_dec j key)))) h
        ∙ sym (keys-pop key g.edges)
        ∙ sym (map-keys (λ e. filter (λ d. not (is_yes (key_dec d key))) e.1) (pop key g.edges)),
    map-distinct (λ e. filter (λ d. not (is_yes (key_dec d key))) e.1) (pop key g.edges)
        ∙ pop-distinct key g.edges d,
  )

  runs-IsGraph : (cs : List (Call S)) (g : IntentGraph S) → IsGraph g → IsGraph (runs cs g)
  runs-IsGraph [] g h = h
  runs-IsGraph (c ∷ cs) g h = runs-IsGraph cs (step c g) (step-IsGraph c g h)

  pending-closed : (g : IntentGraph S) → IsGraph g → closed_in (pending g) (pending g) ≡ true
  unfolding pending_of
  pending-closed g (h, d) =
      let declared = keys g.nodes in
      subst (λ ks. all (λ e. all (member key_dec ks) e.1) (pending g) ≡ true)
        (h ∙ sym (pending-keys g))
        (all-map (λ e. all (member key_dec declared) e.1)
            (λ (e : Key × List Key). (e.0, filter (member key_dec declared) e.1)) g.edges
          ∙ all_of_each (λ e. all (member key_dec declared) (filter (member key_dec declared) e.1))
              g.edges (λ e. all-filter_self (member key_dec declared) e.1))

  graph_order :
      (g : IntentGraph S)
      → IsGraph g
      → ((out : List Key)
          → order g ≡ ok out
          → (length out ≡ length g.nodes)
            × ((q : Key → Bool) → all q out ≡ all q (keys g.nodes))
            × (all
                  (λ e. all (λ d. not (member key_dec (keys g.nodes) d) || earlier d e.0 out) e.1)
                  g.edges
                ≡ true))
        × ((x : IntentError)
            → order g ≡ err x
            → (x ≡ cycle_error) × (ks : List Key) × Stuck g.edges ks)
  unfolding order
  graph_order g (h, d) = (
    λ out e.
        let (count, same, places) =
          rounds-Ordered (length g.edges) (pending g) out (pending-distinct g ∙ d) e in
        (
          count ∙ pending-length g ∙ sym (nodes-length g (h, d)),
          λ q. same q ∙ ap (all q) (pending-keys g ∙ sym h),
          sym (placed-pending out (keys g.nodes) g.edges) ∙ places,
        ),
    λ x e.
        let (kind, ks, stuck) =
          rounds-Cyclic (length g.edges) (pending g) x (pending-distinct g ∙ d)
            (pending-closed g (h, d)) (omega (arith, pending-length g)) e in
        (kind, ks, Stuck-pending ks (keys g.nodes) g.edges stuck),
  )

  -- On the graph that any calls leave, and whether they return or raise: an order that is returned
  -- has each node once, behind every declared node that it is to be reconciled after; and the only
  -- way to fail is CycleError, with nodes that each have an edge to one of them.
  pub order_lem :
      (cs : List (Call S))
      → let g = runs cs empty in
        ((out : List Key)
          → order g ≡ ok out
          → (length out ≡ length g.nodes)
            × ((q : Key → Bool) → all q out ≡ all q (keys g.nodes))
            × (all
                  (λ e. all (λ d. not (member key_dec (keys g.nodes) d) || earlier d e.0 out) e.1)
                  g.edges
                ≡ true))
        × ((x : IntentError)
            → order g ≡ err x
            → (x ≡ cycle_error) × (ks : List Key) × Stuck g.edges ks)
  order_lem cs = graph_order (runs cs empty) (runs-IsGraph cs empty (refl, refl))
