-- ===== src/Pk/Supervisor/Drain.antt =====
-- What a drain does to a node, and what a stopped node has left.
use df_fabric.Prelude.{
  ℕ, String, List, [], ◌∷◌, ◌++◌, Bool, true, false, not, ◌||◌, ◌≡◌, inl, inr, refl, arith, none,
  some, all, filter, is_empty, map, member, is_yes, string_dec, sym, ◌∙◌, ap, filter-none,
  Option-cases, Bool-cases, all-map, filter-all, filter-filter, filter-cong, all_of_each, all_mono,
  fun_ext, subst,
}
use df_fabric.Prelude.Dict.{Dict}
use df_fabric.Prelude.Result.{err}
use df_fabric.Prelude.Sort.{sort, all-sort}
use df_fabric.Pk.Supervisor.{
  NodeSupervisor, NodeState, joining, draining, stopped, illegal_transition, value_error, legal,
  is_stopped, transition, admit, report_health, drain, drain_order, ranked, sooner, delete,
  release_all,
}

some-eq : {A : Type 0} (a b : A) → some a ≡ some b → a ≡ b
some-eq a b h = cc

ranked-keys :
    (p : String → Bool) (d : Dict String String) (r : List (ℕ × String))
    → ranked d ≡ some r
    → all (λ e. p e.1) r ≡ all (λ e. p e.0) d
unfolding ranked all
ranked-keys p [] r h =
    let e : [] ≡ r = some-eq [] r h in subst (λ r. all (λ e. p e.1) r ≡ true) e refl
ranked-keys p ((w, c) ∷ d) r h = elim (Option-cases (ranked d)) [
  | inl n ↦ ground arith
  | inr (rest, n) ↦ ground (arith, ranked-keys p d rest n)
]

-- Every test holds of the drain order exactly when it holds of the resident workloads.
drain_order-keys :
    (p : String → Bool) (d : Dict String String) (ws : List String)
    → drain_order d ≡ some ws
    → all p ws ≡ all (λ e. p e.0) d
unfolding drain_order
drain_order-keys p d ws h = elim (Option-cases (ranked d)) [
  | inl n ↦ ground arith
  | inr (r, n) ↦
      let e : map (λ e. e.1) (sort sooner r) ≡ ws =
        some-eq (map (λ e. e.1) (sort sooner r)) ws (rw (n, drain_order) at h) in
      sym (ap (all p) e)
      ∙ all-map p (λ (e : ℕ × String). e.1) (sort sooner r)
      ∙ all-sort sooner (λ e. p e.1) r
      ∙ ranked-keys p d r n
]

-- What the loop leaves: the workloads that are stubborn or not in the order.
release_all-filter :
    (stubborn ws : List String) (d : Dict String String)
    → release_all stubborn ws d
      ≡ filter (λ e. not (member string_dec ws e.0) || member string_dec stubborn e.0) d
unfolding release_all member delete
release_all-filter stubborn [] d =
    sym (filter-all (λ e. true) d (all_of_each (λ e. true) d (λ e. refl)))
release_all-filter stubborn (w ∷ ws) d = elim (Bool-cases (member string_dec stubborn w)) [
  | inl m ↦
      rw m (release_all-filter stubborn ws d ∙ ap (λ p. filter p d) (fun_ext λ e. ground arith))
  | inr m ↦ rw m (
      release_all-filter stubborn ws (delete d w)
      ∙ filter-filter (λ e. not (member string_dec ws e.0) || member string_dec stubborn e.0)
          (λ e. not (is_yes (string_dec e.0 w))) d
      ∙ ap (λ p. filter p d) (fun_ext λ e. ground arith))
]

all-member_more :
    (xs ys : List String)
    → all (member string_dec xs) ys ≡ true
    → (x : String) → all (member string_dec (x ∷ xs)) ys ≡ true
unfolding member
all-member_more xs ys h x =
    all_mono (member string_dec xs) (member string_dec (x ∷ xs)) ys (λ y m. ground arith) h

-- Every element is a member.
all-member : (xs : List String) → all (member string_dec xs) xs ≡ true
unfolding all member
all-member [] = refl
all-member (x ∷ xs) = ground (arith, all-member_more xs xs (all-member xs) x)

-- The loop over the drain order leaves the stubborn workloads and no other.
release_all-stubborn :
    (stubborn ws : List String) (d : Dict String String)
    → drain_order d ≡ some ws
    → release_all stubborn ws d ≡ filter (λ e. member string_dec stubborn e.0) d
release_all-stubborn stubborn ws d h =
    release_all-filter stubborn ws d
    ∙ filter-cong (λ e. not (member string_dec ws e.0) || member string_dec stubborn e.0)
        (λ e. member string_dec stubborn e.0) (λ e. member string_dec ws e.0) d
        (λ e k. ground arith) (sym (drain_order-keys (member string_dec ws) d ws h) ∙ all-member ws)

legal_stop : legal draining stopped ≡ true
unfolding legal
legal_stop = refl

-- A drain in a state from which the node may drain, with workloads of known classes: the workloads
-- that are stubborn stay and no other. If there are none the drain is complete and the node is
-- stopped without a workload; otherwise the node is held in draining and the breach is written down.
-- With a workload of an unknown class the drain raises ValueError, yet the node is draining, with all
-- its workloads; and in any other state it raises IllegalTransition and changes nothing.
pub drain_lem :
    (stubborn : List String) (now deadline : ℕ) (s : NodeSupervisor)
    → let (r, s') = drain stubborn now deadline s in
      let stays = filter (λ e. member string_dec stubborn e.0) s.workloads in
      (legal s.state draining ≡ false → (r ≡ err illegal_transition) × (s' ≡ s))
      × (legal s.state draining ≡ true
          → (drain_order s.workloads ≡ none
              → (r ≡ err value_error) × (s' ≡ record s { state = draining }))
            × ((ws : List String)
                → drain_order s.workloads ≡ some ws
                → (s'.workloads ≡ stays)
                  × (is_empty stays ≡ true → (s'.state ≡ stopped) × (s'.breaches ≡ s.breaches))
                  × (is_empty stays ≡ false
                      → (s'.state ≡ draining)
                        × (s'.breaches
                            ≡ s.breaches
                              ++ (record {
                                at = now;
                                deadline = deadline;
                                workloads = filter (member string_dec stubborn) ws;
                              }
                                  ∷ [])))))
unfolding drain transition
drain_lem stubborn now deadline s = (
  λ l. (ground arith, ground arith),
  λ l. (
    λ n. (ground arith, ground arith),
    λ ws n.
        let left = release_all-stubborn stubborn ws s.workloads n in
        let held : is_empty (filter (member string_dec stubborn) ws)
            ≡ is_empty (filter (λ e. member string_dec stubborn e.0) s.workloads) =
          filter-none (member string_dec stubborn) ws
          ∙ drain_order-keys (λ w. not (member string_dec stubborn w)) s.workloads ws n
          ∙ sym (filter-none (λ e. member string_dec stubborn e.0) s.workloads) in
        (
          ground (arith, left, held, legal_stop),
          λ e. (ground (arith, left, held, legal_stop), ground (arith, left, held, legal_stop)),
          λ e. (ground (arith, left, held), ground (arith, left, held)),
        ),
  ),
)

-- The calls on a node.
pub data Call : Type 0 where
  transition_call : NodeState → Call
  admit_call : String → String → Call
  report_call : String → ℕ → Call
  drain_call : List String → ℕ → ℕ → Call

abbrev pub step : Call → NodeSupervisor → NodeSupervisor
step (transition_call to) s = (transition to s).1
step (admit_call workload trust_class) s = (admit workload trust_class s).1
step (report_call signal now) s = report_health signal now s
step (drain_call stubborn now deadline) s = (drain stubborn now deadline s).1

abbrev pub runs : List Call → NodeSupervisor → NodeSupervisor
runs [] s = s
runs (c ∷ cs) s = runs cs (step c s)

-- A stopped node holds no workload.
abbrev pub is_vacated : NodeSupervisor → Bool
is_vacated s = not (is_stopped s.state) || is_empty s.workloads

stopped_out : (to : NodeState) → legal stopped to ≡ false
unfolding legal
stopped_out joining = refl
stopped_out _ = refl

drain-vacated :
    (stubborn : List String) (now deadline : ℕ) (s : NodeSupervisor)
    → is_vacated s ≡ true
    → is_vacated (drain stubborn now deadline s).1 ≡ true
drain-vacated stubborn now deadline s v = elim (Bool-cases (legal s.state draining)) [
  | inl l ↦
      let (unknown, known) = (drain_lem stubborn now deadline s).1 l in
      elim (Option-cases (drain_order s.workloads)) [
        | inl n ↦ rw ((unknown n).1) refl
        | inr (ws, n) ↦
            let (left, done, held) = known ws n in
            elim (Bool-cases
              (is_empty (filter (λ e. member string_dec stubborn e.0) s.workloads))) [
                | inl e ↦ ground (arith, ap is_empty left)
                | inr e ↦ ground (arith, held e)
              ]
      ]
  | inr l ↦ rw (((drain_lem stubborn now deadline s).0 l).1) v
]

vacated_nil : (s : NodeSupervisor) → s.state ≡ stopped → is_vacated s ≡ true → s.workloads ≡ []
vacated_nil s e v = ground arith

step-stopped :
    (c : Call) (s : NodeSupervisor)
    → (is_vacated s ≡ true → is_vacated (step c s) ≡ true)
      × (s.state ≡ stopped → ((step c s).state ≡ stopped) × ((step c s).workloads ≡ s.workloads))
unfolding transition admit report_health
step-stopped (transition_call to) s =
    (λ v. ground arith, λ e. (ground (arith, stopped_out to), ground (arith, stopped_out to)))
step-stopped (admit_call workload trust_class) s =
    (λ v. ground arith, λ e. (ground arith, ground arith))
step-stopped (report_call signal now) s = (λ v. v, λ e. (e, refl))
step-stopped (drain_call stubborn now deadline) s = (
  λ v. drain-vacated stubborn now deadline s v,
  λ e.
      let same = ((drain_lem stubborn now deadline s).0 (rw e (stopped_out draining))).1 in
      (rw same e, rw same refl),
)

runs-vacated :
    (cs : List Call) (s : NodeSupervisor) → is_vacated s ≡ true → is_vacated (runs cs s) ≡ true
runs-vacated [] s v = v
runs-vacated (c ∷ cs) s v = runs-vacated cs (step c s) ((step-stopped c s).0 v)

runs-stays :
    (cs : List Call) (s : NodeSupervisor)
    → s.state ≡ stopped
    → ((runs cs s).state ≡ stopped) × ((runs cs s).workloads ≡ s.workloads)
runs-stays [] s e = (e, refl)
runs-stays (c ∷ cs) s e =
    let (e', w) = (step-stopped c s).1 e in
    let (e'', w') = runs-stays cs (step c s) e' in (e'', w' ∙ w)

-- Whatever is called on a node that is not stopped with workloads, and whether the calls return or
-- raise, it holds no workload once it is stopped; and once it is stopped it stays so.
pub runs-stopped :
    (before after : List Call) (s : NodeSupervisor)
    → is_vacated s ≡ true
    → (runs before s).state ≡ stopped
    → ((runs before s).workloads ≡ [])
      × ((runs after (runs before s)).state ≡ stopped)
      × ((runs after (runs before s)).workloads ≡ [])
runs-stopped before after s v e =
    let w : (runs before s).workloads ≡ [] =
      vacated_nil (runs before s) e (runs-vacated before s v) in
    let (e', w') = runs-stays after (runs before s) e in (w, e', w' ∙ w)
