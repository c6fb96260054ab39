-- ===== src/Pk/Policy/Precedence.antt =====
-- Which rule decides, and what a tenant's rule can do to an estate's.
use df_fabric.Prelude.{
  ℕ, ◌<◌, String, List, [], ◌∷◌, Bool, true, false, not, ◌&&◌, ◌||◌, some, ltb, any, all, filter,
  ◌≡◌, ◌↔◌, refl, arith, inl, inr, Bool-cases, sym, ◌∙◌, ap, ◌+◌, all_mono, all-filter,
  all-filter_self, all_of_filter, any-all-not,
}
use df_fabric.Prelude.Dict.{Dict}
use df_fabric.Prelude.Text.{text_asymm, text_between}
use df_fabric.Prelude.Result.{ok}
use df_fabric.Pk.Policy.{
  Rule, PolicyEngine, bundle_staleness_bound, allow, deny, is_deny, specificity, matches, subset,
  before, insert, ordered, verdict_on, evaluate, load,
}

before_asymm : (a b : Rule) → before a b ≡ true → before b a ≡ false
unfolding before
before_asymm a b h = ground (arith, text_asymm a.name b.name)

before_between : (a b c : Rule) → before a c ≡ true → (before a b || before b c) ≡ true
unfolding before
before_between a b c h = ground (arith, text_between a.name b.name c.name)

-- The head of a list that is sorted from `xs`: it is one of `xs`, and none of `xs` comes before it.
abbrev Leads : List Rule → List Rule → Type 0
Leads xs [] = xs ≡ []
Leads xs (h ∷ t) =
    ((p : Rule → Bool) → all p xs ≡ true → p h ≡ true) × (all (λ x. not (before x h)) xs ≡ true)

behind :
    (xs : List Rule) (y x : Rule)
    → before y x ≡ false
    → all (λ z. not (before z y)) xs ≡ true
    → all (λ z. not (before z x)) xs ≡ true
unfolding all
behind [] y x h a = refl
behind (z ∷ xs) y x h a = ground (arith, behind xs y x h, before_between z y x)

insert-Leads : (x : Rule) (xs ys : List Rule) → Leads xs ys → Leads (x ∷ xs) (insert x ys)
unfolding insert all
insert-Leads x xs [] h = rw h (λ p a. ground arith, ground (arith, before_asymm x x))
insert-Leads x xs (y ∷ ys) h = elim (Bool-cases (before y x)) [
  | inl e ↦ rw e (λ p a. ground (arith, h.0 p), ground (arith, before_asymm y x))
  | inr e ↦ rw e (λ p a. ground arith, ground (arith, before_asymm x x, behind xs y x e h.1))
]

ordered-Leads : (xs : List Rule) → Leads xs (ordered xs)
unfolding ordered
ordered-Leads [] = refl
ordered-Leads (x ∷ xs) = insert-Leads x xs (ordered xs) (ordered-Leads xs)

-- A rule that decides for `allow`: it matches and allows, and every rule that matches and denies is
-- less specific.
abbrev pub outranks : Dict String String → List Rule → Rule → Bool
outranks request rules r =
    (matches r request && not (is_deny r.effect))
    && all (λ d. not (matches d request && is_deny d.effect) || ltb (specificity d) (specificity r))
        rules

before_of_specific : (r w : Rule) → ltb (specificity w) (specificity r) ≡ true → before r w ≡ true
unfolding before
before_of_specific r w h = ground arith

module _ (request : Dict String String) (rules : List Rule) (w : Rule)
    (leads : ((p : Rule → Bool) → all p (filter (λ r. matches r request) rules) ≡ true → p w ≡ true)
      × (all (λ x. not (before x w)) (filter (λ r. matches r request) rules) ≡ true)) where
  winner-matches : matches w request ≡ true
  winner-matches = leads.0 (λ r. matches r request) (all-filter_self (λ r. matches r request) rules)

  at_winner : (p : Rule → Bool) → all p rules ≡ true → p w ≡ true
  at_winner p h = leads.0 p (all-filter (λ r. matches r request) p rules h)

  unbeaten : all (λ x. not (matches x request) || not (before x w)) rules ≡ true
  unbeaten = sym (all_of_filter (λ r. matches r request) (λ x. not (before x w)) rules) ∙ leads.1

  winner-outranks : w.effect ≡ allow → outranks request rules w ≡ true
  unfolding before
  winner-outranks a =
      let below =
        all_mono (λ x. not (matches x request) || not (before x w))
          (λ d. not (matches d request && is_deny d.effect) || ltb (specificity d) (specificity w))
          rules (λ d h. ground arith) unbeaten in
      ground (arith, winner-matches)

  denied : w.effect ≡ deny → all (λ r. not (outranks request rules r)) rules ≡ true
  denied d =
      all_mono (λ x. not (matches x request) || not (before x w))
        (λ r. not (outranks request rules r)) rules (λ r h. loses r h) unbeaten
    where
      loses :
          (r : Rule)
          → (not (matches r request) || not (before r w)) ≡ true
          → not (outranks request rules r) ≡ true
      loses r h =
          elim (Bool-cases (
            all
              (λ d.
                not (matches d request && is_deny d.effect) || ltb (specificity d) (specificity r))
              rules)) [
                | inl e ↦ ground (
                  arith,
                  winner-matches,
                  at_winner
                      (λ d.
                        not (matches d request && is_deny d.effect)
                        || ltb (specificity d) (specificity r))
                      e,
                  before_of_specific r w,
                )
                | inr e ↦ ground arith
              ]

-- Where no rule matches, none decides for `allow`.
none-outranks :
    (request : Dict String String) (rules : List Rule)
    → filter (λ r. matches r request) rules ≡ []
    → all (λ r. not (outranks request rules r)) rules ≡ true
unfolding all
none-outranks request rules h =
    all_mono (λ r. not (matches r request) || false) (λ r. not (outranks request rules r)) rules
      (λ r e. ground arith)
      (sym (all_of_filter (λ r. matches r request) (λ r. false) rules) ∙ ap (all (λ r. false)) h)

-- A request is allowed exactly when a rule that matches and allows is more specific than every rule
-- that matches and denies, in whatever order the rules stand; otherwise it is denied, also where no
-- rule matches.
pub evaluate-allow :
    (request : Dict String String) (now : ℕ) (s : PolicyEngine)
    → ((evaluate request now s).effect ≡ allow) ↔ (any (outranks request s.rules) s.rules ≡ true)
unfolding evaluate verdict_on
evaluate-allow request now s =
    go (ordered (filter (λ r. matches r request) s.rules))
      (ordered-Leads (filter (λ r. matches r request) s.rules))
  where
    go :
        (rs : List Rule)
        → Leads (filter (λ r. matches r request) s.rules) rs
        → ((verdict_on
              (filter (λ r. matches r request) s.rules)
              rs
              s.version
              (ltb (s.loaded_at + bundle_staleness_bound) now)).effect
            ≡ allow)
          ↔ (any (outranks request s.rules) s.rules ≡ true)
    go [] h =
        ground
          (arith, none-outranks request s.rules h, any-all-not (outranks request s.rules) s.rules)
    go (w ∷ ws) h = ground (
      arith,
      winner-outranks request s.rules w h,
      denied request s.rules w h,
      at_winner request s.rules w h (λ r. not (outranks request s.rules r)),
      any-all-not (outranks request s.rules) s.rules,
    )

-- A verified bundle of an estate deny and a tenant allow is loaded although the tenant's rule overrides the
-- estate's: where the allow does not name all that the deny matches on and is more specific, every
-- request that both match is allowed.
pub load-overrides_deny :
    (d t : Rule) (version : String) (request : Dict String String) (now : ℕ) (s : PolicyEngine)
    → (d.scope ≡ "estate") × (d.effect ≡ deny)
    → (t.scope ≡ "tenant") × (t.effect ≡ allow)
    → subset d.match t.match ≡ false
    → specificity d < specificity t
    → (matches d request ≡ true) × (matches t request ≡ true)
    → (s' : PolicyEngine) × (load (d ∷ t ∷ []) version (some true) now s ≡ ok (version, s'))
      × ((evaluate request now s').effect ≡ allow)
unfolding load any all
load-overrides_deny d t version request now s de te free more both =
    let s' = record s { rules = d ∷ t ∷ []; version = version; loaded_at = now } in
    (s', ground arith, (evaluate-allow request now s').1 (ground arith))
