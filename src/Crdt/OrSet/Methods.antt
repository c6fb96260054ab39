-- ===== src/Crdt/OrSet/Methods.antt =====
-- The merge laws of `ORSet`, and when it contains an element.
use df_fabric.Prelude.{
  String, List, [], ◌∷◌, Bool, true, false, ◌||◌, ◌≡◌, ◌≢◌, ◌↔◌, refl, ap, ap₂, arith, member,
  string_dec, Bool-eq, Bool-false, any_of_member, member_of_any, union_comm, sym, union_assoc, ◌∙◌,
  union_idem, union_cong, member-add, member-union,
}
use df_fabric.Prelude.{add as set_add}
use df_fabric.Prelude.Result.{ok}
use df_fabric.Payload.{Value}
use df_fabric.Crdt.Quantum.{reject_quantum, is_quantum_value}
use df_fabric.Crdt.Laws.{MergeLaws}
use df_fabric.Crdt.OrSet.{
  OrSet, Add, Add-discrete, add, remove, tags_of, is_live, contains, merge, state, choose_tag, any,
}

abbrev pair : {A B : Type 0} → A → B → A × B
pair a b = (a, b)

module _ {E : Type 0} (dec : Discrete E) where
  abbrev pub IsValid : OrSet E → Type 0
  IsValid s = Unit

  -- merge is commutative, associative and idempotent in the two sets that `state()` lists, the tagged
  -- elements and the tombstones, on all sets and for any decidable equality of elements.
  pub or_set-MergeLaws : MergeLaws IsValid (λ a b. ok (merge dec a b)) (merge dec) (state dec)
  unfolding merge
  or_set-MergeLaws = record {
    merges = λ a b _ _. refl;
    closed = λ a b _ _. tt;
    comm = λ a b _ _.
        ap₂ pair (union_comm (Add-discrete dec) a.adds b.adds)
          (union_comm string_dec a.removed_tags b.removed_tags);
    assoc = λ a b c _ _ _.
        ap₂ pair (union_assoc (Add-discrete dec) a.adds b.adds c.adds)
          (union_assoc string_dec a.removed_tags b.removed_tags c.removed_tags);
    idem = λ a _.
        ap₂ pair (union_idem (Add-discrete dec) a.adds) (union_idem string_dec a.removed_tags);
    cong = λ a b c d _ _ _ _ p q.
        ap₂ pair
          (union_cong (Add-discrete dec) a.adds b.adds c.adds d.adds (ap (λ s. s.0) p)
            (ap (λ s. s.0) q))
          (union_cong string_dec a.removed_tags b.removed_tags c.removed_tags d.removed_tags
            (ap (λ s. s.1) p) (ap (λ s. s.1) q));
  }

  -- the set has the add tag of the element
  abbrev pub has : E → String → OrSet E → Bool
  has e t s = member (Add-discrete dec) s.adds (record { element = e; tag = t })

  -- An add tag of the element has no tombstone.
  abbrev pub HasLiveTag : E → OrSet E → Type 0
  HasLiveTag e s = (t : String) × (has e t s ≡ true) × (member string_dec s.removed_tags t ≡ false)

  live_iff :
      (e : E) (removed : List String) (p : Add E)
      → (is_live dec e removed p ≡ true)
        ↔ ((p.element ≡ e) × (member string_dec removed p.tag ≡ false))
  unfolding is_live
  live_iff e removed p = ground arith

  member-tags_of :
      (e : E) (t : String) (ps : List (Add E))
      → member string_dec (tags_of dec e ps) t
        ≡ member (Add-discrete dec) ps (record { element = e; tag = t })
  unfolding tags_of member
  member-tags_of e t [] = refl
  member-tags_of e t (p ∷ ps) = ground (arith, member-tags_of e t ps)

  module _ (element_of : Value → E) where
    -- An element is contained exactly when one of its add tags has no tombstone.
    pub contains_iff :
        (e : Value) (s : OrSet E)
        → (contains dec element_of e s ≡ true) ↔ HasLiveTag (element_of e) s
    unfolding contains
    contains_iff e s = (forth, back)
      where
        forth :
            any (is_live dec (element_of e) s.removed_tags) s.adds ≡ true
            → HasLiveTag (element_of e) s
        forth h =
            let (p, m, l) =
              member_of_any (Add-discrete dec) (is_live dec (element_of e) s.removed_tags) s.adds
                h in
            let (q, r) = (live_iff (element_of e) s.removed_tags p).0 l in
            (p.tag, ap (λ (x : E). has x p.tag s) (sym q) ∙ m, r)

        back :
            HasLiveTag (element_of e) s
            → any (is_live dec (element_of e) s.removed_tags) s.adds ≡ true
        back (t, m, r) =
            any_of_member (Add-discrete dec) (is_live dec (element_of e) s.removed_tags) s.adds
              (record { element = element_of e; tag = t }) m
              ((live_iff (element_of e) s.removed_tags
                  (record { element = element_of e; tag = t })).1
                (refl, r))

    removed-remove :
        (e : Value) (s : OrSet E) (t : String)
        → member string_dec (remove dec element_of e s).removed_tags t
          ≡ (member string_dec s.removed_tags t || has (element_of e) t s)
    unfolding remove
    removed-remove e s t =
        member-union string_dec s.removed_tags (tags_of dec (element_of e) s.adds) t
        ∙ ap (λ (b : Bool). member string_dec s.removed_tags t || b)
            (member-tags_of (element_of e) t s.adds)

    adds-remove : (e : Value) (s : OrSet E) → (remove dec element_of e s).adds ≡ s.adds
    unfolding remove
    adds-remove e s = refl

    -- After a removal the element is gone, and any other element that shares no tag with it is
    -- contained exactly if it was before.
    pub contains-remove :
        (e : Value) (s : OrSet E)
        → (contains dec element_of e (remove dec element_of e s) ≡ false)
          × ((x : Value)
              → ((t : String) → has (element_of x) t s ≡ true → has (element_of e) t s ≡ false)
              → contains dec element_of x (remove dec element_of e s) ≡ contains dec element_of x s)
    contains-remove e s =
        (Bool-false (contains dec element_of e (remove dec element_of e s)) gone, kept)
      where
        gone : contains dec element_of e (remove dec element_of e s) ≡ true → ⊥
        gone h =
            let (t, m, r) = (contains_iff e (remove dec element_of e s)).0 h in
            ground (arith, removed-remove e s t, adds-remove e s)

        kept :
            (x : Value)
            → ((t : String) → has (element_of x) t s ≡ true → has (element_of e) t s ≡ false)
            → contains dec element_of x (remove dec element_of e s) ≡ contains dec element_of x s
        kept x apart =
            Bool-eq (contains dec element_of x (remove dec element_of e s))
              (contains dec element_of x s)
              (λ h.
                let (t, m, r) = (contains_iff x (remove dec element_of e s)).0 h in
                (contains_iff x s).1 (t, rw adds-remove at m, ground (arith, removed-remove e s t)))
              (λ h.
                let (t, m, r) = (contains_iff x s).0 h in
                (contains_iff x (remove dec element_of e s)).1
                  (t, rw adds-remove m, ground (arith, removed-remove e s t, apart t)))

    contains-merge_live :
        (e : Value) (t : String) (a b : OrSet E)
        → (has (element_of e) t a || has (element_of e) t b) ≡ true
        → member string_dec a.removed_tags t ≡ false
        → member string_dec b.removed_tags t ≡ false
        → contains dec element_of e (merge dec a b) ≡ true
    unfolding merge
    contains-merge_live e t a b m ra rb = (contains_iff e (merge dec a b)).1 (
      t,
      member-union (Add-discrete dec) a.adds b.adds (record { element = element_of e; tag = t })
          ∙ m,
      ground (arith, member-union string_dec a.removed_tags b.removed_tags t),
    )

    -- An addition of a value that is not quantum, under a non-empty tag that neither replica has
    -- tombstoned and that the remover has not seen with the element, survives the merge with a
    -- replica that removes the element at the same time: the removal reaches only the tags that it
    -- has seen.
    pub add-survives-remove :
        (e : Value) (t : String) (a b : OrSet E)
        → is_quantum_value e ≡ false
        → t ≢ ""
        → member string_dec a.removed_tags t ≡ false
        → member string_dec b.removed_tags t ≡ false
        → has (element_of e) t a ≡ false
        → (b' : OrSet E) × (add dec element_of e t b ≡ ok (t, b'))
          × (contains dec element_of e (merge dec (remove dec element_of e a) b') ≡ true)
          × (contains dec element_of e (merge dec b' (remove dec element_of e a)) ≡ true)
    unfolding add choose_tag reject_quantum
    add-survives-remove e t a b q named ra rb seen =
        let p : Add E = record { element = element_of e; tag = t } in
        let b' : OrSet E = record b { adds = set_add (Add-discrete dec) b.adds p } in
        let here : member (Add-discrete dec) b'.adds p ≡ true =
          ground (arith, member-add (Add-discrete dec) b.adds p p) in
        let gone : member string_dec (remove dec element_of e a).removed_tags t ≡ false =
          ground (arith, removed-remove e a t) in
        (
          b',
          ground arith,
          contains-merge_live e t (remove dec element_of e a) b' (ground arith) gone rb,
          contains-merge_live e t b' (remove dec element_of e a) (ground arith) rb gone,
        )
