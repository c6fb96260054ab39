-- ===== src/Crdt/GSet/Methods.antt =====
-- The merge laws of `GSet`, and its elements after an `add` and a `merge`.
use df_fabric.Prelude.{
  true, false, ◌||◌, ◌≡◌, refl, is_yes, union_comm, union_assoc, union_idem, union_cong, member-add,
}
use df_fabric.Prelude.Result.{ok, err}
use df_fabric.Payload.{Value}
use df_fabric.Crdt.Error.{quantum_replication_rejected}
use df_fabric.Crdt.Quantum.{reject_quantum, is_quantum_value}
use df_fabric.Crdt.Laws.{MergeLaws}
use df_fabric.Crdt.GSet.{GSet, add, contains, merge, state, set_add}

module _ {E : Type 0} (dec : Discrete E) where
  abbrev pub IsValid : GSet E → Type 0
  IsValid s = Unit

  -- merge is commutative, associative and idempotent in the set that `state()` lists, on all sets.
  pub g_set-MergeLaws : MergeLaws IsValid (λ a b. ok (merge dec a b)) (merge dec) (state dec)
  unfolding merge
  g_set-MergeLaws = record {
    merges = λ a b _ _. refl;
    closed = λ a b _ _. tt;
    comm = λ a b _ _. union_comm dec a.elements b.elements;
    assoc = λ a b c _ _ _. union_assoc dec a.elements b.elements c.elements;
    idem = λ a _. union_idem dec a.elements;
    cong = λ a b c d _ _ _ _. union_cong dec a.elements b.elements c.elements d.elements;
  }

  -- A quantum value is refused; any other is added, and the set then has it and what it had before.
  pub add_lem :
      (element_of : Value → E) (e : Value) (s : GSet E)
      → (is_quantum_value e ≡ true → add dec element_of e s ≡ err quantum_replication_rejected)
        × (is_quantum_value e ≡ false
            → (s' : GSet E) × (add dec element_of e s ≡ ok s')
              × ((x : Value)
                  → contains dec element_of x s'
                    ≡ (is_yes (dec (element_of e) (element_of x)) || contains dec element_of x s)))
  unfolding add contains reject_quantum
  add_lem element_of e s = (
    λ h. rw h,
    λ h. (
      record s { elements = set_add dec s.elements (element_of e) },
      rw h,
      λ x. member-add dec s.elements (element_of e) (element_of x),
    ),
  )
