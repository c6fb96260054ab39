-- ===== src/Crdt/Counts/Merge.antt =====
-- The merge of two count dictionaries, key by key, and its laws.
use df_fabric.Prelude.{
  ℕ, max, String, ◌≡◌, refl, sym, ◌∙◌, ap, fun_ext, [], ◌∷◌, Option, none, some, string_dec, arith,
}
use df_fabric.Prelude.Dict.{get, put, get-put, put-IsDict}
use df_fabric.Crdt.Counts.{Counts, count_of, merge_max, IsCounts, view}

-- The maximum of two counts of which either may be missing.
abbrev pub max? : Option ℕ → Option ℕ → Option ℕ
max? none o = o
max? (some m) none = some m
max? (some m) (some n) = some (max m n)

max?_comm : (o p : Option ℕ) → max? o p ≡ max? p o
max?_comm none none = refl
max?_comm none (some n) = refl
max?_comm (some m) none = refl
max?_comm (some m) (some n) = ap some (omega arith)

max?_assoc : (o p q : Option ℕ) → max? (max? o p) q ≡ max? o (max? p q)
max?_assoc none p q = refl
max?_assoc (some m) none q = refl
max?_assoc (some m) (some n) none = refl
max?_assoc (some m) (some n) (some k) = ap some (omega arith)

max?_idem : (o : Option ℕ) → max? o o ≡ o
max?_idem none = refl
max?_idem (some m) = ap some (omega arith)

pub view-merge_max :
    (out e : Counts) (k : String)
    → IsCounts e
    → view (merge_max out e) k ≡ max? (view out k) (view e k)
unfolding merge_max get count_of
view-merge_max out [] k h = ground arith
view-merge_max out ((j, v) ∷ e) k h =
    let w = max (count_of out j) v in
    ground (arith, view-merge_max (put string_dec out j w) e k h.1, get-put string_dec out j k w)

pub merge_max-IsCounts : (out e : Counts) → IsCounts out → IsCounts (merge_max out e)
unfolding merge_max
merge_max-IsCounts out [] h = h
merge_max-IsCounts out ((j, v) ∷ e) h =
    merge_max-IsCounts (put string_dec out j (max (count_of out j) v)) e
      (put-IsDict string_dec out j (max (count_of out j) v) h)

pub merge_max_comm :
    (a b : Counts) → IsCounts a → IsCounts b → view (merge_max a b) ≡ view (merge_max b a)
merge_max_comm a b ha hb =
    fun_ext (λ k.
      view-merge_max a b k hb ∙ max?_comm (view a k) (view b k) ∙ sym (view-merge_max b a k ha))

pub merge_max_assoc :
    (a b c : Counts)
    → IsCounts b
    → IsCounts c
    → view (merge_max (merge_max a b) c) ≡ view (merge_max a (merge_max b c))
merge_max_assoc a b c hb hc = fun_ext (λ k.
    simp
      (
        view-merge_max (merge_max a b) c k hc,
        view-merge_max a b k hb,
        view-merge_max a (merge_max b c) k (merge_max-IsCounts b c hb),
        view-merge_max b c k hc,
      )
      (max?_assoc (view a k) (view b k) (view c k)))

pub merge_max_idem : (a : Counts) → IsCounts a → view (merge_max a a) ≡ view a
merge_max_idem a h = fun_ext (λ k. view-merge_max a a k h ∙ max?_idem _)

pub merge_max_cong :
    (a b c d : Counts)
    → IsCounts b
    → IsCounts d
    → view a ≡ view c
    → view b ≡ view d
    → view (merge_max a b) ≡ view (merge_max c d)
merge_max_cong a b c d hb hd p q = fun_ext (λ k. cc (
  view-merge_max a b k hb,
  view-merge_max c d k hd,
  ap (λ (f : String → Option ℕ). f k) p,
  ap (λ (f : String → Option ℕ). f k) q,
))
