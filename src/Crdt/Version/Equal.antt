-- ===== src/Crdt/Version/Equal.antt =====
-- `compare` of two vectors and its mirror image.
use df_fabric.Prelude.{
  ℕ, suc, String, [], ◌∷◌, true, ◌≡◌, ◌↔◌, refl, sym, ap, fun_ext, none, some, all, length, arith,
  Bool-eq, ◌∙◌,
}
use df_fabric.Prelude.Dict.{get}
use df_fabric.Crdt.Counts.{Counts, IsCounts, view}
use df_fabric.Crdt.Counts.Total.{remove, get-remove, remove-IsCounts}
use df_fabric.Crdt.Version.{
  VersionVector, same_versions, has_entry, compare, Causality, equal, is_dominating, is_dominated,
  is_concurrent, Option,
}
use df_fabric.Crdt.Version.Order.{dominates-order}

length-remove :
    (k : String) (d : Counts) (v : ℕ) → view d k ≡ some v → length d ≡ suc (length (remove k d))
unfolding remove get
length-remove k [] v h = cc
length-remove k ((j, w) ∷ d) v h = ground (arith, length-remove k d v)

-- Entries of `d`, none of which has the key `k`, stand in `e` without `k` if they stand in `e`.
all-remove :
    (k : String) (d e : Counts)
    → IsCounts e
    → view d k ≡ none
    → all (has_entry e) d ≡ true
    → all (has_entry (remove k e)) d ≡ true
unfolding all get has_entry
all-remove k [] e he a h = refl
all-remove k ((j, v) ∷ d) e he a h = ground (arith, get-remove k j e he, all-remove k d e he)

same→view :
    (d e : Counts)
    → IsCounts d
    → IsCounts e
    → length d ≡ length e
    → all (has_entry e) d ≡ true
    → (k : String) → view d k ≡ view e k
unfolding all get has_entry
same→view [] [] hd he l h k = refl
same→view [] (x ∷ e) hd he l h k = absurd (omega arith)
same→view ((j, v) ∷ d) e hd he l h k =
    let here : view e j ≡ some v = ground arith in
    ground (
      arith,
      length-remove j e v here,
      get-remove j k e he,
      same→view d (remove j e) hd.1 (remove-IsCounts j e he)
          (omega (arith, length-remove j e v here)) (all-remove j d e he hd.0 (ground arith)) k,
    )

-- The same counts under the same keys: as many entries.
view→length :
    (d e : Counts)
    → IsCounts d
    → IsCounts e
    → ((k : String) → view d k ≡ view e k)
    → length d ≡ length e
unfolding get
view→length [] [] hd he p = refl
view→length [] ((j, v) ∷ e) hd he p = absurd (ground (arith, p j))
view→length ((j, v) ∷ d) e hd he p =
    let here : view e j ≡ some v = ground (arith, p j) in
    let rest : length d ≡ length (remove j e) =
      view→length d (remove j e) hd.1 (remove-IsCounts j e he)
        (λ k. ground (arith, p k, get-remove j k e he)) in
    omega (arith, length-remove j e v here)

view→all :
    (d e : Counts)
    → IsCounts d
    → ((k : String) (v : ℕ) → view d k ≡ some v → view e k ≡ some v)
    → all (has_entry e) d ≡ true
unfolding all get has_entry
view→all [] e hd p = refl
view→all ((j, v) ∷ d) e hd p =
    ground (arith, p j v, view→all d e hd.1 (λ k w q. p k w (ground arith)))

-- Two dictionaries are equal to Python exactly when they show the same counts.
pub same_versions_iff :
    (d e : Counts) → IsCounts d → IsCounts e → (same_versions d e ≡ true) ↔ (view d ≡ view e)
unfolding same_versions
same_versions_iff d e hd he = (
  λ h. fun_ext (same→view d e hd he (ground arith) (ground arith)),
  λ p.
      let q : (k : String) → view d k ≡ view e k = λ k. ap (λ (f : String → Option ℕ). f k) p in
      ground (arith, view→length d e hd he q, view→all d e hd (λ k v h. sym (q k) ∙ h)),
)

abbrev pub mirror : Causality → Causality
mirror equal = equal
mirror is_dominating = is_dominated
mirror is_dominated = is_dominating
mirror is_concurrent = is_concurrent

-- On vectors whose dictionaries have no key twice, the answer to `b.compare(a)` is the mirror image
-- of that to `a.compare(b)`, and EQUAL means that both show the same counts.
pub compare-mirror :
    (a b : VersionVector)
    → IsCounts a.versions
    → IsCounts b.versions
    → (compare b a ≡ mirror (compare a b))
      × ((compare a b ≡ equal) ↔ (view a.versions ≡ view b.versions))
unfolding compare
compare-mirror a b ha hb =
    let same : same_versions b.versions a.versions ≡ same_versions a.versions b.versions =
      Bool-eq (same_versions b.versions a.versions) (same_versions a.versions b.versions)
        (λ h.
          (same_versions_iff a.versions b.versions ha hb).1
            (sym ((same_versions_iff b.versions a.versions hb ha).0 h)))
        (λ h.
          (same_versions_iff b.versions a.versions hb ha).1
            (sym ((same_versions_iff a.versions b.versions ha hb).0 h))) in
    (
      ground (arith, (dominates-order a b a).1, (dominates-order b a b).1),
      (
        λ h. (same_versions_iff a.versions b.versions ha hb).0 (ground arith),
        λ h. rw ((same_versions_iff a.versions b.versions ha hb).1 h),
      ),
    )
