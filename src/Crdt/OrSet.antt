-- ===== src/Crdt/OrSet.antt =====
-- `ORSet` of crdt.py: unique add tags, tombstones for removals. `E` is the type of
-- elements up to Python's equality and hash, which `element_of` takes a value to.
pub mod Methods
use df_fabric.Prelude.{
  ℕ, suc, max, String, List, [], ◌∷◌, Bool, true, false, ◌&&◌, not, union, member, any, is_yes,
  string_dec, if◌then◌else◌,
}
use Prim.Native.String.{◌++◌}
use df_fabric.Prelude.{add as set_add}
use df_fabric.Prelude.Text.{str}
use df_fabric.Prelude.Result.{ok, ◌>>=◌, ◌>>◌}
use df_fabric.Payload.{Value}
use df_fabric.Crdt.Error.{Raises}
use df_fabric.Crdt.Quantum.{reject_quantum}

-- an element with one of its add tags
pub record Add (E : Type 0) : Type 0 where
  pub element : E
  pub tag : String

unfoldable pub Add-discrete : {E : Type 0} → Discrete E → Discrete (Add E)
unfolding string_dec
Add-discrete dec = hlevel (dec, string_dec)

pub record OrSet (E : Type 0) : Type 0 where
  pub replica_id : String
  pub adds : List (Add E)
  pub removed_tags : List String
  pub counter : ℕ

module _ {E : Type 0} where
  -- `_tag`: the counter goes up by one, and the tag is "replica:counter"
  unfoldable pub next_tag : OrSet E → String × OrSet E
  next_tag s = (s.replica_id ++ ":" ++ str (suc s.counter), record s { counter = suc s.counter })

  -- `t = tag or self._tag()`; the empty text stands for no tag
  unfoldable pub choose_tag : String → OrSet E → String × OrSet E
  unfolding next_tag
  choose_tag tag s = if is_yes (string_dec tag "") then next_tag s else (tag, s)

module _ {E : Type 0} (dec : Discrete E) where
  -- `[t for e, t in self.adds if e == element]`
  unfoldable pub tags_of : E → List (Add E) → List String
  tags_of e [] = []
  tags_of e (p ∷ ps) =
      let rest = tags_of e ps in if is_yes (dec p.element e) then p.tag ∷ rest else rest

  -- `e == element and t not in self.removed_tags`
  unfoldable pub is_live : E → List String → Add E → Bool
  is_live e removed p = is_yes (dec p.element e) && not (member string_dec removed p.tag)

  unfoldable pub merge : OrSet E → OrSet E → OrSet E
  merge a b = record {
    replica_id = a.replica_id;
    adds = union (Add-discrete dec) a.adds b.adds;
    removed_tags = union string_dec a.removed_tags b.removed_tags;
    counter = max a.counter b.counter;
  }

  -- the two sets that `state()` lists: the tagged elements and the tombstones
  abbrev pub state : OrSet E → (Add E → Bool) × (String → Bool)
  state s = (member (Add-discrete dec) s.adds, member string_dec s.removed_tags)

  module _ (element_of : Value → E) where
    unfoldable pub add : Value → String → OrSet E → Raises (String × OrSet E)
    unfolding choose_tag
    add e tag s = do
      reject_quantum e
      let (t, s') = choose_tag tag s in
          ok (
            t,
            record s' {
              adds =
                  set_add (Add-discrete dec) s'.adds (record { element = element_of e; tag = t });
            },
          )

    -- the tombstones; the sorted list of tags that the call returns is `tags_of`
    unfoldable pub remove : Value → OrSet E → OrSet E
    unfolding tags_of
    remove e s = record s {
      removed_tags = union string_dec s.removed_tags (tags_of (element_of e) s.adds);
    }

    unfoldable pub contains : Value → OrSet E → Bool
    unfolding is_live
    contains e s = any (is_live (element_of e) s.removed_tags) s.adds
