-- ===== src/Memory/Snapshot.antt =====
-- A working memory that is restored from a checkpoint.
use kaats_v.Base.{
  ◌≡◌, refl, inl, inr, Option, none, some, List, [], ◌∷◌, String, arith, if◌then◌else◌, ok, err,
  attribute_error, Bool-cases,
}
use kaats_v.Memory.{
  Value, null, str, number, items, members, WorkingMemory, Entry, at_key, put_entry, find, set,
  held_in, add_to_set, in_set, listed, list_all, snapshot, from_snapshot, with_member,
}
use text.Mathlib.Text.{◌==◌ as str_eq}
use text.Mathlib.TextEquality.{eq_iff}

-- After a write, its key holds the new value and every other key what it held.
pub at_key-put_entry :
    (es : List Entry) (new : Entry) (k : String)
    → at_key (put_entry new es) k ≡ (if str_eq new.key k then some new.value else at_key es k)
unfolding at_key put_entry
at_key-put_entry [] new k = refl
at_key-put_entry (e ∷ es) new k =
    let behind = at_key-put_entry es new k in
    ground (arith, behind, eq_iff new.key k, eq_iff e.key k, eq_iff e.key new.key)

abbrev listed_option : Option Value → Option Value
listed_option none = none
listed_option (some v) = some (listed v)

at_key-list_all :
    (es : List Entry) (k : String) → at_key (list_all es) k ≡ listed_option (at_key es k)
unfolding at_key list_all
at_key-list_all [] k = refl
at_key-list_all (e ∷ es) k = elim (Bool-cases (str_eq e.key k)) [
  | inl q ↦ rw q refl
  | inr q ↦ rw q (at_key-list_all es k)
]

held_in-listed : (v : String) (o : Option Value) → held_in v (listed_option o) ≡ held_in v o
held_in-listed v none = refl
held_in-listed v (some null) = refl
held_in-listed v (some (str s)) = refl
held_in-listed v (some (number n)) = refl
held_in-listed v (some (items xs)) = refl
held_in-listed v (some (members xs)) = refl

-- A memory that is restored from its snapshot answers every membership test as before, but a key
-- that held a set holds a list: adding to it raises AttributeError, where the memory of which the
-- snapshot was taken takes the element.
pub from_snapshot-snapshot :
    (k : String) (xs : List String) (m : WorkingMemory) (j v : String)
    → find k m ≡ some (members xs)
    → let restored = from_snapshot (snapshot m) in
      (in_set j v restored ≡ in_set j v m)
      × (find k restored ≡ some (items xs))
      × (add_to_set k v restored ≡ err attribute_error)
      × (add_to_set k v m ≡ ok (set k (members (with_member v xs)) m))
unfolding in_set snapshot add_to_set
from_snapshot-snapshot k xs m j v h =
    let here = at_key-list_all m.store k in
    let there = at_key-list_all m.store j in
    (
      rw there (held_in-listed v (at_key m.store j)),
      rw here (rw h refl),
      rw here (rw h refl),
      rw h refl,
    )
