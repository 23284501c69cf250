-- ===== src/Memory.antt =====
-- The scratch memory of an agent run: WorkingMemory of backend/app/agents/memory.py, and the two
-- tools on it that every agent has, of backend/app/agents/tool_registry.py.
pub mod Snapshot
use Prim.Native.Char.{code}
use kaats_v.Base.{
  ℕ, ◌+◌, Bool, true, false, ◌&&◌, ◌||◌, Option, none, some, List, [], ◌∷◌, ◌++◌, String, ◌==◌,
  if◌then◌else◌, Result, ok, err, attribute_error, type_error,
}
use text.Mathlib.Text.{◌==◌ as str_eq}

-- A value, by the Python types that the code stores. The elements of lists and sets are texts.
pub data Value : Type 0 where
  null : Value
  str : String → Value
  number : ℕ → Value
  items members : List String → Value

-- What Python's dict holds under a key; the entries stand in the order in which their keys came.
pub record Entry : Type 0 where
  pub key : String
  pub value : Value

abbrev pub entry : String → Value → Entry
entry k v = record { key = k; value = v }

pub record WorkingMemory : Type 0 where
  pub store : List Entry

unfoldable pub at_key : List Entry → String → Option Value
at_key [] k = none
at_key (e ∷ es) k = if str_eq e.key k then some e.value else at_key es k

unfoldable pub put_entry : Entry → List Entry → List Entry
put_entry new [] = new ∷ []
put_entry new (e ∷ es) =
    if str_eq e.key new.key then record e { value = new.value } ∷ es else e ∷ put_entry new es

-- `value in collection`
unfoldable pub elem_text : String → List String → Bool
elem_text s [] = false
elem_text s (x ∷ xs) = str_eq x s || elem_text s xs

-- `text.startswith(part)`
unfoldable pub starts_with : String → String → Bool
starts_with String.[] t = true
starts_with (String.◌∷◌ c s) String.[] = false
starts_with (String.◌∷◌ c s) (String.◌∷◌ d t) = (code c == code d) && starts_with s t

-- `part in text`
unfoldable pub is_part : String → String → Bool
is_part s String.[] = starts_with s String.[]
is_part s (String.◌∷◌ d t) = starts_with s (String.◌∷◌ d t) || is_part s t

abbrev pub set : String → Value → WorkingMemory → WorkingMemory
set k v m = record { store = put_entry (entry k v) m.store }

abbrev pub find : String → WorkingMemory → Option Value
find k m = at_key m.store k

abbrev pub appended : String → Option Value → Result Value
appended v none = ok (items (v ∷ []))
appended v (some (items xs)) = ok (items (xs ++ v ∷ []))
appended v (some _) = err attribute_error

-- `set.add`; the order of a set's elements is not observed.
abbrev pub with_member : String → List String → List String
with_member v xs = if elem_text v xs then xs else v ∷ xs

abbrev pub joined : String → Option Value → Result Value
joined v none = ok (members (v ∷ []))
joined v (some (members xs)) = ok (members (with_member v xs))
joined v (some _) = err attribute_error

abbrev pub raised_by : ℕ → Option Value → Result Value
raised_by n none = ok (number n)
raised_by n (some (number m)) = ok (number (m + n))
raised_by n (some _) = err type_error

abbrev pub stored : String → WorkingMemory → Result Value → Result WorkingMemory
stored k m (ok v) = ok (set k v m)
stored k m (err e) = err e

unfoldable pub append : String → String → WorkingMemory → Result WorkingMemory
append k v m = stored k m (appended v (find k m))

unfoldable pub add_to_set : String → String → WorkingMemory → Result WorkingMemory
add_to_set k v m = stored k m (joined v (find k m))

unfoldable pub increment : String → ℕ → WorkingMemory → Result WorkingMemory
increment k n m = stored k m (raised_by n (find k m))

-- `value in self._store.get(key, set())`
abbrev pub held_in : String → Option Value → Result Bool
held_in v none = ok false
held_in v (some null) = err type_error
held_in v (some (str s)) = ok (is_part v s)
held_in v (some (number n)) = err type_error
held_in v (some (items xs)) = ok (elem_text v xs)
held_in v (some (members xs)) = ok (elem_text v xs)

unfoldable pub in_set : String → String → WorkingMemory → Result Bool
in_set k v m = held_in v (find k m)

-- JSON has no sets: a set becomes a list.
abbrev pub listed : Value → Value
listed (members xs) = items xs
listed v = v

unfoldable pub list_all : List Entry → List Entry
list_all [] = []
list_all (e ∷ es) = entry e.key (listed e.value) ∷ list_all es

unfoldable pub snapshot : WorkingMemory → List Entry
snapshot m = list_all m.store

-- `initial or {}`
abbrev pub from_snapshot : List Entry → WorkingMemory
from_snapshot m = record { store = m }

abbrev pub clear : WorkingMemory → WorkingMemory
clear m = record { store = [] }

-- The tool `save_to_memory`: any key, and a text.
abbrev pub save_to_memory : String → String → WorkingMemory → WorkingMemory
save_to_memory k v m = set k (str v) m
