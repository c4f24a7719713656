-- ===== src/Lsm/MemTable.antt =====
-- src/lsm/memtable.cpp, over the bottom chain of the skip list of src/lsm/skip_list.h: the nodes in
-- the order of their keys. The upper levels, which only shorten the way to a node, and the estimate
-- of the memory in use are left out.
pub mod Reads
use amind.Prelude.{
  ℕ, Bool, true, false, Option, none, some, List, [], ◌∷◌, ltb, ◌==◌, if◌then◌else◌, length,
}
use amind.Lsm.Entries.{Entry}

pub record Node : Type 0 where
  pub value : List ℕ
  pub is_tombstone : Bool

abbrev pub MemTable : Type 0
MemTable = List (ℕ × Node)

abbrev pub live_node : List ℕ → Node
live_node value = record { value = value; is_tombstone = false }

-- `SkipList::put`: past the smaller keys, then a new value for the node, or a new node.
unfoldable pub put : (key : ℕ) (value : List ℕ) → MemTable → MemTable
put key value [] = (key, live_node value) ∷ []
put key value ((k, n) ∷ m) =
    if ltb k key
    then (k, n) ∷ put key value m
    else (if k == key then (k, live_node value) ∷ m else (key, live_node value) ∷ (k, n) ∷ m)

abbrev pub live_value : Node → Option (List ℕ)
live_value n = if n.is_tombstone then none else some n.value

-- `SkipList::get`
unfoldable pub get_raw : ℕ → MemTable → Option (List ℕ)
get_raw key [] = none
get_raw key ((k, n) ∷ m) =
    if ltb k key then get_raw key m else (if k == key then live_value n else none)

-- `SkipList::remove`: whether the key was there.
unfoldable pub remove : ℕ → MemTable → MemTable × Bool
remove key [] = ([], false)
remove key ((k, n) ∷ m) =
    let rest = remove key m in
    if ltb k key
    then ((k, n) ∷ rest.0, rest.1)
    else (if k == key
        then ((k, record n { is_tombstone = true }) ∷ m, true)
        else ((k, n) ∷ m, false))

-- What a flush writes for a node.
abbrev pub flushed_value : Node → List ℕ
flushed_value n = if n.is_tombstone then [] else n.value

unfoldable pub flushed_entries : MemTable → List Entry
flushed_entries [] = []
flushed_entries ((k, n) ∷ m) = (k, flushed_value n) ∷ flushed_entries m
