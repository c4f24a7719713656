-- ===== src/Lsm/MemTable/Reads.antt =====
-- The table in memory is a sorted map.
use amind.Prelude.{
  ℕ, ◌<◌, ◌≡◌, refl, true, Option, none, some, List, [], ◌∷◌, arith, ◌==◌, if◌then◌else◌,
}
use amind.Prelude.Map
use amind.Lsm.Entries.{Ascending, AllAbove, AllAbove-le, find-above}
use amind.Lsm.MemTable.{
  MemTable, Node, put, get_raw, remove, flushed_entries, flushed_value, live_value, live_node,
}

AllAbove-put :
    (j key : ℕ) (value : List ℕ) (m : MemTable)
    → j < key
    → AllAbove j m
    → AllAbove j (put key value m)
unfolding put
AllAbove-put j key value [] h a = (h, tt)
AllAbove-put j key value ((k, n) ∷ m) h a = ground (arith, AllAbove-put j key value m h a.1)

pub put-Ascending :
    (key : ℕ) (value : List ℕ) (m : MemTable) → Ascending m → Ascending (put key value m)
unfolding put
put-Ascending key value [] a = (tt, tt)
put-Ascending key value ((k, n) ∷ m) a =
    ground (arith, AllAbove-put k key value m, put-Ascending key value m a.1, AllAbove-le key k m)

AllAbove-remove : (j key : ℕ) (m : MemTable) → AllAbove j m → AllAbove j (remove key m).0
unfolding remove
AllAbove-remove j key [] a = tt
AllAbove-remove j key ((k, n) ∷ m) a = ground (arith, AllAbove-remove j key m a.1)

pub remove-Ascending : (key : ℕ) (m : MemTable) → Ascending m → Ascending (remove key m).0
unfolding remove
remove-Ascending key [] a = tt
remove-Ascending key ((k, n) ∷ m) a =
    ground (arith, AllAbove-remove k key m, remove-Ascending key m a.1)

AllAbove-flushed_entries : (j : ℕ) (m : MemTable) → AllAbove j m → AllAbove j (flushed_entries m)
unfolding flushed_entries
AllAbove-flushed_entries j [] a = tt
AllAbove-flushed_entries j ((k, n) ∷ m) a = (a.0, AllAbove-flushed_entries j m a.1)

pub flushed_entries-Ascending : (m : MemTable) → Ascending m → Ascending (flushed_entries m)
unfolding flushed_entries
flushed_entries-Ascending [] a = tt
flushed_entries-Ascending ((k, n) ∷ m) a =
    (AllAbove-flushed_entries k m a.0, flushed_entries-Ascending m a.1)

-- The node that a key has.
pub get_raw-find :
    (key : ℕ) (m : MemTable)
    → Ascending m
    → get_raw key m ≡ elim (Map.find key m) [ none ↦ none | some n ↦ live_value n ]
unfolding get_raw Map.find
get_raw-find key [] a = refl
get_raw-find key ((k, n) ∷ m) a = ground (arith, get_raw-find key m a.1, find-above key k m)

pub find-put :
    (key j : ℕ) (value : List ℕ) (m : MemTable)
    → Ascending m
    → Map.find j (put key value m) ≡ (if key == j then some (live_node value) else Map.find j m)
unfolding put Map.find
find-put key j value [] a = refl
find-put key j value ((k, n) ∷ m) a = ground (arith, find-put key j value m a.1, find-above j k m)

abbrev pub buried : Option Node → Option Node
buried none = none
buried (some n) = some (record n { is_tombstone = true })

pub find-remove :
    (key j : ℕ) (m : MemTable)
    → Ascending m
    → Map.find j (remove key m).0 ≡ (if key == j then buried (Map.find j m) else Map.find j m)
unfolding remove Map.find
find-remove key j [] a = ground arith
find-remove key j ((k, n) ∷ m) a = ground (arith, find-remove key j m a.1, find-above j k m)

pub find-flushed_entries :
    (key : ℕ) (m : MemTable)
    → Map.find key (flushed_entries m)
      ≡ elim (Map.find key m) [ none ↦ none | some n ↦ some (flushed_value n) ]
unfolding flushed_entries Map.find
find-flushed_entries key [] = refl
find-flushed_entries key ((k, n) ∷ m) = ground (arith, find-flushed_entries key m)
