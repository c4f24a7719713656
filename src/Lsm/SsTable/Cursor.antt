-- ===== src/Lsm/SsTable/Cursor.antt =====
-- `SSTableCursor` of src/lsm/sstable_reader.cpp: where a walk through a table stands. The indices of
-- the block and of the entry are kept as what is left of the block and of the table.
use amind.Prelude.{
  ◌≡◌, refl, Bool, true, false, ◌&&◌, not, if◌then◌else◌, arith, List, [], ◌∷◌, ◌++◌,
}
use amind.Lsm.Entries.{Entry}
use amind.Lsm.Block.{opens, all_open}
use amind.Lsm.SsTable.{for_each}
use amind.Lsm.SsTable.Index.{AllFilled}

pub data Cursor : Type 0 where
  invalid : Cursor
  at : (current : Entry) (rest : List Entry) (blocks : List (List Entry)) → Cursor

-- `loadCurrentEntry` at the start of a block: an empty block ends the walk.
abbrev pub load_current : List (List Entry) → Cursor
load_current [] = invalid
load_current ([] ∷ blocks) = invalid
load_current ((e ∷ es) ∷ blocks) = at e es blocks

-- The cursor that the merge starts with; a first block that throws is caught, and the table skipped.
abbrev pub start_cursor : List (List Entry) → Cursor
start_cursor [] = invalid
start_cursor (block ∷ blocks) = if opens block then load_current (block ∷ blocks) else invalid

-- Whether a walk from `start_cursor` to the end throws at a later block.
abbrev pub walk_throws : List (List Entry) → Bool
walk_throws [] = false
walk_throws (block ∷ blocks) = opens block && not (all_open blocks)

abbrev pub next : Cursor → Cursor
next invalid = invalid
next (at e (e' ∷ es) blocks) = at e' es blocks
next (at e [] blocks) = load_current blocks

-- What the cursor has still to pass.
abbrev pub remaining : Cursor → List Entry
remaining invalid = []
remaining (at e es blocks) = e ∷ (es ++ for_each blocks)

abbrev pub IsFilled : Cursor → Type 0
IsFilled invalid = Unit {0}
IsFilled (at e es blocks) = AllFilled blocks

pub load_current-IsFilled :
    (blocks : List (List Entry)) → AllFilled blocks → IsFilled (load_current blocks)
load_current-IsFilled [] f = tt
load_current-IsFilled ([] ∷ blocks) f = tt
load_current-IsFilled ((e ∷ es) ∷ blocks) f = f

pub remaining-load_current :
    (blocks : List (List Entry))
    → AllFilled blocks
    → remaining (load_current blocks) ≡ for_each blocks
unfolding for_each
remaining-load_current [] f = refl
remaining-load_current ([] ∷ blocks) f = elim f [ ]
remaining-load_current ((e ∷ es) ∷ blocks) f = refl

pub next-IsFilled : (c : Cursor) → IsFilled c → IsFilled (next c)
next-IsFilled invalid f = tt
next-IsFilled (at e (e' ∷ es) blocks) f = f
next-IsFilled (at e [] blocks) f = load_current-IsFilled blocks f

pub remaining-next :
    (e : Entry) (es : List Entry) (blocks : List (List Entry))
    → AllFilled blocks
    → remaining (next (at e es blocks)) ≡ es ++ for_each blocks
remaining-next e (e' ∷ es) blocks f = refl
remaining-next e [] blocks f = remaining-load_current blocks f

pub start_cursor-load_current :
    (blocks : List (List Entry))
    → all_open blocks ≡ true
    → start_cursor blocks ≡ load_current blocks
start_cursor-load_current [] o = refl
start_cursor-load_current (block ∷ blocks) o =
    let first : opens block ≡ true = ground (arith, o) in rw first refl

pub walk_throws-open :
    (blocks : List (List Entry)) → all_open blocks ≡ true → walk_throws blocks ≡ false
walk_throws-open [] o = refl
walk_throws-open (block ∷ blocks) o = ground (arith, o)
