-- ===== src/Record/Phase.antt =====
-- What the phase transitions do to `isActive` and `isAlive`.
use amind.Prelude.{
  ℕ, ◌+◌, ◌*◌, ◌/◌, ◌%◌, ◌^◌, ◌<◌, ◌≡◌, refl, true, false, List, [], ◌∷◌, arith, bit_and, bit_or,
  ◌==◌,
}
use amind.Prelude.Bits.{and_lowest, and-zero, or-bit3, and-bit3}
use amind.Record.{
  MemoryRecord, is_active, is_alive, mark_versioned, mark_archived, mark_tombstone,
  mark_invalidated, create_new_version,
}

low_bit : (x : ℕ) → bit_and x 1 ≡ x % 2
low_bit x = omega (arith, and_lowest x 1, and-zero (x / 2))

-- The bit with value 8.
fourth_bit : (x : ℕ) → bit_and x 8 ≡ x / 8 % 2 * 8
fourth_bit x =
    omega (
      arith,
      and_lowest x 8,
      and_lowest (x / 2) 4,
      and_lowest (x / 2 / 2) 2,
      low_bit (x / 2 / 2 / 2),
    )

-- No transition but a new version revives a record that carries the flag TOMBSTONE.
data Mark : Type 0 where
  versions archives tombstones invalidates : Mark

unfoldable apply_mark : Mark → MemoryRecord → MemoryRecord
apply_mark versions r = mark_versioned r
apply_mark archives r = mark_archived r
apply_mark tombstones r = mark_tombstone r
apply_mark invalidates r = mark_invalidated r

unfoldable apply_marks : List Mark → MemoryRecord → MemoryRecord
unfolding apply_mark
apply_marks [] r = r
apply_marks (m ∷ ms) r = apply_marks ms (apply_mark m r)

abbrev IsTombstoned : MemoryRecord → Type 0
IsTombstoned r = r.flags / 8 % 2 ≡ 1

tombstone-IsTombstoned : (r : MemoryRecord) → IsTombstoned (mark_tombstone r)
unfolding mark_tombstone
tombstone-IsTombstoned r = omega (arith, or-bit3 (bit_and r.flags 0xfffe) 8)

mark-IsTombstoned : (m : Mark) (r : MemoryRecord) → IsTombstoned r → IsTombstoned (apply_mark m r)
unfolding apply_mark mark_versioned mark_archived mark_invalidated
mark-IsTombstoned versions r h =
    omega (arith, or-bit3 (bit_and r.flags 0xfffe) 2, and-bit3 r.flags 0xfffe)
mark-IsTombstoned archives r h = omega (arith, or-bit3 r.flags 4)
mark-IsTombstoned tombstones r h = tombstone-IsTombstoned r
mark-IsTombstoned invalidates r h =
    omega (arith, or-bit3 (bit_and r.flags 0xfffe) 0x80, and-bit3 r.flags 0xfffe)

marks-IsTombstoned :
    (ms : List Mark) (r : MemoryRecord) → IsTombstoned r → IsTombstoned (apply_marks ms r)
unfolding apply_marks
marks-IsTombstoned [] r h = h
marks-IsTombstoned (m ∷ ms) r h = marks-IsTombstoned ms (apply_mark m r) (mark-IsTombstoned m r h)

not-is_alive : (r : MemoryRecord) → IsTombstoned r → is_alive r ≡ false
unfolding is_alive
not-is_alive r h = ground (arith, fourth_bit r.flags)

-- After `markTombstone` a record is not alive, and no sequence of the four transitions makes it
-- alive again.
is_alive-apply_marks-tombstone :
    (ms : List Mark) (r : MemoryRecord) → is_alive (apply_marks ms (mark_tombstone r)) ≡ false
is_alive-apply_marks-tombstone ms r =
    not-is_alive _ (marks-IsTombstoned ms (mark_tombstone r) (tombstone-IsTombstoned r))

inactive : (m : Mark) (r : MemoryRecord) → is_active (apply_mark m r) ≡ false
unfolding is_active apply_mark mark_versioned mark_archived mark_tombstone mark_invalidated
inactive versions r = refl
inactive archives r = refl
inactive tombstones r = refl
inactive invalidates r = refl

versioned_fourth : (x : ℕ) → bit_and (bit_or (bit_and x 0xfffe) 2) 8 ≡ bit_and x 8
versioned_fourth x = omega (
  arith,
  fourth_bit x,
  fourth_bit (bit_or (bit_and x 0xfffe) 2),
  or-bit3 (bit_and x 0xfffe) 2,
  and-bit3 x 0xfffe,
)

archived_fourth : (x : ℕ) → bit_and (bit_or x 4) 8 ≡ bit_and x 8
archived_fourth x = omega (arith, fourth_bit x, fourth_bit (bit_or x 4), or-bit3 x 4)

-- Each of the four transitions makes a record inactive; an invalidated record is not alive, and
-- a versioned or archived record is alive exactly if it carries no flag TOMBSTONE.
marks-activity :
    (m : Mark) (r : MemoryRecord)
    → (is_active (apply_mark m r) ≡ false)
      × (is_alive (mark_invalidated r) ≡ false)
      × (is_alive (mark_versioned r) ≡ (bit_and r.flags 8 == 0))
      × (is_alive (mark_archived r) ≡ (bit_and r.flags 8 == 0))
unfolding is_alive mark_versioned mark_archived mark_invalidated
marks-activity m r = (
  inactive m r,
  ground arith,
  rw (versioned_fourth r.flags) (ground arith),
  rw (archived_fourth r.flags) (ground arith),
)

-- A new version, while the count of versions fits 32 bits, is active and alive, points back at the record it was made from, counts one
-- version more, and keeps the content, the owner and the lineage.
create_new_version-links :
    (now new_id : ℕ) (r : MemoryRecord)
    → r.mem_version + 1 < 2 ^ 32
    → let q = create_new_version now r new_id in
      (is_active q ≡ true)
      × (is_alive q ≡ true)
      × (q.memory_id ≡ new_id)
      × (q.parent_id ≡ r.memory_id)
      × (q.mem_version ≡ r.mem_version + 1)
      × (q.content ≡ r.content)
      × (q.user_id ≡ r.user_id)
      × (q.agent_id ≡ r.agent_id)
      × (q.lineage_parents ≡ r.lineage_parents)
unfolding create_new_version is_active is_alive
create_new_version-links now new_id r h =
    (refl, refl, refl, refl, omega arith, refl, refl, refl, refl)
